-- ===== src/Capability.antt =====
-- What a recipient can act on (src/capability.rs): capability models, the flags that a handoff gets for
-- them, and the check of the flags.
pub mod Notes
pub mod Flags
use contextmesh_rs.Event.Body.{IdKind, event_id, context_id, author_id, event_signature, receipt_id}
use contextmesh_rs.Common.{
  ℕ, zero, suc, ◌+◌, ◌-◌, ◌/◌, Bool, true, false, not, ◌&&◌, ◌||◌, Option, none, some, List, [],
  ◌∷◌, ◌++◌, map, arith, Bytes, bytes_eq, bytes_lt, codes, ◌==◌, ltb, leb, if◌then◌else◌, length,
  get_elem?, is_empty, any, Result, ok, err, ◌>>=◌, ◌>>◌, refuse, map_err,
}
use contextmesh_rs.Event.Body.{SignedEvent, Libraries}
use contextmesh_rs.Store.State.{StoreError, StoreResult, Db}
use contextmesh_rs.Store.Rows.{event}
use contextmesh_rs.Selection.Sources.{SourceReference}
use contextmesh_rs.Closure.Select.{sort_kinds, dedup_kinds}
use contextmesh_rs.Receipt.{starts_with}
use contextmesh_rs.Handoff.{
  Handoff, HandoffError, OmissionReason, Omission, with_uncertainty, capability_mismatch,
}

abbrev pub max_capabilities : ℕ
max_capabilities = 64

abbrev pub max_capability_kinds : ℕ
max_capability_kinds = 64

abbrev pub max_capability_text_bytes : ℕ
max_capability_text_bytes = 128

abbrev pub max_mismatch_note_bytes : ℕ
max_mismatch_note_bytes = 1024

pub data CapabilityError : Type 0 where
  store : StoreError → CapabilityError
  handoff : HandoffError → CapabilityError
  invalid_state note_too_long internal : CapabilityError
  drifted : ℕ → CapabilityError
  dishonest_flag unflagged_mismatch : (event : ℕ) (kind : Bytes) → CapabilityError

abbrev pub CapabilityResult : Type 0 → Type 0
CapabilityResult = Result CapabilityError

pub record Capability : Type 0 where
  pub name : Bytes
  pub kinds : List Bytes

pub record RecipientCapabilities : Type 0 where
  pub recipient : ℕ
  pub version : ℕ
  pub capabilities : List Capability

pub record CapabilityMismatch : Type 0 where
  pub event : ℕ
  pub kind : Bytes

pub record CapabilityReport : Type 0 where
  pub mismatches : List CapabilityMismatch
  pub flagged : Bool

pub record ShapedHandoff : Type 0 where
  pub handoff : Handoff
  pub report : CapabilityReport

pub record CapabilityVerification : Type 0 where
  pub valid : Bool
  pub checked : ℕ
  pub mismatches : List CapabilityMismatch

-- An empty text, or one over the bound of names and kinds.
abbrev pub ill_sized : Bytes → Bool
ill_sized t = is_empty t || ltb max_capability_text_bytes (length t)

-- `Capability::new`
unfoldable pub new_capability : Bytes → List Bytes → CapabilityResult Capability
new_capability name kinds = do
  refuse (ill_sized name) invalid_state
  refuse (is_empty kinds || ltb max_capability_kinds (length kinds)) invalid_state
  refuse (any ill_sized kinds) invalid_state
  let made : Capability = record { name = name; kinds = dedup_kinds (sort_kinds kinds) }
  ok made

-- The loop of the standard library's `binary_search`, on texts, with the length as fuel.
unfoldable pub narrow_texts : ℕ → List Bytes → Bytes → ℕ → ℕ → ℕ
narrow_texts zero xs a base size = base
narrow_texts (suc fuel) xs a base size =
    let half = size / 2 in
    let left = narrow_texts fuel xs a base (size - half) in
    let right = narrow_texts fuel xs a (base + half) (size - half) in
    if leb size 1 then base else elim (get_elem? xs (base + half)) [
      | none ↦ left
      | some x ↦ if bytes_lt a x then left else right
    ]

unfoldable pub search_texts : List Bytes → Bytes → Bool
unfolding narrow_texts
search_texts xs a = elim (get_elem? xs (narrow_texts (length xs) xs a 0 (length xs))) [
  | none ↦ false
  | some x ↦ bytes_eq x a
]

-- `RecipientCapabilities::covers`, over `Capability::covers`
unfoldable pub covers : RecipientCapabilities → Bytes → Bool
unfolding search_texts
covers caps kind = any (λ (c : Capability). search_texts c.kinds kind) caps.capabilities

-- `sort_by` on names, which keeps the order of equal ones.
unfoldable pub insert_capability : Capability → List Capability → List Capability
insert_capability c [] = c ∷ []
insert_capability c (d ∷ ds) =
    let rest = insert_capability c ds in if bytes_lt d.name c.name then d ∷ rest else c ∷ d ∷ ds

unfoldable pub sort_capabilities : List Capability → List Capability
unfolding insert_capability
sort_capabilities [] = []
sort_capabilities (c ∷ cs) = insert_capability c (sort_capabilities cs)

-- The loop over `windows(2)`.
unfoldable pub repeats_name : List Capability → Bool
repeats_name [] = false
repeats_name (c ∷ []) = false
repeats_name (c ∷ d ∷ ds) = bytes_eq c.name d.name || repeats_name (d ∷ ds)

-- `RecipientCapabilities::new`
unfoldable pub new_capabilities : ℕ → ℕ → List Capability → CapabilityResult RecipientCapabilities
unfolding sort_capabilities repeats_name
new_capabilities recipient version capabilities = do
  refuse (ltb max_capabilities (length capabilities)) invalid_state
  let sorted = sort_capabilities capabilities
  refuse (repeats_name sorted) invalid_state
  let made : RecipientCapabilities = record {
    recipient = recipient;
    version = version;
    capabilities = sorted;
  }
  ok made

-- `sort_by_key` on events, which keeps the order of equal ones.
unfoldable pub insert_mismatch :
    CapabilityMismatch → List CapabilityMismatch → List CapabilityMismatch
insert_mismatch a [] = a ∷ []
insert_mismatch a (b ∷ bs) =
    let rest = insert_mismatch a bs in if leb a.event b.event then a ∷ b ∷ bs else b ∷ rest

unfoldable pub sort_mismatches : List CapabilityMismatch → List CapabilityMismatch
unfolding insert_mismatch
sort_mismatches [] = []
sort_mismatches (a ∷ bs) = insert_mismatch a (sort_mismatches bs)

abbrev pub mismatch : SourceReference → CapabilityMismatch
mismatch r = record { event = r.event; kind = r.kind }

-- `text.contains(part)`
unfoldable pub has_text : Bytes → Bytes → Bool
unfolding starts_with
has_text [] part = starts_with part []
has_text (b ∷ s) part = let rest = has_text s part in starts_with part (b ∷ s) || rest

module _ (lib : Libraries) where
  abbrev pub mismatch_note : SourceReference → Bytes
  mismatch_note r =
      codes "capability mismatch: event "
      ++ (lib.id_text event_id r.event ++ (codes " kind " ++ r.kind))

  -- The loop of `shape_handoff`.
  unfoldable pub shape :
      RecipientCapabilities
      → List SourceReference
      → Handoff
      → List CapabilityMismatch
      → CapabilityResult (Handoff × List CapabilityMismatch)
  shape caps [] h mismatches = ok (h, mismatches)
  shape caps (r ∷ rs) h mismatches =
      let rest = shape caps rs h mismatches in
      if covers caps r.kind then rest else (do
        refuse (ltb max_mismatch_note_bytes (length (mismatch_note r))) note_too_long
        next ← map_err handoff (with_uncertainty h (mismatch_note r))
        shape caps rs next (mismatches ++ (mismatch r ∷ [])))

  unfoldable pub shape_handoff : Handoff → RecipientCapabilities → CapabilityResult ShapedHandoff
  unfolding shape
  shape_handoff h caps = do
    (shaped, mismatches) ← shape caps h.delta.references h []
    let report : CapabilityReport = record {
      mismatches = sort_mismatches mismatches;
      flagged = not (is_empty mismatches);
    }
    let made : ShapedHandoff = record { handoff = shaped; report = report }
    ok made

  -- The body of the loop over the omissions, for one of a mismatch.
  unfoldable pub check_omission :
      RecipientCapabilities → ℕ → StoreResult (Option SignedEvent) → CapabilityResult (Unit {0})
  check_omission caps id (ok (some e)) =
      refuse (covers caps e.body.kind) (dishonest_flag id e.body.kind)
  check_omission caps id (ok none) = err (drifted id)
  check_omission caps id (err x) = err (store x)

  abbrev pub of_mismatch : OmissionReason → Bool
  of_mismatch capability_mismatch = true
  of_mismatch _ = false

  unfoldable pub check_omissions :
      Db → RecipientCapabilities → List Omission → ℕ → CapabilityResult ℕ
  unfolding check_omission
  check_omissions db caps [] checked = ok checked
  check_omissions db caps (o ∷ os) checked =
      let skipped = check_omissions db caps os checked in
      let rest = check_omissions db caps os (checked + 1) in
      if of_mismatch o.reason
      then (do check_omission caps o.event (event lib db o.event); rest)
      else skipped

  -- A note of the list flags the event.
  unfoldable pub flags : List Bytes → ℕ → Bool
  unfolding has_text
  flags notes id =
      any
        (λ note.
          starts_with (codes "capability mismatch:") note
          && has_text note (lib.id_text event_id id))
        notes

  -- The loop over the references.
  unfoldable pub check_references :
      RecipientCapabilities
      → List Bytes
      → List SourceReference
      → ℕ
      → List CapabilityMismatch
      → CapabilityResult (ℕ × List CapabilityMismatch)
  unfolding flags
  check_references caps notes [] checked mismatches = ok (checked, mismatches)
  check_references caps notes (r ∷ rs) checked mismatches =
      let covered = check_references caps notes rs (checked + 1) mismatches in
      let rest = check_references caps notes rs (checked + 1) (mismatches ++ (mismatch r ∷ [])) in
      if covers caps r.kind
      then covered
      else (do refuse (not (flags notes r.event)) (unflagged_mismatch r.event r.kind); rest)

  unfoldable pub verify_handoff :
      Db → Handoff → RecipientCapabilities → CapabilityResult CapabilityVerification
  unfolding check_omissions check_references
  verify_handoff db h caps = do
    flagged ← check_omissions db caps h.omissions 0
    (checked, mismatches) ← check_references caps h.uncertainty h.delta.references flagged []
    let made : CapabilityVerification = record {
      valid = true;
      checked = checked;
      mismatches = sort_mismatches mismatches;
    }
    ok made
