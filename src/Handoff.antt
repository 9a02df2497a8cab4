-- ===== src/Handoff.antt =====
-- Handoffs (src/handoff.rs): a delta bound to the head of its recipient, its omissions and notes, and the
-- negotiation over an omission.
pub mod Valid
pub mod FollowUp
use contextmesh_rs.Common.{
  ℕ, ◌≡◌, Bool, true, false, not, ◌&&◌, ◌||◌, Option, none, some, List, [], ◌∷◌, ◌++◌, map, arith,
  Bytes, ◌==◌, ltb, leb, if◌then◌else◌, length, is_empty, any, keep, sort, Result, ok, err, ◌>>=◌,
  ◌>>◌, refuse, map_err,
}
use contextmesh_rs.Event.Body.{SignedEvent, Libraries}
use contextmesh_rs.Store.State.{StoreError, StoreResult, Db}
use contextmesh_rs.Store.Rows.{event}
use contextmesh_rs.Closure.Select.{ClosedSelection, binary_search, sort_kinds, dedup_kinds}
use contextmesh_rs.Delta.{RecipientState, DeltaError}
use contextmesh_rs.Delta.Compute.{Delta, compute_delta, reference_events}

abbrev pub max_omissions : ℕ
max_omissions = 4096

abbrev pub max_uncertainty_notes : ℕ
max_uncertainty_notes = 64

abbrev pub max_note_bytes : ℕ
max_note_bytes = 1024

pub data HandoffError : Type 0 where
  stale : (computed current : Option ℕ) → HandoffError
  unknown_recipient_head wrong_context unknown_omission : ℕ → HandoffError
  invalid_state internal : HandoffError
  store : StoreError → HandoffError
  delta : DeltaError → HandoffError

abbrev pub HandoffResult : Type 0 → Type 0
HandoffResult = Result HandoffError

pub data OmissionReason : Type 0 where
  not_selected deliberate capability_mismatch : OmissionReason

pub record Omission : Type 0 where
  pub event : ℕ
  pub reason : OmissionReason

pub record OmissionChallenge : Type 0 where
  pub event : ℕ
  pub note : Bytes

pub record ReIncluded : Type 0 where
  pub event : ℕ
  pub challenge : OmissionChallenge

pub record Handoff : Type 0 where
  pub delta : Delta
  pub omissions : List Omission
  pub uncertainty : List Bytes
  pub re_included : List ReIncluded

-- `Handoff::events`
abbrev pub events : Handoff → List ℕ
events h = reference_events h.delta.references

-- A stated head that is not in the closure.
unfoldable pub head_outside : Option ℕ → List ℕ → Bool
head_outside none closure = false
head_outside (some head) closure = not (binary_search closure head)

-- `Handoff::from_delta`
unfoldable pub from_delta : Delta → HandoffResult Handoff
unfolding head_outside
from_delta d = do
  refuse (head_outside d.recipient_head d.recipient_closure) invalid_state
  let handoff : Handoff = record { delta = d; omissions = []; uncertainty = []; re_included = [] }
  ok handoff

-- `match store.event(head).await`
unfoldable pub check_known : ℕ → ℕ → StoreResult (Option SignedEvent) → HandoffResult (Unit {0})
check_known context head (ok (some e)) =
    refuse (not (e.body.context == context)) (wrong_context head)
check_known context head (ok none) = err (unknown_recipient_head head)
check_known context head (err x) = err (store x)

unfoldable pub check_stated : Libraries → Db → ℕ → Option ℕ → HandoffResult (Unit {0})
unfolding check_known
check_stated lib db context none = ok tt
check_stated lib db context (some head) = check_known context head (event lib db head)

unfoldable pub same_head : Option ℕ → Option ℕ → Bool
same_head none none = true
same_head (some a) (some b) = a == b
same_head _ _ = false

-- `Handoff::verify_valid`
unfoldable pub verify_valid : Libraries → Db → Handoff → Option ℕ → HandoffResult (Unit {0})
unfolding check_stated same_head
verify_valid lib db h current = do
  check_stated lib db h.delta.context h.delta.recipient_head
  check_stated lib db h.delta.context current
  refuse (not (same_head h.delta.recipient_head current)) (stale h.delta.recipient_head current)

-- `Handoff::verified_delta`
unfoldable pub verified_delta : Libraries → Db → Handoff → Option ℕ → HandoffResult Delta
unfolding verify_valid
verified_delta lib db h current = do verify_valid lib db h current; ok h.delta

abbrev pub omits : ℕ → Omission → Bool
omits id o = o.event == id

-- `push` and `sort_by_key`, which keeps the order of equal keys.
unfoldable pub insert_omission : Omission → List Omission → List Omission
insert_omission o [] = o ∷ []
insert_omission o (p ∷ ps) =
    let rest = insert_omission o ps in if leb o.event p.event then o ∷ p ∷ ps else p ∷ rest

unfoldable pub sort_omissions : List Omission → List Omission
unfolding insert_omission
sort_omissions [] = []
sort_omissions (o ∷ os) = insert_omission o (sort_omissions os)

-- `Handoff::with_omission`
unfoldable pub with_omission : Handoff → ℕ → OmissionReason → HandoffResult Handoff
unfolding sort_omissions
with_omission h id reason = do
  refuse (binary_search (events h) id) invalid_state
  if any (omits id) h.omissions then ok h else do
    refuse (leb max_omissions (length h.omissions)) invalid_state
    let omission : Omission = record { event = id; reason = reason }
    ok (record h { omissions = sort_omissions (h.omissions ++ (omission ∷ [])) })

-- `Handoff::with_uncertainty`
unfoldable pub with_uncertainty : Handoff → Bytes → HandoffResult Handoff
with_uncertainty h note = do
  refuse (is_empty note || ltb max_note_bytes (length note)) invalid_state
  let notes = dedup_kinds (sort_kinds (h.uncertainty ++ (note ∷ [])))
  refuse (ltb max_uncertainty_notes (length notes)) invalid_state
  ok (record h { uncertainty = notes })

-- `Handoff::challenge`
unfoldable pub challenge : Handoff → ℕ → Bytes → HandoffResult OmissionChallenge
challenge h id note = do
  refuse (is_empty note || ltb max_note_bytes (length note)) invalid_state
  refuse (not (any (omits id) h.omissions)) (unknown_omission id)
  let made : OmissionChallenge = record { event = id; note = note }
  ok made

-- The record of a follow-up over the new delta.
abbrev pub carry_over : Handoff → Delta → OmissionChallenge → Handoff → Handoff
carry_over h d c fresh = record fresh {
  omissions =
      keep (λ (o : Omission). not (binary_search (reference_events d.references) o.event))
        h.omissions;
  uncertainty = h.uncertainty;
  re_included = h.re_included ++ (record { event = c.event; challenge = c } ∷ []);
}

-- `Handoff::follow_up`
unfoldable pub follow_up :
    Libraries
    → Db
    → Handoff
    → ClosedSelection
    → RecipientState
    → OmissionChallenge
    → HandoffResult Handoff
unfolding verify_valid from_delta
follow_up lib db h closed recipient c = do
  verify_valid lib db h recipient.head
  refuse (not (any (omits c.event) h.omissions)) (unknown_omission c.event)
  refuse (not (binary_search (sort (reference_events closed.references)) c.event)) invalid_state
  d ← map_err delta (compute_delta lib db closed recipient)
  refuse (not (binary_search (reference_events d.references) c.event)) invalid_state
  fresh ← from_delta d
  ok (carry_over h d c fresh)
