-- ===== src/Delta/Compute.antt =====
-- `compute_delta` (src/delta.rs): the references of a closed selection that a recipient lacks.
use mathlib.Core.List.Memᴰ
use contextmesh_rs.Common.{
  ℕ, ◌+◌, ◌≤◌, ◌≡◌, sym, ap, subst, ◌∙◌, ◌↔◌, inl, inr, ⊎_elim, not, Option, none, some, List, [],
  ◌∷◌, map, Memᴰ, Memᴰ-cons, arith, ◌==◌, ltb, if◌then◌else◌, length, contains, contains_iff, keep,
  Memᴰ-keep, Result, ok, ◌>>=◌, ◌>>◌, refuse, >>=-eq-ok, Bool-cases,
}
use contextmesh_rs.Event.Body.{Libraries}
use contextmesh_rs.Store.State.{Db}
use contextmesh_rs.Store.Rows.{event}
use contextmesh_rs.Store.Project.{max_usize}
use contextmesh_rs.Walk.{finished}
use contextmesh_rs.Walk.Reach.{Reach}
use contextmesh_rs.Selection.Sources.{SourceReference}
use contextmesh_rs.Compiler.{sum_bytes}
use contextmesh_rs.Closure.{ClosureLimits}
use contextmesh_rs.Closure.Nodes.{event_parents}
use contextmesh_rs.Closure.Select.{ClosedSelection}
use contextmesh_rs.Delta.{
  RecipientState, DeltaError, delta_over, max_delta_events, context_mismatch, limit_exceeded,
}
use contextmesh_rs.Delta.Partition.{delta_over-IsPartition}
use contextmesh_rs.Delta.Head.{check_head, at_head}
use contextmesh_rs.Delta.Head.Knows.{at_head-KnowsAncestry}

abbrev pub max_delta_bytes : ℕ
max_delta_bytes = 67_108_864

pub record Delta : Type 0 where
  pub context : ℕ
  pub recipient_head : Option ℕ
  pub recipient_closure : List ℕ
  pub selected_known : List ℕ
  pub references : List SourceReference
  pub total_bytes : ℕ
  pub limits : ClosureLimits

-- `Delta::events`
abbrev pub reference_events : List SourceReference → List ℕ
reference_events = map (λ (r : SourceReference). r.event)

-- The loop over the references, with the list of the events that are sent.
unfoldable pub pick :
    List ℕ → List SourceReference → ℕ → Result DeltaError (List SourceReference × ℕ)
pick delta [] total = ok ([], total)
pick delta (r ∷ rs) total =
    let rest = pick delta rs (total + r.payload_bytes) in
    let skipped = pick delta rs total in
    if contains delta r.event
    then (do
      refuse (ltb max_usize (total + r.payload_bytes)) limit_exceeded
      (picked, sum) ← rest
      ok (r ∷ picked, sum))
    else skipped

unfoldable pub check_recipient_head : Libraries → Db → ℕ → Option ℕ → Result DeltaError (Unit {0})
check_recipient_head lib db context none = ok tt
check_recipient_head lib db context (some head) = check_head context head (event lib db head)

unfoldable pub compute_delta :
    Libraries → Db → ClosedSelection → RecipientState → Result DeltaError Delta
unfolding check_recipient_head pick
compute_delta lib db selected recipient = do
  refuse (not (recipient.context == selected.context)) context_mismatch
  check_recipient_head lib db selected.context recipient.head
  let report = delta_over (reference_events selected.references) recipient.closure
  refuse (ltb max_delta_events (length report.delta)) limit_exceeded
  (references, total) ← pick report.delta selected.references 0
  refuse (ltb max_delta_bytes total) limit_exceeded
  let delta : Delta = record {
    context = selected.context;
    recipient_head = recipient.head;
    recipient_closure = recipient.closure;
    selected_known = report.known;
    references = references;
    total_bytes = total;
    limits = selected.limits;
  }
  ok delta

pick_lem :
    (delta : List ℕ) (rs picked : List SourceReference) (total sum : ℕ)
    → pick delta rs total ≡ ok (picked, sum)
    → (picked ≡ keep (λ (r : SourceReference). contains delta r.event) rs)
      × (sum ≡ total + sum_bytes picked)
unfolding pick keep sum_bytes
pick_lem delta [] picked total sum h =
    let none_left : [] ≡ picked = cc in
    let same : total ≡ sum = cc in (sym none_left, rw (← none_left) (omega (arith, same)))
pick_lem delta (r ∷ rs) picked total sum h = elim (Bool-cases (contains delta r.event)) [
  | inr known ↦ rw known (pick_lem delta rs picked total sum (rw (known, pick) at h))
  | inl sent ↦
      let h' = rw (sent, pick) at h in
      let (_, _, h₁) =
        >>=-eq-ok (refuse (ltb max_usize (total + r.payload_bytes)) limit_exceeded) _ h' in
      let ((others, rest), there, h₂) = >>=-eq-ok (pick delta rs (total + r.payload_bytes)) _ h₁ in
      let (same, count) = pick_lem delta rs others (total + r.payload_bytes) rest there in
      let front : r ∷ others ≡ picked = cc in
      let last : rest ≡ sum = cc in
      (
        sym front ∙ rw sent (ap (λ (xs : List SourceReference). r ∷ xs) same),
        rw (← front) (omega (arith, count, last)),
      )
]

Memᴰ-reference_events :
    (r : SourceReference) (rs : List SourceReference)
    → Memᴰ r rs
    → Memᴰ r.event (reference_events rs)
Memᴰ-reference_events r [] m = absurd (Memᴰ.not-nil m)
Memᴰ-reference_events r (x ∷ rs) m =
    ⊎_elim (λ e. Memᴰ.head (ap (λ (r : SourceReference). r.event) e))
      (λ n. Memᴰ.tail (Memᴰ-reference_events r rs n)) ((Memᴰ-cons r x rs).0 m)

-- The delta of a closed selection for a recipient: in the order of the selection the references to
-- what the recipient does not know, their bytes, and the events of the selection that it knows.
pub record IsDelta (selected : ClosedSelection) (recipient : RecipientState) (d : Delta)
    : Type 0 where
  pub context : d.context ≡ selected.context
  pub same_context : recipient.context ≡ selected.context
  pub head : d.recipient_head ≡ recipient.head
  pub closure : d.recipient_closure ≡ recipient.closure
  pub sent :
      (r : SourceReference)
      → Memᴰ r d.references ↔ (Memᴰ r selected.references × (Memᴰ r.event recipient.closure → ⊥))
  pub known :
      (j : ℕ)
      → Memᴰ j d.selected_known
        ↔ (Memᴰ j (reference_events selected.references) × Memᴰ j recipient.closure)
  pub total : d.total_bytes ≡ sum_bytes d.references
  pub bound : d.total_bytes ≤ max_delta_bytes

pub compute_delta-IsDelta :
    (lib : Libraries) (db : Db) (selected : ClosedSelection) (recipient : RecipientState)
    (d : Delta)
    → compute_delta lib db selected recipient ≡ ok d
    → IsDelta selected recipient d
unfolding compute_delta
compute_delta-IsDelta lib db selected recipient d h =
    let report = delta_over (reference_events selected.references) recipient.closure in
    let parts = delta_over-IsPartition (reference_events selected.references) recipient.closure in
    let (_, agree, h₁) =
      >>=-eq-ok (refuse (not (recipient.context == selected.context)) context_mismatch) _ h in
    let (_, _, h₂) = >>=-eq-ok (check_recipient_head lib db selected.context recipient.head) _ h₁ in
    let (_, _, h₃) =
      >>=-eq-ok (refuse (ltb max_delta_events (length report.delta)) limit_exceeded) _ h₂ in
    let ((references, total), picks, h₄) =
      >>=-eq-ok (pick report.delta selected.references 0) _ h₃ in
    let (kept, sum) = pick_lem report.delta selected.references references 0 total picks in
    let same : d.references ≡ references = ground (arith, h₄) in
    let known : d.selected_known ≡ report.known = ground (arith, h₄) in
    record {
      context = ground (arith, h₄);
      same_context = ground (arith, agree);
      head = ground (arith, h₄);
      closure = ground (arith, h₄);
      sent = λ r.
          let (out, into) =
            Memᴰ-keep (λ (r : SourceReference). contains report.delta r.event) r
              selected.references in
          let (there, back) = contains_iff r.event report.delta in
          let (lacks, lacking) = parts.delta r.event in
          (
            λ m.
                let (n, sent) = out (subst (Memᴰ r) (same ∙ kept) m) in (n, (lacks (there sent)).1),
            λ (n, unknown).
                subst (Memᴰ r) (sym (same ∙ kept)) (
                  into
                    (n, back (lacking (Memᴰ-reference_events r selected.references n, unknown)))),
          );
      known = λ j. rw known (parts.known j);
      total = rw same (ground (arith, h₄, sum));
      bound = ground (arith, h₄);
    }

-- For a recipient at a head the delta sends exactly the references of the selection whose events are
-- not in the ancestry of that head.
pub compute_delta-at_head :
    (lib : Libraries) (db : Db) (context head : ℕ) (stated : ClosureLimits)
    (selected : ClosedSelection) (recipient : RecipientState) (d : Delta)
    → at_head lib db context head stated ≡ finished recipient
    → compute_delta lib db selected recipient ≡ ok d
    → (r : SourceReference)
    → Memᴰ r d.references ↔ (
        Memᴰ r selected.references × (Reach (event_parents lib db context) (head ∷ []) r.event → ⊥))
compute_delta-at_head lib db context head stated selected recipient d at computes r =
    let knows = at_head-KnowsAncestry lib db context head stated recipient at in
    let delta = compute_delta-IsDelta lib db selected recipient d computes in
    let (out, into) = delta.sent r in
    let (far, near) = knows.exact r.event in
    (
      λ m. let (n, unknown) = out m in (n, λ reached. unknown (near reached)),
      λ (n, unreached). into (n, λ known. unreached (far known)),
    )
