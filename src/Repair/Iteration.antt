-- ===== src/Repair/Iteration.antt =====
-- How a repair sequence ends and what it records, and what one iteration comes to (src/repair.rs).
use contextmesh_rs.Common.{
  ℕ, ◌+◌, ◌≤◌, ◌≡◌, refl, sym, ap, ◌⊎◌, inl, inr, Bool, true, false, Option, none, some, List, [],
  ◌∷◌, ◌++◌, map, Memᴰ, arith, Bytes, ltb, leb, length, Bool-cases, ok, err, ◌>>=◌, >>=-eq-ok,
}
use contextmesh_rs.Closure.Select.{ClosedSelection}
use contextmesh_rs.Handoff.{
  Handoff, HandoffResult, OmissionChallenge, ReIncluded, challenge, follow_up,
}
use contextmesh_rs.Handoff.FollowUp.{follow_up-FollowsUp}
use contextmesh_rs.Repair.{
  TaskOutcome, success, needs_source, failure, NonConvergence, TerminalRecord, converged,
  non_converged, iteration_budget_exceeded, re_inclusion_budget_exceeded, byte_budget_exceeded,
  outcome_failure, RepairAttempt, RepairReport, RepairHistory, Run, Setting, Step, stop, go, fail,
  settle, step, append, resume,
}

abbrev pub re_included_events : Handoff → List ℕ
re_included_events h = map (λ (r : ReIncluded). r.event) h.re_included

-- The terminal record of a report.
abbrev pub verdict : Option NonConvergence → TerminalRecord
verdict none = converged
verdict (some reason) = non_converged reason

-- The original handoff, or one whose delta is within the bound on its bytes.
abbrev pub Fits : Setting → Handoff → Type 0
Fits s h = (h ≡ s.original) ⊎ (h.delta.total_bytes ≤ s.bounds.max_delta_bytes)

-- What a reason says of the sequence: the iterations are used up, or the re-inclusions are, where the driver asked
-- for one more, or the follow-up with one more event is longer than the bound, or the driver reported the failure.
abbrev pub IsJustified : Setting → RepairReport → NonConvergence → Type 0
IsJustified s r (iteration_budget_exceeded n) =
    (n ≡ s.bounds.max_iterations) × (r.iterations ≡ n) × (n ≡ length r.re_included)
IsJustified s r (re_inclusion_budget_exceeded n) =
    (n ≡ length r.re_included)
    × (n ≡ s.bounds.max_re_included_events)
    × ((current : Handoff) × (event : ℕ) × (note : Bytes) × (closed : ClosedSelection) × (s.driver n
            current
          ≡ needs_source event note closed))
IsJustified s r (byte_budget_exceeded n) =
    (s.bounds.max_delta_bytes + 1 ≤ n)
    × ((next : Handoff) × (event : ℕ) × (next.delta.total_bytes ≡ n)
        × (re_included_events next
            ≡ (re_included_events s.original ++ r.re_included) ++ (event ∷ [])))
IsJustified s r (outcome_failure note) =
    (current : Handoff) × (s.driver (length r.re_included) current ≡ failure note)

-- How a sequence ends: with the handoff on which the task succeeded, which has re-included the events of
-- the report in their order and is within the bound on bytes, or with a reason that is justified and the original
-- handoff.
abbrev pub Ended : Setting → RepairReport → Type 0
Ended s r =
    ((r.converged ≡ true)
      × (r.non_convergence ≡ none)
      × (r.iterations ≡ length r.re_included + 1)
      × (s.driver (length r.re_included) r.handoff ≡ success)
      × (re_included_events r.handoff ≡ re_included_events s.original ++ r.re_included)
      × Fits s r.handoff)
    ⊎ ((r.converged ≡ false)
        × ((reason : NonConvergence) × (r.non_convergence ≡ some reason) × IsJustified s r reason)
        × (r.handoff ≡ s.original))

-- The records that a sequence adds to a history: one for each event that it re-includes, in their order,
-- and a last one, which alone has a verdict.
pub record Recorded (before after : RepairHistory) (asked : List ℕ) (v : TerminalRecord)
    : Type 0 where
  pub entries : List RepairAttempt
  pub last : RepairAttempt
  pub added : after.attempts ≡ before.attempts ++ (entries ++ (last ∷ []))
  pub asks : map (λ (a : RepairAttempt). a.re_included) entries ≡ map some asked
  pub ongoing : (a : RepairAttempt) → Memᴰ a entries → a.terminal ≡ none
  pub terminal : last.terminal ≡ some v

pub record Repairs (s : Setting) (before after : RepairHistory) (r : RepairReport) : Type 0 where
  pub iterations : r.iterations ≤ s.bounds.max_iterations
  pub re_included : length r.re_included ≤ s.bounds.max_re_included_events
  pub ended : Ended s r
  pub recorded : Recorded before after r.re_included (verdict r.non_convergence)

-- What holds at the start of an iteration.
pub record Going (s : Setting) (i : ℕ) (current : Handoff) (re_included : List ℕ) : Type 0 where
  pub count : i ≡ length re_included
  pub bound : length re_included ≤ s.bounds.max_re_included_events
  pub carried : re_included_events current ≡ re_included_events s.original ++ re_included
  pub fits : Fits s current

pub append_lem :
    (writes : ℕ → Bool) (history after : RepairHistory) (a : RepairAttempt)
    → append writes history a ≡ (after, ok tt)
    → after.attempts ≡ history.attempts ++ (record a { sequence = history.sequence } ∷ [])
unfolding append
append_lem writes history after a h = elim (Bool-cases (writes history.sequence)) [
  | inl kept ↦ ap (λ (w : Run (Unit {0})). w.0.attempts) (sym (rw kept at h))
  | inr lost ↦ absurd (ground (arith, rw lost at h))
]

pub resume_ok :
    {A : Type 0} (w : Run (Unit {0})) (rest : RepairHistory → Run A) (after : RepairHistory) (r : A)
    → resume w rest ≡ (after, ok r)
    → (mid : RepairHistory) × (w ≡ (mid, ok tt)) × (rest mid ≡ (after, ok r))
unfolding resume
resume_ok (history, ok u) rest after r h = (history, refl, h)
resume_ok (history, err x) rest after r h = absurd (ground (arith, h))

challenge_event :
    (h : Handoff) (event : ℕ) (note : Bytes) (c : OmissionChallenge)
    → challenge h event note ≡ ok c
    → c.event ≡ event
unfolding challenge
challenge_event h event note c e = ground (arith, e)

-- An iteration that ends the sequence.
pub record Stops (s : Setting) (i : ℕ) (re_included : List ℕ) (a : RepairAttempt) (r : RepairReport)
    : Type 0 where
  pub ended : Ended s r
  pub same : r.re_included ≡ re_included
  pub count : r.iterations ≡ i + 1
  pub terminal : a.terminal ≡ some (verdict r.non_convergence)

-- An iteration that re-includes an event.
pub record Goes (s : Setting) (current : Handoff) (re_included : List ℕ) (a : RepairAttempt)
    (event : ℕ) (next : Handoff) : Type 0 where
  pub room : length re_included + 1 ≤ s.bounds.max_re_included_events
  pub carried : re_included_events next ≡ re_included_events current ++ (event ∷ [])
  pub fits : next.delta.total_bytes ≤ s.bounds.max_delta_bytes
  pub asks : a.re_included ≡ some event
  pub ongoing : a.terminal ≡ none

-- What an iteration comes to.
abbrev pub Comes : Setting → ℕ → Handoff → List ℕ → Step → Type 0
Comes s i current re_included (stop a r) = Stops s i re_included a r
Comes s i current re_included (go a event next) = Goes s current re_included a event next
Comes s i current re_included (fail x) = Unit

map-append {ℓ ℓ'} :
    {A : Type ℓ} {B : Type ℓ'} (f : A → B) (xs ys : List A)
    → map f (xs ++ ys) ≡ map f xs ++ map f ys
map-append f [] ys = refl
map-append f (x ∷ xs) ys = rw (map-append f xs ys) refl

follow_carries :
    (s : Setting) (i : ℕ) (current : Handoff) (event : ℕ) (note : Bytes) (closed : ClosedSelection)
    (next : Handoff)
    → ◌>>=◌
        (challenge current event note)
        (λ c. follow_up s.lib (s.stores i) current closed s.recipient c)
      ≡ ok next
    → re_included_events next ≡ re_included_events current ++ (event ∷ [])
follow_carries s i current event note closed next h =
    let (c, made, follows) = >>=-eq-ok (challenge current event note) _ h in
    let same = challenge_event current event note c made in
    let recorded =
      (follow_up-FollowsUp s.lib (s.stores i) current next closed s.recipient c follows).recorded in
    rw (recorded, map-append (λ (r : ReIncluded). r.event) current.re_included, same) refl

settle-Comes :
    (s : Setting) (i : ℕ) (current : Handoff) (re_included : List ℕ) (event : ℕ) (note : Bytes)
    (w : HandoffResult Handoff)
    → length re_included + 1 ≤ s.bounds.max_re_included_events
    → re_included_events current ≡ re_included_events s.original ++ re_included
    → ((next : Handoff)
        → w ≡ ok next
        → re_included_events next ≡ re_included_events current ++ (event ∷ []))
    → Comes s i current re_included (settle s i current re_included event note w)
unfolding settle
settle-Comes s i current re_included event note (err x) room carried carries = tt
settle-Comes s i current re_included event note (ok next) room carried carries =
    elim (Bool-cases (ltb s.bounds.max_delta_bytes next.delta.total_bytes)) [
      | inl over ↦ rw over (record {
        ended = inr (
          refl,
          (
            byte_budget_exceeded next.delta.total_bytes,
            refl,
            (ground (arith, over), (next, event, refl, rw (← carried) (carries next refl))),
          ),
          refl,
        );
        same = refl;
        count = refl;
        terminal = refl;
      })
      | inr fits ↦ rw fits (record {
        room = room;
        carried = carries next refl;
        fits = ground (arith, fits);
        asks = refl;
        ongoing = refl;
      })
    ]

pub step-Comes :
    (s : Setting) (i : ℕ) (current : Handoff) (re_included : List ℕ) (o : TaskOutcome)
    → s.driver i current ≡ o
    → Going s i current re_included
    → Comes s i current re_included (step s i current re_included o)
unfolding step
step-Comes s i current re_included success says g = record {
  ended = inl (refl, refl, rw g.count refl, rw (← g.count) says, g.carried, g.fits);
  same = refl;
  count = refl;
  terminal = refl;
}
step-Comes s i current re_included (failure note) says g = record {
  ended = inr (refl, (outcome_failure note, refl, (current, rw (← g.count) says)), refl);
  same = refl;
  count = refl;
  terminal = refl;
}
step-Comes s i current re_included (needs_source event note closed) says g =
    elim (Bool-cases (leb s.bounds.max_re_included_events (length re_included))) [
      | inl over ↦ rw over (record {
        ended = inr (
          refl,
          (
            re_inclusion_budget_exceeded (length re_included),
            refl,
            (
              refl,
              ground (arith, over, g.bound),
              (current, event, note, closed, rw (← g.count) says),
            ),
          ),
          refl,
        );
        same = refl;
        count = refl;
        terminal = refl;
      })
      | inr room ↦ rw room (
          settle-Comes s i current re_included event note _ (ground arith) g.carried
            (follow_carries s i current event note closed))
    ]
