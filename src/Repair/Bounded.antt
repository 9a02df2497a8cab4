-- ===== src/Repair/Bounded.antt =====
-- What a repair sequence reports and records (`run_repair`, src/repair.rs).
use mathlib.Core.List.Memᴰ
use contextmesh_rs.Common.{ℕ, ◌+◌, ◌≤◌, ◌≡◌, List, [], ◌∷◌, ◌++◌, length, ok}
use contextmesh_rs.Handoff.{Handoff}
use contextmesh_rs.Repair.{RepairAttempt, RepairReport, RepairHistory, Setting, append, repair_loop}
use contextmesh_rs.Repair.Iteration.{verdict, Ended, Recorded, Goes}

-- From an iteration on: what the sequence adds to what it has.
record Continues (s : Setting) (re_included : List ℕ) (before after : RepairHistory)
    (r : RepairReport) : Type 0 where
  more : List ℕ
  iterations : r.iterations ≤ s.bounds.max_iterations
  all : r.re_included ≡ re_included ++ more
  bound : length r.re_included ≤ s.bounds.max_re_included_events
  ended : Ended s r
  recorded : Recorded before after more (verdict r.non_convergence)

-- An iteration that the sequence goes on from.
abbrev GoesOn :
    Setting → ℕ → ℕ → Handoff → List ℕ → RepairHistory → RepairHistory → RepairReport → Type 0
GoesOn s left i current re_included before after r =
    (a : RepairAttempt) × (event : ℕ) × (next : Handoff) × (mid : RepairHistory) × Goes s current
      re_included a event next
    × (append s.writes before a ≡ (mid, ok tt))
    × (repair_loop s left (i + 1) next (re_included ++ (event ∷ [])) mid ≡ (after, ok r))
