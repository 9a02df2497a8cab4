-- ===== src/Repair.antt =====
-- Repair sequences (src/repair.rs): a loop that hands over again with more context until the task succeeds
-- or a bound is reached. The attempts of a history are the lines of its file; `writes` says which writes
-- succeed.
pub mod Iteration
pub mod Bounded
use contextmesh_rs.Common.{
  ℕ, zero, suc, ◌+◌, ◌%◌, Bool, true, false, ◌||◌, Option, none, some, List, [], ◌∷◌, ◌++◌, map,
  Bytes, ◌==◌, ltb, leb, if◌then◌else◌, length, Result, ok, err, ◌>>=◌, ◌>>◌, refuse,
}
use contextmesh_rs.Event.Body.{Libraries}
use contextmesh_rs.Store.State.{Db}
use contextmesh_rs.Closure.Select.{ClosedSelection}
use contextmesh_rs.Delta.{RecipientState}
use contextmesh_rs.Handoff.{
  Handoff, HandoffError, HandoffResult, Omission, events, challenge, follow_up,
}

pub record RepairBounds : Type 0 where
  pub max_iterations : ℕ
  pub max_re_included_events : ℕ
  pub max_delta_bytes : ℕ

pub data TaskOutcome : Type 0 where
  success : TaskOutcome
  needs_source : (event : ℕ) (note : Bytes) (closed : ClosedSelection) → TaskOutcome
  failure : (note : Bytes) → TaskOutcome

pub data NonConvergence : Type 0 where
  iteration_budget_exceeded re_inclusion_budget_exceeded byte_budget_exceeded : ℕ → NonConvergence
  outcome_failure : Bytes → NonConvergence

pub data TerminalRecord : Type 0 where
  converged : TerminalRecord
  non_converged : NonConvergence → TerminalRecord

pub record RepairAttempt : Type 0 where
  pub sequence : ℕ
  pub iteration : ℕ
  pub re_included : Option ℕ
  pub note : Option Bytes
  pub events : List ℕ
  pub omissions : List ℕ
  pub bytes : ℕ
  pub terminal : Option TerminalRecord

pub record RepairReport : Type 0 where
  pub converged : Bool
  pub iterations : ℕ
  pub re_included : List ℕ
  pub non_convergence : Option NonConvergence
  pub handoff : Handoff

pub data RepairError : Type 0 where
  io invalid_state : RepairError
  handoff : HandoffError → RepairError

abbrev pub RepairResult : Type 0 → Type 0
RepairResult = Result RepairError

pub record RepairHistory : Type 0 where
  pub attempts : List RepairAttempt
  pub sequence : ℕ

-- What a sequence leaves: the history, also where it fails, and its result.
abbrev pub Run : Type 0 → Type 0
Run A = RepairHistory × RepairResult A

-- `RepairBounds::new`, and the check of `run_repair`
unfoldable pub check_bounds : RepairBounds → RepairResult (Unit {0})
check_bounds b =
    refuse (b.max_iterations == 0 || (b.max_re_included_events == 0 || b.max_delta_bytes == 0))
      invalid_state

-- `RepairHistory::append`
unfoldable pub append : (ℕ → Bool) → RepairHistory → RepairAttempt → Run (Unit {0})
append writes history attempt =
    let numbered = record attempt { sequence = history.sequence } in
    let next = (history.sequence + 1) % 18_446_744_073_709_551_616 in
    if writes history.sequence
    then (record { attempts = history.attempts ++ (numbered ∷ []); sequence = next }, ok tt)
    else (record history { sequence = next }, err io)

-- The arguments of a sequence: the driver and the store are asked anew in each iteration.
pub record Setting : Type 0 where
  pub lib : Libraries
  pub stores : ℕ → Db
  pub driver : ℕ → Handoff → TaskOutcome
  pub writes : ℕ → Bool
  pub original : Handoff
  pub recipient : RecipientState
  pub bounds : RepairBounds

-- The attempt of an iteration, before its outcome is entered.
abbrev pub offered : ℕ → Handoff → RepairAttempt
offered iteration current = record {
  sequence = 0;
  iteration = iteration;
  re_included = none;
  note = none;
  events = events current;
  omissions = map (λ (o : Omission). o.event) current.omissions;
  bytes = current.delta.total_bytes;
  terminal = none;
}

-- What an iteration comes to: the last record and the report, or a record and the next handoff.
pub data Step : Type 0 where
  stop : RepairAttempt → RepairReport → Step
  go : RepairAttempt → ℕ → Handoff → Step
  fail : RepairError → Step

-- A sequence that ends without convergence, over the original handoff.
abbrev pub give_up : Setting → ℕ → List ℕ → NonConvergence → RepairReport
give_up s iterations re_included reason = record {
  converged = false;
  iterations = iterations;
  re_included = re_included;
  non_convergence = some reason;
  handoff = s.original;
}

abbrev pub given_up : RepairAttempt → Option Bytes → NonConvergence → RepairAttempt
given_up attempt note reason = record attempt {
  note = note;
  terminal = some (non_converged reason);
}

-- The follow-up of an iteration, against the bound on its bytes.
unfoldable pub settle : Setting → ℕ → Handoff → List ℕ → ℕ → Bytes → HandoffResult Handoff → Step
settle s i current re_included event note (err x) = fail (handoff x)
settle s i current re_included event note (ok next) =
    let over = byte_budget_exceeded next.delta.total_bytes in
    if ltb s.bounds.max_delta_bytes next.delta.total_bytes
    then stop (given_up (offered i current) (some note) over) (give_up s (i + 1) re_included over)
    else go (record (offered i current) { re_included = some event; note = some note }) event next

-- `match outcome`
unfoldable pub step : Setting → ℕ → Handoff → List ℕ → TaskOutcome → Step
unfolding settle
step s i current re_included success =
    stop (record (offered i current) { terminal = some converged })
      (record {
        converged = true;
        iterations = i + 1;
        re_included = re_included;
        non_convergence = none;
        handoff = current;
      })
step s i current re_included (failure note) =
    stop (given_up (offered i current) (some note) (outcome_failure note))
      (give_up s (i + 1) re_included (outcome_failure note))
step s i current re_included (needs_source event note closed) =
    let over = re_inclusion_budget_exceeded (length re_included) in
    if leb s.bounds.max_re_included_events (length re_included)
    then stop (given_up (offered i current) (some note) over) (give_up s (i + 1) re_included over)
    else settle s i current re_included event note (do
      c ← challenge current event note
      follow_up s.lib (s.stores i) current closed s.recipient c)

-- `history.append(&mut attempt)?` before the rest of the sequence.
unfoldable pub resume : {A : Type 0} → Run (Unit {0}) → (RepairHistory → Run A) → Run A
resume (history, ok u) rest = rest history
resume (history, err x) rest = (history, err x)

-- The iterations that are left, from iteration `i`, and the record of an exhausted budget.
unfoldable pub repair_loop : Setting → ℕ → ℕ → Handoff → List ℕ → RepairHistory → Run RepairReport
unfolding step append resume
repair_loop s zero i current re_included history =
    let over = iteration_budget_exceeded s.bounds.max_iterations in
    resume (append s.writes history (given_up (offered s.bounds.max_iterations current) none over))
      (λ history. (history, ok (give_up s s.bounds.max_iterations re_included over)))
repair_loop s (suc left) i current re_included history =
    elim (step s i current re_included (s.driver i current)) [
      | stop attempt report ↦
          resume (append s.writes history attempt) (λ history. (history, ok report))
      | go attempt event next ↦
          resume (append s.writes history attempt)
            (λ history. repair_loop s left (i + 1) next (re_included ++ (event ∷ [])) history)
      | fail x ↦ (history, err x)
    ]

-- `run_repair`
unfoldable pub run_repair : Setting → RepairHistory → Run RepairReport
unfolding check_bounds repair_loop
run_repair s history =
    resume (history, check_bounds s.bounds)
      (λ history. repair_loop s s.bounds.max_iterations 0 s.original [] history)
