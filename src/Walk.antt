-- ===== src/Walk.antt =====
-- The Enter/Exit walker over the event graph: the loop that store/dag.rs (`project_on`),
-- closure.rs (`load_closure_nodes`) and delta.rs (`RecipientState::at_head`) write out each in its
-- own function. What differs between the three, the work at the first visit of an event and at the
-- end of its visit, is a `Visitor`; `state` is the map from event to 0, 1 or 2.
pub mod Reach
pub mod Covers
pub mod Sound
pub mod Fuel
pub mod Maps
pub mod Outcomes
use contextmesh_rs.Common.{
  ℕ, zero, suc, Bool, Option, none, some, List, [], ◌∷◌, ◌++◌, map, ◌==◌, if◌then◌else◌, Result, ok,
  err,
}

-- The values 0, 1 and 2 of `state`.
pub data Mark : Type 0 where
  unseen active done : Mark

pub data Frame : Type 0 where
  enter : ℕ → Option ℕ → Frame
  exit : ℕ → Frame

abbrev pub Marks : Type 0
Marks = ℕ → Mark

-- `state.insert(id, mark)`
abbrev pub set_mark : Marks → ℕ → Mark → Marks
set_mark marks id mark j = if id == j then mark else marks j

-- The loop's body at a frame: `first` loads an event at its first visit and returns its parents,
-- `close` ends its visit, and `cycle` is the failure at an event whose visit is still open.
pub record Visitor (E A : Type 0) : Type 0 where
  pub first : ℕ → Option ℕ → A → Result E (A × List ℕ)
  pub close : ℕ → Mark → A → Result E (A × Mark)
  pub cycle : E

pub record Walking (A : Type 0) : Type 0 where
  pub marks : Marks
  pub stack : List Frame
  pub acc : A

pub data Outcome (E A : Type 0) : Type 0 where
  finished : A → Outcome E A
  failed : E → Outcome E A
  out_of_fuel : Outcome E A

-- The parents are pushed in reverse, so the first parent is on top.
abbrev pub push_parents : ℕ → List ℕ → List Frame → List Frame
push_parents id parents rest = map (λ p. enter p (some id)) parents ++ (exit id ∷ rest)

module _ {E A : Type 0} (v : Visitor E A) where
  abbrev opened : ℕ → Marks → List Frame → A × List ℕ → Walking A
  opened id marks rest (acc, parents) = record {
    marks = set_mark marks id active;
    stack = push_parents id parents rest;
    acc = acc;
  }

  -- `match state.get(&id).copied().unwrap_or(0)` at `Frame::Enter`.
  unfoldable pub enter_step : ℕ → Option ℕ → Mark → Marks → List Frame → A → Result E (Walking A)
  enter_step id child done marks rest acc = ok (record { marks = marks; stack = rest; acc = acc })
  enter_step id child active marks rest acc = err v.cycle
  enter_step id child unseen marks rest acc = elim (v.first id child acc) [
    | ok r ↦ ok (opened id marks rest r)
    | err e ↦ err e
  ]

  unfoldable pub exit_step : ℕ → Marks → List Frame → A → Result E (Walking A)
  exit_step id marks rest acc = elim (v.close id (marks id) acc) [
    | ok (a, m) ↦ ok (record { marks = set_mark marks id m; stack = rest; acc = a })
    | err e ↦ err e
  ]

  unfoldable pub frame_step : Frame → Marks → List Frame → A → Result E (Walking A)
  unfolding enter_step exit_step
  frame_step (enter id child) marks rest acc = enter_step id child (marks id) marks rest acc
  frame_step (exit id) marks rest acc = exit_step id marks rest acc

  -- `while let Some(frame) = stack.pop()`
  unfoldable pub walk : ℕ → Marks → List Frame → A → Outcome E A
  unfolding frame_step
  walk fuel marks [] acc = finished acc
  walk zero marks (f ∷ rest) acc = out_of_fuel
  walk (suc fuel) marks (f ∷ rest) acc = elim (frame_step f marks rest acc) [
    | ok w ↦ walk fuel w.marks w.stack w.acc
    | err e ↦ failed e
  ]

abbrev pub blank : Marks
blank _ = unseen

abbrev pub start_frames : List ℕ → List Frame
start_frames heads = map (λ h. enter h none) heads
