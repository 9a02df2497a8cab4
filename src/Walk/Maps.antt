-- ===== src/Walk/Maps.antt =====
-- Two walks that do the same, up to a translation of what they gather and of their errors: the loops
-- of `load_closure_nodes` (src/closure.rs) and `RecipientState::at_head` (src/delta.rs).
use contextmesh_rs.Common.{
  ℕ, zero, suc, ◌≡◌, refl, List, [], ◌∷◌, Option, Result, ok, err, Result-cases, inl, inr,
}
use contextmesh_rs.Walk.{
  Mark, unseen, active, done, Frame, enter, exit, Marks, Visitor, Walking, Outcome, finished,
  failed, out_of_fuel, walk, frame_step, enter_step, exit_step,
}

module _ {E F A B : Type 0} (f : A → B) (g : E → F) where
  abbrev pub map_first : Result E (A × List ℕ) → Result F (B × List ℕ)
  map_first (ok (a, ps)) = ok (f a, ps)
  map_first (err e) = err (g e)

  abbrev pub map_close : Result E (A × Mark) → Result F (B × Mark)
  map_close (ok (a, m)) = ok (f a, m)
  map_close (err e) = err (g e)

  abbrev pub map_outcome : Outcome E A → Outcome F B
  map_outcome (finished a) = finished (f a)
  map_outcome (failed e) = failed (g e)
  map_outcome out_of_fuel = out_of_fuel

  abbrev map_walking : Walking A → Walking B
  map_walking w = record { marks = w.marks; stack = w.stack; acc = f w.acc }

  abbrev map_step : Result E (Walking A) → Result F (Walking B)
  map_step (ok w) = ok (map_walking w)
  map_step (err e) = err (g e)

  -- The second visitor does what the first does, translated.
  pub record Follows (v : Visitor E A) (w : Visitor F B) : Type 0 where
    pub first :
        (id : ℕ) (child : Option ℕ) (a : A)
        → w.first id child (f a) ≡ map_first (v.first id child a)
    pub close : (id : ℕ) (m : Mark) (a : A) → w.close id m (f a) ≡ map_close (v.close id m a)
    pub cycle : w.cycle ≡ g v.cycle

  module _ (v : Visitor E A) (w : Visitor F B) (same : Follows v w) where
    enter_follows :
        (id : ℕ) (child : Option ℕ) (m : Mark) (marks : Marks) (rest : List Frame) (a : A)
        → enter_step w id child m marks rest (f a) ≡ map_step (enter_step v id child m marks rest a)
    unfolding enter_step
    enter_follows id child done marks rest a = refl
    enter_follows id child active marks rest a = λ i. err (same.cycle (i))
    enter_follows id child unseen marks rest a = elim (Result-cases (v.first id child a)) [
      | inl (r, e) ↦ rw (same.first id child a, e, enter_step) refl
      | inr (x, e) ↦ rw (same.first id child a, e, enter_step) refl
    ]

    exit_follows :
        (id : ℕ) (marks : Marks) (rest : List Frame) (a : A)
        → exit_step w id marks rest (f a) ≡ map_step (exit_step v id marks rest a)
    unfolding exit_step
    exit_follows id marks rest a = elim (Result-cases (v.close id (marks id) a)) [
      | inl (r, e) ↦ rw (same.close id (marks id) a, e, exit_step) refl
      | inr (x, e) ↦ rw (same.close id (marks id) a, e, exit_step) refl
    ]

    frame_follows :
        (frame : Frame) (marks : Marks) (rest : List Frame) (a : A)
        → frame_step w frame marks rest (f a) ≡ map_step (frame_step v frame marks rest a)
    unfolding frame_step
    frame_follows (enter id child) marks rest a = enter_follows id child (marks id) marks rest a
    frame_follows (exit id) marks rest a = exit_follows id marks rest a

    pub walk_follows :
        (fuel : ℕ) (marks : Marks) (stack : List Frame) (a : A)
        → walk w fuel marks stack (f a) ≡ map_outcome (walk v fuel marks stack a)
    unfolding walk
    walk_follows fuel marks [] a = refl
    walk_follows zero marks (frame ∷ rest) a = refl
    walk_follows (suc fuel) marks (frame ∷ rest) a =
        elim (Result-cases (frame_step v frame marks rest a)) [
          | inl (s, e) ↦
              rw (frame_follows frame marks rest a, e, walk)
                (walk_follows fuel s.marks s.stack s.acc)
          | inr (x, e) ↦ rw (frame_follows frame marks rest a, e, walk) refl
        ]
