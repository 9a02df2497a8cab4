-- ===== src/Walk/Fuel.antt =====
-- The walk ends: each first visit uses up one unit of a budget and pushes a bounded number of
-- frames, and every other step pops a frame for good.
use contextmesh_rs.Common.{
  ℕ, zero, suc, ◌+◌, ◌*◌, ◌≤◌, ◌<◌, ◌≡◌, refl, sym, ◌≢◌, Option, none, some, List, [], ◌∷◌, map,
  arith, length, length-append, ok, Result-cases, inl, inr,
}
use native.Mathlib.Nat.{mul-le-mul_right}
use contextmesh_rs.Walk.Covers.{IsWalking}
use contextmesh_rs.Walk.Sound.{Keeps, step-At, start-IsWalking}
use contextmesh_rs.Walk.{
  blank, start_frames, unseen, active, done, Mark, Frame, enter, exit, Marks, Visitor, Walking,
  out_of_fuel, push_parents, enter_step, exit_step, frame_step, walk,
}

length-map {ℓ κ} :
    {A : Type ℓ} {B : Type κ} (f : A → B) (xs : List A) → length (map f xs) ≡ length xs
length-map f [] = refl
length-map f (x ∷ xs) = omega (arith, length-map f xs)

length-push_parents :
    (id : ℕ) (ps : List ℕ) (rest : List Frame)
    → length (push_parents id ps rest) ≡ length ps + suc (length rest)
length-push_parents id ps rest = omega (
  arith,
  length-append (map (λ p. enter p (some id)) ps) (exit id ∷ rest),
  length-map (λ (p : ℕ). enter p (some id)) ps,
)

module _ {E A : Type 0} (v : Visitor E A) (par : ℕ → List ℕ) (heads : List ℕ)
    (P : Marks → A → Type 0) (budget : A → ℕ) (width : ℕ) where
  -- A first visit that succeeds spends from the budget, and names at most `width` parents.
  pub record Spends : Type 0 where
    pub first_spends :
        (id : ℕ) (child : Option ℕ) (marks : Marks) (a b : A) (ps : List ℕ)
        → v.first id child a ≡ ok (b, ps)
        → marks id ≡ unseen
        → P marks a
        → (suc (budget b) ≤ budget a) × (length ps ≤ width)
    pub close_spends :
        (id : ℕ) (marks : Marks) (n : Mark) (a b : A)
        → v.close id (marks id) a ≡ ok (b, n)
        → P marks a
        → budget b ≤ budget a

  abbrev pub work : List Frame → A → ℕ
  work stack a = length stack + budget a * (width + 1)

  module _ (spends : Spends) where
    enter_work :
        (id : ℕ) (child : Option ℕ) (m : Mark) (marks : Marks) (rest : List Frame) (a : A)
        (w : Walking A)
        → m ≡ marks id
        → enter_step v id child m marks rest a ≡ ok w
        → P marks a
        → work w.stack w.acc < work (enter id child ∷ rest) a
    unfolding enter_step
    enter_work id child done marks rest a w e h p = ground (arith, h)
    enter_work id child active marks rest a w e h p = cc
    enter_work id child unseen marks rest a w e h p = elim (Result-cases (v.first id child a)) [
      | inl ((b, ps), f) ↦
          let (spent, narrow) = spends.first_spends id child marks a b ps f (sym e) p in
          let falls : work (push_parents id ps rest) b < work (enter id child ∷ rest) a =
            omega
              (arith, length-push_parents id ps rest, narrow, mul-le-mul_right (width + 1) spent) in
          ground (arith, falls, rw (f, enter_step) at h)
      | inr (x, f) ↦ cc (rw (f, enter_step) at h)
    ]

    exit_work :
        (id : ℕ) (marks : Marks) (rest : List Frame) (a : A) (w : Walking A)
        → exit_step v id marks rest a ≡ ok w
        → P marks a
        → work w.stack w.acc < work (exit id ∷ rest) a
    unfolding exit_step
    exit_work id marks rest a w h p = elim (Result-cases (v.close id (marks id) a)) [
      | inl ((b, m), f) ↦ ground (
        arith,
        mul-le-mul_right (width + 1) (spends.close_spends id marks m a b f p),
        rw (f, exit_step) at h,
      )
      | inr (x, f) ↦ cc (rw (f, exit_step) at h)
    ]

    frame_step-work :
        (f : Frame) (marks : Marks) (rest : List Frame) (a : A) (w : Walking A)
        → frame_step v f marks rest a ≡ ok w
        → P marks a
        → work w.stack w.acc < work (f ∷ rest) a
    unfolding frame_step
    frame_step-work (enter id child) marks rest a w h p =
        enter_work id child (marks id) marks rest a w refl h p
    frame_step-work (exit id) marks rest a w h p = exit_work id marks rest a w h p

    module _ (k : Keeps v par heads P) where
      walk-work :
          (fuel : ℕ) (marks : Marks) (stack : List Frame) (a : A)
          → work stack a ≤ fuel
          → IsWalking par heads marks stack
          → P marks a
          → walk v fuel marks stack a ≢ out_of_fuel
      unfolding walk
      walk-work fuel marks [] a h i p e = cc
      walk-work zero marks (f ∷ rest) a h i p e = absurd (omega arith)
      walk-work (suc fuel) marks (f ∷ rest) a h i p e =
          elim (Result-cases (frame_step v f marks rest a)) [
            | inl (w, s) ↦
                let (i', p') = step-At v par heads P k f marks rest a w s i p in
                walk-work fuel w.marks w.stack w.acc
                  (omega (arith, frame_step-work f marks rest a w s p)) i' p' (rw (s, walk) at e)
            | inr (x, s) ↦ cc (rw (s, walk) at e)
          ]

      -- With fuel for the heads and the budget a walk from blank marks does not run out of it.
      pub walk_ends :
          (fuel : ℕ) (a : A)
          → length heads + budget a * (width + 1) ≤ fuel
          → P blank a
          → walk v fuel blank (start_frames heads) a ≢ out_of_fuel
      walk_ends fuel a h p =
          walk-work fuel blank (start_frames heads) a
            (omega (arith, length-map (λ (j : ℕ). enter j none) heads))
            (start-IsWalking v par heads P k) p
