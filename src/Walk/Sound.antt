-- ===== src/Walk/Sound.antt =====
-- The rule for walks: an invariant `P` of marks and accumulator that the visitor keeps holds at the
-- end, where exactly the reachable events are marked done and no visit is open.
use mathlib.Core.List.Memᴰ
use contextmesh_rs.Common.{
  ℕ, zero, suc, ◌≡◌, refl, sym, subst, ◌≢◌, ◌⊎◌, inl, inr, ⊎_elim, ◌↔◌, Option, List, [], ◌∷◌, Memᴰ,
  All, Memᴰ-cons, Result, ok, Result-cases,
}
use contextmesh_rs.Walk.{
  Mark, unseen, active, done, Frame, enter, exit, Marks, set_mark, Visitor, Walking, finished,
  enter_step, exit_step, frame_step, walk, blank, start_frames,
}
use contextmesh_rs.Walk.Reach.{Reach, from_head, Reach-closed}
use contextmesh_rs.Walk.Covers.{
  Covers, FrameFits, IsWalking, IsWalking-skip, IsWalking-first, IsWalking-close,
}

-- The heads on the stack, over what is settled already.
Covers-heads :
    (par : ℕ → List ℕ) (heads : List ℕ) (S : ℕ → Type 0) (hs : List ℕ)
    → ((h : ℕ) → Memᴰ h heads → Memᴰ h hs ⊎ S h)
    → Covers par heads S (start_frames hs)
Covers-heads par heads S [] f = λ h m. ⊎_elim (λ n. absurd (Memᴰ.not-nil n)) (λ s. s) (f h m)
Covers-heads par heads S (x ∷ hs) f =
    Covers-heads par heads (λ j. (j ≡ x) ⊎ S j) hs
      λ h m.
        ⊎_elim (λ n. ⊎_elim (λ e. inr (inl e)) inl ((Memᴰ-cons h x hs).0 n)) (λ s. inr (inr s))
          (f h m)

module _ {E A : Type 0} (v : Visitor E A) (par : ℕ → List ℕ) (heads : List ℕ)
    (P : Marks → A → Type 0) where
  -- What a visitor has to do for the rule. `par` names the parents that it finds.
  pub record Keeps : Type 0 where
    pub first_parents :
        (id : ℕ) (child : Option ℕ) (a b : A) (ps : List ℕ)
        → v.first id child a ≡ ok (b, ps)
        → ps ≡ par id
    pub first_keeps :
        (id : ℕ) (child : Option ℕ) (marks : Marks) (a b : A) (ps : List ℕ)
        → v.first id child a ≡ ok (b, ps)
        → marks id ≡ unseen
        → P marks a
        → P (set_mark marks id active) b
    pub close_done :
        (id : ℕ) (m n : Mark) (a b : A) → v.close id m a ≡ ok (b, n) → m ≢ unseen → n ≡ done
    pub close_keeps :
        (id : ℕ) (marks : Marks) (a b : A)
        → v.close id (marks id) a ≡ ok (b, done)
        → marks id ≢ unseen
        → ((q : ℕ) → Memᴰ q (par id) → marks q ≡ done)
        → P marks a
        → P (set_mark marks id done) b

  abbrev pub At : Walking A → Type 0
  At w = IsWalking par heads w.marks w.stack × P w.marks w.acc

  subst_ok : (u w : Walking A) → ◌≡◌ {A = Result E (Walking A)} (ok u) (ok w) → At u → At w
  subst_ok u w e h = let same : u ≡ w = cc in subst At same h

  module _ (k : Keeps) where
    enter-At :
        (id : ℕ) (child : Option ℕ) (m : Mark) (marks : Marks) (rest : List Frame) (a : A)
        (w : Walking A)
        → m ≡ marks id
        → enter_step v id child m marks rest a ≡ ok w
        → IsWalking par heads marks (enter id child ∷ rest)
        → P marks a
        → At w
    unfolding enter_step
    enter-At id child done marks rest a w e h i p =
        subst_ok _ w h (IsWalking-skip par heads id child marks rest (sym e) i, p)
    enter-At id child active marks rest a w e h i p = cc
    enter-At id child unseen marks rest a w e h i p = elim (Result-cases (v.first id child a)) [
      | inl ((b, ps), f) ↦ subst_ok _ w (rw (f, enter_step) at h) (
        rw (k.first_parents id child a b ps f)
            (IsWalking-first par heads id child marks rest (sym e) i),
        k.first_keeps id child marks a b ps f (sym e) p,
      )
      | inr (x, f) ↦ cc (rw (f, enter_step) at h)
    ]

    exit-At :
        (id : ℕ) (marks : Marks) (rest : List Frame) (a : A) (w : Walking A)
        → exit_step v id marks rest a ≡ ok w
        → IsWalking par heads marks (exit id ∷ rest)
        → P marks a
        → At w
    unfolding exit_step
    exit-At id marks rest a w h i p = elim (Result-cases (v.close id (marks id) a)) [
      | inl ((b, n), f) ↦
          let is_done = k.close_done id (marks id) n a b f i.frames.0.1 in
          let g : v.close id (marks id) a ≡ ok (b, done) = rw (← is_done) f in
          subst_ok _ w (rw (g, exit_step) at h) (
            IsWalking-close par heads id marks rest i,
            k.close_keeps id marks a b g i.frames.0.1 i.covers.0 p,
          )
      | inr (x, f) ↦ cc (rw (f, exit_step) at h)
    ]

    pub step-At :
        (f : Frame) (marks : Marks) (rest : List Frame) (a : A) (w : Walking A)
        → frame_step v f marks rest a ≡ ok w
        → IsWalking par heads marks (f ∷ rest)
        → P marks a
        → At w
    unfolding frame_step
    step-At (enter id child) marks rest a w h i p =
        enter-At id child (marks id) marks rest a w refl h i p
    step-At (exit id) marks rest a w h i p = exit-At id marks rest a w h i p

    -- The marks at the end of a walk.
    pub record Ends (b : A) : Type 0 where
      pub marks : Marks
      pub kept : P marks b
      pub exact : (j : ℕ) → (marks j ≡ done) ↔ Reach par heads j
      pub none_open : (j : ℕ) → marks j ≢ active

    at_end : (marks : Marks) (a : A) → IsWalking par heads marks [] → P marks a → Ends a
    at_end marks a i p = record {
      marks = marks;
      kept = p;
      exact = λ j. (
        λ d. i.reached j (λ u. cc),
        λ r. Reach-closed par heads (λ j. marks j ≡ done) i.covers (λ c q d m. i.closed c q d m) r,
      );
      none_open = λ j o. Memᴰ.not-nil (i.pending j o);
    }

    walk-Ends :
        (fuel : ℕ) (marks : Marks) (stack : List Frame) (a b : A)
        → walk v fuel marks stack a ≡ finished b
        → IsWalking par heads marks stack
        → P marks a
        → Ends b
    unfolding walk
    walk-Ends fuel marks [] a b h i p =
        let same : a ≡ b = cc in subst Ends same (at_end marks a i p)
    walk-Ends zero marks (f ∷ rest) a b h i p = cc
    walk-Ends (suc fuel) marks (f ∷ rest) a b h i p =
        elim (Result-cases (frame_step v f marks rest a)) [
          | inl (w, s) ↦
              let (i', p') = step-At f marks rest a w s i p in
              walk-Ends fuel w.marks w.stack w.acc b (rw (s, walk) at h) i' p'
          | inr (x, s) ↦ cc (rw (s, walk) at h)
        ]

    starts :
        (hs : List ℕ)
        → ((h : ℕ) → Memᴰ h hs → Memᴰ h heads)
        → All (FrameFits par heads blank) (start_frames hs)
    starts [] f = tt
    starts (h ∷ hs) f = (from_head (f h (Memᴰ.head refl)), starts hs (λ j m. f j (Memᴰ.tail m)))

    start-Covers : Covers par heads (λ j. blank j ≡ done) (start_frames heads)
    start-Covers = Covers-heads par heads (λ j. blank j ≡ done) heads (λ h m. inl m)

    pub start-IsWalking : IsWalking par heads blank (start_frames heads)
    start-IsWalking = record {
      covers = start-Covers;
      closed = λ g q d m. cc;
      frames = starts heads (λ h m. m);
      reached = λ j u. absurd (u refl);
      pending = λ j o. cc;
    }

    -- From blank marks and the heads on the stack.
    pub walk_rule :
        (fuel : ℕ) (a b : A)
        → walk v fuel blank (start_frames heads) a ≡ finished b
        → P blank a
        → Ends b
    walk_rule fuel a b h p = walk-Ends fuel blank (start_frames heads) a b h start-IsWalking p
