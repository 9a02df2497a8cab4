-- ===== src/Walk/Covers.antt =====
-- A walk that finishes has ended the visit of exactly the reachable events. The argument: what the
-- stack still promises (`Covers`) together with the visits that have ended closes the heads.
use mathlib.Core.List.Memᴰ
use contextmesh_rs.Common.{
  ℕ, ◌≡◌, refl, ◌≢◌, ◌⊎◌, inl, inr, ⊎_elim, Option, some, List, [], ◌∷◌, ◌++◌, map, Memᴰ, arith,
  All, All-append, Memᴰ-cons, ◌==◌, ==_iff, Bool-cases,
}
use contextmesh_rs.Walk.{
  Mark, unseen, active, done, Frame, enter, exit, Marks, set_mark, push_parents,
}
use contextmesh_rs.Walk.Reach.{Reach, to_parent}

module _ (par : ℕ → List ℕ) (heads : List ℕ) where
  -- Once the events in `S` and those on the stack are settled, so are all heads; an open visit ends
  -- only when its parents are settled.
  abbrev pub Covers : (ℕ → Type 0) → List Frame → Type 0
  Covers S [] = (h : ℕ) → Memᴰ h heads → S h
  Covers S (enter p c ∷ rest) = Covers (λ j. (j ≡ p) ⊎ S j) rest
  Covers S (exit g ∷ rest) = ((q : ℕ) → Memᴰ q (par g) → S q) × Covers (λ j. (j ≡ g) ⊎ S j) rest

  pub Covers-mono :
      (S T : ℕ → Type 0) (stack : List Frame)
      → ((j : ℕ) → S j → T j)
      → Covers S stack
      → Covers T stack
  Covers-mono S T [] f h = λ j m. f j (h j m)
  Covers-mono S T (enter p c ∷ rest) f h =
      Covers-mono (λ j. (j ≡ p) ⊎ S j) (λ j. (j ≡ p) ⊎ T j) rest
        (λ j. ⊎_elim inl (λ s. inr (f j s))) h
  Covers-mono S T (exit g ∷ rest) f h = (
    λ q m. f q (h.0 q m),
    Covers-mono (λ j. (j ≡ g) ⊎ S j) (λ j. (j ≡ g) ⊎ T j) rest (λ j. ⊎_elim inl (λ s. inr (f j s)))
        h.1,
  )

  pub Covers-enters :
      (S : ℕ → Type 0) (child : Option ℕ) (ps : List ℕ) (rest : List Frame)
      → Covers (λ j. Memᴰ j ps ⊎ S j) rest
      → Covers S (map (λ p. enter p child) ps ++ rest)
  Covers-enters S child [] rest h =
      Covers-mono (λ j. Memᴰ j [] ⊎ S j) S rest
        (λ j. ⊎_elim (λ m. absurd (Memᴰ.not-nil m)) (λ s. s)) h
  Covers-enters S child (p ∷ ps) rest h =
      Covers-enters (λ j. (j ≡ p) ⊎ S j) child ps rest
        (Covers-mono (λ j. Memᴰ j (p ∷ ps) ⊎ S j) (λ j. Memᴰ j ps ⊎ ((j ≡ p) ⊎ S j)) rest
          (λ j. ⊎_elim (λ m. regroup j p ps m) (λ s. inr (inr s))) h)
    where
      regroup : (j p : ℕ) (ps : List ℕ) → Memᴰ j (p ∷ ps) → Memᴰ j ps ⊎ ((j ≡ p) ⊎ S j)
      regroup j p ps m = ⊎_elim (λ e. inr (inl e)) inl ((Memᴰ-cons j p ps).0 m)

module _ (par : ℕ → List ℕ) (heads : List ℕ) where
  -- A frame speaks of a reachable event, and an `exit` of one whose visit began.
  abbrev pub FrameFits : Marks → Frame → Type 0
  FrameFits marks (enter p c) = Reach par heads p
  FrameFits marks (exit g) = Reach par heads g × (marks g ≢ unseen)

  pub record IsWalking (marks : Marks) (stack : List Frame) : Type 0 where
    pub covers : Covers par heads (λ j. marks j ≡ done) stack
    pub closed : (g q : ℕ) → marks g ≡ done → Memᴰ q (par g) → marks q ≡ done
    pub frames : All (FrameFits marks) stack
    pub reached : (j : ℕ) → marks j ≢ unseen → Reach par heads j
    pub pending : (j : ℕ) → marks j ≡ active → Memᴰ (exit j) stack

  -- Visits that began stay begun.
  FrameFits-mono :
      (m n : Marks) (stack : List Frame)
      → ((j : ℕ) → m j ≢ unseen → n j ≢ unseen)
      → All (FrameFits m) stack
      → All (FrameFits n) stack
  FrameFits-mono m n [] grow h = tt
  FrameFits-mono m n (enter p c ∷ rest) grow h = (h.0, FrameFits-mono m n rest grow h.1)
  FrameFits-mono m n (exit g ∷ rest) grow h =
      ((h.0.0, grow g h.0.1), FrameFits-mono m n rest grow h.1)

  set_mark_grows :
      (marks : Marks) (id : ℕ) (m : Mark)
      → m ≢ unseen
      → (j : ℕ) → marks j ≢ unseen
      → set_mark marks id m j ≢ unseen
  set_mark_grows marks id m h j k = ground arith

  enters_fit :
      (marks : Marks) (id : ℕ) (ps : List ℕ)
      → ((q : ℕ) → Memᴰ q ps → Reach par heads q)
      → All (FrameFits marks) (map (λ p. enter p (some id)) ps)
  enters_fit marks id [] h = tt
  enters_fit marks id (p ∷ ps) h =
      (h p (Memᴰ.head refl), enters_fit marks id ps (λ q m. h q (Memᴰ.tail m)))

  pub IsWalking-skip :
      (id : ℕ) (child : Option ℕ) (marks : Marks) (rest : List Frame)
      → marks id ≡ done
      → IsWalking marks (enter id child ∷ rest)
      → IsWalking marks rest
  IsWalking-skip id child marks rest e w = record {
    covers =
        Covers-mono par heads (λ j. (j ≡ id) ⊎ (marks j ≡ done)) (λ j. marks j ≡ done) rest
          (λ j. ⊎_elim (λ p. rw p e) (λ d. d)) w.covers;
    closed = w.closed;
    frames = w.frames.1;
    reached = w.reached;
    pending = λ j a.
        ⊎_elim (λ p. cc) (λ m. m) ((Memᴰ-cons (exit j) (enter id child) rest).0 (w.pending j a));
  }

  pub IsWalking-first :
      (id : ℕ) (child : Option ℕ) (marks : Marks) (rest : List Frame)
      → marks id ≡ unseen
      → IsWalking marks (enter id child ∷ rest)
      → IsWalking (set_mark marks id active) (push_parents id (par id) rest)
  IsWalking-first id child marks rest e w = record {
    covers =
        Covers-enters par heads (λ j. marks' j ≡ done) (some id) (par id) (exit id ∷ rest)
          (
            λ q m. inl m,
            Covers-mono par heads (λ j. (j ≡ id) ⊎ (marks j ≡ done))
                (λ j. (j ≡ id) ⊎ (Memᴰ j (par id) ⊎ (marks' j ≡ done))) rest
                (λ j. ⊎_elim inl (λ d. inr (inr (still j d)))) w.covers,
          );
    closed = λ g q d m. still q (w.closed g q (was g d) m);
    frames =
        All-append (FrameFits marks') (map (λ p. enter p (some id)) (par id)) (exit id ∷ rest)
          (enters_fit marks' id (par id) (λ q m. to_parent w.frames.0 m))
          ((w.frames.0, ground arith), FrameFits-mono marks marks' rest (grow) w.frames.1);
    reached = λ j s. elim (Bool-cases (id == j)) [
      | inl same ↦ subst_reach j ((==_iff id j).0 same)
      | inr other ↦ w.reached j (ground arith)
    ];
    pending = λ j a. elim (Bool-cases (id == j)) [
      | inl same ↦
          Memᴰ.append_right (map (λ p. enter p (some id)) (par id))
            (Memᴰ.head (sym_exit j ((==_iff id j).0 same)))
      | inr other ↦ Memᴰ.append_right (map (λ p. enter p (some id)) (par id)) (
          Memᴰ.tail (
            ⊎_elim (λ p. cc) (λ m. m)
              ((Memᴰ-cons (exit j) (enter id child) rest).0 (w.pending j (ground arith)))))
    ];
  }
    where
      marks' : Marks
      marks' = set_mark marks id active

      still : (j : ℕ) → marks j ≡ done → marks' j ≡ done
      still j d = ground arith

      was : (j : ℕ) → marks' j ≡ done → marks j ≡ done
      was j d = ground arith

      grow : (j : ℕ) → marks j ≢ unseen → marks' j ≢ unseen
      grow j k = ground arith

      subst_reach : (j : ℕ) → id ≡ j → Reach par heads j
      subst_reach j p = rw (← p) w.frames.0

      sym_exit : (j : ℕ) → id ≡ j → exit j ≡ exit id
      sym_exit j p = cc

  pub IsWalking-close :
      (id : ℕ) (marks : Marks) (rest : List Frame)
      → IsWalking marks (exit id ∷ rest)
      → IsWalking (set_mark marks id done) rest
  IsWalking-close id marks rest w = record {
    covers =
        Covers-mono par heads (λ j. (j ≡ id) ⊎ (marks j ≡ done)) (λ j. marks' j ≡ done) rest
          (λ j. ⊎_elim (λ p. ground arith) (still j)) w.covers.1;
    closed = λ g q d m. elim (Bool-cases (id == g)) [
      | inl same ↦ still q (w.covers.0 q (subst_mem g q ((==_iff id g).0 same) m))
      | inr other ↦ still q (w.closed g q (ground arith) m)
    ];
    frames = FrameFits-mono marks marks' rest grow w.frames.1;
    reached = λ j s. elim (Bool-cases (id == j)) [
      | inl same ↦ subst_reach j ((==_iff id j).0 same)
      | inr other ↦ w.reached j (ground arith)
    ];
    pending = λ j a.
        ⊎_elim (λ (p : exit j ≡ exit id). absurd (ground arith)) (λ m. m)
          ((Memᴰ-cons (exit j) (exit id) rest).0 (w.pending j (ground arith)));
  }
    where
      marks' : Marks
      marks' = set_mark marks id done

      still : (j : ℕ) → marks j ≡ done → marks' j ≡ done
      still j d = ground arith

      grow : (j : ℕ) → marks j ≢ unseen → marks' j ≢ unseen
      grow j k = ground arith

      subst_reach : (j : ℕ) → id ≡ j → Reach par heads j
      subst_reach j p = rw (← p) w.frames.0.0

      subst_mem : (g q : ℕ) → id ≡ g → Memᴰ q (par g) → Memᴰ q (par id)
      subst_mem g q p m = rw p m
