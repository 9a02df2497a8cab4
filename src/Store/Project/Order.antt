-- ===== src/Store/Project/Order.antt =====
-- The order of a projection, independent of the code: each event once, after its parents.
use mathlib.Core.List.Memᴰ
use contextmesh_rs.Common.{
  ℕ, ◌≡◌, ◌⊎◌, inl, inr, ⊎_elim, ◌↔◌, List, [], ◌∷◌, ◌++◌, map, Memᴰ, Memᴰ-cons,
}
use contextmesh_rs.Event.Body.{SignedEvent}

abbrev pub ids : List SignedEvent → List ℕ
ids = map (λ (e : SignedEvent). e.event_id)

-- After the events in `before`, each event of the list is new and its parents are there.
abbrev pub ParentsFirst : (ℕ → Type 0) → List SignedEvent → Type 0
ParentsFirst before [] = Unit
ParentsFirst before (e ∷ es) =
    ((q : ℕ) → Memᴰ q e.body.parents → before q)
    × ((before e.event_id → ⊥) × ParentsFirst (λ j. (j ≡ e.event_id) ⊎ before j) es)

abbrev pub Nothing : ℕ → Type 0
Nothing _ = ⊥

pub Memᴰ-snoc :
    (j : ℕ) (es : List SignedEvent) (e : SignedEvent)
    → Memᴰ j (ids (es ++ (e ∷ []))) ↔ (Memᴰ j (ids es) ⊎ (j ≡ e.event_id))
Memᴰ-snoc j [] e = (
  λ m. ⊎_elim inr inl ((Memᴰ-cons j e.event_id []).0 m),
  ⊎_elim (λ m. absurd (Memᴰ.not-nil m)) (λ p. Memᴰ.head p),
)
Memᴰ-snoc j (x ∷ es) e = (
  λ m.
      ⊎_elim (λ p. inl (Memᴰ.head p))
        (λ n. ⊎_elim (λ n. inl (Memᴰ.tail n)) inr ((Memᴰ-snoc j es e).0 n))
        ((Memᴰ-cons j x.event_id (ids (es ++ (e ∷ [])))).0 m),
  ⊎_elim
      (λ m.
        ⊎_elim (λ p. Memᴰ.head p) (λ n. Memᴰ.tail ((Memᴰ-snoc j es e).1 (inl n)))
          ((Memᴰ-cons j x.event_id (ids es)).0 m))
      (λ p. Memᴰ.tail ((Memᴰ-snoc j es e).1 (inr p))),
)

pub ParentsFirst-snoc :
    (before : ℕ → Type 0) (es : List SignedEvent) (e : SignedEvent)
    → ParentsFirst before es
    → ((q : ℕ) → Memᴰ q e.body.parents → Memᴰ q (ids es) ⊎ before q)
    → (Memᴰ e.event_id (ids es) ⊎ before e.event_id → ⊥)
    → ParentsFirst before (es ++ (e ∷ []))
ParentsFirst-snoc before [] e h parents fresh =
    (λ q m. ⊎_elim (λ n. absurd (Memᴰ.not-nil n)) (λ b. b) (parents q m), (λ b. fresh (inr b), tt))
ParentsFirst-snoc before (x ∷ es) e h parents fresh = (
  h.0,
  (
    h.1.0,
    ParentsFirst-snoc (λ j. (j ≡ x.event_id) ⊎ before j) es e h.1.1
        (λ q m.
          ⊎_elim (λ n. ⊎_elim (λ p. inr (inl p)) inl ((Memᴰ-cons q x.event_id (ids es)).0 n))
            (λ b. inr (inr b)) (parents q m))
        (⊎_elim (λ n. fresh (inl (Memᴰ.tail n)))
          (⊎_elim (λ p. fresh (inl (Memᴰ.head p))) (λ b. fresh (inr b)))),
  ),
)
