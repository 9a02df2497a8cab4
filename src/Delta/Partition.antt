-- ===== src/Delta/Partition.antt =====
-- The partition of `delta_over` and the states of `from_closure` (src/delta.rs).
use mathlib.Core.List.Memᴰ
use contextmesh_rs.Common.{
  ℕ, ◌<◌, ◌≡◌, ap, sym, subst, inl, inr, ◌↔◌, true, false, Option, none, some, List, [], ◌∷◌, Memᴰ,
  Memᴰ-cons, arith, Bool-cases, contains, contains_iff, sort_dedup, IsAscending, AscendsFrom,
  sort_dedup-IsAscending, Memᴰ-sort_dedup, ok,
}
use contextmesh_rs.Delta.{
  RecipientState, DeltaReport, lacks_head, from_closure, partition, delta_over,
}

-- The specification: each selected event stands in exactly one of the two ascending lists, by whether
-- the recipient knows it.
pub record IsPartition (selected closure : List ℕ) (r : DeltaReport) : Type 0 where
  pub delta : (j : ℕ) → Memᴰ j r.delta ↔ (Memᴰ j selected × (Memᴰ j closure → ⊥))
  pub known : (j : ℕ) → Memᴰ j r.known ↔ (Memᴰ j selected × Memᴰ j closure)
  pub delta_order : IsAscending r.delta
  pub known_order : IsAscending r.known

Memᴰ-partition :
    (closure ids : List ℕ) (j : ℕ)
    → (Memᴰ j (partition closure ids).delta ↔ (Memᴰ j ids × (contains closure j ≡ false)))
      × (Memᴰ j (partition closure ids).known ↔ (Memᴰ j ids × (contains closure j ≡ true)))
unfolding partition
Memᴰ-partition closure [] j = (
  (λ m. absurd (Memᴰ.not-nil m), λ h. absurd (Memᴰ.not-nil h.0)),
  (λ m. absurd (Memᴰ.not-nil m), λ h. absurd (Memᴰ.not-nil h.0)),
)
Memᴰ-partition closure (x ∷ ids) j =
    let (d, k) = Memᴰ-partition closure ids j in
    let same : j ≡ x → contains closure j ≡ contains closure x = ap (contains closure) in
    let split = Memᴰ-cons j x ids in
    elim (Bool-cases (contains closure x)) [
      | inl here ↦
          rw here (ground (arith, d, k, same, split, Memᴰ-cons j x (partition closure ids).known))
      | inr away ↦
          rw away (ground (arith, d, k, same, split, Memᴰ-cons j x (partition closure ids).delta))
    ]

-- What precedes a list precedes both parts of it.
partition-AscendsFrom :
    (closure : List ℕ) (last : ℕ) (ids : List ℕ)
    → AscendsFrom last ids
    → AscendsFrom last (partition closure ids).delta
      × AscendsFrom last (partition closure ids).known
unfolding partition
partition-AscendsFrom closure last [] s = (tt, tt)
partition-AscendsFrom closure last (x ∷ ids) s = elim (Bool-cases (contains closure x)) [
  | inl here ↦ rw here (
    AscendsFrom_below last x (partition closure ids).delta s.0
        (partition-AscendsFrom closure x ids s.1).0,
    (s.0, (partition-AscendsFrom closure x ids s.1).1),
  )
  | inr away ↦ rw away (
    (s.0, (partition-AscendsFrom closure x ids s.1).0),
    AscendsFrom_below last x (partition closure ids).known s.0
        (partition-AscendsFrom closure x ids s.1).1,
  )
]
  where
    AscendsFrom_below :
        (last x : ℕ) (ys : List ℕ) → last < x → AscendsFrom x ys → AscendsFrom last ys
    AscendsFrom_below last x [] h s = tt
    AscendsFrom_below last x (y ∷ ys) h s = (omega (arith, h, s.0), s.1)

partition-IsAscending :
    (closure ids : List ℕ)
    → IsAscending ids
    → IsAscending (partition closure ids).delta × IsAscending (partition closure ids).known
unfolding partition
partition-IsAscending closure [] s = (tt, tt)
partition-IsAscending closure (x ∷ ids) s =
    let (d, k) = partition-AscendsFrom closure x ids s in
    elim (Bool-cases (contains closure x)) [
      | inl here ↦ rw here (drop_bound x (partition closure ids).delta d, k)
      | inr away ↦ rw away (d, drop_bound x (partition closure ids).known k)
    ]
  where
    drop_bound : (x : ℕ) (ys : List ℕ) → AscendsFrom x ys → IsAscending ys
    drop_bound x [] s = tt
    drop_bound x (y ∷ ys) s = s.1

-- `delta_over` splits the selected events, in ascending order and each once, into those that the
-- recipient's closure holds and those that it does not.
pub delta_over-IsPartition :
    (selected closure : List ℕ) → IsPartition selected closure (delta_over selected closure)
unfolding delta_over
delta_over-IsPartition selected closure =
    let ordered =
      partition-IsAscending (sort_dedup closure) (sort_dedup selected)
        (sort_dedup-IsAscending selected) in
    record {
      delta = λ j. ground (
        arith,
        (Memᴰ-partition (sort_dedup closure) (sort_dedup selected) j).0,
        Memᴰ-sort_dedup j selected,
        Memᴰ-sort_dedup j closure,
        contains_iff j (sort_dedup closure),
      );
      known = λ j. ground (
        arith,
        (Memᴰ-partition (sort_dedup closure) (sort_dedup selected) j).1,
        Memᴰ-sort_dedup j selected,
        Memᴰ-sort_dedup j closure,
        contains_iff j (sort_dedup closure),
      );
      delta_order = ordered.0;
      known_order = ordered.1;
    }

-- A head, when there is one, is in the list.
abbrev pub HeadInside : Option ℕ → List ℕ → Type 0
HeadInside none closure = Unit
HeadInside (some h) closure = Memᴰ h closure

lacks_head-HeadInside :
    (head : Option ℕ) (closure : List ℕ) → lacks_head head closure ≡ false → HeadInside head closure
unfolding lacks_head
lacks_head-HeadInside none closure e = tt
lacks_head-HeadInside (some h) closure e = (contains_iff h closure).0 (ground (arith, e))

-- A state that `from_closure` accepts has the stated events as its closure, in ascending order, and
-- the stated head, which is in the closure when there is one.
pub from_closure-IsAscending :
    (context : ℕ) (head : Option ℕ) (stated : List ℕ) (total : ℕ) (state : RecipientState)
    → from_closure context head stated total ≡ ok state
    → IsAscending state.closure
      × ((j : ℕ) → Memᴰ j state.closure ↔ Memᴰ j stated)
      × (state.head ≡ head)
      × HeadInside head state.closure
unfolding from_closure
from_closure-IsAscending context head stated total state h =
    let closure : state.closure ≡ sort_dedup stated = ground (arith, h) in
    let there = lacks_head-HeadInside head (sort_dedup stated) (ground (arith, h)) in
    (
      rw closure (sort_dedup-IsAscending stated),
      λ j. rw closure (Memᴰ-sort_dedup j stated),
      ground (arith, h),
      subst (HeadInside head) (sym closure) there,
    )
