-- ===== src/Common/Sorted.antt =====
-- `sort()` and `dedup()` on identifiers, and what they promise together.
use Prim.Native.Nat.{ℕ, suc, ◌≤◌, ◌<◌}
use mathlib.Core.Path.{◌≡◌, refl, ap₂, sym, subst}
use mathlib.Core.Logic.{◌↔◌, ◌⊎◌}
use mathlib.Core.Bool.{Bool, false, ◌||◌}
use mathlib.Core.List.{List, [], ◌∷◌, Memᴰ}
use mathlib.Core.List.Memᴰ
use native.Mathlib.Omega.{arith}
use contextmesh_rs.Common.Tests.{◌==◌, leb, if◌then◌else◌}
use contextmesh_rs.Common.Lists.{length, Memᴰ-cons}

insert_sorted : ℕ → List ℕ → List ℕ
insert_sorted a [] = a ∷ []
insert_sorted a (x ∷ xs) = let rest = insert_sorted a xs in if leb a x then a ∷ x ∷ xs else x ∷ rest

unfoldable pub sort : List ℕ → List ℕ
unfolding insert_sorted
sort [] = []
sort (x ∷ xs) = insert_sorted x (sort xs)

-- `dedup`: of neighbours that are equal the first is kept. `last` is the member kept last.
dedup_after : ℕ → List ℕ → List ℕ
dedup_after last [] = []
dedup_after last (x ∷ xs) =
    let rest = dedup_after last xs in
    let kept = x ∷ dedup_after x xs in if x == last then rest else kept

unfoldable pub dedup : List ℕ → List ℕ
unfolding dedup_after
dedup [] = []
dedup (x ∷ xs) = x ∷ dedup_after x xs

-- `values.sort(); values.dedup()`
unfoldable pub sort_dedup : List ℕ → List ℕ
unfolding sort dedup
sort_dedup xs = dedup (sort xs)

-- `.windows(2).any(|pair| pair[0] >= pair[1])`
unfoldable pub out_of_order : List ℕ → Bool
out_of_order [] = false
out_of_order (x ∷ []) = false
out_of_order (x ∷ y ∷ rest) = leb y x || out_of_order (y ∷ rest)

-- `.windows(2).any(|pair| pair[0] == pair[1])`
unfoldable pub has_repeat : List ℕ → Bool
has_repeat [] = false
has_repeat (x ∷ []) = false
has_repeat (x ∷ y ∷ rest) = x == y || has_repeat (y ∷ rest)

-- `last` lies below all of the list, which ascends strictly.
abbrev pub AscendsFrom : ℕ → List ℕ → Type 0
AscendsFrom last [] = Unit
AscendsFrom last (x ∷ xs) = (last < x) × AscendsFrom x xs

abbrev pub IsAscending : List ℕ → Type 0
IsAscending [] = Unit
IsAscending (x ∷ xs) = AscendsFrom x xs

abbrev SortedFrom : ℕ → List ℕ → Type 0
SortedFrom last [] = Unit
SortedFrom last (x ∷ xs) = (last ≤ x) × SortedFrom x xs

abbrev IsSorted : List ℕ → Type 0
IsSorted [] = Unit
IsSorted (x ∷ xs) = SortedFrom x xs

SortedFrom-insert :
    (last a : ℕ) (xs : List ℕ)
    → last ≤ a
    → SortedFrom last xs
    → SortedFrom last (insert_sorted a xs)
unfolding insert_sorted
SortedFrom-insert last a [] h s = (h, tt)
SortedFrom-insert last a (x ∷ xs) h s = ground (arith, SortedFrom-insert x a xs)

SortedFrom-zero : (xs : List ℕ) → IsSorted xs ↔ SortedFrom 0 xs
SortedFrom-zero [] = (λ s. tt, λ s. tt)
SortedFrom-zero (x ∷ xs) = (λ s. (omega arith, s), λ s. s.1)

sort-IsSorted : (xs : List ℕ) → SortedFrom 0 (sort xs)
unfolding sort
sort-IsSorted [] = tt
sort-IsSorted (x ∷ xs) = SortedFrom-insert 0 x (sort xs) (omega arith) (sort-IsSorted xs)

dedup_after-Ascends :
    (last : ℕ) (xs : List ℕ) → SortedFrom last xs → AscendsFrom last (dedup_after last xs)
unfolding dedup_after
dedup_after-Ascends last [] s = tt
dedup_after-Ascends last (x ∷ xs) s =
    ground (arith, dedup_after-Ascends x xs, dedup_after-Ascends last xs)

Memᴰ-insert : (b a : ℕ) (xs : List ℕ) → Memᴰ b (insert_sorted a xs) ↔ ((b ≡ a) ⊎ Memᴰ b xs)
unfolding insert_sorted
Memᴰ-insert b a [] = Memᴰ-cons b a []
Memᴰ-insert b a (x ∷ xs) = ground (
  arith,
  Memᴰ-insert b a xs,
  Memᴰ-cons b a (x ∷ xs),
  Memᴰ-cons b x xs,
  Memᴰ-cons b x (insert_sorted a xs),
)

Memᴰ-sort : (b : ℕ) (xs : List ℕ) → Memᴰ b (sort xs) ↔ Memᴰ b xs
unfolding sort
Memᴰ-sort b [] = (λ m. m, λ m. m)
Memᴰ-sort b (x ∷ xs) = ground (arith, Memᴰ-sort b xs, Memᴰ-insert b x (sort xs), Memᴰ-cons b x xs)

Memᴰ-dedup_after :
    (b last : ℕ) (xs : List ℕ)
    → ((b ≡ last) ⊎ Memᴰ b (dedup_after last xs)) ↔ ((b ≡ last) ⊎ Memᴰ b xs)
unfolding dedup_after
Memᴰ-dedup_after b last [] = (λ h. h, λ h. h)
Memᴰ-dedup_after b last (x ∷ xs) = ground (
  arith,
  Memᴰ-dedup_after b last xs,
  Memᴰ-dedup_after b x xs,
  Memᴰ-cons b x xs,
  Memᴰ-cons b x (dedup_after x xs),
)

Memᴰ-dedup : (b : ℕ) (xs : List ℕ) → Memᴰ b (dedup xs) ↔ Memᴰ b xs
unfolding dedup
Memᴰ-dedup b [] = (λ m. m, λ m. m)
Memᴰ-dedup b (x ∷ xs) =
    ground (arith, Memᴰ-dedup_after b x xs, Memᴰ-cons b x xs, Memᴰ-cons b x (dedup_after x xs))

dedup-IsAscending : (xs : List ℕ) → IsSorted xs → IsAscending (dedup xs)
unfolding dedup
dedup-IsAscending [] s = tt
dedup-IsAscending (x ∷ xs) s = dedup_after-Ascends x xs s

pub sort_dedup-IsAscending : (xs : List ℕ) → IsAscending (sort_dedup xs)
unfolding sort_dedup
sort_dedup-IsAscending xs =
    dedup-IsAscending (sort xs) ((SortedFrom-zero (sort xs)).1 (sort-IsSorted xs))

pub Memᴰ-sort_dedup : (b : ℕ) (xs : List ℕ) → Memᴰ b (sort_dedup xs) ↔ Memᴰ b xs
unfolding sort_dedup
Memᴰ-sort_dedup b xs = ground (arith, Memᴰ-dedup b (sort xs), Memᴰ-sort b xs)

length-insert : (a : ℕ) (xs : List ℕ) → length (insert_sorted a xs) ≡ suc (length xs)
unfolding insert_sorted
length-insert a [] = refl
length-insert a (x ∷ xs) = ground (arith, length-insert a xs)

length-sort : (xs : List ℕ) → length (sort xs) ≡ length xs
unfolding sort
length-sort [] = refl
length-sort (x ∷ xs) = ground (arith, length-sort xs, length-insert x (sort xs))

length-dedup_after : (last : ℕ) (xs : List ℕ) → length (dedup_after last xs) ≤ length xs
unfolding dedup_after
length-dedup_after last [] = omega arith
length-dedup_after last (x ∷ xs) =
    ground (arith, length-dedup_after last xs, length-dedup_after x xs)

length-dedup : (xs : List ℕ) → length (dedup xs) ≤ length xs
unfolding dedup
length-dedup [] = omega arith
length-dedup (x ∷ xs) = omega (arith, length-dedup_after x xs)

pub length-sort_dedup : (xs : List ℕ) → length (sort_dedup xs) ≤ length xs
unfolding sort_dedup
length-sort_dedup xs = omega (arith, length-dedup (sort xs), length-sort xs)

pub out_of_order-IsAscending : (xs : List ℕ) → out_of_order xs ≡ false → IsAscending xs
unfolding out_of_order
out_of_order-IsAscending [] h = tt
out_of_order-IsAscending (x ∷ []) h = tt
out_of_order-IsAscending (x ∷ y ∷ rest) h = ground (arith, out_of_order-IsAscending (y ∷ rest))

-- Members of an ascending list lie above its lower end.
pub AscendsFrom-lt : (last b : ℕ) (xs : List ℕ) → AscendsFrom last xs → Memᴰ b xs → last < b
AscendsFrom-lt last b [] s m = absurd (Memᴰ.not-nil m)
AscendsFrom-lt last b (x ∷ xs) s m = ground (arith, AscendsFrom-lt x b xs, Memᴰ-cons b x xs)

-- An ascending list is determined by its members.
AscendsFrom-unique :
    (last : ℕ) (xs ys : List ℕ)
    → AscendsFrom last xs
    → AscendsFrom last ys
    → ((b : ℕ) → Memᴰ b xs ↔ Memᴰ b ys)
    → xs ≡ ys
AscendsFrom-unique last [] [] s t same = refl
AscendsFrom-unique last [] (y ∷ ys) s t same = absurd (Memᴰ.not-nil ((same y).1 (Memᴰ.head refl)))
AscendsFrom-unique last (x ∷ xs) [] s t same = absurd (Memᴰ.not-nil ((same x).0 (Memᴰ.head refl)))
AscendsFrom-unique last (x ∷ xs) (y ∷ ys) s t same =
    let heads : x ≡ y = ground (
      arith,
      same x,
      same y,
      Memᴰ-cons x x xs,
      Memᴰ-cons y x xs,
      Memᴰ-cons x y ys,
      Memᴰ-cons y y ys,
      AscendsFrom-lt x y xs,
      AscendsFrom-lt y x ys,
    ) in
    let tails : xs ≡ ys =
      AscendsFrom-unique x xs ys s.1 (subst (λ z. AscendsFrom z ys) (sym heads) t.1) λ b. ground (
        arith,
        same b,
        Memᴰ-cons b x xs,
        Memᴰ-cons b y ys,
        AscendsFrom-lt x b xs,
        AscendsFrom-lt y b ys,
      ) in
    ap₂ ◌∷◌ heads tails

pub IsAscending-unique :
    (xs ys : List ℕ) → IsAscending xs → IsAscending ys → ((b : ℕ) → Memᴰ b xs ↔ Memᴰ b ys) → xs ≡ ys
IsAscending-unique [] [] s t same = refl
IsAscending-unique [] (y ∷ ys) s t same = absurd (Memᴰ.not-nil ((same y).1 (Memᴰ.head refl)))
IsAscending-unique (x ∷ xs) [] s t same = absurd (Memᴰ.not-nil ((same x).0 (Memᴰ.head refl)))
IsAscending-unique (x ∷ xs) (y ∷ ys) s t same =
    let heads : x ≡ y = ground (
      arith,
      same x,
      same y,
      Memᴰ-cons x x xs,
      Memᴰ-cons y x xs,
      Memᴰ-cons x y ys,
      Memᴰ-cons y y ys,
      AscendsFrom-lt x y xs,
      AscendsFrom-lt y x ys,
    ) in
    let tails : xs ≡ ys =
      AscendsFrom-unique x xs ys s (subst (λ z. AscendsFrom z ys) (sym heads) t) λ b. ground (
        arith,
        same b,
        Memᴰ-cons b x xs,
        Memᴰ-cons b y ys,
        AscendsFrom-lt x b xs,
        AscendsFrom-lt y b ys,
      ) in
    ap₂ ◌∷◌ heads tails
