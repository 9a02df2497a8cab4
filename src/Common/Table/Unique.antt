-- ===== src/Common/Table/Unique.antt =====
-- Tables with one row for each key, and their sizes.
use contextmesh_rs.Common.Tests.{Bool-cases}
use contextmesh_rs.Common.Lists.{length}
use contextmesh_rs.Common.Table.{Eq, Table, lookup, delete, upsert, lookup-delete}
use Prim.Native.Nat.{suc}
use mathlib.Core.Path.{◌≡◌, refl, ap, sym, subst}
use mathlib.Core.Logic.{inl, inr}
use mathlib.Core.Bool.{false}
use mathlib.Core.Option.{none, some}
use mathlib.Core.List.{[], ◌∷◌}
use native.Mathlib.Omega.{arith}

module _ {K V : Type 0} ⦃e : Eq K⦄ where
  abbrev pub IsUnique : Table K V → Type 0
  IsUnique [] = Unit
  IsUnique ((k, v) ∷ t) = (lookup k t ≡ none) × IsUnique t

  pub delete_absent : (k : K) (t : Table K V) → lookup k t ≡ none → delete (e.beq k) t ≡ t
  unfolding lookup delete
  delete_absent k [] h = refl
  delete_absent k ((j, v) ∷ t) h = ground (arith, delete_absent k t, e.beq_iff k j, e.beq_iff j k)

  pub length-upsert_fresh :
      (k : K) (v : V) (t : Table K V) → lookup k t ≡ none → length (upsert k v t) ≡ suc (length t)
  unfolding upsert
  length-upsert_fresh k v t h = rw (delete_absent k t h) refl

  pub IsUnique-delete : (k : K) (t : Table K V) → IsUnique t → IsUnique (delete (e.beq k) t)
  unfolding delete
  IsUnique-delete k [] u = tt
  IsUnique-delete k ((j, v) ∷ t) u = elim (Bool-cases (e.beq k j)) [
    | inl gone ↦ rw gone (IsUnique-delete k t u.1)
    | inr kept ↦ rw kept (absent k j t kept u.0, IsUnique-delete k t u.1)
  ]
    where
      absent :
          (k j : K) (t : Table K V)
          → e.beq k j ≡ false
          → lookup j t ≡ none
          → lookup j (delete (e.beq k) t) ≡ none
      absent k j t kept h = ground (arith, lookup-delete (e.beq k) j t, h)

  pub IsUnique-upsert : (k : K) (v : V) (t : Table K V) → IsUnique t → IsUnique (upsert k v t)
  unfolding upsert
  IsUnique-upsert k v t u =
      (ground (arith, lookup-delete (e.beq k) k t, (e.beq_iff k k).1 refl), IsUnique-delete k t u)

  pub length-delete :
      (k : K) (v : V) (t : Table K V)
      → IsUnique t
      → lookup k t ≡ some v
      → suc (length (delete (e.beq k) t)) ≡ length t
  unfolding delete lookup
  length-delete k v [] u h = cc
  length-delete k v ((j, w) ∷ t) u h = elim (Bool-cases (e.beq k j)) [
    | inl here ↦
        let same : lookup k t ≡ none =
          subst (λ i. lookup i t ≡ none) (sym ((e.beq_iff k j).0 here)) u.0 in
        rw here (ap suc (ap length (delete_absent k t same)))
    | inr further ↦ ground (arith, length-delete k v t, e.beq_iff j k, e.beq_iff k j)
  ]
