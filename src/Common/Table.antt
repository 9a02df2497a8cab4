-- ===== src/Common/Table.antt =====
-- A database table as the association list of its primary key and the rest of the row.
-- `insert` fails on a key that is present, as the primary key constraint does.
pub mod Unique
use Prim.Native.Nat.{ℕ}
use contextmesh_rs.Common.Tests.{Bytes, bytes_eq, bytes_eq_iff, ◌==◌, ==_iff, if◌then◌else◌}
use mathlib.Core.Path.{◌≡◌, refl, ap}
use mathlib.Core.Logic.{◌↔◌}
use mathlib.Core.Bool.{Bool, true, false, ◌&&◌}
use mathlib.Core.Option.{Option, none, some}
use mathlib.Core.List.{List, [], ◌∷◌}
use native.Mathlib.Omega.{arith}

-- The comparison of keys.
pub record Eq (K : Type 0) : Type 0 where
  pub beq : K → K → Bool
  pub beq_iff : (a b : K) → (beq a b ≡ true) ↔ (a ≡ b)

abbrev pub Table : Type 0 → Type 0 → Type 0
Table K V = List (K × V)

module _ {K : Type 0} ⦃e : Eq K⦄ where
  same_test : (test : K → Bool) (a b : K) → e.beq a b ≡ true → test a ≡ test b
  same_test test a b h = ap test ((e.beq_iff a b).0 h)

  pub beq_refl : (k : K) → e.beq k k ≡ true
  beq_refl k = (e.beq_iff k k).1 refl

module _ {K V : Type 0} ⦃e : Eq K⦄ where
  -- `SELECT … WHERE key = k`
  unfoldable pub lookup : K → Table K V → Option V
  lookup k [] = none
  lookup k ((j, v) ∷ t) = if e.beq j k then some v else lookup k t

  -- `INSERT`; `none` is the violated primary key.
  unfoldable pub insert : K → V → Table K V → Option (Table K V)
  unfolding lookup
  insert k v t = elim (lookup k t) [ none ↦ some ((k, v) ∷ t) | some _ ↦ none ]

  -- `DELETE … WHERE` a test of the key.
  unfoldable pub delete : (K → Bool) → Table K V → Table K V
  delete test [] = []
  delete test ((j, v) ∷ t) = let rest = delete test t in if test j then rest else (j, v) ∷ rest

  -- `INSERT … ON CONFLICT DO UPDATE`, and the `UPDATE` of one row by its key.
  unfoldable pub upsert : K → V → Table K V → Table K V
  unfolding delete
  upsert k v t = (k, v) ∷ delete (e.beq k) t

  pub lookup-delete :
      (test : K → Bool) (k : K) (t : Table K V)
      → lookup k (delete test t) ≡ (if test k then none else lookup k t)
  unfolding lookup delete
  lookup-delete test k [] = ground arith
  lookup-delete test k ((j, v) ∷ t) = ground (arith, lookup-delete test k t, same_test test j k)

  pub lookup-upsert :
      (k j : K) (v : V) (t : Table K V)
      → lookup j (upsert k v t) ≡ (if e.beq k j then some v else lookup j t)
  unfolding lookup upsert
  lookup-upsert k j v t = ground (arith, lookup-delete (e.beq k) j t)

  -- An insertion that succeeds met no row, and adds just its own.
  pub lookup-insert :
      (k j : K) (v : V) (t : Table K V) {u : Table K V}
      → insert k v t ≡ some u
      → lookup j u ≡ (if e.beq k j then some v else lookup j t)
  unfolding lookup insert
  lookup-insert k j v t h = ground arith

  pub insert-eq-some :
      (k : K) (v : V) (t : Table K V) {u : Table K V} → insert k v t ≡ some u → lookup k t ≡ none
  unfolding insert
  insert-eq-some k v t h = ground arith

  pub insert_fresh :
      (k : K) (v : V) (t : Table K V) → lookup k t ≡ none → insert k v t ≡ some ((k, v) ∷ t)
  unfolding insert
  insert_fresh k v t h = ground arith

instance abbrev pub id_eq : Eq ℕ
id_eq = record { beq = ◌==◌; beq_iff = ==_iff }

instance abbrev pub bytes_key : Eq Bytes
bytes_key = record { beq = bytes_eq; beq_iff = bytes_eq_iff }

-- A primary key of two columns.
module _ {A B : Type 0} ⦃a : Eq A⦄ ⦃b : Eq B⦄ where
  unfoldable pub pair_beq : A × B → A × B → Bool
  pair_beq (x, y) (x', y') = a.beq x x' && b.beq y y'

  pub pair_beq_iff : (p q : A × B) → (pair_beq p q ≡ true) ↔ (p ≡ q)
  unfolding pair_beq
  pair_beq_iff (x, y) (x', y') = ground (arith, a.beq_iff x x', b.beq_iff y y')

  instance abbrev pub pair_eq : Eq (A × B)
  pair_eq = record { beq = pair_beq; beq_iff = pair_beq_iff }
