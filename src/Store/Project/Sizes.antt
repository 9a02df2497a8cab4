-- ===== src/Store/Project/Sizes.antt =====
-- The length of the wires of the events that `project_on` (src/store/dag.rs) holds.
use contextmesh_rs.Common.{
  ℕ, ◌+◌, ◌≡◌, refl, ap, sym, subst, none, some, List, [], ◌∷◌, ◌++◌, arith, inl, inr, Bool-cases,
  length, ok, err, ◌==◌, ==_iff,
}
use contextmesh_rs.Common.Table.{Table, id_eq, lookup, upsert, delete, beq_refl}
use contextmesh_rs.Common.Table.Unique.{IsUnique, delete_absent}
use contextmesh_rs.Event.Body.{SignedEvent, Libraries}
use contextmesh_rs.Event.Wire.{to_wire}

-- A table in which nothing is found has no row.
pub nothing_found :
    {V : Type 0} (t : Table ℕ V) → ((j : ℕ) (v : V) → lookup j t ≡ some v → ⊥) → t ≡ []
unfolding lookup
nothing_found [] h = refl
nothing_found ((k, v) ∷ t) h = absurd (h k v (rw (beq_refl k) refl))

module _ (lib : Libraries) where
  -- The length of the canonical wire of an event, 0 where it has none.
  abbrev pub wire_size : SignedEvent → ℕ
  wire_size e = elim (to_wire lib e) [ err x ↦ 0 | ok w ↦ length w ]

  unfoldable pub total_wire : List SignedEvent → ℕ
  total_wire [] = 0
  total_wire (e ∷ es) = wire_size e + total_wire es

  unfoldable pub held_wire : Table ℕ SignedEvent → ℕ
  held_wire [] = 0
  held_wire ((k, e) ∷ t) = wire_size e + held_wire t

  pub total_wire-snoc :
      (es : List SignedEvent) (e : SignedEvent)
      → total_wire (es ++ (e ∷ [])) ≡ total_wire es + wire_size e
  unfolding total_wire
  total_wire-snoc [] e = omega arith
  total_wire-snoc (x ∷ es) e = omega (arith, total_wire-snoc es e)

  pub held_wire-upsert :
      (k : ℕ) (e : SignedEvent) (t : Table ℕ SignedEvent)
      → lookup k t ≡ none
      → held_wire (upsert k e t) ≡ wire_size e + held_wire t
  unfolding upsert held_wire
  held_wire-upsert k e t fresh = rw (delete_absent k t fresh) refl

  pub held_wire-delete :
      (k : ℕ) (e : SignedEvent) (t : Table ℕ SignedEvent)
      → IsUnique t
      → lookup k t ≡ some e
      → wire_size e + held_wire (delete (λ j. k == j) t) ≡ held_wire t
  unfolding delete lookup held_wire
  held_wire-delete k e [] u h = cc
  held_wire-delete k e ((j, x) ∷ t) u h = elim (Bool-cases (k == j)) [
    | inl here ↦
        let same : k ≡ j = (==_iff k j).0 here in
        let absent : lookup k t ≡ none = subst (λ i. lookup i t ≡ none) (sym same) u.0 in
        let is_e : x ≡ e = ground (arith, h, here, ==_iff j k) in
        rw (here, delete_absent k t absent) (ap (λ y. wire_size y + held_wire t) (sym is_e))
    | inr further ↦
        let rest : lookup k t ≡ some e = ground (arith, h, further, ==_iff j k, ==_iff k j) in
        rw further (omega (arith, held_wire-delete k e t u.1 rest))
  ]
