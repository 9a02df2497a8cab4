-- ===== src/Store/Invariant/Growth.antt =====
-- How the content of the database grows under a change of one table.
use contextmesh_rs.Common.{ℕ, ◌≡◌, refl, ◌∙◌, subst, inl, inr, none, some, Bool-cases}
use contextmesh_rs.Common.Table.{
  Table, Eq, id_eq, bytes_key, pair_eq, lookup, insert, lookup-insert, insert-eq-some,
}
use contextmesh_rs.Store.State.{Db, ContextRow}
use contextmesh_rs.Store.Invariant.{Contains, Extends}
use contextmesh_rs.Store.Invariant.Tables.{Contains-refl, Contains-trans, Contains-same}

-- An insertion leaves the other rows.
pub insertion-keeps :
    {K V : Type 0} ⦃e : Eq K⦄ (k j : K) (v w : V) (t : Table K V) {u : Table K V}
    → insert k v t ≡ some u
    → lookup j t ≡ some w
    → lookup j u ≡ some w
insertion-keeps ⦃e⦄ k j v w t h l = elim (Bool-cases (e.beq k j)) [
  | inl same ↦
      let gone : lookup j t ≡ none =
        subst (λ i. lookup i t ≡ none) ((e.beq_iff k j).0 same) (insert-eq-some k v t h) in
      cc (gone, l)
  | inr other ↦ lookup-insert k j v t h ∙ rw other l
]

-- A change of the remote refs only, and of the tables of events and edges.
pub Extends-rows :
    (a b : Db)
    → Contains a b
    → b.authors ≡ a.authors
    → b.contexts ≡ a.contexts
    → b.local_refs ≡ a.local_refs
    → Extends a b
Extends-rows a b rows f g l = record {
  rows = rows;
  authors = λ k u h. rw f h;
  contexts = λ c r h. (r, rw g h, refl);
  branches = λ k h e. (h, rw l e);
}

pub Extends-refl : (db : Db) → Extends db db
Extends-refl db = Extends-rows db db (Contains-refl db) refl refl refl

pub Extends-trans : {a b c : Db} → Extends a b → Extends b c → Extends a c
Extends-trans x y = record {
  rows = Contains-trans x.rows y.rows;
  authors = λ k u h. y.authors k u (x.authors k u h);
  contexts = λ c r h.
      let (s, at, same) = x.contexts c r h in
      let (t, there, also) = y.contexts c s at in (t, there, also ∙ same);
  branches = λ k h e. let (i, at) = x.branches k h e in y.branches k i at;
}

-- A new author.
pub Extends-authors :
    (db : Db) (k : ℕ × ℕ) (rows : Table (ℕ × ℕ) (Unit {0}))
    → insert k tt db.authors ≡ some rows
    → Extends db (record db { authors = rows })
Extends-authors db k rows new = record {
  rows = Contains-same db (record db { authors = rows }) refl refl;
  authors = λ j u h. insertion-keeps k j tt u db.authors new h;
  contexts = λ c r h. (r, h, refl);
  branches = λ j h e. (h, e);
}

-- A new context.
pub Extends-contexts :
    (db : Db) (c : ℕ) (row : ContextRow) (rows : Table ℕ ContextRow)
    → insert c row db.contexts ≡ some rows
    → Extends db (record db { contexts = rows })
Extends-contexts db c row rows new = record {
  rows = Contains-same db (record db { contexts = rows }) refl refl;
  authors = λ k u h. h;
  contexts = λ d r h. (r, insertion-keeps c d row r db.contexts new h, refl);
  branches = λ k h e. (h, e);
}
