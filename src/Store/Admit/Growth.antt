-- ===== src/Store/Admit/Growth.antt =====
-- How the content of the database grows in the stages of an admission (`admit`, src/store.rs).
use contextmesh_rs.Common.{ℕ, ◌≡◌, refl, sym, ◌∙◌, subst, inl, inr, Bytes, Bool-cases, ok}
use contextmesh_rs.Common.Table.{id_eq, bytes_key, pair_eq}
use contextmesh_rs.Event.Body.{Libraries, SignedEvent}
use contextmesh_rs.Store.State.{Db}
use contextmesh_rs.Store.Invariant.{Contains, Extends}
use contextmesh_rs.Store.Invariant.Tables.{Contains-same}
use contextmesh_rs.Store.Invariant.Growth.{Extends-rows}
use contextmesh_rs.Store.Refs.Swap.{Moved}
use contextmesh_rs.Store.Admit.{activate}
use contextmesh_rs.Store.Admit.Stages.{Placed, activate-eq-ok}
use contextmesh_rs.Store.Admit.Expects.{activate-Expects}

pub Placed-Extends : (lib : Libraries) (e : SignedEvent) (a b : Db) → Placed lib e a b → Extends a b
Placed-Extends lib e a b p = Extends-rows a b p.extends p.authors p.contexts p.local_refs

pub activate-Extends :
    (lib : Libraries) (id c : ℕ) (db db' : Db) → activate id c db ≡ ok db' → Extends db db'
activate-Extends lib id c db db' h =
    let (r, _, _, result) = activate-eq-ok lib id c db db' h in
    let x = activate-Expects lib id c db db' h in
    record {
      rows = subst (Contains db) (sym result) (Contains-same db _ refl refl);
      authors = λ k u a. rw (x.authors) a;
      contexts = x.contexts;
      branches = λ k h' a. (h', rw (result) a);
    }

-- The branch that moved is there at its new head, the others as they were.
pub Moved-Extends :
    (db db' : Db) (c : ℕ) (n : Bytes) (id : ℕ) → Moved db db' c n id → Extends db db'
Moved-Extends db db' c n id m = subst (Extends db) (sym m.result) (record {
  rows = Contains-same db (record db { local_refs = m.refs }) refl refl;
  authors = λ k u a. a;
  contexts = λ d r a. (r, a, refl);
  branches = λ k h a. elim (Bool-cases (pair_eq.beq (c, n) k)) [
    | inl same ↦ (id, m.others k.0 k.1 ∙ rw same refl)
    | inr other ↦ (h, m.others k.0 k.1 ∙ rw other a)
  ];
})
