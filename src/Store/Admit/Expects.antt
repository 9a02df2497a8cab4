-- ===== src/Store/Admit/Expects.antt =====
-- What an admission leaves of the authors and of the contexts' expectations (`admit`, src/store.rs).
use contextmesh_rs.Common.{
  ℕ, ◌≡◌, refl, sym, ◌∙◌, subst, ap, inl, inr, Bool, some, arith, ◌==◌, ==_iff, Bool-cases, ok,
}
use contextmesh_rs.Common.Table.{id_eq, bytes_key, pair_eq, lookup, lookup-upsert}
use contextmesh_rs.Event.Body.{Libraries}
use contextmesh_rs.Store.State.{Db, ContextRow}
use contextmesh_rs.Store.Refs.{RefMutation, no_move, compare_and_swap, apply_ref_mutation}
use contextmesh_rs.Store.Refs.Swap.{apply_ref_mutation-Moved}
use contextmesh_rs.Store.Admit.{activate_pending, activate}
use contextmesh_rs.Store.Admit.Stages.{activate-eq-ok}

-- The authors are the same, and every context expects the genesis that it did.
pub record Expects (db db' : Db) : Type 0 where
  pub authors : db'.authors ≡ db.authors
  pub contexts :
      (c : ℕ) (r : ContextRow)
      → lookup c db.contexts ≡ some r
      → (r' : ContextRow) × (lookup c db'.contexts ≡ some r')
        × (r'.expected_genesis ≡ r.expected_genesis)

pub Expects-refl : (db : Db) → Expects db db
Expects-refl db = record { authors = refl; contexts = λ c r h. (r, h, refl) }

pub Expects-trans : (a b c : Db) → Expects a b → Expects b c → Expects a c
Expects-trans a b c x y = record {
  authors = y.authors ∙ x.authors;
  contexts = λ k r h.
      let (s, l, e) = x.contexts k r h in let (t, m, f) = y.contexts k s l in (t, m, f ∙ e);
}

pub Expects-same : (a b : Db) → b.authors ≡ a.authors → b.contexts ≡ a.contexts → Expects a b
Expects-same a b authors contexts = record {
  authors = authors;
  contexts = λ c r h. (r, rw contexts h, refl);
}

module _ (lib : Libraries) where
  pub activate-Expects : (id c : ℕ) (db db' : Db) → activate id c db ≡ ok db' → Expects db db'
  activate-Expects id c db db' h =
      let (r, found, genesis, result) = activate-eq-ok lib id c db db' h in
      subst (Expects db) (sym result) (record {
        authors = refl;
        contexts = λ k x l. elim (Bool-cases (c == k)) [
          | inl same ↦
              let x_is_r : r ≡ x =
                ground (arith, found, l, ap (λ i. lookup i db.contexts) ((==_iff c k).0 same)) in
              (
                made r,
                lookup-upsert c k (made r) db.contexts ∙ rw same refl,
                ap (λ (y : ContextRow). y.expected_genesis) x_is_r,
              )
          | inr other ↦ (x, lookup-upsert c k (made r) db.contexts ∙ rw other l, refl)
        ];
      })
    where
      made : ContextRow → ContextRow
      made r = record r { genesis = some id; state = 1 }

  pub activate_pending-Expects :
      (state id c : ℕ) (db db' : Db) → activate_pending lib state id c db ≡ ok db' → Expects db db'
  unfolding activate_pending
  activate_pending-Expects state id c db db' h = elim (Bool-cases (state == 0)) [
    | inl pending ↦ activate-Expects id c db db' (rw pending at h)
    | inr running ↦ subst (Expects db) (ground (arith, rw running at h)) (Expects-refl db)
  ]

  pub apply-Expects :
      (id : ℕ) (m : RefMutation) (db db' : Db) (already : Bool)
      → apply_ref_mutation id m db ≡ ok (already, db')
      → Expects db db'
  unfolding apply_ref_mutation
  apply-Expects id no_move db db' already h =
      subst (Expects db) (ground (arith, h)) (Expects-refl db)
  apply-Expects id (compare_and_swap c n expected new_head) db db' already h =
      elim (apply_ref_mutation-Moved id c n expected new_head db db' already h) [
        | inl (_, _, same) ↦ subst (Expects db) (sym same) (Expects-refl db)
        | inr (_, _, moved) ↦
            subst (Expects db) (sym moved.result)
              (Expects-same db (record db { local_refs = moved.refs }) refl refl)
      ]
