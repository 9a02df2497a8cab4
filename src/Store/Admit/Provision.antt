-- ===== src/Store/Admit/Provision.antt =====
-- The invariant under provisioning, joining and authorization (src/store.rs, src/store/dag.rs).
use contextmesh_rs.Common.{
  ℕ, ◌≡◌, refl, subst, inl, inr, Bool, Option, none, some, List, [], ◌∷◌, arith, Option-cases, ok,
  ok_or, >>=-eq-ok,
}
use contextmesh_rs.Common.Table.{Table, id_eq, pair_eq, lookup, insert}
use contextmesh_rs.Event.Body.{Libraries}
use contextmesh_rs.Store.State.{
  Db, ContextRow, Commit, write, database_unavailable, context_unknown,
}
use contextmesh_rs.Store.Transaction.{write-keeps}
use contextmesh_rs.Store.Invariant.{RowIsSound, IsConsistent, Extends}
use contextmesh_rs.Store.Invariant.Tables.{
  Stored-Contains, Contains-same, set_contexts, set_authors, IsActive-same,
}
use contextmesh_rs.Store.Rows.{validate_authors, context_row}
use contextmesh_rs.Store.Admit.{
  insert_context, insert_authors, provision_new, provision_at, join_at, provision_context_tx,
  join_context_tx, authorize_author_tx,
}
use contextmesh_rs.Store.Invariant.Growth.{
  Extends-refl, Extends-trans, Extends-authors, Extends-contexts,
}
use contextmesh_rs.Store.Admit.Insert.{insert-keeps, insert-found}

module _ (lib : Libraries) where
  -- Consistent, and nothing that was stored is lost.
  abbrev pub Grows : Db → Db → Type 0
  Grows db db' = IsConsistent lib db' × Extends db db'

  pub insert_context-Grows :
      (c expected : ℕ) (db db' : Db)
      → IsConsistent lib db
      → insert_context c expected db ≡ ok db'
      → Grows db db'
  unfolding insert_context
  insert_context-Grows c expected db db' k h =
      let (rows, i, last) =
        >>=-eq-ok (ok_or (insert c pending db.contexts) database_unavailable) _ h in
      let new : insert c pending db.contexts ≡ some rows = ground (arith, i) in
      subst (Grows db) (ground (arith, last)) (
        record {
          sound = set_contexts lib db rows (fits rows new) k.sound;
          live = record {
            active = λ id e s.
                let (r, l, one) = k.live.active id e (
                  Stored-Contains lib (Contains-same (record db { contexts = rows }) db refl refl)
                    s) in
                (r, insert-keeps c e.body.context pending r db.contexts new l, one);
          };
        },
        Extends-contexts db c pending rows new,
      )
    where
      pending : ContextRow
      pending = record { expected_genesis = expected; genesis = none; state = 0 }

      fits :
          (rows : Table ℕ ContextRow)
          → insert c pending db.contexts ≡ some rows
          → (j : ℕ) (r : ContextRow) → lookup j rows ≡ some r
          → RowIsSound lib r
      fits rows new j r l = elim (insert-found c j pending r db.contexts new l) [
        | inl (_, is_new) ↦ subst (RowIsSound lib) is_new (inl (refl, refl))
        | inr (_, old) ↦ k.sound.contexts j r old
      ]

  authors_changed :
      (db : Db) (rows : Table (ℕ × ℕ) (Unit {0}))
      → IsConsistent lib db
      → IsConsistent lib (record db { authors = rows })
  authors_changed db rows k = record {
    sound = set_authors lib db rows k.sound;
    live = IsActive-same lib db (record db { authors = rows }) refl refl refl k.live;
  }

  pub insert_authors-Grows :
      (c : ℕ) (authors : List ℕ) (db db' : Db)
      → IsConsistent lib db
      → insert_authors c authors db ≡ ok db'
      → Grows db db'
  unfolding insert_authors
  insert_authors-Grows c [] db db' k h = subst (Grows db) (ground arith) (k, Extends-refl db)
  insert_authors-Grows c (a ∷ others) db db' k h =
      let (rows, i, rest) =
        >>=-eq-ok (ok_or (insert (c, a) tt db.authors) database_unavailable) _ h in
      let (all, grows) =
        insert_authors-Grows c others (record db { authors = rows }) db' (authors_changed db rows k)
          rest in
      (all, Extends-trans (Extends-authors db (c, a) rows (ground (arith, i))) grows)

  provision_new-Grows :
      (c expected : ℕ) (authors : List ℕ) (db db' : Db) (u : Unit {0})
      → IsConsistent lib db
      → provision_new c expected authors db ≡ ok (u, db')
      → Grows db db'
  unfolding provision_new
  provision_new-Grows c expected authors db db' u k h =
      let (a, i, h₁) = >>=-eq-ok (insert_context c expected db) _ h in
      let (b, j, last) = >>=-eq-ok (insert_authors c authors a) _ h₁ in
      let (all, grows) = insert_context-Grows c expected db a k i in
      let (all', grows') = insert_authors-Grows c authors a b all j in
      subst (Grows db) (ground (arith, last)) (all', Extends-trans grows grows')

  provision_at-Grows :
      (c expected : ℕ) (authors : List ℕ) (found : Option (ℕ × ℕ)) (db db' : Db) (u : Unit {0})
      → IsConsistent lib db
      → provision_at c expected authors found db ≡ ok (u, db')
      → Grows db db'
  unfolding provision_at
  provision_at-Grows c expected authors none db db' u k h =
      provision_new-Grows c expected authors db db' u k h
  provision_at-Grows c expected authors (some (genesis, state)) db db' u k h =
      subst (Grows db) (ground arith) (k, Extends-refl db)

  join_at-Grows :
      (c expected : ℕ) (authors : List ℕ) (found : Option (ℕ × ℕ)) (db db' : Db) (u : Unit {0})
      → IsConsistent lib db
      → join_at c expected authors found db ≡ ok (u, db')
      → Grows db db'
  unfolding join_at
  join_at-Grows c expected authors none db db' u k h =
      provision_new-Grows c expected authors db db' u k h
  join_at-Grows c expected authors (some (genesis, state)) db db' u k h =
      subst (Grows db) (ground arith) (k, Extends-refl db)

  provision_context_tx-Grows :
      (c expected : ℕ) (authors : List ℕ) (db db' : Db) (u : Unit {0})
      → IsConsistent lib db
      → provision_context_tx c expected authors db ≡ ok (u, db')
      → Grows db db'
  unfolding provision_context_tx
  provision_context_tx-Grows c expected authors db db' u k h =
      let (_, _, h₁) = >>=-eq-ok (validate_authors authors) _ h in
      let (found, _, h₂) = >>=-eq-ok (context_row db c) _ h₁ in
      provision_at-Grows c expected authors found db db' u k h₂

  join_context_tx-Grows :
      (c expected : ℕ) (authors : List ℕ) (db db' : Db) (u : Unit {0})
      → IsConsistent lib db
      → join_context_tx c expected authors db ≡ ok (u, db')
      → Grows db db'
  unfolding join_context_tx
  join_context_tx-Grows c expected authors db db' u k h =
      let (_, _, h₁) = >>=-eq-ok (validate_authors authors) _ h in
      let (found, _, h₂) = >>=-eq-ok (context_row db c) _ h₁ in
      join_at-Grows c expected authors found db db' u k h₂

  authorize_author_tx-Grows :
      (c author : ℕ) (db db' : Db) (fresh : Bool)
      → IsConsistent lib db
      → authorize_author_tx c author db ≡ ok (fresh, db')
      → Grows db db'
  unfolding authorize_author_tx
  authorize_author_tx-Grows c author db db' fresh k h =
      let (found, _, h₁) = >>=-eq-ok (context_row db c) _ h in
      let (_, _, h₂) = >>=-eq-ok (ok_or found context_unknown) _ h₁ in
      elim (Option-cases (insert (c, author) tt db.authors)) [
        | inl there ↦ subst (Grows db) (ground (arith, rw there at h₂)) (k, Extends-refl db)
        | inr (rows, new) ↦
            subst (Grows db) (ground (arith, rw new at h₂))
              (authors_changed db rows k, Extends-authors db (c, author) rows new)
      ]

  -- Provisioning a context, joining one and authorizing an author keep a consistent database consistent, whatever
  -- the commit answers, and lose nothing of it: its event rows, edge lists and authors stay as they were, every
  -- context stays with the genesis event that it expects, and every branch stays.
  pub provision-IsConsistent :
      (commit : Commit) (c expected author : ℕ) (authors : List ℕ) (db : Db)
      → IsConsistent lib db
      → Grows db (write commit (provision_context_tx c expected authors) db).1
        × Grows db (write commit (join_context_tx c expected authors) db).1
        × Grows db (write commit (authorize_author_tx c author) db).1
  provision-IsConsistent commit c expected author authors db k =
      let same : Grows db db = (k, Extends-refl db) in
      (
        write-keeps (Grows db) commit (provision_context_tx c expected authors) db same
            (λ u db' h. provision_context_tx-Grows c expected authors db db' u k h),
        write-keeps (Grows db) commit (join_context_tx c expected authors) db same
            (λ u db' h. join_context_tx-Grows c expected authors db db' u k h),
        write-keeps (Grows db) commit (authorize_author_tx c author) db same
            (λ fresh db' h. authorize_author_tx-Grows c author db db' fresh k h),
      )
