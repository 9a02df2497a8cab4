-- ===== src/Store/Admit/Branch.antt =====
-- The invariant under `create_branch` (src/store/dag.rs) and `set_remote_ref` (src/store.rs).
use contextmesh_rs.Store.Invariant.Growth.{Extends-refl, Extends-rows}
use contextmesh_rs.Common.{
  ℕ, ◌≡◌, refl, ◌∙◌, subst, ap, inl, inr, Option, none, some, arith, Bytes, Bool-cases, ok, ok_or,
  >>=-eq-ok,
}
use contextmesh_rs.Common.Table.{Table, id_eq, bytes_key, pair_eq, lookup, upsert, lookup-upsert}
use contextmesh_rs.Event.Body.{Libraries}
use contextmesh_rs.Store.State.{Db, Commit, write, parent_missing}
use contextmesh_rs.Store.Transaction.{write-keeps}
use contextmesh_rs.Store.Invariant.{StoredIn, IsConsistent}
use contextmesh_rs.Store.Invariant.Tables.{set_remote_refs, IsActive-same, Contains-same}
use contextmesh_rs.Store.Rows.{authoritative_event_context}
use contextmesh_rs.Store.Rows.Context.{authoritative-StoredIn}
use contextmesh_rs.Store.Refs.{
  check_target, insert_local_ref, branch_at, create_branch, set_remote_ref,
}
use contextmesh_rs.Store.Refs.Swap.{insert_local_ref-Moved}
use contextmesh_rs.Store.Admit.Keeps.{Moved-IsConsistent}
use contextmesh_rs.Store.Admit.Provision.{Grows}

module _ (lib : Libraries) where
  -- What the check of a ref's target establishes.
  check_target-StoredIn :
      (db : Db) (c id : ℕ)
      → IsConsistent lib db
      → check_target lib db c id ≡ ok tt
      → StoredIn lib db c id
  unfolding check_target
  check_target-StoredIn db c id k h =
      let (found, a, h₁) = >>=-eq-ok (authoritative_event_context lib db id) _ h in
      let (c', b, h₂) = >>=-eq-ok (ok_or found (parent_missing id)) _ h₁ in
      let known : found ≡ some c = ground (arith, b, h₂) in
      authoritative-StoredIn lib db k.sound id c (a ∙ ap ok known)

  branch_at-Grows :
      (c : ℕ) (n : Bytes) (h : ℕ) (current : Option ℕ) (db db' : Db) (u : Unit {0})
      → IsConsistent lib db
      → StoredIn lib db c h
      → branch_at lib c n h current db ≡ ok (u, db')
      → Grows lib db db'
  unfolding branch_at
  branch_at-Grows c n h (some old) db db' u k there e =
      subst (Grows lib db) (ground arith) (k, Extends-refl db)
  branch_at-Grows c n h none db db' u k there e =
      let (d, i, last) = >>=-eq-ok (insert_local_ref c n h db) _ e in
      subst (Grows lib db) (ground (arith, last))
        (Moved-IsConsistent lib db d c n h there k (insert_local_ref-Moved c n h db d i))

  create_branch-Grows :
      (c : ℕ) (n : Bytes) (h : ℕ) (db db' : Db) (u : Unit {0})
      → IsConsistent lib db
      → create_branch lib c n h db ≡ ok (u, db')
      → Grows lib db db'
  unfolding create_branch
  create_branch-Grows c n h db db' u k e =
      let (_, t, e₁) = >>=-eq-ok (check_target lib db c h) _ e in
      branch_at-Grows c n h (lookup (c, n) db.local_refs) db db' u k
        (check_target-StoredIn db c h k t) e₁

  -- A remote ref to a stored event of its context keeps the invariant.
  pub remote_moved-Grows :
      (p : Bytes) (c : ℕ) (n : Bytes) (h : ℕ) (db : Db)
      → IsConsistent lib db
      → StoredIn lib db c h
      → Grows lib db (record db { remote_refs = upsert (p, (c, n)) h db.remote_refs })
  remote_moved-Grows p c n h db k there = (
    record {
      sound = set_remote_refs lib db refs fits k.sound;
      live = IsActive-same lib db (record db { remote_refs = refs }) refl refl refl k.live;
    },
    Extends-rows db (record db { remote_refs = refs })
        (Contains-same db (record db { remote_refs = refs }) refl refl) refl refl refl,
  )
    where
      key : Bytes × (ℕ × Bytes)
      key = (p, (c, n))

      refs : Table (Bytes × (ℕ × Bytes)) ℕ
      refs = upsert key h db.remote_refs

      fits :
          (p' : Bytes) (c' : ℕ) (n' : Bytes) (h' : ℕ)
          → lookup (p', (c', n')) refs ≡ some h'
          → StoredIn lib db c' h'
      fits p' c' n' h' l = elim (Bool-cases (pair_eq.beq key (p', (c', n')))) [
        | inl same ↦
            let keys = (pair_eq.beq_iff key (p', (c', n'))).0 same in
            let heads : h ≡ h' =
              ground (arith, lookup-upsert key (p', (c', n')) h db.remote_refs, same, l) in
            subst (StoredIn lib db c') heads
              (subst (λ (q : Bytes × (ℕ × Bytes)). StoredIn lib db q.1.0 h) keys there)
        | inr other ↦
            k.sound.remote_heads p' c' n' h'
              (ground (arith, lookup-upsert key (p', (c', n')) h db.remote_refs, other, l))
      ]

  set_remote_ref-Grows :
      (p : Bytes) (c : ℕ) (n : Bytes) (h : ℕ) (db db' : Db) (u : Unit {0})
      → IsConsistent lib db
      → set_remote_ref lib p c n h db ≡ ok (u, db')
      → Grows lib db db'
  unfolding set_remote_ref
  set_remote_ref-Grows p c n h db db' u k e =
      let (_, t, last) = >>=-eq-ok (check_target lib db c h) _ e in
      subst (Grows lib db) (ground (arith, last))
        (remote_moved-Grows p c n h db k (check_target-StoredIn db c h k t))

  -- Creating a branch and setting a remote ref keep the database consistent, so that every local and
  -- remote head is a stored event of its context, whatever the commit answers.
  pub refs-IsConsistent :
      (commit : Commit) (p : Bytes) (c : ℕ) (n : Bytes) (h : ℕ) (db : Db)
      → IsConsistent lib db
      → Grows lib db (write commit (create_branch lib c n h) db).1
        × Grows lib db (write commit (set_remote_ref lib p c n h) db).1
  refs-IsConsistent commit p c n h db k =
      let same : Grows lib db db = (k, Extends-refl db) in
      (
        write-keeps (Grows lib db) commit (create_branch lib c n h) db same
            (λ u db' e. create_branch-Grows c n h db db' u k e),
        write-keeps (Grows lib db) commit (set_remote_ref lib p c n h) db same
            (λ u db' e. set_remote_ref-Grows p c n h db db' u k e),
      )
