-- ===== src/Store/Sync/Replaced.antt =====
-- What the replacement of a peer's remote refs leaves (`replace_remote_ref_snapshot`, src/store/sync.rs).
use contextmesh_rs.Store.Invariant.Growth.{Extends-rows}
use contextmesh_rs.Common.{
  ℕ, ◌≡◌, refl, sym, ◌∙◌, ap, subst, inl, inr, true, false, not, some, List, [], ◌∷◌, arith, Bytes,
  bytes_eq, bytes_eq_iff, ◌==◌, ==_iff, Bool-cases, ok, err, refuse, ok_or, >>=-eq-ok,
}
use contextmesh_rs.Common.Table.{id_eq, bytes_key, pair_eq, lookup, delete, lookup-delete}
use contextmesh_rs.Event.Body.{Libraries}
use contextmesh_rs.Store.State.{StoreResult, Db, Commit, write, context_unknown, bundle_ref_invalid}
use contextmesh_rs.Store.Transaction.{write_ok}
use contextmesh_rs.Store.Rows.{context_row, authoritative_event_context}
use contextmesh_rs.Store.Invariant.{StoredIn, IsConsistent}
use contextmesh_rs.Store.Invariant.Tables.{set_remote_refs, IsActive-same, Contains-same}
use contextmesh_rs.Store.Rows.Context.{authoritative-StoredIn}
use contextmesh_rs.Store.Admit.Provision.{Grows}
use contextmesh_rs.Store.Refs.{is_head}
use contextmesh_rs.Store.Refs.Swap.{is_head-some}
use contextmesh_rs.Store.Bundle.{AdvertisedRef}
use contextmesh_rs.Store.Sync.{
  desired, in_namespace, namespace, namespace_change_count, insert_remote, check_refs, check_heads,
  replace_rows, replace_tx, replace_remote_ref_snapshot,
}
use contextmesh_rs.Store.Sync.Namespace.{
  lookup-namespace, insert_remote_outside, insert_remote-lookup, count_nothing,
}

-- In the namespace of a peer and a context the rows are those of the snapshot, and elsewhere those of
-- before; no other table has changed.
pub record Replaced (peer : Bytes) (context : ℕ) (refs : List AdvertisedRef) (db db' : Db)
    : Type 0 where
  pub inside : (n : Bytes) → lookup (peer, (context, n)) db'.remote_refs ≡ lookup n (desired refs)
  pub outside :
      (key : Bytes × (ℕ × Bytes))
      → in_namespace peer context key ≡ false
      → lookup key db'.remote_refs ≡ lookup key db.remote_refs
  pub same : db' ≡ record db { remote_refs = db'.remote_refs }

module _ (lib : Libraries) where
  replace_rows-Replaced :
      (peer : Bytes) (context : ℕ) (refs : List AdvertisedRef) (db db' : Db) (changed : ℕ)
      → replace_rows lib peer context refs db ≡ ok (changed, db')
      → Replaced peer context refs db db'
  unfolding replace_rows
  replace_rows-Replaced peer context refs db db' changed h =
      elim (Bool-cases
        (namespace_change_count (namespace peer context db.remote_refs) (desired refs) == 0)) [
          | inl nothing ↦
              let zero_count =
                (==_iff
                    (namespace_change_count (namespace peer context db.remote_refs) (desired refs))
                    0).0
                  nothing in
              subst (Replaced peer context refs db) (ground (arith, rw nothing at h)) (record {
                inside = λ n.
                    sym (lookup-namespace peer context n db.remote_refs)
                    ∙ count_nothing n (namespace peer context db.remote_refs) (desired refs)
                        zero_count;
                outside = λ key o. refl;
                same = refl;
              })
          | inr some_change ↦
              let cleared = delete (in_namespace peer context) db.remote_refs in
              let (rows, inserts, last) =
                >>=-eq-ok (insert_remote peer context refs cleared) _ (rw some_change at h) in
              let own : (n : Bytes) → in_namespace peer context (peer, (context, n)) ≡ true =
                λ n. rw ((bytes_eq_iff peer peer).1 refl, (==_iff context context).1 refl) refl in
              subst (Replaced peer context refs db) (ground (arith, last)) (record {
                inside = λ n.
                    insert_remote-lookup peer context n refs cleared rows
                      (lookup-delete (in_namespace peer context) (peer, (context, n)) db.remote_refs
                        ∙ rw (own n) refl)
                      inserts;
                outside = λ key o.
                    insert_remote_outside peer context key refs cleared rows o inserts
                    ∙ lookup-delete (in_namespace peer context) key db.remote_refs
                    ∙ rw o refl;
                same = refl;
              })
        ]

  check_heads-StoredIn :
      (context : ℕ) (refs : List AdvertisedRef) (db : Db)
      → IsConsistent lib db
      → check_heads lib context refs db ≡ ok tt
      → (n : Bytes) (h : ℕ) → lookup n (desired refs) ≡ some h
      → StoredIn lib db context h
  unfolding check_heads lookup
  check_heads-StoredIn context [] db k e n h l = cc
  check_heads-StoredIn context (r ∷ rs) db k e n h l =
      let (found, a, h₁) = >>=-eq-ok (authoritative_event_context lib db r.head) _ e in
      let (u, b, rest) = >>=-eq-ok (refuse (not (is_head found context)) bundle_ref_invalid) _ h₁ in
      let known = is_head-some found context (ground (arith, b)) in
      let there = authoritative-StoredIn lib db k.sound r.head context (a ∙ ap ok known) in
      elim (Bool-cases (bytes_eq r.name n)) [
        | inl here ↦ subst (StoredIn lib db context) (ground (arith, l, here)) there
        | inr further ↦ check_heads-StoredIn context rs db k rest n h (ground (arith, l, further))
      ]

  Replaced-Grows :
      (peer : Bytes) (context : ℕ) (refs : List AdvertisedRef) (db db' : Db)
      → IsConsistent lib db
      → ((n : Bytes) (h : ℕ) → lookup n (desired refs) ≡ some h → StoredIn lib db context h)
      → Replaced peer context refs db db'
      → Grows lib db db'
  Replaced-Grows peer context refs db db' k heads p =
      let rows = db'.remote_refs in
      subst (Grows lib db) (sym p.same) (
        record {
          sound = set_remote_refs lib db rows fits k.sound;
          live = IsActive-same lib db (record db { remote_refs = rows }) refl refl refl k.live;
        },
        Extends-rows db (record db { remote_refs = rows })
            (Contains-same db (record db { remote_refs = rows }) refl refl) refl refl refl,
      )
    where
      fits :
          (q : Bytes) (c : ℕ) (n : Bytes) (h : ℕ)
          → lookup (q, (c, n)) db'.remote_refs ≡ some h
          → StoredIn lib db c h
      fits q c n h l = elim (Bool-cases (in_namespace peer context (q, (c, n)))) [
        | inl own ↦
            let peers = (bytes_eq_iff q peer).0 (ground (arith, own)) in
            let contexts = (==_iff c context).0 (ground (arith, own)) in
            let at : lookup (peer, (context, n)) db'.remote_refs ≡ some h =
              subst (λ (x : Bytes × ℕ). lookup (x.0, (x.1, n)) db'.remote_refs ≡ some h)
                (ap (λ (q : Bytes). (q, c)) peers ∙ ap (λ (c : ℕ). (peer, c)) contexts) l in
            subst (λ (c : ℕ). StoredIn lib db c h) (sym contexts)
              (heads n h (sym (p.inside n) ∙ at))
        | inr other ↦ k.sound.remote_heads q c n h (sym (p.outside (q, (c, n)) other) ∙ l)
      ]

  replace_tx-Replaced :
      (peer : Bytes) (context : ℕ) (refs : List AdvertisedRef) (db db' : Db) (changed : ℕ)
      → IsConsistent lib db
      → replace_tx lib peer context refs db ≡ ok (changed, db')
      → Replaced peer context refs db db' × Grows lib db db'
  unfolding replace_tx
  replace_tx-Replaced peer context refs db db' changed k h =
      let (found, _, h₁) = >>=-eq-ok (context_row db context) _ h in
      let ((expected, state), _, h₂) = >>=-eq-ok (ok_or found context_unknown) _ h₁ in
      let (_, _, h₃) = >>=-eq-ok (refuse (not (state == 1)) context_unknown) _ h₂ in
      let (u, heads, rest) = >>=-eq-ok (check_heads lib context refs db) _ h₃ in
      let replaced = replace_rows-Replaced peer context refs db db' changed rest in
      (
        replaced,
        Replaced-Grows peer context refs db db' k (check_heads-StoredIn context refs db k heads)
            replaced,
      )

  written-Replaced :
      (w : StoreResult (Unit {0})) (commit : Commit) (peer : Bytes) (context : ℕ)
      (refs : List AdvertisedRef) (db after : Db) (changed : ℕ)
      → IsConsistent lib db
      → (elim w [ ok u ↦ write commit (replace_tx lib peer context refs) db | err x ↦ (err x, db) ])
        ≡ (ok changed, after)
      → Replaced peer context refs db after × Grows lib db after
  written-Replaced (err x) commit peer context refs db after changed k h =
      absurd (ground (arith, h))
  written-Replaced (ok u) commit peer context refs db after changed k h =
      replace_tx-Replaced peer context refs db after changed k (
        write_ok commit (replace_tx lib peer context refs) db changed
          (ap (λ (r : StoreResult ℕ × Db). r.0) h)
        ∙ ap (λ (r : StoreResult ℕ × Db). ok (changed, r.1)) h)

  -- A replacement that succeeds leaves exactly the refs of the snapshot in the namespace of the peer and the
  -- context, all other rows as they were, and a consistent database consistent.
  pub replace_remote_ref_snapshot-Replaced :
      (commit : Commit) (peer : Bytes) (context : ℕ) (refs : List AdvertisedRef) (db : Db)
      (changed : ℕ)
      → IsConsistent lib db
      → (replace_remote_ref_snapshot lib commit peer context refs db).0 ≡ ok changed
      → Replaced peer context refs db
          (replace_remote_ref_snapshot lib commit peer context refs db).1
        × Grows lib db (replace_remote_ref_snapshot lib commit peer context refs db).1
  unfolding replace_remote_ref_snapshot
  replace_remote_ref_snapshot-Replaced commit peer context refs db changed k h =
      written-Replaced (check_refs refs) commit peer context refs db _ changed k (
        ap
          (λ (r : StoreResult ℕ).
            (r, (replace_remote_ref_snapshot lib commit peer context refs db).1))
          h)
