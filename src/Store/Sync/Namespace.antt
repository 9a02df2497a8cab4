-- ===== src/Store/Sync/Namespace.antt =====
-- The rows of a namespace of remote refs (`replace_remote_ref_snapshot`, src/store/sync.rs).
use contextmesh_rs.Common.{
  ℕ, ◌≡◌, refl, sym, ◌∙◌, ap, subst, inl, inr, Bool, false, not, Option, none, some, List, [], ◌∷◌,
  arith, Bytes, bytes_eq, bytes_eq_iff, ==_iff, Bool-cases, length, keep, ok, ok_or, >>=-eq-ok,
}
use contextmesh_rs.Common.Table.{
  Table, Eq, id_eq, bytes_key, pair_eq, pair_beq, lookup, insert, lookup-insert, insert-eq-some,
}
use contextmesh_rs.Store.State.{database_unavailable}
use contextmesh_rs.Store.Refs.{is_head}
use contextmesh_rs.Store.Refs.Swap.{is_head-some}
use contextmesh_rs.Store.Bundle.{AdvertisedRef}
use contextmesh_rs.Store.Sync.{
  RemoteRefs, desired, in_namespace, namespace, is_gone, namespace_change_count, insert_remote,
}

module _ {K : Type 0} ⦃e : Eq K⦄ where
  -- A row that a lookup finds passes no test that no row passes.
  keep_nothing :
      (test : K × ℕ → Bool) (k : K) (v : ℕ) (t : Table K ℕ)
      → length (keep test t) ≡ 0
      → lookup k t ≡ some v
      → test (k, v) ≡ false
  unfolding lookup keep
  keep_nothing test k v [] z h = cc
  keep_nothing test k v ((j, w) ∷ t) z h = elim (Bool-cases (e.beq j k)) [
    | inl here ↦
        let value : w ≡ v = ground (arith, h, here) in
        let keys = (e.beq_iff j k).0 here in
        let none_passes : test (j, w) ≡ false = ground (arith, z) in
        subst (λ (row : K × ℕ). test row ≡ false) (ap (λ (i : K). (i, v)) keys)
          (subst (λ (u : ℕ). test (j, u) ≡ false) value none_passes)
    | inr further ↦ keep_nothing test k v t (ground (arith, z)) (ground (arith, h, further))
  ]

-- The comparison of the keys of remote refs.
abbrev key_eq : Eq (Bytes × (ℕ × Bytes))
key_eq = pair_eq

module _ (peer : Bytes) (context : ℕ) where
  row_beq : (m n : Bytes) → key_eq.beq (peer, (context, m)) (peer, (context, n)) ≡ bytes_eq m n
  unfolding pair_beq
  row_beq m n = rw ((bytes_eq_iff peer peer).1 refl, (==_iff context context).1 refl) refl

  row_outside :
      (m : Bytes) (key : Bytes × (ℕ × Bytes))
      → in_namespace peer context key ≡ false
      → key_eq.beq (peer, (context, m)) key ≡ false
  unfolding pair_beq
  row_outside m (p, (c, n)) o =
      ground (arith, o, bytes_eq_iff peer p, bytes_eq_iff p peer, ==_iff c context)

  pub lookup-namespace :
      (n : Bytes) (t : RemoteRefs)
      → lookup n (namespace peer context t) ≡ lookup (peer, (context, n)) t
  unfolding lookup namespace pair_beq
  lookup-namespace n [] = refl
  lookup-namespace n (((p, (c, m)), h) ∷ t) = ground (arith, lookup-namespace n t)

  -- The insertions change no other namespace.
  pub insert_remote_outside :
      (key : Bytes × (ℕ × Bytes)) (rs : List AdvertisedRef) (t u : RemoteRefs)
      → in_namespace peer context key ≡ false
      → insert_remote peer context rs t ≡ ok u
      → lookup key u ≡ lookup key t
  unfolding insert_remote
  insert_remote_outside key [] t u o h = ap (lookup key) (sym (ground (arith, h)))
  insert_remote_outside key (r ∷ rs) t u o h =
      let (next, i, rest) =
        >>=-eq-ok (ok_or (insert (peer, (context, r.name)) r.head t) database_unavailable) _ h in
      let inserts : insert (peer, (context, r.name)) r.head t ≡ some next = ground (arith, i) in
      insert_remote_outside key rs next u o rest
      ∙ ground (
        arith,
        lookup-insert (peer, (context, r.name)) key r.head t inserts,
        row_outside r.name key o,
      )

  insert_remote_kept :
      (n : Bytes) (v : ℕ) (rs : List AdvertisedRef) (t u : RemoteRefs)
      → lookup (peer, (context, n)) t ≡ some v
      → insert_remote peer context rs t ≡ ok u
      → lookup (peer, (context, n)) u ≡ some v
  unfolding insert_remote
  insert_remote_kept n v [] t u l h = ground (arith, l, h)
  insert_remote_kept n v (r ∷ rs) t u l h =
      let (next, i, rest) =
        >>=-eq-ok (ok_or (insert (peer, (context, r.name)) r.head t) database_unavailable) _ h in
      let inserts : insert (peer, (context, r.name)) r.head t ≡ some next = ground (arith, i) in
      insert_remote_kept n v rs next u
        (ground (
          arith,
          lookup-insert (peer, (context, r.name)) (peer, (context, n)) r.head t inserts,
          row_beq r.name n,
          insert-eq-some (peer, (context, r.name)) r.head t inserts,
          l,
          (bytes_eq_iff r.name n).0,
        ))
        rest

  pub insert_remote-lookup :
      (n : Bytes) (rs : List AdvertisedRef) (t u : RemoteRefs)
      → lookup (peer, (context, n)) t ≡ none
      → insert_remote peer context rs t ≡ ok u
      → lookup (peer, (context, n)) u ≡ lookup n (desired rs)
  unfolding insert_remote lookup
  insert_remote-lookup n [] t u l h = ground (arith, h, l)
  insert_remote-lookup n (r ∷ rs) t u l h =
      let key : Bytes × (ℕ × Bytes) = (peer, (context, r.name)) in
      let (next, i, rest) = >>=-eq-ok (ok_or (insert key r.head t) database_unavailable) _ h in
      let inserts : insert key r.head t ≡ some next = ground (arith, i) in
      elim (Bool-cases (bytes_eq r.name n)) [
        | inl here ↦ rw here (
            insert_remote_kept n r.head rs next u
              (ground (
                arith,
                lookup-insert key (peer, (context, n)) r.head t inserts,
                row_beq r.name n,
                here,
              ))
              rest)
        | inr further ↦ rw further (
            insert_remote-lookup n rs next u
              (ground (
                arith,
                lookup-insert key (peer, (context, n)) r.head t inserts,
                row_beq r.name n,
                further,
                l,
              ))
              rest)
      ]

-- Without a change to count, both tables have the same rows.
pub count_nothing :
    (n : Bytes) (existing new : Table Bytes ℕ)
    → namespace_change_count existing new ≡ 0
    → lookup n existing ≡ lookup n new
unfolding namespace_change_count is_head
count_nothing n existing new z = both (lookup n existing) (lookup n new) refl refl
  where
    gone : length (keep (λ (row : Bytes × ℕ). is_gone (lookup row.0 new)) existing) ≡ 0
    gone = omega (arith, z)

    moved : length (keep (λ (row : Bytes × ℕ). not (is_head (lookup row.0 existing) row.1)) new) ≡ 0
    moved = omega (arith, z)

    both :
        (a b : Option ℕ)
        → lookup n existing ≡ a
        → lookup n new ≡ b
        → lookup n existing ≡ lookup n new
    both a (some v) e f =
        let still =
          keep_nothing (λ (row : Bytes × ℕ). not (is_head (lookup row.0 existing) row.1)) n v new
            moved f in
        is_head-some (lookup n existing) v (ground (arith, still)) ∙ sym f
    both none none e f = e ∙ sym f
    both (some v) none e f = absurd (
        ground (
          arith,
          keep_nothing (λ (row : Bytes × ℕ). is_gone (lookup row.0 new)) n v existing gone e,
          f,
        ))
