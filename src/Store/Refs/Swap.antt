-- ===== src/Store/Refs/Swap.antt =====
-- What a ref mutation (`apply_ref_mutation`, src/store.rs) does to the refs.
use contextmesh_rs.Common.{
  ℕ, ◌≡◌, ◌≢◌, refl, sym, subst, ap, ◌⊎◌, inl, inr, Bool, true, false, Option, none, some, arith,
  Bytes, ◌==◌, ==_iff, if◌then◌else◌, Bool-cases, ok, err, >>=-eq-ok,
}
use contextmesh_rs.Common.Table.{
  Table, id_eq, bytes_key, pair_eq, lookup, insert, upsert, lookup-insert, lookup-upsert,
}
use contextmesh_rs.Common.{ok_or}
use contextmesh_rs.Store.State.{Db, database_unavailable, stale_head}
use contextmesh_rs.Store.Refs.{
  RefExpectation, absent, head, compare_and_swap, insert_local_ref, set_local_ref, swap_ref,
  check_reference, apply_ref_mutation, is_head,
}

-- The ref is where the caller expects it.
abbrev pub Expected : RefExpectation → Option ℕ → Type 0
Expected absent current = current ≡ none
Expected (head h) current = current ≡ some h

abbrev pub ref_at : Db → ℕ → Bytes → Option ℕ
ref_at db context name = lookup (context, name) db.local_refs

-- The refs after a move: the one that moved, and all others as before. No other table changes.
pub record Moved (db db' : Db) (context : ℕ) (name : Bytes) (to : ℕ) : Type 0 where
  pub refs : Table (ℕ × Bytes) ℕ
  pub result : db' ≡ record db { local_refs = refs }
  pub others :
      (c : ℕ) (n : Bytes)
      → lookup (c, n) refs ≡ (if pair_eq.beq (context, name) (c, n) then some to else ref_at db c n)

pub insert_local_ref-Moved :
    (context : ℕ) (name : Bytes) (id : ℕ) (db db' : Db)
    → insert_local_ref context name id db ≡ ok db'
    → Moved db db' context name id
unfolding insert_local_ref
insert_local_ref-Moved context name id db db' h =
    let (_, _, h₁) = >>=-eq-ok (check_reference context id db) _ h in
    let (refs, fresh, last) =
      >>=-eq-ok (ok_or (insert (context, name) id db.local_refs) database_unavailable) _ h₁ in
    let made : insert (context, name) id db.local_refs ≡ some refs = ground (arith, fresh) in
    record {
      refs = refs;
      result = ground (arith, last);
      others = λ c n. lookup-insert (context, name) (c, n) id db.local_refs made;
    }

set_local_ref-Moved :
    (context : ℕ) (name : Bytes) (id : ℕ) (db : Db)
    → Moved db (set_local_ref context name id db) context name id
unfolding set_local_ref
set_local_ref-Moved context name id db = record {
  refs = upsert (context, name) id db.local_refs;
  result = refl;
  others = λ c n. lookup-upsert (context, name) (c, n) id db.local_refs;
}

swap_ref-Moved :
    (event context : ℕ) (name : Bytes) (expected : RefExpectation) (current : Option ℕ)
    (db db' : Db) (already : Bool)
    → swap_ref event context name expected current db ≡ ok (already, db')
    → (already ≡ false) × Expected expected current × Moved db db' context name event
unfolding swap_ref
swap_ref-Moved event context name absent none db db' already h =
    let (d, i, last) = >>=-eq-ok (insert_local_ref context name event db) _ h in
    (
      ground (arith, last),
      refl,
      subst (λ (x : Db). Moved db x context name event) (ground (arith, last))
          (insert_local_ref-Moved context name event db d i),
    )
swap_ref-Moved event context name (head expected) (some current) db db' already h =
    elim (Bool-cases (expected == current)) [
      | inl same ↦
          let (_, _, last) = >>=-eq-ok (check_reference context event db) _ (rw same at h) in
          (
            ground (arith, last),
            ap some (sym ((==_iff expected current).0 same)),
            subst (λ (x : Db). Moved db x context name event) (ground (arith, last))
                (set_local_ref-Moved context name event db),
          )
      | inr other ↦ cc (rw other at h)
    ]
swap_ref-Moved event context name absent (some current) db db' already h = cc
swap_ref-Moved event context name (head expected) none db db' already h = cc

pub is_head-some : (o : Option ℕ) (n : ℕ) → is_head o n ≡ true → o ≡ some n
unfolding is_head
is_head-some none n e = cc
is_head-some (some h) n e = ap some ((==_iff h n).0 e)

not-is_head : (o : Option ℕ) (n : ℕ) → o ≢ some n → is_head o n ≡ false
unfolding is_head
not-is_head none n e = refl
not-is_head (some h) n e = ground (arith, e)

-- A successful mutation finds its ref at the new head and changes nothing, or finds it where it was
-- expected and moves it alone.
pub apply_ref_mutation-Moved :
    (id context : ℕ) (name : Bytes) (expected : RefExpectation) (new_head : ℕ) (db db' : Db)
    (already : Bool)
    → apply_ref_mutation id (compare_and_swap context name expected new_head) db ≡ ok (already, db')
    → ((already ≡ true) × (ref_at db context name ≡ some new_head) × (db' ≡ db))
      ⊎ ((already ≡ false)
          × Expected expected (ref_at db context name)
          × Moved db db' context name id)
unfolding apply_ref_mutation
apply_ref_mutation-Moved id context name expected new_head db db' already h =
    elim (Bool-cases (is_head (ref_at db context name) new_head)) [
      | inl there ↦ inl (
        ground (arith, rw there at h),
        is_head-some (ref_at db context name) new_head there,
        ground (arith, rw there at h),
      )
      | inr other ↦ inr (
          swap_ref-Moved id context name expected (ref_at db context name) db db' already
            (rw other at h))
    ]

swap_ref_stale :
    (event context : ℕ) (name : Bytes) (expected : RefExpectation) (current : Option ℕ) (db : Db)
    → ¬ (Expected expected current)
    → swap_ref event context name expected current db ≡ err (stale_head current)
unfolding swap_ref
swap_ref_stale event context name absent none db u = absurd (u refl)
swap_ref_stale event context name (head expected) (some current) db u =
    elim (Bool-cases (expected == current)) [
      | inl same ↦ absurd (u (ap some (sym ((==_iff expected current).0 same))))
      | inr other ↦ rw other
    ]
swap_ref_stale event context name absent (some current) db u = refl
swap_ref_stale event context name (head expected) none db u = refl

-- A ref that is neither at its new head nor where it was expected is a stale head, and the error
-- carries what is there.
pub apply_ref_mutation_stale :
    (id context : ℕ) (name : Bytes) (expected : RefExpectation) (new_head : ℕ) (db : Db)
    → ref_at db context name ≢ some new_head
    → ¬ (Expected expected (ref_at db context name))
    → apply_ref_mutation id (compare_and_swap context name expected new_head) db
      ≡ err (stale_head (ref_at db context name))
unfolding apply_ref_mutation
apply_ref_mutation_stale id context name expected new_head db moved unexpected =
    rw (not-is_head (ref_at db context name) new_head moved)
      (swap_ref_stale id context name expected (ref_at db context name) db unexpected)
