-- ===== src/Store/Refs.antt =====
-- Local and remote refs (src/store.rs): the compare-and-swap of `apply_ref_mutation`, the queries
-- `local_ref` and `set_remote_ref`, and `create_branch` of src/store/dag.rs.
pub mod Swap
use contextmesh_rs.Common.{
  ℕ, ◌≡◌, Bool, true, false, not, ◌&&◌, ◌||◌, Option, none, some, List, [], ◌∷◌, arith, Bytes,
  bytes_eq, ◌==◌, if◌then◌else◌, Result, ok, err, ◌>>=◌, ◌>>◌, refuse, ok_or,
}
use contextmesh_rs.Common.Table.{Table, Eq, id_eq, bytes_key, pair_eq, lookup, insert, upsert}
use contextmesh_rs.Event.Body.{Libraries}
use contextmesh_rs.Store.State.{
  StoreError, StoreResult, Db, Op, database_unavailable, corrupt_storage, parent_missing,
  parent_context_mismatch, ref_mutation_mismatch, ref_already_exists, stale_head,
}
use contextmesh_rs.Store.Rows.{authoritative_event_context}

pub data RefExpectation : Type 0 where
  absent : RefExpectation
  head : ℕ → RefExpectation

pub data RefMutation : Type 0 where
  no_move : RefMutation
  compare_and_swap :
      (context : ℕ) (name : Bytes) (expected : RefExpectation) (new_head : ℕ) → RefMutation

-- The foreign keys of a ref: its context and its event are there.
unfoldable pub check_reference : ℕ → ℕ → Db → StoreResult (Unit {0})
check_reference context id db = do
  context_there ← ok_or (lookup context db.contexts) database_unavailable
  event_there ← ok_or (lookup id db.events) database_unavailable
  ok tt

-- `INSERT INTO local_refs`
unfoldable pub insert_local_ref : ℕ → Bytes → ℕ → Db → StoreResult Db
unfolding check_reference
insert_local_ref context name id db = do
  check_reference context id db
  refs ← ok_or (insert (context, name) id db.local_refs) database_unavailable
  ok (record db { local_refs = refs })

-- `UPDATE local_refs … WHERE … event_id = expected`: the row is there and holds the expected head.
unfoldable pub set_local_ref : ℕ → Bytes → ℕ → Db → Db
set_local_ref context name id db = record db {
  local_refs = upsert (context, name) id db.local_refs;
}

-- `match (expected, current)`, behind the test for a head that is already applied.
unfoldable pub swap_ref : ℕ → ℕ → Bytes → RefExpectation → Option ℕ → Op Bool
unfolding check_reference
swap_ref event context name absent none db = do
  db' ← insert_local_ref context name event db
  ok (false, db')
swap_ref event context name (head expected) (some current) db =
    if expected == current
    then (do check_reference context event db; ok (false, set_local_ref context name event db))
    else err (stale_head (some current))
swap_ref event context name absent (some current) db = err (stale_head (some current))
swap_ref event context name (head expected) none db = err (stale_head none)

unfoldable pub is_head : Option ℕ → ℕ → Bool
is_head none id = false
is_head (some h) id = h == id

-- Whether the ref was at its new head before, and the refs behind it.
unfoldable pub apply_ref_mutation : ℕ → RefMutation → Op Bool
unfolding is_head swap_ref
apply_ref_mutation event no_move db = ok (false, db)
apply_ref_mutation event (compare_and_swap context name expected new_head) db =
    let current = lookup (context, name) db.local_refs in
    if is_head current new_head
    then ok (true, db)
    else swap_ref event context name expected current db

-- The check of `admit` that a mutation is of the event's context and to the event.
unfoldable pub check_mutation : RefMutation → ℕ → ℕ → StoreResult (Unit {0})
check_mutation no_move context id = ok tt
check_mutation (compare_and_swap c name expected new_head) context id =
    refuse (not (c == context) || not (new_head == id)) ref_mutation_mismatch

module _ (lib : Libraries) where
  -- An event of the context, or the error of a ref to it.
  unfoldable pub check_target : Db → ℕ → ℕ → StoreResult (Unit {0})
  check_target db context id = do
    found ← authoritative_event_context lib db id
    event_context ← ok_or found (parent_missing id)
    refuse (not (event_context == context)) (parent_context_mismatch id)

  -- `Store::local_ref`
  unfoldable pub local_ref : Db → ℕ → Bytes → StoreResult (Option ℕ)
  local_ref db context name = elim (lookup (context, name) db.local_refs) [
    | none ↦ ok none
    | some h ↦ do
      found ← authoritative_event_context lib db h
      refuse (not (is_head found context)) corrupt_storage
      ok (some h)
  ]

  -- `Store::set_remote_ref`
  unfoldable pub set_remote_ref : Bytes → ℕ → Bytes → ℕ → Op (Unit {0})
  unfolding check_target
  set_remote_ref peer context name id db = do
    check_target db context id
    ok (tt, record db { remote_refs = upsert (peer, (context, name)) id db.remote_refs })

  -- The answers of `create_branch` to what the ref holds.
  unfoldable pub branch_at : ℕ → Bytes → ℕ → Option ℕ → Op (Unit {0})
  branch_at context name from_head (some h) db =
      if h == from_head then ok (tt, db) else err ref_already_exists
  branch_at context name from_head none db = do
    db' ← insert_local_ref context name from_head db
    ok (tt, db')

  -- `Store::create_branch`
  unfoldable pub create_branch : ℕ → Bytes → ℕ → Op (Unit {0})
  unfolding check_target branch_at
  create_branch context name from_head db = do
    check_target db context from_head
    branch_at context name from_head (lookup (context, name) db.local_refs) db
