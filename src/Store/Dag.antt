-- ===== src/Store/Dag.antt =====
-- The DAG operations of src/store/dag.rs: `create_context`, `append` and `merge`. The fresh bytes of
-- a new context and the signing identity's seed are arguments.
pub mod Keeps
use contextmesh_rs.Common.{
  ℕ, Bool, true, false, not, ◌||◌, Option, none, some, List, [], ◌∷◌, Bytes, bytes_eq, ltb,
  if◌then◌else◌, length, sort, contains, has_repeat, Result, ok, err, ◌>>=◌, ◌>>◌, refuse, map_err,
  is_empty,
}
use contextmesh_rs.Common.Table.{id_eq, lookup, insert}
use contextmesh_rs.Event.Json
use contextmesh_rs.Event.Json.{Json}
use contextmesh_rs.Event.Body.{SignedEvent, Libraries, create_event, max_parents}
use contextmesh_rs.Event.Wire.{to_wire}
use contextmesh_rs.Store.State.{
  StoreError, StoreResult, Db, Op, Commit, write, context_provision_mismatch, reserved_event_kind,
  invalid_merge, contract,
}
use contextmesh_rs.Store.Rows.{context_row}
use contextmesh_rs.Store.Refs.{RefMutation, compare_and_swap, head, insert_local_ref}
use contextmesh_rs.Store.Admit.{
  genesis_kind, merge_kind, insert_event, activate, insert_context, insert_authors, admit,
}

-- The transaction of `Store::create_context`, behind the query for the context.
unfoldable pub create_context_at : SignedEvent → Bytes → Bytes → Option (ℕ × ℕ) → Op (Unit {0})
create_context_at genesis wire name (some known) db = err context_provision_mismatch
create_context_at genesis wire name none db = do
  db₁ ← insert_context genesis.body.context genesis.event_id db
  db₂ ← insert_authors genesis.body.context (genesis.body.author ∷ []) db₁
  db₃ ← insert_event genesis wire db₂
  db₄ ← activate genesis.event_id genesis.body.context db₃
  db₅ ← insert_local_ref genesis.body.context name genesis.event_id db₄
  ok (tt, db₅)

unfoldable pub create_context_tx : SignedEvent → Bytes → Bytes → Op (Unit {0})
unfolding create_context_at
create_context_tx genesis wire name db = do
  found ← context_row db genesis.body.context
  create_context_at genesis wire name found db

module _ (lib : Libraries) where
  unfoldable pub new_genesis : ℕ → ℕ → StoreResult (SignedEvent × Bytes)
  new_genesis seed context = do
    genesis ←
        map_err contract (create_event lib seed context [] genesis_kind (Json.object Json.end))
    wire ← map_err contract (to_wire lib genesis)
    ok (genesis, wire)

  -- `Store::create_context`
  unfoldable pub create_context : Commit → ℕ → ℕ → Bytes → Db → StoreResult SignedEvent × Db
  unfolding new_genesis
  create_context commit seed context name db = elim (new_genesis seed context) [
    | err x ↦ (err x, db)
    | ok (genesis, wire) ↦
        let (r, db') = write commit (create_context_tx genesis wire name) db in
        (r >>= (λ _. ok genesis), db')
  ]

  -- The admission of a new event that moves its branch from `expected`.
  unfoldable pub admit_new :
      Commit → ℕ → Bytes → ℕ → Db → StoreResult SignedEvent → StoreResult SignedEvent × Db
  admit_new commit context branch expected db (err x) = (err x, db)
  admit_new commit context branch expected db (ok e) =
      let (r, db') =
        admit lib commit e (compare_and_swap context branch (head expected) e.event_id) db in
      (r >>= (λ _. ok e), db')

  -- `Store::append`
  unfoldable pub append_event : ℕ → ℕ → ℕ → Bytes → Json → StoreResult SignedEvent
  append_event seed context expected kind payload = do
    refuse (bytes_eq kind genesis_kind || bytes_eq kind merge_kind) reserved_event_kind
    map_err contract (create_event lib seed context (expected ∷ []) kind payload)

  unfoldable pub append :
      Commit → ℕ → ℕ → Bytes → ℕ → Bytes → Json → Db → StoreResult SignedEvent × Db
  unfolding admit_new append_event
  append commit seed context branch expected kind payload db =
      admit_new commit context branch expected db (append_event seed context expected kind payload)

  -- `Store::merge`
  unfoldable pub merge_event : ℕ → ℕ → ℕ → List ℕ → Json → StoreResult SignedEvent
  merge_event seed context expected parents payload = do
    refuse (ltb (length parents) 2 || ltb max_parents (length parents)) invalid_merge
    refuse (has_repeat (sort parents) || not (contains (sort parents) expected)) invalid_merge
    map_err contract (create_event lib seed context (sort parents) merge_kind payload)

  unfoldable pub merge :
      Commit → ℕ → ℕ → Bytes → ℕ → List ℕ → Json → Db → StoreResult SignedEvent × Db
  unfolding admit_new merge_event
  merge commit seed context branch expected parents payload db =
      admit_new commit context branch expected db
        (merge_event seed context expected parents payload)
