-- ===== src/Store/Admit.antt =====
-- Admission and provisioning: `admit`, `provision_context`, `authorize_author` (src/store.rs) and
-- `join_context` (src/store/dag.rs). Each `…_tx` is the
-- operation inside its transaction.
pub mod Insert
pub mod Stages
pub mod Keeps
pub mod Atomic
pub mod Retry
pub mod Expects
pub mod Growth
pub mod Provision
pub mod Branch
use contextmesh_rs.Common.{
  ℕ, ◌≤◌, ◌≡◌, Bool, true, false, not, ◌&&◌, ◌||◌, Option, none, some, List, [], ◌∷◌, ◌++◌, arith,
  Bytes, bytes_eq, codes, ◌==◌, ltb, if◌then◌else◌, length, is_empty, sort, out_of_order, contains,
  Result, ok, err, ◌>>=◌, ◌>>◌, refuse, ok_or, map_err,
}
use contextmesh_rs.Common.Table.{Table, Eq, id_eq, bytes_key, pair_eq, lookup, insert, upsert}
use contextmesh_rs.Event.Json
use contextmesh_rs.Event.Json.{Json}
use contextmesh_rs.Event.Body.{SignedEvent, Libraries, verify, create_event, max_parents}
use contextmesh_rs.Event.Wire.{from_wire, to_wire}
use contextmesh_rs.Store.State.{
  StoreError, StoreResult, Db, ContextRow, EventRow, Op, Commit, write, database_unavailable,
  corrupt_storage, context_unknown, context_provision_mismatch, genesis_mismatch,
  unauthorized_author, event_collision, reserved_event_kind, invalid_merge, contract,
}
use contextmesh_rs.Store.Rows.{
  validate_authors, context_row, author_rows, same_ids, is_authorized, event_wire,
  validate_stored_event, check_parents,
}
use contextmesh_rs.Store.Refs.{
  RefMutation, compare_and_swap, head, insert_local_ref, apply_ref_mutation, check_mutation,
}

pub data AdmissionStatus : Type 0 where
  inserted already_present already_applied : AdmissionStatus

abbrev pub genesis_kind : Bytes
genesis_kind = codes "context.genesis"

abbrev pub merge_kind : Bytes
merge_kind = codes "context.merge"

unfoldable pub is_genesis : ℕ → ℕ → Bytes → List ℕ → Bool
is_genesis expected id kind parents =
    id == expected && (bytes_eq kind genesis_kind && is_empty parents)

-- The tests of an event against the state of its context: a pending context takes its genesis only,
-- and an active one no second root.
unfoldable pub check_genesis : ℕ → Bool → Bytes → List ℕ → StoreResult (Unit {0})
check_genesis state genesis kind parents =
    if state == 0
    then refuse (not genesis) genesis_mismatch
    else refuse (not genesis && (is_empty parents || bytes_eq kind genesis_kind)) genesis_mismatch

abbrev pub event_row : SignedEvent → Bytes → EventRow
event_row e wire = record {
  context = e.body.context;
  author = e.body.author;
  kind = e.body.kind;
  wire = wire;
}

-- `INSERT INTO events` and the edges in order.
unfoldable pub insert_event : SignedEvent → Bytes → Db → StoreResult Db
insert_event e wire db = do
  events ← ok_or (insert e.event_id (event_row e wire) db.events) database_unavailable
  edges ← ok_or (insert e.event_id e.body.parents db.edges) database_unavailable
  ok (record db { events = events; edges = edges })

-- `UPDATE contexts SET genesis_event_id=?1,state=1 WHERE … state=0 AND expected_genesis_id=?1`
unfoldable pub activate : ℕ → ℕ → Db → StoreResult Db
activate id context db = elim (lookup context db.contexts) [
  | none ↦ err genesis_mismatch
  | some r ↦
      if r.state == 0 && r.expected_genesis == id
      then ok (record db {
        contexts = upsert context (record r { genesis = some id; state = 1 }) db.contexts;
      })
      else err genesis_mismatch
]

unfoldable pub insert_context : ℕ → ℕ → Db → StoreResult Db
insert_context context expected db = do
  contexts ←
      ok_or
        (insert context (record { expected_genesis = expected; genesis = none; state = 0 })
          db.contexts)
        database_unavailable
  ok (record db { contexts = contexts })

unfoldable pub insert_authors : ℕ → List ℕ → Db → StoreResult Db
insert_authors context [] db = ok db
insert_authors context (a ∷ others) db = do
  authors ← ok_or (insert (context, a) tt db.authors) database_unavailable
  insert_authors context others (record db { authors = authors })

unfoldable pub provision_new : ℕ → ℕ → List ℕ → Op (Unit {0})
provision_new context expected authors db = do
  db' ← insert_context context expected db
  db'' ← insert_authors context authors db'
  ok (tt, db'')

-- The two answers to what is known of the context: `Store::provision_context` takes the same
-- provision again, `Store::join_context` while the context is pending only.
unfoldable pub provision_at : ℕ → ℕ → List ℕ → Option (ℕ × ℕ) → Op (Unit {0})
unfolding provision_new
provision_at context expected authors none db = provision_new context expected authors db
provision_at context expected authors (some (genesis, state)) db =
    if genesis == expected && same_ids (author_rows db context) authors
    then ok (tt, db)
    else err context_provision_mismatch

unfoldable pub join_at : ℕ → ℕ → List ℕ → Option (ℕ × ℕ) → Op (Unit {0})
unfolding provision_new
join_at context expected authors none db = provision_new context expected authors db
join_at context expected authors (some (genesis, state)) db =
    if not (state == 0)
      || (not (genesis == expected) || not (same_ids (author_rows db context) authors))
    then err context_provision_mismatch
    else ok (tt, db)

-- `Store::provision_context`
unfoldable pub provision_context_tx : ℕ → ℕ → List ℕ → Op (Unit {0})
unfolding provision_at
provision_context_tx context expected authors db = do
  validate_authors authors
  found ← context_row db context
  provision_at context expected authors found db

-- `Store::join_context`
unfoldable pub join_context_tx : ℕ → ℕ → List ℕ → Op (Unit {0})
unfolding join_at
join_context_tx context expected authors db = do
  validate_authors authors
  found ← context_row db context
  join_at context expected authors found db

-- `Store::authorize_author`: whether the author is new.
unfoldable pub authorize_author_tx : ℕ → ℕ → Op Bool
authorize_author_tx context author db = do
  found ← context_row db context
  known ← ok_or found context_unknown
  elim (insert (context, author) tt db.authors) [
    | none ↦ ok (false, db)
    | some authors ↦ ok (true, record db { authors = authors })
  ]

abbrev pub is_none : Option Bytes → Bool
is_none none = true
is_none (some _) = false

module _ (lib : Libraries) where
  -- `match existing`
  unfoldable pub store_event : SignedEvent → SignedEvent → Bytes → Option Bytes → Op Bool
  store_event e verified wire none db = do db' ← insert_event e wire db; ok (true, db')
  store_event e verified wire (some stored) db =
      if bytes_eq stored wire
      then (do validate_stored_event lib db verified; ok (false, db))
      else err event_collision

  unfoldable pub activate_pending : ℕ → ℕ → ℕ → Db → StoreResult Db
  activate_pending state id context db = if state == 0 then activate id context db else ok db

  -- The transaction of `Store::admit`, for an event with its wire and what the wire parses to.
  unfoldable pub admit_tx : SignedEvent → SignedEvent → Bytes → RefMutation → Op AdmissionStatus
  unfolding store_event activate_pending check_genesis
  admit_tx e verified wire mutation db = do
    found ← context_row db e.body.context
    (expected, state) ← ok_or found context_unknown
    let genesis = is_genesis expected e.event_id e.body.kind e.body.parents
    check_genesis state genesis e.body.kind e.body.parents
    refuse (not (is_authorized db e.body.context e.body.author)) unauthorized_author
    check_parents lib db e.body.context e.body.parents
    let existing = event_wire db e.event_id
    refuse (state == 1 && (genesis && is_none existing)) corrupt_storage
    (fresh, db₁) ← store_event e verified wire existing db
    db₂ ← activate_pending state e.event_id e.body.context db₁
    (applied, db₃) ← apply_ref_mutation e.event_id mutation db₂
    ok (if applied then already_applied else if fresh then inserted else already_present, db₃)

  -- `Store::admit` before its transaction: the wire, and what it parses to.
  unfoldable pub prepare : SignedEvent → RefMutation → StoreResult (Bytes × SignedEvent)
  prepare e mutation = do
    map_err contract (verify lib e)
    wire ← map_err contract (to_wire lib e)
    verified ← map_err contract (from_wire lib wire)
    check_mutation mutation e.body.context e.event_id
    ok (wire, verified)

  -- `Store::admit`
  unfoldable pub admit : Commit → SignedEvent → RefMutation → Db → StoreResult AdmissionStatus × Db
  admit commit e mutation db = elim (prepare e mutation) [
    | err x ↦ (err x, db)
    | ok (wire, verified) ↦ write commit (admit_tx e verified wire mutation) db
  ]

  -- `Store::admit_wire`
  unfoldable pub admit_wire : Commit → Bytes → RefMutation → Db → StoreResult AdmissionStatus × Db
  admit_wire commit wire mutation db = elim (map_err contract (from_wire lib wire)) [
    | err x ↦ (err x, db)
    | ok e ↦ admit commit e mutation db
  ]
