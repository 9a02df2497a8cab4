-- ===== src/Store/Bundle.antt =====
-- The import of a bundle (`import_bundle_value`, `BundleV1::from_parts` and the limits of
-- src/store/bundle.rs): its events and remote refs in one transaction.
pub mod Keeps
pub mod Parts
pub mod Wire
pub mod RoundTrip
pub mod Export
pub mod Sent
pub mod Exports
pub mod Transfer
use contextmesh_rs.Common.{
  ℕ, ◌+◌, ◌≡◌, Bool, true, false, not, ◌&&◌, ◌||◌, Option, none, some, List, [], ◌∷◌, arith, Bytes,
  bytes_eq, ◌==◌, ltb, if◌then◌else◌, length, is_empty, Result, ok, err, ◌>>=◌, ◌>>◌, refuse, ok_or,
  map_err,
}
use contextmesh_rs.Common.Table.{id_eq, bytes_key, pair_eq, lookup, insert, upsert}
use contextmesh_rs.Event.Body.{SignedEvent, Libraries}
use contextmesh_rs.Event.Wire.{to_wire}
use contextmesh_rs.Store.State.{
  StoreError, StoreResult, Db, EventRow, Op, Commit, write, database_unavailable, corrupt_storage,
  context_unknown, genesis_mismatch, unauthorized_author, event_collision, bundle_ref_invalid,
  bundle_limit_exceeded, contract,
}
use contextmesh_rs.Store.Rows.{
  context_row, is_authorized, event_wire, validate_stored_event, check_parents,
  authoritative_event_context,
}
use contextmesh_rs.Store.Refs.{is_head}
use contextmesh_rs.Store.Admit.{genesis_kind, is_genesis, event_row, activate_pending}

abbrev pub max_bundle_canonical_bytes : ℕ
max_bundle_canonical_bytes = 16_777_216

abbrev pub max_bundle_refs : ℕ
max_bundle_refs = 256

-- The one namespace that there is, the local one, is left out.
pub record AdvertisedRef : Type 0 where
  pub name : Bytes
  pub head : ℕ

pub record Bundle : Type 0 where
  pub context : ℕ
  pub events : List SignedEvent
  pub refs : List AdvertisedRef

pub record ImportReport : Type 0 where
  pub inserted : ℕ
  pub already_present : ℕ
  pub remote_refs_updated : ℕ

-- The variables of the loop over the events, with the database of the transaction.
pub record Importing : Type 0 where
  pub db : Db
  pub state : ℕ
  pub inserted : ℕ
  pub already_present : ℕ

-- `INSERT INTO events` with the context of the bundle, and the edges in order.
unfoldable pub insert_imported : ℕ → SignedEvent → Bytes → Db → StoreResult Db
insert_imported context e wire db = do
  events ←
      ok_or (insert e.event_id (record (event_row e wire) { context = context }) db.events)
        database_unavailable
  edges ← ok_or (insert e.event_id e.body.parents db.edges) database_unavailable
  ok (record db { events = events; edges = edges })

module _ (lib : Libraries) where
  -- `match event_wire(tx, id).await?`: whether the event is new, and the database behind it.
  unfoldable pub place : ℕ → ℕ → Bool → SignedEvent → Bytes → Option Bytes → Op Bool
  unfolding insert_imported
  place context state genesis e wire none db = do
    refuse (state == 1 && genesis) corrupt_storage
    db' ← insert_imported context e wire db
    ok (true, db')
  place context state genesis e wire (some existing) db = do
    refuse (state == 0 && genesis) corrupt_storage
    refuse (not (bytes_eq existing wire)) event_collision
    validate_stored_event lib db e
    ok (false, db)

  -- The tests of an event against the state of its context.
  unfoldable pub check_imported : ℕ → Bool → SignedEvent → StoreResult (Unit {0})
  check_imported state genesis e = do
    refuse (state == 0 && not genesis) genesis_mismatch
    refuse
        (state == 1
          && (not genesis && (is_empty e.body.parents || bytes_eq e.body.kind genesis_kind)))
        genesis_mismatch

  -- The counters behind an event.
  abbrev pub count_import : Bool → Importing → Db → Importing
  count_import fresh i db = record {
    db = db;
    state = if i.state == 0 then 1 else i.state;
    inserted = if fresh then i.inserted + 1 else i.inserted;
    already_present = if fresh then i.already_present else i.already_present + 1;
  }

  -- The body of the loop over the events.
  unfoldable pub import_event : ℕ → ℕ → SignedEvent → Importing → StoreResult Importing
  unfolding check_imported place activate_pending
  import_event context expected e i = do
    let genesis = is_genesis expected e.event_id e.body.kind e.body.parents
    check_imported i.state genesis e
    refuse (not (is_authorized i.db context e.body.author)) unauthorized_author
    check_parents lib i.db context e.body.parents
    wire ← map_err contract (to_wire lib e)
    (fresh, placed) ← place context i.state genesis e wire (event_wire i.db e.event_id) i.db
    activated ← activate_pending lib i.state e.event_id context placed
    ok (count_import fresh i activated)

  unfoldable pub import_events : ℕ → ℕ → List SignedEvent → Importing → StoreResult Importing
  import_events context expected [] i = ok i
  import_events context expected (e ∷ es) i = do
    next ← import_event context expected e i
    import_events context expected es next

  -- The body of the loop over the refs: how many changed, and the database behind it. Neither this
  -- count nor the two of the events can overflow, with 1,024 events and 256 refs at most.
  unfoldable pub import_ref : Bytes → ℕ → AdvertisedRef → ℕ → Op ℕ
  import_ref peer context r updated db = do
    found ← authoritative_event_context lib db r.head
    refuse (not (is_head found context)) bundle_ref_invalid
    if is_head (lookup (peer, (context, r.name)) db.remote_refs) r.head
        then ok (updated, db)
        else ok (
          updated + 1,
          record db { remote_refs = upsert (peer, (context, r.name)) r.head db.remote_refs },
        )

  unfoldable pub import_refs : Bytes → ℕ → List AdvertisedRef → ℕ → Op ℕ
  unfolding import_ref
  import_refs peer context [] updated db = ok (updated, db)
  import_refs peer context (r ∷ rs) updated db = do
    (next, db') ← import_ref peer context r updated db
    import_refs peer context rs next db'

  -- The transaction of `Store::import_bundle_value`.
  unfoldable pub import_tx : Bytes → Bundle → Op ImportReport
  unfolding import_events import_refs
  import_tx peer bundle db = do
    found ← context_row db bundle.context
    (expected, state) ← ok_or found context_unknown
    let start : Importing = record { db = db; state = state; inserted = 0; already_present = 0 }
    i ← import_events bundle.context expected bundle.events start
    (updated, db') ← import_refs peer bundle.context bundle.refs 0 i.db
    let report : ImportReport = record {
      inserted = i.inserted;
      already_present = i.already_present;
      remote_refs_updated = updated;
    }
    ok (report, db')

  unfoldable pub import_bundle_value : Commit → Bytes → Bundle → Db → StoreResult ImportReport × Db
  import_bundle_value commit peer bundle db = write commit (import_tx peer bundle) db
