-- ===== src/Store/Project.antt =====
-- The ancestry projection of src/store/dag.rs: `ProjectionLimits`, `normalize_heads`,
-- `load_verified_event`, `project_on` and `project`. The walk over the ancestry is the one of
-- Walk.antt; its fuel is a frame for each head, and for each event that the limit admits one frame
-- for itself and one for each of its parents, of which there are at most 64.
pub mod Order
pub mod Sizes
pub mod Keeps
pub mod Complete
use contextmesh_rs.Common.{
  ℕ, ◌+◌, ◌*◌, ◌≤◌, ◌≡◌, refl, Bool, true, false, not, ◌||◌, Option, none, some, List, [], ◌∷◌,
  ◌++◌, arith, Bytes, ◌==◌, ltb, if◌then◌else◌, length, is_empty, sort_dedup, Result, ok, err,
  ◌>>=◌, ◌>>◌, refuse, ok_or, map_err,
}
use contextmesh_rs.Common.Table.{Table, id_eq, lookup, upsert, delete}
use contextmesh_rs.Event.Body.{SignedEvent, Libraries, max_parents}
use contextmesh_rs.Event.Wire.{from_wire, to_wire}
use contextmesh_rs.Store.State.{
  StoreError, StoreResult, Db, corrupt_storage, parent_missing, parent_context_mismatch,
  projection_cycle, projection_limit_exceeded,
}
use contextmesh_rs.Store.Rows.{event_wire, reparse, validate_stored_event}
use contextmesh_rs.Walk.{
  Mark, active, done, Visitor, Outcome, finished, failed, out_of_fuel, walk, blank, start_frames,
}

abbrev pub max_projection_events : ℕ
max_projection_events = 100_000

abbrev pub max_projection_wire_bytes : ℕ
max_projection_wire_bytes = 67_108_864

abbrev pub max_projection_heads : ℕ
max_projection_heads = 256

abbrev pub max_bundle_events : ℕ
max_bundle_events = 1_024

-- The largest `usize`, of 64 bits.
abbrev pub max_usize : ℕ
max_usize = 18_446_744_073_709_551_615

-- `checked_add`
abbrev pub checked_add : StoreError → ℕ → ℕ → StoreResult ℕ
checked_add e a b = if ltb max_usize (a + b) then err e else ok (a + b)

pub record ProjectionLimits : Type 0 where
  pub max_events : ℕ
  pub max_wire_bytes : ℕ

-- `ProjectionLimits::default()`
abbrev pub default_limits : ProjectionLimits
default_limits = record {
  max_events = max_projection_events;
  max_wire_bytes = max_projection_wire_bytes;
}

unfoldable pub validate_projection_limits : ProjectionLimits → StoreResult (Unit {0})
validate_projection_limits limits =
    refuse
      (limits.max_events == 0
        || (ltb max_projection_events limits.max_events
            || (limits.max_wire_bytes == 0 || ltb max_projection_wire_bytes limits.max_wire_bytes)))
      projection_limit_exceeded

unfoldable pub normalize_heads : List ℕ → StoreResult (List ℕ)
normalize_heads heads = do
  refuse (is_empty heads || ltb max_projection_heads (length heads)) projection_limit_exceeded
  ok (sort_dedup heads)

-- The variables of the loop besides `state` and `stack`.
pub record Projecting : Type 0 where
  pub loaded : Table ℕ SignedEvent
  pub ordered : List SignedEvent
  pub wire_bytes : ℕ

pub record Projection : Type 0 where
  pub context : ℕ
  pub heads : List ℕ
  pub events : List SignedEvent
  pub canonical_wire_bytes : ℕ

-- The branch at `Frame::Exit`.
unfoldable pub close_project : ℕ → Mark → Projecting → StoreResult (Projecting × Mark)
close_project id active a = elim (lookup id a.loaded) [
  | none ↦ err corrupt_storage
  | some e ↦
      let closed : Projecting = record {
        loaded = delete (λ j. id == j) a.loaded;
        ordered = a.ordered ++ (e ∷ []);
        wire_bytes = a.wire_bytes;
      } in
      ok (closed, done)
]
close_project id m a = ok (a, m)

module _ (lib : Libraries) (db : Db) where
  unfoldable pub load_verified_event : ℕ → StoreResult SignedEvent
  load_verified_event id = do
    wire ← ok_or (event_wire db id) (parent_missing id)
    e ← reparse lib wire
    refuse (not (e.event_id == id)) corrupt_storage
    validate_stored_event lib db e
    ok e

  module _ (context : ℕ) (limits : ProjectionLimits) where
    -- The branch of an event that is met for the first time.
    unfoldable pub first_project : ℕ → Option ℕ → Projecting → StoreResult (Projecting × List ℕ)
    first_project id child a = do
      e ← load_verified_event id
      refuse (not (e.body.context == context)) (parent_context_mismatch id)
      wire ← map_err (λ _. corrupt_storage) (to_wire lib e)
      count ← checked_add projection_limit_exceeded (length a.loaded) (length a.ordered)
      next_count ← checked_add projection_limit_exceeded count 1
      next_bytes ← checked_add projection_limit_exceeded a.wire_bytes (length wire)
      refuse (ltb limits.max_events next_count || ltb limits.max_wire_bytes next_bytes)
          projection_limit_exceeded
      let next : Projecting = record {
        loaded = upsert id e a.loaded;
        ordered = a.ordered;
        wire_bytes = next_bytes;
      }
      ok (next, e.body.parents)

    abbrev pub project_visitor : Visitor StoreError Projecting
    project_visitor = record {
      first = first_project;
      close = close_project;
      cycle = projection_cycle;
    }

    abbrev pub nothing_projected : Projecting
    nothing_projected = record { loaded = []; ordered = []; wire_bytes = 0 }

    abbrev pub project_fuel : List ℕ → ℕ
    project_fuel heads = length heads + limits.max_events * (max_parents + 1)

    -- `project_on` up to its loop.
    unfoldable pub check_project : List ℕ → StoreResult (Unit {0})
    check_project heads = do
      validate_projection_limits limits
      refuse (is_empty heads || ltb max_bundle_events (length heads)) projection_limit_exceeded

    unfoldable pub project_on : List ℕ → Outcome StoreError Projecting
    project_on heads = elim (check_project heads) [
      | err x ↦ failed x
      | ok u ↦
          walk project_visitor (project_fuel heads) blank (start_frames heads) nothing_projected
    ]

    abbrev pub projected : List ℕ → Outcome StoreError Projecting → Outcome StoreError Projection
    projected heads (failed x) = failed x
    projected heads out_of_fuel = out_of_fuel
    projected heads (finished a) = finished (record {
      context = context;
      heads = heads;
      events = a.ordered;
      canonical_wire_bytes = a.wire_bytes;
    })

    -- `Store::project`
    unfoldable pub project : List ℕ → Outcome StoreError Projection
    project heads = elim (do validate_projection_limits limits; normalize_heads heads) [
      | err x ↦ failed x
      | ok sorted ↦ projected sorted (project_on sorted)
    ]
