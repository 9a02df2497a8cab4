-- ===== src/Closure.antt =====
-- Dependency closure (src/closure.rs): its errors and limits, and `load_closure_nodes`, the walk over
-- the ancestry of a selection. Its fuel is that of a projection: one frame for each head, and for
-- each event of the limit one and one for each of its parents.
pub mod Nodes
pub mod Loaded
pub mod Over
pub mod Select
pub mod Closes
pub mod Closed
use contextmesh_rs.Common.{
  ℕ, ◌+◌, ◌*◌, ◌≤◌, ◌≡◌, refl, Bool, true, false, not, ◌||◌, Option, none, some, List, [], ◌∷◌,
  ◌++◌, arith, Bytes, bytes_eq, ◌==◌, ltb, leb, if◌then◌else◌, length, is_empty, any, sort_dedup,
  Result, ok, err, ◌>>=◌, ◌>>◌, refuse, map_err,
}
use contextmesh_rs.Event.Kind.{max_kind_bytes}
use contextmesh_rs.Event.Body.{SignedEvent, Libraries, canonical_payload_bytes, max_parents}
use contextmesh_rs.Store.State.{StoreError, Db}
use contextmesh_rs.Store.Rows.{event}
use contextmesh_rs.Store.Project.{max_usize}
use contextmesh_rs.Walk.{Mark, done, Visitor, Outcome, walk, blank, start_frames}

pub data ClosureError : Type 0 where
  unverifiable_source wrong_context : ℕ → ClosureError
  dangling_parent : (child parent : ℕ) → ClosureError
  cycle limit_exceeded invalid_policy internal : ClosureError
  store : StoreError → ClosureError

abbrev pub ClosureResult : Type 0 → Type 0
ClosureResult = Result ClosureError

abbrev pub max_closure_events : ℕ
max_closure_events = 100_000

abbrev pub max_closure_bytes : ℕ
max_closure_bytes = 67_108_864

pub record ClosureLimits : Type 0 where
  pub max_events : ℕ
  pub max_exported_bytes : ℕ

-- `ClosureLimits::new`
unfoldable pub new_limits : ℕ → ℕ → ClosureResult ClosureLimits
new_limits max_events max_exported_bytes = do
  refuse
      (max_events == 0
        || (ltb max_closure_events max_events
            || (max_exported_bytes == 0 || ltb max_closure_bytes max_exported_bytes)))
      limit_exceeded
  let limits : ClosureLimits = record {
    max_events = max_events;
    max_exported_bytes = max_exported_bytes;
  }
  ok limits

pub record EventNode : Type 0 where
  pub event : ℕ
  pub parents : List ℕ

-- The variables of the loop besides `state` and `stack`.
pub record Loading : Type 0 where
  pub nodes : List EventNode
  pub count : ℕ
  pub total_bytes : ℕ

-- What an event that is missing means, by where its identifier stood.
unfoldable pub missing : ℕ → Option ℕ → ClosureError
missing id none = unverifiable_source id
missing id (some child) = dangling_parent child id

-- `match store.event(id).await`
unfoldable pub found :
    ℕ → Option ℕ → Result StoreError (Option SignedEvent) → ClosureResult SignedEvent
unfolding missing
found id child (ok (some e)) = ok e
found id child (ok none) = err (missing id child)
found id child (err x) = err (store x)

-- The branch at `Frame::Exit`.
unfoldable pub close_node : ℕ → Mark → Loading → ClosureResult (Loading × Mark)
close_node id m a = ok (a, done)

module _ (lib : Libraries) (db : Db) (context : ℕ) (limits : ClosureLimits) where
  -- The branch of an event that is met for the first time.
  unfoldable pub first_node : ℕ → Option ℕ → Loading → ClosureResult (Loading × List ℕ)
  unfolding found
  first_node id child a = do
    refuse (leb limits.max_events a.count) limit_exceeded
    e ← found id child (event lib db id)
    refuse (not (e.body.context == context)) (wrong_context id)
    payload ← map_err (λ _. unverifiable_source id) (canonical_payload_bytes lib e.body.payload)
    let total = a.total_bytes + length payload
    refuse (ltb max_usize total) limit_exceeded
    refuse (ltb limits.max_exported_bytes total) limit_exceeded
    let next : Loading = record {
      nodes = a.nodes ++ (record { event = id; parents = e.body.parents } ∷ []);
      count = a.count + 1;
      total_bytes = total;
    }
    ok (next, e.body.parents)

  abbrev pub node_visitor : Visitor ClosureError Loading
  node_visitor = record { first = first_node; close = close_node; cycle = cycle }

  abbrev pub nothing_loaded : Loading
  nothing_loaded = record { nodes = []; count = 0; total_bytes = 0 }

  abbrev pub load_fuel : List ℕ → ℕ
  load_fuel selected = length selected + limits.max_events * (max_parents + 1)

  unfoldable pub load_closure_nodes : List ℕ → Outcome ClosureError Loading
  load_closure_nodes selected =
      walk node_visitor (load_fuel selected) blank (start_frames selected) nothing_loaded
