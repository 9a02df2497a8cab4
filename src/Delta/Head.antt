-- ===== src/Delta/Head.antt =====
-- The state of a recipient at its head (`RecipientState::at_head`, src/delta.rs).
pub mod Knows
use contextmesh_rs.Common.{
  ℕ, ◌+◌, ◌≡◌, refl, sym, ap, subst, ◌∙◌, ◌↔◌, not, Option, none, some, List, [], ◌∷◌, ◌++◌, Memᴰ,
  ◌==◌, ltb, leb, length, sort_dedup, Memᴰ-sort_dedup, IsAscending, sort_dedup-IsAscending, Result,
  ok, err, ◌>>=◌, ◌>>◌, refuse, map_err, inl, inr, Bool-cases, Result-cases,
}
use contextmesh_rs.Event.Body.{SignedEvent, Libraries, canonical_payload_bytes}
use contextmesh_rs.Store.State.{StoreResult, Db}
use contextmesh_rs.Store.Rows.{event}
use contextmesh_rs.Store.Project.{max_usize}
use contextmesh_rs.Walk.{
  Mark, done, Visitor, Outcome, finished, failed, out_of_fuel, walk, blank, start_frames,
}
use contextmesh_rs.Walk.Reach.{Reach}
use contextmesh_rs.Walk.Maps.{Follows, map_first, map_outcome, walk_follows}
use contextmesh_rs.Closure.{
  ClosureError, ClosureLimits, EventNode, Loading, new_limits, first_node, close_node, found,
  missing, node_visitor, nothing_loaded, load_fuel, load_closure_nodes,
}
use contextmesh_rs.Closure.Nodes.{node_ids, event_parents}
use contextmesh_rs.Closure.Loaded.{Loads, load_closure_nodes-Loads}
use contextmesh_rs.Delta.{
  RecipientState, DeltaError, unknown_recipient_head, wrong_context, unverifiable_source,
  dangling_parent, limit_exceeded, cycle, internal, store,
}

-- The variables of the loop besides `state` and `stack`.
pub record Gathering : Type 0 where
  pub closure : List ℕ
  pub count : ℕ
  pub total_bytes : ℕ

-- What an event that is missing means, by where its identifier stood.
unfoldable pub absent : ℕ → Option ℕ → DeltaError
absent id none = unverifiable_source id
absent id (some child) = dangling_parent child id

-- `match store.event(id).await`
unfoldable pub known_event :
    ℕ → Option ℕ → StoreResult (Option SignedEvent) → Result DeltaError SignedEvent
unfolding absent
known_event id child (ok (some e)) = ok e
known_event id child (ok none) = err (absent id child)
known_event id child (err x) = err (store x)

-- The branch at `Frame::Exit`.
unfoldable pub close_known : ℕ → Mark → Gathering → Result DeltaError (Gathering × Mark)
close_known id m a = ok (a, done)

-- The check of the head before the loop.
unfoldable pub check_head : ℕ → ℕ → StoreResult (Option SignedEvent) → Result DeltaError (Unit {0})
check_head context head (ok (some e)) =
    refuse (not (e.body.context == context)) (wrong_context head)
check_head context head (ok none) = err (unknown_recipient_head head)
check_head context head (err x) = err (store x)

module _ (lib : Libraries) (db : Db) (context : ℕ) (limits : ClosureLimits) where
  -- The branch of an event that is met for the first time.
  unfoldable pub first_known : ℕ → Option ℕ → Gathering → Result DeltaError (Gathering × List ℕ)
  unfolding known_event
  first_known id child a = do
    refuse (leb limits.max_events a.count) limit_exceeded
    e ← known_event id child (event lib db id)
    refuse (not (e.body.context == context)) (wrong_context id)
    payload ← map_err (λ _. unverifiable_source id) (canonical_payload_bytes lib e.body.payload)
    let total = a.total_bytes + length payload
    refuse (ltb max_usize total) limit_exceeded
    refuse (ltb limits.max_exported_bytes total) limit_exceeded
    let next : Gathering = record {
      closure = a.closure ++ (id ∷ []);
      count = a.count + 1;
      total_bytes = total;
    }
    ok (next, e.body.parents)

  abbrev pub known_visitor : Visitor DeltaError Gathering
  known_visitor = record { first = first_known; close = close_known; cycle = cycle }

  abbrev pub nothing_known : Gathering
  nothing_known = record { closure = []; count = 0; total_bytes = 0 }

  -- The loop, with the fuel of a closure of one event.
  unfoldable pub gather : ℕ → Outcome DeltaError Gathering
  gather head =
      walk known_visitor (load_fuel lib db context limits (head ∷ [])) blank
        (start_frames (head ∷ [])) nothing_known

abbrev pub head_state : ℕ → ℕ → Gathering → RecipientState
head_state context head a = record {
  context = context;
  head = some head;
  closure = sort_dedup a.closure;
  total_bytes = a.total_bytes;
}

-- The errors of the checks before the loop.
unfoldable pub check_recipient :
    Libraries → Db → ℕ → ℕ → ClosureLimits → Result DeltaError ClosureLimits
unfolding check_head
check_recipient lib db context head stated = do
  limits ← map_err (λ _. limit_exceeded) (new_limits stated.max_events stated.max_exported_bytes)
  check_head context head (event lib db head)
  ok limits

-- `RecipientState::at_head`
unfoldable pub at_head : Libraries → Db → ℕ → ℕ → ClosureLimits → Outcome DeltaError RecipientState
unfolding gather check_recipient
at_head lib db context head stated = elim (check_recipient lib db context head stated) [
  | err x ↦ failed x
  | ok limits ↦ elim (gather lib db context limits head) [
    | finished a ↦ finished (head_state context head a)
    | failed x ↦ failed x
    | out_of_fuel ↦ out_of_fuel
  ]
]
