-- ===== src/Closure/Loaded.antt =====
-- The specification of what `load_closure_nodes` (src/closure.rs) returns, and its fuel.
use contextmesh_rs.Common.{
  ℕ, suc, ◌-◌, ◌≤◌, ◌≡◌, ◌≢◌, refl, subst, inl, inr, ◌↔◌, Option, some, List, Memᴰ, arith, All,
  Option-cases, length, ok, >>=-eq-ok, map_err,
}
use contextmesh_rs.Event.Body.{SignedEvent, Libraries, max_parents, validate_parents}
use contextmesh_rs.Event.Wire.{from_wire}
use contextmesh_rs.Event.Wire.RoundTrip.{from_wire-verify, verify-validate}
use contextmesh_rs.Store.State.{Db, corrupt_storage}
use contextmesh_rs.Store.Rows.{event, event_wire, reparse}
use contextmesh_rs.Walk.{Mark, unseen, active, done, Marks, finished, out_of_fuel}
use contextmesh_rs.Walk.Reach.{Reach}
use contextmesh_rs.Walk.Sound.{walk_rule}
use contextmesh_rs.Walk.Fuel.{Spends, walk_ends}
use contextmesh_rs.Closure.{
  ClosureLimits, Loading, first_node, close_node, node_visitor, nothing_loaded, load_fuel,
  load_closure_nodes,
}
use contextmesh_rs.Closure.Nodes.{
  node_ids, total_payload, Once, event_parents, IsNode, IsLoading, first_node-Adds, node-Keeps,
  start-IsLoading,
}

module _ (lib : Libraries) (db : Db) (context : ℕ) (limits : ClosureLimits) where
  -- A stored event that `event` gives is verified, so it has at most 64 parents.
  event_few :
      (id : ℕ) (e : SignedEvent)
      → event lib db id ≡ ok (some e)
      → length e.body.parents ≤ max_parents
  unfolding event reparse
  event_few id e h = elim (Option-cases (event_wire db id)) [
    | inl missing ↦ cc (rw (missing, event) at h)
    | inr (w, there) ↦
        let h' = rw (there, event) at h in
        let (x, parsed, h₂) = >>=-eq-ok (map_err (λ _. corrupt_storage) (from_wire lib w)) _ h' in
        let parses : from_wire lib w ≡ ok x = ground arith in
        let same : x ≡ e = ground (arith, h₂) in
        let valid = verify-validate lib x (from_wire-verify lib w x parses).0 in
        subst (λ (y : SignedEvent). length y.body.parents ≤ max_parents) same
          (validate_parents lib x.body valid).0
  ]

  first_cost :
      (id : ℕ) (child : Option ℕ) (marks : Marks) (a b : Loading) (ps : List ℕ)
      → first_node lib db context limits id child a ≡ ok (b, ps)
      → marks id ≡ unseen
      → IsLoading lib db context limits marks a
      → (suc (limits.max_events - b.count) ≤ limits.max_events - a.count)
        × (length ps ≤ max_parents)
  first_cost id child marks a b ps h u p =
      let d = first_node-Adds lib db context limits id child a b ps h in
      (omega (arith, d.count, d.room), rw d.parents (event_few id d.event_there d.loads))

  close_cost :
      (id : ℕ) (m n : Mark) (a b : Loading)
      → close_node id m a ≡ ok (b, n)
      → limits.max_events - b.count ≤ limits.max_events - a.count
  unfolding close_node
  close_cost id m n a b h = ground (arith, h)

  node-Spends :
      (selected : List ℕ)
      → Spends
          (node_visitor lib db context limits)
          (event_parents lib db context)
          selected
          (IsLoading lib db context limits)
          (λ a. limits.max_events - a.count)
          max_parents
  node-Spends selected = record {
    first_spends = first_cost;
    close_spends = λ id marks n a b h p. close_cost id (marks id) n a b h;
  }

  -- `load_closure_nodes` never runs out of fuel: it returns the nodes or an error.
  pub load_closure_nodes_ends :
      (selected : List ℕ) → load_closure_nodes lib db context limits selected ≢ out_of_fuel
  unfolding load_closure_nodes
  load_closure_nodes_ends selected =
      walk_ends (node_visitor lib db context limits) (event_parents lib db context) selected
        (IsLoading lib db context limits) (λ a. limits.max_events - a.count) max_parents
        (node-Spends selected) (node-Keeps lib db context limits selected)
        (load_fuel lib db context limits selected) (nothing_loaded lib db context limits)
        (ground arith) (start-IsLoading lib db context limits)

  -- The specification of the nodes of a selection, with the parents that the store gives.
  pub record Loads (selected : List ℕ) (a : Loading) : Type 0 where
    pub exact :
        (j : ℕ) → Memᴰ j (node_ids a.nodes) ↔ Reach (event_parents lib db context) selected j
    pub once : Once (node_ids a.nodes)
    pub nodes : All (IsNode lib db context) a.nodes
    pub size : length a.nodes ≤ limits.max_events
    pub total : a.total_bytes ≡ total_payload lib db context a.nodes
    pub bytes : total_payload lib db context a.nodes ≤ limits.max_exported_bytes

  -- The nodes that `load_closure_nodes` returns are exactly the events reachable from the selection
  -- over parents, each once, each an event that the store gives, in the context and with its parents. Their number
  -- and the sum of the lengths of their canonical payloads are within the limits, and the reported number of bytes is
  -- that sum.
  pub load_closure_nodes-Loads :
      (selected : List ℕ) (a : Loading)
      → load_closure_nodes lib db context limits selected ≡ finished a
      → Loads selected a
  unfolding load_closure_nodes
  load_closure_nodes-Loads selected a h =
      let ends =
        walk_rule (node_visitor lib db context limits) (event_parents lib db context) selected
          (IsLoading lib db context limits) (node-Keeps lib db context limits selected)
          (load_fuel lib db context limits selected) (nothing_loaded lib db context limits) a h
          (start-IsLoading lib db context limits) in
      let p = ends.kept in
      record {
        exact = λ j. (
          λ m.
              (ends.exact j).0
                (settled ends.marks j (ends.marks j) refl ((p.met j).1 m) (ends.none_open j)),
          λ r. (p.met j).0 (λ u. ground (arith, (ends.exact j).1 r, u)),
        );
        once = p.once;
        nodes = p.nodes;
        size = omega (arith, p.counted, p.size);
        total = p.total;
        bytes = omega (arith, p.total, p.bytes);
      }
    where
      -- A mark that is neither blank nor open is done.
      settled :
          (marks : Marks) (j : ℕ) (m : Mark)
          → marks j ≡ m
          → marks j ≢ unseen
          → marks j ≢ active
          → marks j ≡ done
      settled marks j unseen e s o = absurd (s e)
      settled marks j active e s o = absurd (o e)
      settled marks j done e s o = e
