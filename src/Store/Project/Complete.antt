-- ===== src/Store/Project/Complete.antt =====
-- The specification of what `project_on` (src/store/dag.rs) returns, and its fuel.
use contextmesh_rs.Common.{
  ℕ, suc, ◌+◌, ◌-◌, ◌≤◌, ◌≡◌, ◌≢◌, ap, subst, inl, inr, ◌↔◌, Option, List, [], ◌∷◌, Memᴰ, arith,
  All, Option-cases, length, length-append, ok, Result-cases, >>=-eq-ok, map_err, ok_or,
}
use contextmesh_rs.Common.Table.{id_eq, lookup}
use contextmesh_rs.Common.Table.Unique.{length-upsert_fresh, length-delete}
use contextmesh_rs.Event.Body.{SignedEvent, Libraries, max_parents, validate_parents}
use contextmesh_rs.Event.Wire.{from_wire}
use contextmesh_rs.Event.Wire.RoundTrip.{from_wire-verify, verify-validate}
use contextmesh_rs.Store.State.{Db, corrupt_storage}
use contextmesh_rs.Store.Rows.{event_wire, reparse}
use contextmesh_rs.Walk.{Mark, unseen, active, done, Marks, finished, out_of_fuel}
use contextmesh_rs.Walk.Reach.{Reach}
use contextmesh_rs.Walk.Sound.{walk_rule}
use contextmesh_rs.Walk.Fuel.{Spends, walk_ends}
use contextmesh_rs.Store.Project.{
  ProjectionLimits, Projecting, load_verified_event, first_project, close_project, project_visitor,
  project_on, check_project, project_fuel, nothing_projected,
}
use contextmesh_rs.Store.Project.Sizes.{total_wire, held_wire, nothing_found}
use contextmesh_rs.Store.Project.Order.{ids, ParentsFirst, Nothing}
use contextmesh_rs.Store.Project.Keeps.{
  loaded_parents, Loads, IsProjecting, first_project-Opens, absent, project-Keeps,
  start-IsProjecting,
}

module _ (lib : Libraries) (db : Db) (context : ℕ) (limits : ProjectionLimits) where
  -- What the limit on events still allows.
  abbrev budget : Projecting → ℕ
  budget a = limits.max_events - (length a.loaded + length a.ordered)

  few_parents :
      (id : ℕ) (e : SignedEvent)
      → load_verified_event lib db id ≡ ok e
      → length e.body.parents ≤ max_parents
  unfolding load_verified_event reparse
  few_parents id e h =
      let (w, _, h₁) = >>=-eq-ok (ok_or (event_wire db id) _) _ h in
      let (x, parsed, h₂) = >>=-eq-ok (map_err (λ _. corrupt_storage) (from_wire lib w)) _ h₁ in
      let parses : from_wire lib w ≡ ok x = ground arith in
      let same : x ≡ e = ground (arith, h₂) in
      let valid = verify-validate lib x (from_wire-verify lib w x parses).0 in
      subst (λ (y : SignedEvent). length y.body.parents ≤ max_parents) same
        (validate_parents lib x.body valid).0

  first_cost :
      (id : ℕ) (child : Option ℕ) (marks : Marks) (a b : Projecting) (ps : List ℕ)
      → first_project lib db context limits id child a ≡ ok (b, ps)
      → marks id ≡ unseen
      → IsProjecting lib db context limits marks a
      → (suc (budget b) ≤ budget a) × (length ps ≤ max_parents)
  first_cost id child marks a b ps h u p =
      let o = first_project-Opens lib db context limits id child a b ps h in
      let fresh =
        length-upsert_fresh id o.event a.loaded (absent lib db context limits id marks a u p) in
      (
        omega (arith, o.size, ap length o.loaded, ap length o.ordered, fresh),
        rw o.parents (few_parents id o.event o.loads.0),
      )

  close_cost :
      (id : ℕ) (m n : Mark) (marks : Marks) (a b : Projecting)
      → close_project id m a ≡ ok (b, n)
      → IsProjecting lib db context limits marks a
      → budget b ≤ budget a
  unfolding close_project
  close_cost id unseen n marks a b h p = ground arith
  close_cost id done n marks a b h p = ground arith
  close_cost id active n marks a b h p = elim (Option-cases (lookup id a.loaded)) [
    | inl n ↦ absurd (ground arith)
    | inr (x, l) ↦
        ground (arith, length-append a.ordered (x ∷ []), length-delete id x a.loaded p.unique l)
  ]

  -- The limit on events bounds the first visits, and a stored event has at most 64 parents.
  project-Spends :
      (heads : List ℕ)
      → Spends
          (project_visitor lib db context limits)
          (loaded_parents lib db context)
          heads
          (IsProjecting lib db context limits)
          budget
          max_parents
  project-Spends heads = record {
    first_spends = first_cost;
    close_spends = λ id marks n a b h p. close_cost id (marks id) n marks a b h p;
  }

  -- `project_on` never runs out of fuel: it returns a projection or an error.
  pub project_on_ends : (heads : List ℕ) → project_on lib db context limits heads ≢ out_of_fuel
  unfolding project_on
  project_on_ends heads e = elim (Result-cases (check_project lib db context limits heads)) [
    | inl (u, c) ↦
        walk_ends (project_visitor lib db context limits) (loaded_parents lib db context) heads
          (IsProjecting lib db context limits) budget max_parents (project-Spends heads)
          (project-Keeps lib db context limits heads) (project_fuel lib db context limits heads)
          (nothing_projected lib db context limits) (ground arith)
          (start-IsProjecting lib db context limits) (rw (c, project_on) at e)
    | inr (x, c) ↦ cc (rw (c, project_on) at e)
  ]

  -- The specification of a projection, with parents as the loaded events have them.
  pub record Projects (heads : List ℕ) (a : Projecting) : Type 0 where
    pub exact : (j : ℕ) → Memᴰ j (ids a.ordered) ↔ Reach (loaded_parents lib db context) heads j
    pub order : ParentsFirst Nothing a.ordered
    pub loads : All (λ (e : SignedEvent). Loads lib db context e.event_id e) a.ordered
    pub size : length a.ordered ≤ limits.max_events
    pub total : a.wire_bytes ≡ total_wire lib a.ordered
    pub bytes : total_wire lib a.ordered ≤ limits.max_wire_bytes

  -- A projection that `project_on` returns holds exactly the events reachable from the heads over
  -- parents, each once and after its parents, each as it verifies from its row and in the context. Their number and
  -- the sum of the lengths of their wires are within the limits, and the reported number of bytes is that sum.
  pub project_on-Projects :
      (heads : List ℕ) (a : Projecting)
      → project_on lib db context limits heads ≡ finished a
      → Projects heads a
  unfolding project_on held_wire
  project_on-Projects heads a h = elim (Result-cases (check_project lib db context limits heads)) [
    | inr (x, c) ↦ cc (rw (c, project_on) at h)
    | inl (u, c) ↦
        let ends =
          walk_rule (project_visitor lib db context limits) (loaded_parents lib db context) heads
            (IsProjecting lib db context limits) (project-Keeps lib db context limits heads)
            (project_fuel lib db context limits heads) (nothing_projected lib db context limits) a
            (rw (c, project_on) at h) (start-IsProjecting lib db context limits) in
        let p = ends.kept in
        let empty : a.loaded ≡ [] =
          nothing_found a.loaded (λ j e at. ends.none_open j (p.visited j e at).0) in
        let total : a.wire_bytes ≡ total_wire lib a.ordered =
          omega (arith, p.total, ap (held_wire lib) empty) in
        record {
          exact = λ j.
              (λ m. (ends.exact j).0 ((p.closed j).1 m), λ r. (p.closed j).0 ((ends.exact j).1 r));
          order = p.order;
          loads = p.loads;
          size = omega (arith, p.size);
          total = total;
          bytes = omega (arith, total, p.bytes);
        }
  ]
