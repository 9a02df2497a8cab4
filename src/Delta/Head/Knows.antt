-- ===== src/Delta/Head/Knows.antt =====
-- What a recipient at a head knows (`RecipientState::at_head`, src/delta.rs).
use contextmesh_rs.Common.{
  ℕ, ◌+◌, ◌≡◌, refl, sym, ap, subst, ◌∙◌, ◌↔◌, Option, none, some, List, [], ◌∷◌, ◌++◌, Memᴰ, ◌==◌,
  ltb, leb, length, Memᴰ-sort_dedup, IsAscending, sort_dedup-IsAscending, Result, ok, err, map_err,
  inl, inr, Bool-cases, Result-cases,
}
use contextmesh_rs.Event.Body.{SignedEvent, Libraries, canonical_payload_bytes}
use contextmesh_rs.Store.State.{StoreResult, Db}
use contextmesh_rs.Store.Rows.{event}
use contextmesh_rs.Store.Project.{max_usize}
use contextmesh_rs.Walk.{Outcome, finished, failed, out_of_fuel, blank, start_frames}
use contextmesh_rs.Walk.Reach.{Reach}
use contextmesh_rs.Walk.Maps.{Follows, map_first, map_outcome, walk_follows}
use contextmesh_rs.Closure.{
  ClosureError, ClosureLimits, EventNode, Loading, first_node, close_node, found, missing,
  node_visitor, nothing_loaded, load_fuel, load_closure_nodes,
}
use contextmesh_rs.Closure.Nodes.{node_ids, event_parents}
use contextmesh_rs.Closure.Loaded.{Loads, load_closure_nodes-Loads}
use contextmesh_rs.Delta.{
  RecipientState, DeltaError, wrong_context, unverifiable_source, dangling_parent, limit_exceeded,
  cycle, internal, store,
}
use contextmesh_rs.Delta.Head.{
  Gathering, absent, known_event, close_known, first_known, known_visitor, gather, head_state,
  check_recipient, at_head,
}

-- What the loop shares with that of `load_closure_nodes`: the same steps, that keep the identifiers
-- only, and report the errors of a delta.
abbrev as_gathering : Loading → Gathering
as_gathering a = record { closure = node_ids a.nodes; count = a.count; total_bytes = a.total_bytes }

abbrev as_delta_error : ClosureError → DeltaError
as_delta_error (ClosureError.unverifiable_source id) = unverifiable_source id
as_delta_error (ClosureError.wrong_context id) = wrong_context id
as_delta_error (ClosureError.dangling_parent child parent) = dangling_parent child parent
as_delta_error ClosureError.cycle = cycle
as_delta_error ClosureError.limit_exceeded = limit_exceeded
as_delta_error ClosureError.invalid_policy = internal
as_delta_error ClosureError.internal = internal
as_delta_error (ClosureError.store x) = store x

node_ids-append : (ns ms : List EventNode) → node_ids (ns ++ ms) ≡ node_ids ns ++ node_ids ms
node_ids-append [] ms = refl
node_ids-append (n ∷ ns) ms = λ i. n.event ∷ node_ids-append ns ms (i)

known_event-found :
    (id : ℕ) (child : Option ℕ) (r : StoreResult (Option SignedEvent))
    → known_event id child r ≡ map_err as_delta_error (found id child r)
unfolding known_event found absent missing
known_event-found id child (ok (some e)) = refl
known_event-found id none (ok none) = refl
known_event-found id (some c) (ok none) = refl
known_event-found id child (err x) = refl

module _ (lib : Libraries) (db : Db) (context : ℕ) (limits : ClosureLimits) where
  first_follows :
      (id : ℕ) (child : Option ℕ) (a : Loading)
      → first_known lib db context limits id child (as_gathering a)
        ≡ map_first as_gathering as_delta_error (first_node lib db context limits id child a)
  unfolding first_known first_node
  first_follows id child a = elim (Bool-cases (leb limits.max_events a.count)) [
    | inl full ↦ rw full refl
    | inr room ↦ elim (Result-cases (found id child (event lib db id))) [
      | inr (x, f) ↦ rw (room, known_event-found id child (event lib db id), f) refl
      | inl (e, f) ↦ elim (Bool-cases (e.body.context == context)) [
        | inr other ↦ rw (room, known_event-found id child (event lib db id), f, other) refl
        | inl inside ↦ elim (Result-cases (canonical_payload_bytes lib e.body.payload)) [
          | inr (x, p) ↦ rw (room, known_event-found id child (event lib db id), f, inside, p) refl
          | inl (w, p) ↦ elim (Bool-cases (ltb max_usize (a.total_bytes + length w))) [
            | inl over ↦
                rw (room, known_event-found id child (event lib db id), f, inside, p, over) refl
            | inr fits ↦
                elim (Bool-cases (ltb limits.max_exported_bytes (a.total_bytes + length w))) [
                  | inl over ↦
                      rw
                        (
                          room,
                          known_event-found id child (event lib db id),
                          f,
                          inside,
                          p,
                          fits,
                          over,
                        )
                        refl
                  | inr within ↦
                      rw
                        (
                          room,
                          known_event-found id child (event lib db id),
                          f,
                          inside,
                          p,
                          fits,
                          within,
                          node_ids-append a.nodes
                              (record { event = id; parents = e.body.parents } ∷ []),
                        )
                        refl
                ]
          ]
        ]
      ]
    ]
  ]

  known-Follows :
      Follows as_gathering as_delta_error
        (node_visitor lib db context limits)
        (known_visitor lib db context limits)
  unfolding close_known close_node
  known-Follows = record { first = first_follows; close = λ id m a. refl; cycle = refl }

  -- The loop of `at_head` is that of `load_closure_nodes` at the head.
  gather-load_closure_nodes :
      (head : ℕ)
      → gather lib db context limits head
        ≡ map_outcome as_gathering as_delta_error
            (load_closure_nodes lib db context limits (head ∷ []))
  unfolding gather load_closure_nodes
  gather-load_closure_nodes head =
      walk_follows as_gathering as_delta_error (node_visitor lib db context limits)
        (known_visitor lib db context limits) known-Follows
        (load_fuel lib db context limits (head ∷ [])) blank (start_frames (head ∷ []))
        (nothing_loaded lib db context limits)

  gather-Loads :
      (head : ℕ) (a : Gathering)
      → gather lib db context limits head ≡ finished a
      → (b : Loading) × (a ≡ as_gathering b) × Loads lib db context limits (head ∷ []) b
  gather-Loads head a h =
      ended (load_closure_nodes lib db context limits (head ∷ [])) refl
        (sym (gather-load_closure_nodes head) ∙ h)
    where
      ended :
          (o : Outcome ClosureError Loading)
          → load_closure_nodes lib db context limits (head ∷ []) ≡ o
          → map_outcome as_gathering as_delta_error o ≡ finished a
          → (b : Loading) × (a ≡ as_gathering b) × Loads lib db context limits (head ∷ []) b
      ended (finished b) e h =
          (b, cc, load_closure_nodes-Loads lib db context limits (head ∷ []) b e)
      ended (failed x) e h = cc
      ended out_of_fuel e h = cc

module _ (lib : Libraries) (db : Db) (context head : ℕ) (stated : ClosureLimits) where
  -- What a recipient at a head knows: the ancestry of the head, in ascending order.
  pub record KnowsAncestry (s : RecipientState) : Type 0 where
    pub context_is : s.context ≡ context
    pub head_is : s.head ≡ some head
    pub ordered : IsAscending s.closure
    pub exact : (j : ℕ) → Memᴰ j s.closure ↔ Reach (event_parents lib db context) (head ∷ []) j

  -- The state that `at_head` returns knows exactly the ancestry of the head.
  pub at_head-KnowsAncestry :
      (s : RecipientState) → at_head lib db context head stated ≡ finished s → KnowsAncestry s
  unfolding at_head
  at_head-KnowsAncestry s h = checked (check_recipient lib db context head stated) h
    where
      gathered :
          (limits : ClosureLimits) (o : Outcome DeltaError Gathering)
          → gather lib db context limits head ≡ o
          → (elim o [
            | finished a ↦ finished (head_state context head a)
            | failed x ↦ failed x
            | out_of_fuel ↦ out_of_fuel
          ])
            ≡ finished s
          → KnowsAncestry s
      gathered limits (finished a) e h =
          let (b, same, loads) = gather-Loads lib db context limits head a e in
          let state : head_state context head a ≡ s = cc in
          subst KnowsAncestry state (record {
            context_is = refl;
            head_is = refl;
            ordered = sort_dedup-IsAscending a.closure;
            exact = λ j.
                let (out, into) = Memᴰ-sort_dedup j a.closure in
                let (far, near) = loads.exact j in
                let there : a.closure ≡ node_ids b.nodes = ap (λ (a : Gathering). a.closure) same in
                (
                  λ m. far (subst (Memᴰ j) there (out m)),
                  λ r. into (subst (Memᴰ j) (sym there) (near r)),
                );
          })
      gathered limits (failed x) e h = cc
      gathered limits out_of_fuel e h = cc

      checked :
          (r : Result DeltaError ClosureLimits)
          → (elim r [
            | err x ↦ failed x
            | ok limits ↦ elim (gather lib db context limits head) [
              | finished a ↦ finished (head_state context head a)
              | failed x ↦ failed x
              | out_of_fuel ↦ out_of_fuel
            ]
          ])
            ≡ finished s
          → KnowsAncestry s
      checked (err x) h = cc
      checked (ok limits) h = gathered limits (gather lib db context limits head) refl h
