-- ===== src/Closure/Nodes.antt =====
-- The invariant of the loop of `load_closure_nodes` (src/closure.rs).
use mathlib.Core.List.Memᴰ
use contextmesh_rs.Common.{
  ℕ, suc, ◌+◌, ◌≤◌, not, ltb, ◌>>=◌, ◌>>◌, map_err, Bytes, ◌≡◌, ◌≢◌, refl, ap, sym, ◌∙◌, subst, ◌⊎◌,
  inl, inr, ⊎_elim, ◌↔◌, Option, none, some, List, [], ◌∷◌, ◌++◌, map, Memᴰ, arith, All, All-append,
  Memᴰ-cons, ◌==◌, ==_iff, Bool-cases, length, length-append, Result, ok, err, >>=-eq-ok, refuse,
  leb,
}
use contextmesh_rs.Event.Body.{SignedEvent, Libraries, canonical_payload_bytes, canonicalize}
use contextmesh_rs.Store.State.{StoreError, Db}
use contextmesh_rs.Store.Rows.{event}
use contextmesh_rs.Store.Project.{max_usize}
use contextmesh_rs.Walk.{unseen, active, done, Marks, set_mark, blank}
use contextmesh_rs.Walk.Sound.{Keeps}
use contextmesh_rs.Closure.{
  ClosureLimits, EventNode, Loading, found, first_node, close_node, node_visitor, nothing_loaded,
  limit_exceeded, ClosureResult, wrong_context, unverifiable_source,
}

abbrev pub node_ids : List EventNode → List ℕ
node_ids = map (λ (n : EventNode). n.event)

-- No identifier stands twice.
abbrev pub Once : List ℕ → Type 0
Once [] = Unit
Once (x ∷ xs) = (Memᴰ x xs → ⊥) × Once xs

Memᴰ-snoc :
    (j : ℕ) (ns : List EventNode) (n : EventNode)
    → Memᴰ j (node_ids (ns ++ (n ∷ []))) ↔ (Memᴰ j (node_ids ns) ⊎ (j ≡ n.event))
Memᴰ-snoc j [] n = (
  λ m. ⊎_elim inr inl ((Memᴰ-cons j n.event []).0 m),
  ⊎_elim (λ m. absurd (Memᴰ.not-nil m)) (λ p. Memᴰ.head p),
)
Memᴰ-snoc j (x ∷ ns) n =
    let (there, back) = Memᴰ-snoc j ns n in
    let (split, join) = Memᴰ-cons j x.event (node_ids (ns ++ (n ∷ []))) in
    let (split', join') = Memᴰ-cons j x.event (node_ids ns) in
    ground (arith, there, back, split, join, split', join')

Once-snoc :
    (ns : List EventNode) (n : EventNode)
    → Once (node_ids ns)
    → (Memᴰ n.event (node_ids ns) → ⊥)
    → Once (node_ids (ns ++ (n ∷ [])))
Once-snoc [] n o fresh = (λ m. Memᴰ.not-nil m, tt)
Once-snoc (x ∷ ns) n o fresh = (
  λ m.
      ⊎_elim o.0 (λ (e : x.event ≡ n.event). fresh (Memᴰ.head (sym e)))
        ((Memᴰ-snoc x.event ns n).0 m),
  Once-snoc ns n o.1 (λ m. fresh (Memᴰ.tail m)),
)

module _ (lib : Libraries) (db : Db) (context : ℕ) where
  -- The parents of the event that the store gives for `id`.
  abbrev pub event_parents : ℕ → List ℕ
  event_parents id = elim (event lib db id) [
    | err x ↦ []
    | ok r ↦ elim r [ none ↦ [] | some e ↦ e.body.parents ]
  ]

  -- The node is the event of its identifier, in the context.
  abbrev pub IsNode : EventNode → Type 0
  IsNode n =
      (e : SignedEvent) × (event lib db n.event ≡ ok (some e))
      × (e.body.context ≡ context)
      × (n.parents ≡ e.body.parents)

  -- The length of the canonical payload of the event that the store gives for `id`, 0 where it has none.
  abbrev pub payload_size : ℕ → ℕ
  payload_size id = elim (event lib db id) [
    | err x ↦ 0
    | ok r ↦ elim r [
      | none ↦ 0
      | some e ↦ elim (lib.canonical e.body.payload) [ none ↦ 0 | some w ↦ length w ]
    ]
  ]

  unfoldable pub total_payload : List EventNode → ℕ
  total_payload [] = 0
  total_payload (n ∷ ns) = payload_size n.event + total_payload ns

  total_payload-snoc :
      (ns : List EventNode) (n : EventNode)
      → total_payload (ns ++ (n ∷ [])) ≡ total_payload ns + payload_size n.event
  unfolding total_payload
  total_payload-snoc [] n = omega arith
  total_payload-snoc (x ∷ ns) n = omega (arith, total_payload-snoc ns n)

  payload_there :
      (id : ℕ) (e : SignedEvent) (w : Bytes)
      → event lib db id ≡ ok (some e)
      → canonical_payload_bytes lib e.body.payload ≡ ok w
      → payload_size id ≡ length w
  unfolding canonical_payload_bytes canonicalize
  payload_there id e w there h =
      let canonical : lib.canonical e.body.payload ≡ some w = ground arith in
      rw (there, canonical, payload_size) refl

  module _ (limits : ClosureLimits) where
    pub record IsLoading (marks : Marks) (a : Loading) : Type 0 where
      pub met : (j : ℕ) → (marks j ≢ unseen) ↔ Memᴰ j (node_ids a.nodes)
      pub once : Once (node_ids a.nodes)
      pub nodes : All IsNode a.nodes
      pub counted : a.count ≡ length a.nodes
      pub size : a.count ≤ limits.max_events
      pub bytes : a.total_bytes ≤ limits.max_exported_bytes
      pub total : a.total_bytes ≡ total_payload a.nodes

    pub record Adds (id : ℕ) (a b : Loading) (ps : List ℕ) : Type 0 where
      pub event_there : SignedEvent
      pub loads : event lib db id ≡ ok (some event_there)
      pub inside : event_there.body.context ≡ context
      pub parents : ps ≡ event_there.body.parents
      pub nodes : b.nodes ≡ a.nodes ++ (record { event = id; parents = ps } ∷ [])
      pub count : b.count ≡ suc a.count
      pub room : suc a.count ≤ limits.max_events
      pub bytes : b.total_bytes ≤ limits.max_exported_bytes
      pub total : b.total_bytes ≡ a.total_bytes + payload_size id

    found-eq-ok :
        (id : ℕ) (child : Option ℕ) (r : Result StoreError (Option SignedEvent)) (e : SignedEvent)
        → found id child r ≡ ok e
        → r ≡ ok (some e)
    unfolding found
    found-eq-ok id child (ok (some x)) e h = let same : x ≡ e = cc in ap (λ y. ok (some y)) same
    found-eq-ok id child (ok none) e h = cc
    found-eq-ok id child (err x) e h = cc

    -- The rest of the first visit, behind the lookup of the event.
    abbrev rest_of : ℕ → Loading → SignedEvent → ClosureResult (Loading × List ℕ)
    rest_of id a e = do
      refuse (not (e.body.context == context)) (wrong_context id)
      payload ← map_err (λ _. unverifiable_source id) (canonical_payload_bytes lib e.body.payload)
      let total = a.total_bytes + length payload
      refuse (ltb max_usize total) limit_exceeded
      refuse (ltb limits.max_exported_bytes total) limit_exceeded
      let next : Loading = record {
        nodes = a.nodes ++ (record { event = id; parents = e.body.parents } ∷ []);
        count = a.count + 1;
        total_bytes = total;
      }
      ok (next, e.body.parents)

    first_total :
        (id : ℕ) (a b : Loading) (ps : List ℕ) (e : SignedEvent)
        → event lib db id ≡ ok (some e)
        → rest_of id a e ≡ ok (b, ps)
        → b.total_bytes ≡ a.total_bytes + payload_size id
    first_total id a b ps e there h =
        let (_, _, h₁) =
          >>=-eq-ok (refuse (not (e.body.context == context)) (wrong_context id)) _ h in
        let (w, written, h₂) =
          >>=-eq-ok
            (map_err (λ _. unverifiable_source id) (canonical_payload_bytes lib e.body.payload)) _
            h₁ in
        let canonical : canonical_payload_bytes lib e.body.payload ≡ ok w =
          ground (arith, written) in
        ground (arith, h₂, payload_there id e w there canonical)

    pub first_node-Adds :
        (id : ℕ) (child : Option ℕ) (a b : Loading) (ps : List ℕ)
        → first_node lib db context limits id child a ≡ ok (b, ps)
        → Adds id a b ps
    unfolding first_node
    first_node-Adds id child a b ps h =
        let (_, room, h₁) = >>=-eq-ok (refuse (leb limits.max_events a.count) limit_exceeded) _ h in
        let (e, f, h₂) = >>=-eq-ok (found id child (event lib db id)) _ h₁ in
        record {
          event_there = e;
          loads = found-eq-ok id child (event lib db id) e f;
          inside = ground (arith, h₂);
          parents = ground (arith, h₂);
          nodes = ground (arith, h₂);
          count = ground (arith, h₂);
          room = ground (arith, room);
          bytes = ground (arith, h₂);
          total = first_total id a b ps e (found-eq-ok id child (event lib db id) e f) h₂;
        }

    met_first :
        (id : ℕ) (marks : Marks) (a : Loading) (n : EventNode) (j : ℕ)
        → n.event ≡ id
        → IsLoading marks a
        → (set_mark marks id active j ≢ unseen) ↔ Memᴰ j (node_ids (a.nodes ++ (n ∷ [])))
    met_first id marks a n j named p = elim (Bool-cases (id == j)) [
      | inl same ↦
          let here : j ≡ n.event = sym ((==_iff id j).0 same) ∙ sym named in
          (λ _. (Memᴰ-snoc j a.nodes n).1 (inr here), λ _ u. ground (arith, u))
      | inr other ↦ (
        λ s. (Memᴰ-snoc j a.nodes n).1 (inl ((p.met j).0 (λ u. s (ground (arith, u))))),
        λ m u.
            ⊎_elim (λ k. (p.met j).1 k (ground (arith, u))) (λ q. ground (arith, ==_iff id j))
              ((Memᴰ-snoc j a.nodes n).0 m),
      )
    ]

    first_keeps :
        (id : ℕ) (child : Option ℕ) (marks : Marks) (a b : Loading) (ps : List ℕ)
        → first_node lib db context limits id child a ≡ ok (b, ps)
        → marks id ≡ unseen
        → IsLoading marks a
        → IsLoading (set_mark marks id active) b
    first_keeps id child marks a b ps h u p =
        let n : EventNode = record { event = id; parents = ps } in
        let d = first_node-Adds id child a b ps h in
        record {
          met = λ j. rw d.nodes (met_first id marks a n j refl p);
          once = rw d.nodes (Once-snoc a.nodes n p.once (λ m. (p.met id).1 m u));
          nodes = rw d.nodes (
              All-append IsNode a.nodes (n ∷ []) p.nodes
                ((d.event_there, d.loads, d.inside, d.parents), tt));
          counted =
              ground (arith, d.count, p.counted, ap length d.nodes, length-append a.nodes (n ∷ []));
          size = ground (arith, d.count, d.room);
          bytes = d.bytes;
          total =
              d.total
              ∙ ap (λ t. t + payload_size id) p.total
              ∙ sym (total_payload-snoc a.nodes n)
              ∙ ap total_payload (sym d.nodes);
        }

    met_close :
        (id j : ℕ) (marks : Marks)
        → marks id ≢ unseen
        → (set_mark marks id done j ≢ unseen) ↔ (marks j ≢ unseen)
    met_close id j marks s = elim (Bool-cases (id == j)) [
      | inl same ↦ (λ _ u. s (ap marks ((==_iff id j).0 same) ∙ u), λ _ u. ground (arith, u))
      | inr other ↦ (λ k u. k (ground (arith, u)), λ k u. k (ground (arith, u)))
    ]

    pub node-Keeps :
        (heads : List ℕ) → Keeps (node_visitor lib db context limits) event_parents heads IsLoading
    unfolding close_node
    node-Keeps heads = record {
      first_parents = λ id child a b ps h. parents_found id child a b ps h;
      first_keeps = first_keeps;
      close_done = λ id m n a b h s. ground (arith, h);
      close_keeps = λ id marks a b h s parents p. closed id marks a b h s p;
    }
      where
        parents_found :
            (id : ℕ) (child : Option ℕ) (a b : Loading) (ps : List ℕ)
            → first_node lib db context limits id child a ≡ ok (b, ps)
            → ps ≡ event_parents id
        parents_found id child a b ps h =
            let d = first_node-Adds id child a b ps h in rw (d.loads, event_parents) d.parents

        closed :
            (id : ℕ) (marks : Marks) (a b : Loading)
            → close_node id (marks id) a ≡ ok (b, done)
            → marks id ≢ unseen
            → IsLoading marks a
            → IsLoading (set_mark marks id done) b
        closed id marks a b h s p =
            let same : a ≡ b = ground (arith, h) in
            subst (IsLoading (set_mark marks id done)) same (record {
              met = λ j. (
                λ k. (p.met j).0 ((met_close id j marks s).0 k),
                λ m. (met_close id j marks s).1 ((p.met j).1 m),
              );
              once = p.once;
              nodes = p.nodes;
              counted = p.counted;
              size = p.size;
              bytes = p.bytes;
              total = p.total;
            })

    pub start-IsLoading : IsLoading blank (nothing_loaded lib db context limits)
    unfolding total_payload
    start-IsLoading = record {
      met = λ j. (λ s. absurd (s refl), λ m. absurd (Memᴰ.not-nil m));
      once = tt;
      nodes = tt;
      counted = refl;
      size = ground arith;
      bytes = ground arith;
      total = refl;
    }
