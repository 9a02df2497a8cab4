-- ===== src/Store/Project/Keeps.antt =====
-- The invariant of the loop of `project_on` (src/store/dag.rs).
use mathlib.Core.List.Memᴰ
use contextmesh_rs.Common.{
  ℕ, suc, ◌+◌, ◌≤◌, ◌≡◌, ◌≢◌, refl, ap, sym, ◌∙◌, subst, fun_ext, inl, inr, ⊎_elim, ◌↔◌, Option,
  none, some, List, [], ◌∷◌, ◌++◌, Memᴰ, arith, All, All-append, ◌==◌, ==_iff, Bool-cases,
  Option-cases, length, length-append, ok, err, >>=-eq-ok,
}
use contextmesh_rs.Common.Table.{id_eq, lookup, upsert, delete, lookup-upsert, lookup-delete}
use contextmesh_rs.Common.Table.Unique.{
  IsUnique, IsUnique-upsert, IsUnique-delete, length-upsert_fresh, length-delete,
}
use contextmesh_rs.Event.Body.{SignedEvent, Libraries}
use contextmesh_rs.Store.State.{Db}
use contextmesh_rs.Walk.{Mark, unseen, active, done, Marks, set_mark, blank}
use contextmesh_rs.Walk.Sound.{Keeps}
use contextmesh_rs.Store.Project.{
  ProjectionLimits, Projecting, load_verified_event, first_project, close_project, project_visitor,
  nothing_projected,
}
use contextmesh_rs.Store.Project.Sizes.{
  wire_size, total_wire, held_wire, total_wire-snoc, held_wire-upsert, held_wire-delete,
}
use contextmesh_rs.Store.Project.Order.{ids, ParentsFirst, Nothing, Memᴰ-snoc, ParentsFirst-snoc}

module _ (lib : Libraries) (db : Db) (context : ℕ) where
  -- The parents of the event that loads under `id`.
  abbrev pub loaded_parents : ℕ → List ℕ
  loaded_parents id = elim (load_verified_event lib db id) [ err x ↦ [] | ok e ↦ e.body.parents ]

  -- The event is the verified one that is stored under `id`, in the context.
  abbrev pub Loads : ℕ → SignedEvent → Type 0
  Loads id e =
      (load_verified_event lib db id ≡ ok e) × ((e.event_id ≡ id) × (e.body.context ≡ context))

  module _ (limits : ProjectionLimits) where
    pub record IsProjecting (marks : Marks) (a : Projecting) : Type 0 where
      pub unique : IsUnique a.loaded
      pub visited :
          (j : ℕ) (e : SignedEvent) → lookup j a.loaded ≡ some e → (marks j ≡ active) × Loads j e
      pub closed : (j : ℕ) → (marks j ≡ done) ↔ Memᴰ j (ids a.ordered)
      pub order : ParentsFirst Nothing a.ordered
      pub loads : All (λ (e : SignedEvent). Loads e.event_id e) a.ordered
      pub size : length a.loaded + length a.ordered ≤ limits.max_events
      pub bytes : a.wire_bytes ≤ limits.max_wire_bytes
      pub total : a.wire_bytes ≡ held_wire lib a.loaded + total_wire lib a.ordered

    -- What a first visit that succeeds has done.
    pub record Opens (id : ℕ) (a b : Projecting) (ps : List ℕ) : Type 0 where
      pub event : SignedEvent
      pub loads : Loads id event
      pub parents : ps ≡ event.body.parents
      pub loaded : b.loaded ≡ upsert id event a.loaded
      pub ordered : b.ordered ≡ a.ordered
      pub size : suc (length a.loaded + length a.ordered) ≤ limits.max_events
      pub bytes : b.wire_bytes ≤ limits.max_wire_bytes
      pub total : b.wire_bytes ≡ a.wire_bytes + wire_size lib event

    load_verified_event-id :
        (id : ℕ) (e : SignedEvent) → load_verified_event lib db id ≡ ok e → e.event_id ≡ id
    unfolding load_verified_event
    load_verified_event-id id e h = ground arith

    pub first_project-Opens :
        (id : ℕ) (child : Option ℕ) (a b : Projecting) (ps : List ℕ)
        → first_project lib db context limits id child a ≡ ok (b, ps)
        → Opens id a b ps
    unfolding first_project
    first_project-Opens id child a b ps h =
        let (e, l, h₁) = >>=-eq-ok (load_verified_event lib db id) _ h in
        record {
          event = e;
          loads = (l, (load_verified_event-id id e l, ground (arith, h₁)));
          parents = ground (arith, h₁);
          loaded = ground (arith, h₁);
          ordered = ground (arith, h₁);
          size = ground (arith, h₁);
          bytes = ground (arith, h₁);
          total = ground (arith, h₁);
        }

    pub absent :
        (id : ℕ) (marks : Marks) (a : Projecting)
        → marks id ≡ unseen
        → IsProjecting marks a
        → lookup id a.loaded ≡ none
    absent id marks a u p = elim (Option-cases (lookup id a.loaded)) [
      | inl n ↦ n
      | inr (e, s) ↦ absurd (ground (arith, p.visited id e s))
    ]

    visited_upsert :
        (id j : ℕ) (marks : Marks) (a : Projecting) (x e : SignedEvent)
        → Loads id x
        → IsProjecting marks a
        → lookup j (upsert id x a.loaded) ≡ some e
        → (set_mark marks id active j ≡ active) × Loads j e
    visited_upsert id j marks a x e l p at = elim (Bool-cases (id == j)) [
      | inl same ↦
          let x_is_e : x ≡ e = ground (arith, lookup-upsert id j x a.loaded) in
          (ground arith, subst (λ k. Loads k e) ((==_iff id j).0 same) (subst (Loads id) x_is_e l))
      | inr other ↦
          let (m, l) = p.visited j e (ground (arith, lookup-upsert id j x a.loaded)) in
          (ground arith, l)
    ]

    first_keeps :
        (id : ℕ) (child : Option ℕ) (marks : Marks) (a b : Projecting) (ps : List ℕ)
        → first_project lib db context limits id child a ≡ ok (b, ps)
        → marks id ≡ unseen
        → IsProjecting marks a
        → IsProjecting (set_mark marks id active) b
    first_keeps id child marks a b ps h u p =
        let o = first_project-Opens id child a b ps h in
        let fresh : lookup id a.loaded ≡ none = absent id marks a u p in
        record {
          unique = rw o.loaded (IsUnique-upsert id o.event a.loaded p.unique);
          visited = λ j e at. visited_upsert id j marks a o.event e o.loads p (rw (o.loaded) at at);
          closed = λ j. rw o.ordered (
            λ d. (p.closed j).0 (ground arith),
            λ m. elim (Bool-cases (id == j)) [
              | inl same ↦ absurd (ground (arith, (p.closed j).1 m, ==_iff id j))
              | inr other ↦ ground (arith, (p.closed j).1 m)
            ],
          );
          order = rw o.ordered p.order;
          loads = rw o.ordered p.loads;
          size = ground (
            arith,
            o.size,
            ap length o.loaded,
            ap length o.ordered,
            length-upsert_fresh id o.event a.loaded fresh,
          );
          bytes = o.bytes;
          total = omega (
            arith,
            o.total,
            p.total,
            ap (held_wire lib) o.loaded,
            ap (total_wire lib) o.ordered,
            held_wire-upsert lib id o.event a.loaded fresh,
          );
        }

    unchanged : (id j : ℕ) (marks : Marks) → marks id ≡ done → marks j ≡ set_mark marks id done j
    unchanged id j marks e = elim (Bool-cases (id == j)) [
      | inl same ↦ ground (arith, ap marks ((==_iff id j).0 same))
      | inr other ↦ ground arith
    ]

    visited_delete :
        (id j : ℕ) (marks : Marks) (a : Projecting) (y : SignedEvent)
        → IsProjecting marks a
        → lookup j (delete (λ i. id == i) a.loaded) ≡ some y
        → (set_mark marks id done j ≡ active) × Loads j y
    visited_delete id j marks a y p at = elim (Bool-cases (id == j)) [
      | inl same ↦ absurd (ground (arith, lookup-delete (λ i. id == i) j a.loaded))
      | inr other ↦
          let (m, l) = p.visited j y (ground (arith, lookup-delete (λ i. id == i) j a.loaded)) in
          (ground arith, l)
    ]

    closed_snoc :
        (id j : ℕ) (marks : Marks) (a : Projecting) (x : SignedEvent)
        → x.event_id ≡ id
        → IsProjecting marks a
        → (set_mark marks id done j ≡ done) ↔ Memᴰ j (ids (a.ordered ++ (x ∷ [])))
    closed_snoc id j marks a x named p = elim (Bool-cases (id == j)) [
      | inl same ↦
          let here : j ≡ x.event_id = sym ((==_iff id j).0 same) ∙ sym named in
          (λ _. (Memᴰ-snoc j a.ordered x).1 (inr here), λ _. ground arith)
      | inr other ↦ (
        λ d. (Memᴰ-snoc j a.ordered x).1 (inl ((p.closed j).0 (ground arith))),
        λ m.
            ⊎_elim (λ n. ground (arith, (p.closed j).1 n))
              (λ q. absurd (ground (arith, ==_iff id j))) ((Memᴰ-snoc j a.ordered x).0 m),
      )
    ]

    abbrev moved : ℕ → SignedEvent → Projecting → Projecting
    moved id x a = record {
      loaded = delete (λ j. id == j) a.loaded;
      ordered = a.ordered ++ (x ∷ []);
      wire_bytes = a.wire_bytes;
    }

    -- The end of an open visit keeps the invariant.
    closes :
        (id : ℕ) (marks : Marks) (a : Projecting) (x : SignedEvent)
        → marks id ≡ active
        → lookup id a.loaded ≡ some x
        → ((q : ℕ) → Memᴰ q (loaded_parents id) → marks q ≡ done)
        → IsProjecting marks a
        → IsProjecting (set_mark marks id done) (moved id x a)
    closes id marks a x e l parents p =
        let (m, loads) = p.visited id x l in
        let named : x.event_id ≡ id = loads.1.0 in
        let mine : loaded_parents id ≡ x.body.parents = rw (loads.0, loaded_parents) refl in
        record {
          unique = IsUnique-delete id a.loaded p.unique;
          visited = λ j y at. visited_delete id j marks a y p at;
          closed = λ j. closed_snoc id j marks a x named p;
          order =
              ParentsFirst-snoc Nothing a.ordered x p.order
                (λ q m. inl ((p.closed q).0 (parents q (rw mine m))))
                (⊎_elim (λ n. absurd (ground (arith, (p.closed id).1 (rw named at n)))) (λ z. z));
          loads =
              All-append (λ (y : SignedEvent). Loads y.event_id y) a.ordered (x ∷ []) p.loads
                (subst (λ k. Loads k x) (sym named) loads, tt);
          size = omega (
            arith,
            p.size,
            length-append a.ordered (x ∷ []),
            length-delete id x a.loaded p.unique l,
          );
          bytes = p.bytes;
          total = omega (
            arith,
            p.total,
            total_wire-snoc lib a.ordered x,
            held_wire-delete lib id x a.loaded p.unique l,
          );
        }

    close_at :
        (id : ℕ) (m : Mark) (marks : Marks) (a b : Projecting)
        → marks id ≡ m
        → close_project id m a ≡ ok (b, done)
        → m ≢ unseen
        → ((q : ℕ) → Memᴰ q (loaded_parents id) → marks q ≡ done)
        → IsProjecting marks a
        → IsProjecting (set_mark marks id done) b
    unfolding close_project
    close_at id unseen marks a b e h s parents p = absurd (s refl)
    close_at id done marks a b e h s parents p =
        let same : a ≡ b = cc in
        let marks_same : marks ≡ set_mark marks id done = fun_ext (λ j. unchanged id j marks e) in
        subst (λ m. IsProjecting m b) marks_same (subst (IsProjecting marks) same p)
    close_at id active marks a b e h s parents p = elim (Option-cases (lookup id a.loaded)) [
      | inl n ↦ absurd (ground arith)
      | inr (x, l) ↦
          let same : moved id x a ≡ b = ground (arith) in
          subst (IsProjecting (set_mark marks id done)) same (closes id marks a x e l parents p)
    ]

    pub close_keeps :
        (id : ℕ) (marks : Marks) (a b : Projecting)
        → close_project id (marks id) a ≡ ok (b, done)
        → marks id ≢ unseen
        → ((q : ℕ) → Memᴰ q (loaded_parents id) → marks q ≡ done)
        → IsProjecting marks a
        → IsProjecting (set_mark marks id done) b
    close_keeps id marks a b h s parents p = close_at id (marks id) marks a b refl h s parents p

    pub project-Keeps :
        (heads : List ℕ)
        → Keeps (project_visitor lib db context limits) loaded_parents heads IsProjecting
    unfolding close_project
    project-Keeps heads = record {
      first_parents = λ id child a b ps h. parents_loaded id child a b ps h;
      first_keeps = first_keeps;
      close_done = λ id m n a b h s. closes_done id m n a b h s;
      close_keeps = close_keeps;
    }
      where
        parents_loaded :
            (id : ℕ) (child : Option ℕ) (a b : Projecting) (ps : List ℕ)
            → first_project lib db context limits id child a ≡ ok (b, ps)
            → ps ≡ loaded_parents id
        parents_loaded id child a b ps h =
            let o = first_project-Opens id child a b ps h in
            rw (o.loads.0, loaded_parents) o.parents

        closes_done :
            (id : ℕ) (m n : Mark) (a b : Projecting)
            → close_project id m a ≡ ok (b, n)
            → m ≢ unseen
            → n ≡ done
        closes_done id unseen n a b h s = absurd (s refl)
        closes_done id active n a b h s = ground arith
        closes_done id done n a b h s = ground arith

    pub start-IsProjecting : IsProjecting blank (nothing_projected lib db context limits)
    unfolding lookup held_wire total_wire
    start-IsProjecting = record {
      unique = tt;
      visited = λ j e at. absurd (ground arith);
      closed = λ j. (λ d. absurd (ground arith), λ m. absurd (Memᴰ.not-nil m));
      order = tt;
      loads = tt;
      size = ground arith;
      bytes = ground arith;
      total = refl;
    }
