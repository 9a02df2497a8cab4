-- ===== src/Store/Admit/Stages.antt =====
-- The stages of an admission, one lemma for each: the event's row, the activation, the ref.
use contextmesh_rs.Common.{
  ℕ, ◌≡◌, refl, sym, ◌∙◌, subst, ap, ◌⊎◌, inl, inr, ⊎_elim, Bool, none, some, Memᴰ, arith, Bytes,
  bytes_eq, bytes_eq_iff, ◌==◌, ==_iff, Bool-cases, Option-cases, ok, Result-cases, ◌&&◌,
}
use contextmesh_rs.Common.Table.{Table, id_eq, bytes_key, pair_eq, lookup, upsert, lookup-upsert}
use contextmesh_rs.Event.Json.{Contract}
use contextmesh_rs.Event.Body.{SignedEvent, Libraries}
use contextmesh_rs.Event.Wire.{from_wire, to_wire}
use contextmesh_rs.Store.State.{Db, ContextRow, EventRow}
use contextmesh_rs.Store.Invariant.{Stored, StoredIn, RowIsSound, IsSound, IsConsistent, Contains}
use contextmesh_rs.Store.Invariant.Tables.{
  Stored-Contains, Contains-refl, Contains-same, set_contexts,
}
use contextmesh_rs.Store.Rows.{event_wire, validate_stored_event}
use contextmesh_rs.Store.Rows.Context.{event_wire-eq-some}
use contextmesh_rs.Store.Admit.{insert_event, activate, store_event}
use contextmesh_rs.Store.Admit.Insert.{
  insert_event-Inserted, grown-Contains, grown-Stored, grown_back, grown-IsSound,
}

module _ (lib : Libraries) where
  -- What the event's row being in place means for the state behind that stage.
  pub record Placed (e : SignedEvent) (db db' : Db) : Type 0 where
    pub extends : Contains db db'
    pub stored : Stored lib db' e.event_id e
    pub sound : IsSound lib db'
    pub back : (id : ℕ) (f : SignedEvent) → Stored lib db' id f → (f ≡ e) ⊎ Stored lib db id f
    pub contexts : db'.contexts ≡ db.contexts
    pub local_refs : db'.local_refs ≡ db.local_refs
    pub authors : db'.authors ≡ db.authors

  store_event_new :
      (e verified : SignedEvent) (wire : Bytes) (db : Db) (fresh : Bool) (db' : Db)
      → store_event lib e verified wire none db ≡ ok (fresh, db')
      → insert_event e wire db ≡ ok db'
  unfolding store_event
  store_event_new e verified wire db fresh db' h = elim (Result-cases (insert_event e wire db)) [
    | inl (d, i) ↦ ground (arith, i, h)
    | inr (x, i) ↦ cc (rw i at h)
  ]

  store_event_old :
      (e verified : SignedEvent) (wire stored : Bytes) (db : Db) (fresh : Bool) (db' : Db)
      → store_event lib e verified wire (some stored) db ≡ ok (fresh, db')
      → (stored ≡ wire) × (db' ≡ db)
  unfolding store_event
  store_event_old e verified wire stored db fresh db' h = elim (Bool-cases (bytes_eq stored wire)) [
    | inl same ↦ elim (Result-cases (validate_stored_event lib db verified)) [
      | inl (u, v) ↦ ((bytes_eq_iff stored wire).0 same, ground (arith, rw (same, v) at h))
      | inr (x, v) ↦ cc (rw (same, v) at h)
    ]
    | inr other ↦ cc (rw other at h)
  ]

  module _ (e : SignedEvent) (wire : Bytes) (db : Db) (canonical : to_wire lib e ≡ ok wire)
      (parses : from_wire lib wire ≡ ok e)
      (fits : (q : ℕ) → Memᴰ q e.body.parents → StoredIn lib db e.body.context q)
      (sound : IsSound lib db) where
    pub insert_event-Placed : (db' : Db) → insert_event e wire db ≡ ok db' → Placed e db db'
    insert_event-Placed db' h =
        let i = insert_event-Inserted e wire db h in
        subst (Placed e db) (sym i.result) (record {
          extends = grown-Contains lib e wire db i.events i.edges i.event_new i.edges_new;
          stored =
              grown-Stored lib e wire db i.events i.edges i.event_new i.edges_new canonical parses;
          sound =
              grown-IsSound lib e wire db i.events i.edges i.event_new i.edges_new canonical parses
                fits sound;
          back = λ id f s.
              ⊎_elim (λ p. inl (p.1)) inr
                (grown_back lib e wire db i.events i.edges i.event_new i.edges_new canonical parses
                  s);
          contexts = refl;
          local_refs = refl;
          authors = refl;
        })

    -- The same bytes are there already.
    pub present-Placed : event_wire db e.event_id ≡ some wire → Placed e db db
    present-Placed found =
        let (r, at, same) = event_wire-eq-some lib db e.event_id wire found in
        let (f, s) = sound.rows e.event_id r at in
        let rows : s.row ≡ r = cc (s.at, at) in
        let wires : s.row.wire ≡ wire = ap (λ (x : EventRow). x.wire) rows ∙ same in
        let both : ◌≡◌ {A = Contract SignedEvent} (ok f) (ok e) = sym s.parses ∙ rw wires parses in
        let is_e : f ≡ e = cc both in
        record {
          extends = Contains-refl db;
          stored = subst (Stored lib db e.event_id) is_e s;
          sound = sound;
          back = λ id g t. inr t;
          contexts = refl;
          local_refs = refl;
          authors = refl;
        }

    pub store_event-Placed :
        (verified : SignedEvent) (fresh : Bool) (db' : Db)
        → store_event lib e verified wire (event_wire db e.event_id) db ≡ ok (fresh, db')
        → Placed e db db'
    store_event-Placed verified fresh db' h = elim (Option-cases (event_wire db e.event_id)) [
      | inl missing ↦
          insert_event-Placed db' (store_event_new e verified wire db fresh db' (rw missing at h))
      | inr (stored, found) ↦
          let (same, still) = store_event_old e verified wire stored db fresh db' (rw found at h) in
          subst (Placed e db) (sym still) (present-Placed (found ∙ ap some same))
    ]

  -- `activate` turns the row of a pending context with this genesis into an active one.
  pub activate-eq-ok :
      (id c : ℕ) (db db' : Db)
      → activate id c db ≡ ok db'
      → (r : ContextRow) × (lookup c db.contexts ≡ some r)
        × (r.expected_genesis ≡ id)
        × (db' ≡ record db {
          contexts = upsert c (record r { genesis = some id; state = 1 }) db.contexts;
        })
  unfolding activate
  activate-eq-ok id c db db' h = elim (Option-cases (lookup c db.contexts)) [
    | inl missing ↦ cc (rw (missing, activate) at h)
    | inr (r, found) ↦ elim (Bool-cases (r.state == 0 && r.expected_genesis == id)) [
      | inl fits ↦ (r, found, ground (arith, fits), ground (arith, rw (found, activate) at h, fits))
      | inr other ↦ cc (rw (found, other, activate) at h)
    ]
  ]

  pub activate-IsConsistent :
      (id c : ℕ) (db db' : Db)
      → activate id c db ≡ ok db'
      → IsSound lib db
      → ((f : SignedEvent) (i : ℕ)
          → Stored lib db i f
          → (f.body.context ≡ c)
            ⊎ ((r : ContextRow) × (lookup f.body.context db.contexts ≡ some r) × (r.state ≡ 1)))
      → IsConsistent lib db'
        × (db'.events ≡ db.events)
        × (db'.edges ≡ db.edges)
        × (db'.local_refs ≡ db.local_refs)
  activate-IsConsistent id c db db' h sound live =
      let (r, found, genesis, result) = activate-eq-ok id c db db' h in
      subst
        (λ (d : Db).
          IsConsistent lib d
          × (d.events ≡ db.events)
          × (d.edges ≡ db.edges)
          × (d.local_refs ≡ db.local_refs))
        (sym result)
        (
          record {
            sound = set_contexts lib db (rows r) (λ k x l. fits r genesis k x l) sound;
            live = record {
              active = λ i f s.
                  elim (live f i (Stored-Contains lib (Contains-same (after r) db refl refl) s)) [
                    | inl here ↦ (made r, at_context r f.body.context here, refl)
                    | inr (x, l, one) ↦ elim (Bool-cases (c == f.body.context)) [
                      | inl same ↦ (
                        made r,
                        lookup-upsert c f.body.context (made r) db.contexts ∙ rw same refl,
                        refl,
                      )
                      | inr other ↦
                          (x, lookup-upsert c f.body.context (made r) db.contexts ∙ rw other l, one)
                    ]
                  ];
            };
          },
          refl,
          refl,
          refl,
        )
    where
      made : ContextRow → ContextRow
      made r = record r { genesis = some id; state = 1 }

      rows : ContextRow → Table ℕ ContextRow
      rows r = upsert c (made r) db.contexts

      after : ContextRow → Db
      after r = record db { contexts = rows r }

      at_context : (r : ContextRow) (k : ℕ) → k ≡ c → lookup k (rows r) ≡ some (made r)
      at_context r k e = lookup-upsert c k (made r) db.contexts ∙ rw ((==_iff c k).1 (sym e)) refl

      fits :
          (r : ContextRow)
          → r.expected_genesis ≡ id
          → (k : ℕ) (x : ContextRow) → lookup k (rows r) ≡ some x
          → RowIsSound lib x
      fits r g k x l = elim (Bool-cases (c == k)) [
        | inl same ↦
            let e : made r ≡ x = ground (arith, lookup-upsert c k (made r) db.contexts, l, same) in
            subst (RowIsSound lib) e (inr (ap some (sym g), refl))
        | inr other ↦
            sound.contexts k x (ground (arith, lookup-upsert c k (made r) db.contexts, l, other))
      ]
