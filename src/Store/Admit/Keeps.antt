-- ===== src/Store/Admit/Keeps.antt =====
-- The invariant under the transaction of `admit` (src/store.rs).
use contextmesh_rs.Store.Invariant.Growth.{Extends-trans}
use contextmesh_rs.Store.Admit.Growth.{Placed-Extends, activate-Extends, Moved-Extends}
use contextmesh_rs.Common.{
  ℕ, ◌≡◌, refl, sym, ◌∙◌, subst, ap, ◌⊎◌, inl, inr, ⊎_elim, Bool, true, false, not, ◌&&◌, Option,
  none, some, arith, Bytes, ◌==◌, Bool-cases, Option-cases, ok, ok_or, refuse, >>=-eq-ok,
}
use contextmesh_rs.Common.Table.{id_eq, bytes_key, pair_eq, lookup}
use contextmesh_rs.Event.Body.{SignedEvent, Libraries}
use contextmesh_rs.Event.Wire.{from_wire, to_wire}
use contextmesh_rs.Event.Wire.RoundTrip.{ReadsBack, from_wire_agrees}
use contextmesh_rs.Store.State.{
  Db, ContextRow, StoreResult, context_unknown, corrupt_storage, unauthorized_author,
}
use contextmesh_rs.Store.Invariant.{Stored, StoredIn, IsConsistent, Extends}
use contextmesh_rs.Store.Invariant.Tables.{Stored-Contains, set_local_refs, IsActive-same}
use contextmesh_rs.Store.Rows.{context_row, row_is_sound, event_wire, check_parents, is_authorized}
use contextmesh_rs.Store.Rows.Context.{check_parents-StoredIn}
use contextmesh_rs.Store.Refs.{
  RefMutation, no_move, compare_and_swap, apply_ref_mutation, check_mutation,
}
use contextmesh_rs.Store.Refs.Swap.{Moved, apply_ref_mutation-Moved}
use contextmesh_rs.Store.Admit.{
  AdmissionStatus, is_genesis, check_genesis, activate_pending, store_event, is_none, admit_tx,
}
use contextmesh_rs.Store.Admit.Stages.{Placed, store_event-Placed, activate-IsConsistent}

-- The row behind an answer of `context_row`.
pub context_row-eq-some :
    (db : Db) (c expected state : ℕ)
    → context_row db c ≡ ok (some (expected, state))
    → (r : ContextRow) × (lookup c db.contexts ≡ some r)
      × (r.expected_genesis ≡ expected)
      × (r.state ≡ state)
unfolding context_row
context_row-eq-some db c expected state h = elim (Option-cases (lookup c db.contexts)) [
  | inl missing ↦ cc (rw (missing, context_row) at h)
  | inr (r, found) ↦ elim (Bool-cases (row_is_sound r)) [
    | inl fits ↦
        let e : ◌≡◌ {A = StoreResult (Option (ℕ × ℕ))} (ok (some (r.expected_genesis, r.state)))
            (ok (some (expected, state))) =
          rw (found, fits, context_row) at h in
        (r, found, ground (arith, e), ground (arith, e))
    | inr other ↦ cc (rw (found, other, context_row) at h)
  ]
]

-- The context's row is there, in this state.
abbrev pub HasState : Db → ℕ → ℕ → Type 0
HasState db c state = (r : ContextRow) × (lookup c db.contexts ≡ some r) × (r.state ≡ state)

pub context_row-HasState :
    (db : Db) (c expected state : ℕ)
    → context_row db c ≡ ok (some (expected, state))
    → HasState db c state
context_row-HasState db c expected state h =
    let (r, found, _, is_state) = context_row-eq-some db c expected state h in (r, found, is_state)

module _ (lib : Libraries) where
  -- The intermediate states of a successful admission.
  pub record Stages (e verified : SignedEvent) (wire : Bytes) (m : RefMutation) (db db' : Db)
      : Type 0 where
    pub expected : ℕ
    pub state : ℕ
    pub fresh : Bool
    pub already : Bool
    pub placed : Db
    pub activated : Db
    pub context : context_row db e.body.context ≡ ok (some (expected, state))
    pub genesis :
        check_genesis state
          (is_genesis expected e.event_id e.body.kind e.body.parents)
          e.body.kind
          e.body.parents
        ≡ ok tt
    pub authorized : is_authorized db e.body.context e.body.author ≡ true
    pub parents_there : check_parents lib db e.body.context e.body.parents ≡ ok tt
    pub placing : store_event lib e verified wire (event_wire db e.event_id) db ≡ ok (fresh, placed)
    pub activating : activate_pending lib state e.event_id e.body.context placed ≡ ok activated
    pub moving : apply_ref_mutation e.event_id m activated ≡ ok (already, db')

  pub admit_tx-Stages :
      (e verified : SignedEvent) (wire : Bytes) (m : RefMutation) (db db' : Db)
      (status : AdmissionStatus)
      → admit_tx lib e verified wire m db ≡ ok (status, db')
      → Stages e verified wire m db db'
  unfolding admit_tx
  admit_tx-Stages e verified wire m db db' status h =
      let (found, a, h₁) = >>=-eq-ok (context_row db e.body.context) _ h in
      let ((expected, state), b, h₂) = >>=-eq-ok (ok_or found context_unknown) _ h₁ in
      let (_, g, h₃) =
        >>=-eq-ok
          (check_genesis state (is_genesis expected e.event_id e.body.kind e.body.parents)
            e.body.kind e.body.parents)
          _ h₂ in
      let (_, u, h₄) =
        >>=-eq-ok (refuse (not (is_authorized db e.body.context e.body.author)) unauthorized_author)
          _ h₃ in
      let (_, p, h₅) = >>=-eq-ok (check_parents lib db e.body.context e.body.parents) _ h₄ in
      let (_, _, h₆) =
        >>=-eq-ok
          (refuse
            (state == 1
              && (is_genesis expected e.event_id e.body.kind e.body.parents
                  && is_none (event_wire db e.event_id)))
            corrupt_storage)
          _ h₅ in
      let ((fresh, placed), s, h₇) =
        >>=-eq-ok (store_event lib e verified wire (event_wire db e.event_id) db) _ h₆ in
      let (activated, v, h₈) =
        >>=-eq-ok (activate_pending lib state e.event_id e.body.context placed) _ h₇ in
      let ((already, moved), w, h₉) = >>=-eq-ok (apply_ref_mutation e.event_id m activated) _ h₈ in
      let last : moved ≡ db' = ground (arith, h₉) in
      record {
        expected = expected;
        state = state;
        fresh = fresh;
        already = already;
        placed = placed;
        activated = activated;
        context = a ∙ ap ok (known found (expected, state) b);
        genesis = g;
        authorized = ground (arith, u);
        parents_there = p;
        placing = s;
        activating = v;
        moving = w ∙ ap (λ (d : Db). ok (already, d)) last;
      }
    where
      known : (o : Option (ℕ × ℕ)) (q : ℕ × ℕ) → ok_or o context_unknown ≡ ok q → o ≡ some q
      known none q b = cc
      known (some x) q b = cc

  -- What an operation that stores `e` leaves behind.
  pub record Kept (e : SignedEvent) (db db' : Db) : Type 0 where
    pub consistent : IsConsistent lib db'
    pub extends : Extends db db'
    pub stored : Stored lib db' e.event_id e

  -- A state in which the context's events are active, whatever was pending before.
  pub activate_pending-Kept :
      (e : SignedEvent) (state : ℕ) (db placed activated : Db)
      → HasState db e.body.context state
      → IsConsistent lib db
      → Placed lib e db placed
      → activate_pending lib state e.event_id e.body.context placed ≡ ok activated
      → Kept e db activated
  unfolding activate_pending
  activate_pending-Kept e state db placed activated c k p h = elim (Bool-cases (state == 0)) [
    | inl pending ↦
        let (all, events, edges, _) =
          activate-IsConsistent lib e.event_id e.body.context placed activated (rw pending at h)
            p.sound live in
        let grows =
          activate-Extends lib e.event_id e.body.context placed activated (rw pending at h) in
        record {
          consistent = all;
          extends = Extends-trans (Placed-Extends lib e db placed p) grows;
          stored = Stored-Contains lib grows.rows p.stored;
        }
    | inr running ↦
        let same : placed ≡ activated = ground (arith, rw running at h) in
        subst (Kept e db) same (record {
          consistent = record {
            sound = p.sound;
            live = record {
              active = λ i f s. elim (p.back i f s) [
                | inl is_e ↦ subst (λ (g : SignedEvent). Active g) (sym is_e) (own running)
                | inr old ↦ let (r, l, one) = k.live.active i f old in (r, rw p.contexts l, one)
              ];
            };
          };
          extends = Placed-Extends lib e db placed p;
          stored = p.stored;
        })
  ]
    where
      Active : SignedEvent → Type 0
      Active g = (r : ContextRow) × (lookup g.body.context placed.contexts ≡ some r) × (r.state ≡ 1)

      own : (state == 0) ≡ false → Active e
      own running =
          let (r, found, is_state) = c in
          (
            r,
            rw p.contexts found,
            ⊎_elim (λ z. absurd (ground arith)) (λ o. o.1)
                (k.sound.contexts e.body.context r found),
          )

      live :
          (f : SignedEvent) (i : ℕ)
          → Stored lib placed i f
          → (f.body.context ≡ e.body.context) ⊎ Active f
      live f i s = elim (p.back i f s) [
        | inl is_e ↦ inl (ap (λ (g : SignedEvent). g.body.context) is_e)
        | inr old ↦ let (r, l, one) = k.live.active i f old in inr (r, rw p.contexts l, one)
      ]

  -- A ref moved to an event of its context keeps the invariant.
  pub Moved-IsConsistent :
      (db db' : Db) (c : ℕ) (n : Bytes) (id : ℕ)
      → StoredIn lib db c id
      → IsConsistent lib db
      → Moved db db' c n id
      → IsConsistent lib db' × Extends db db'
  Moved-IsConsistent db db' c n id there k m = (
    subst (IsConsistent lib) (sym m.result) (record {
      sound = set_local_refs lib db m.refs (λ c' n' h l. fits c' n' h l) k.sound;
      live = IsActive-same lib db (record db { local_refs = m.refs }) refl refl refl k.live;
    }),
    Moved-Extends db db' c n id m,
  )
    where
      fits : (c' : ℕ) (n' : Bytes) (h : ℕ) → lookup (c', n') m.refs ≡ some h → StoredIn lib db c' h
      fits c' n' h l = elim (Bool-cases (pair_eq.beq (c, n) (c', n'))) [
        | inl same ↦
            let keys = (pair_eq.beq_iff (c, n) (c', n')).0 same in
            let heads : id ≡ h = ground (arith, m.others c' n', same, l) in
            subst (StoredIn lib db c') heads
              (subst (λ (q : ℕ × Bytes). StoredIn lib db q.0 id) keys there)
        | inr other ↦ k.sound.heads c' n' h (ground (arith, m.others c' n', other, l))
      ]

  pub no_move-same :
      (id : ℕ) (d db' : Db) (already : Bool)
      → apply_ref_mutation id no_move d ≡ ok (already, db')
      → d ≡ db'
  unfolding apply_ref_mutation
  no_move-same id d db' already h = ground arith

  moved_ref :
      (e : SignedEvent) (m : RefMutation) (db d db' : Db) (already : Bool)
      → check_mutation m e.body.context e.event_id ≡ ok tt
      → Kept e db d
      → apply_ref_mutation e.event_id m d ≡ ok (already, db')
      → Kept e db db'
  unfolding check_mutation
  moved_ref e no_move db d db' already fits a h =
      subst (Kept e db) (no_move-same e.event_id d db' already h) a
  moved_ref e (compare_and_swap c n expected new_head) db d db' already fits a h =
      elim (apply_ref_mutation-Moved e.event_id c n expected new_head d db' already h) [
        | inl (_, _, same) ↦ subst (Kept e db) (sym same) a
        | inr (_, _, moved) ↦
            let inside : c ≡ e.body.context = ground arith in
            let there : StoredIn lib d c e.event_id = record {
              event = e;
              stored = a.stored;
              inside = sym inside;
            } in
            let (all, grows) = Moved-IsConsistent d db' c n e.event_id there a.consistent moved in
            record {
              consistent = all;
              extends = Extends-trans a.extends grows;
              stored = Stored-Contains lib grows.rows a.stored;
            }
      ]

  module _ (e : SignedEvent) (reads : ReadsBack lib e) where
    pub admit_tx-Kept :
        (verified : SignedEvent) (wire : Bytes) (m : RefMutation) (db db' : Db)
        (status : AdmissionStatus)
        → to_wire lib e ≡ ok wire
        → from_wire lib wire ≡ ok verified
        → check_mutation m e.body.context e.event_id ≡ ok tt
        → IsConsistent lib db
        → admit_tx lib e verified wire m db ≡ ok (status, db')
        → Kept e db db'
    admit_tx-Kept verified wire m db db' status canonical parsed fits k h =
        let s = admit_tx-Stages e verified wire m db db' status h in
        let is_e = from_wire_agrees lib e verified wire reads canonical parsed in
        let parses = parsed ∙ ap ok is_e in
        let p =
          store_event-Placed lib e wire db canonical parses
            (check_parents-StoredIn lib db k.sound e.body.context e.body.parents s.parents_there)
            k.sound verified s.fresh s.placed s.placing in
        let a =
          activate_pending-Kept e s.state db s.placed s.activated
            (context_row-HasState db e.body.context s.expected s.state s.context) k p
            s.activating in
        moved_ref e m db s.activated db' s.already fits a s.moving
