-- ===== src/Store/Admit/Retry.antt =====
-- An admission (`admit`, src/store.rs) that is asked for again by a caller who lost the answer of the
-- commit.
use contextmesh_rs.Common.{
  ℕ, ◌≡◌, ◌≢◌, refl, sym, ◌∙◌, subst, ap, inl, inr, ⊎_elim, Bool, true, false, ◌&&◌, some, List, [],
  ◌∷◌, Memᴰ, arith, Bytes, bytes_eq, bytes_eq_iff, ◌==◌, ==_refl, if◌then◌else◌, ok, err,
  Result-cases,
}
use contextmesh_rs.Common.Table.{id_eq, bytes_key, pair_eq, beq_refl}
use contextmesh_rs.Event.Json.{Contract}
use contextmesh_rs.Event.Body.{SignedEvent, Libraries}
use contextmesh_rs.Event.Wire.{from_wire, to_wire}
use contextmesh_rs.Store.State.{
  Db, ContextRow, StoreResult, write, acknowledged, lost_after, indeterminate_commit,
}
use contextmesh_rs.Store.Transaction.{write_ok, write_acknowledged, write_lost_after}
use contextmesh_rs.Store.Admit.Atomic.{prepare-eq-ok}
use contextmesh_rs.Store.Invariant.{Stored, StoredIn, IsConsistent}
use contextmesh_rs.Store.Rows.{
  context_row, row_is_sound, event_wire, edge_rows, same_ids, row_matches, validate_stored_event,
  check_parents, is_authorized,
}
use contextmesh_rs.Store.Rows.Context.{
  check_parents-StoredIn, event_wire-Stored, authoritative_of_StoredIn,
}
use contextmesh_rs.Store.Refs.{
  RefMutation, no_move, compare_and_swap, apply_ref_mutation, check_mutation, is_head,
}
use contextmesh_rs.Store.Refs.Swap.{ref_at, apply_ref_mutation-Moved}
use contextmesh_rs.Store.Admit.{
  is_genesis, check_genesis, activate_pending, store_event, AdmissionStatus, inserted,
  already_present, already_applied, is_none, admit_tx, prepare, admit,
}
use contextmesh_rs.Store.Admit.Stages.{store_event-Placed}
use contextmesh_rs.Store.Admit.Keeps.{Stages, admit_tx-Stages, admit_tx-Kept, context_row-eq-some}
use contextmesh_rs.Event.Wire.RoundTrip.{ReadsBack, from_wire_agrees}
use contextmesh_rs.Store.Admit.Expects.{
  Expects, Expects-trans, Expects-same, activate_pending-Expects, apply-Expects,
}

module _ (lib : Libraries) where
  -- The ref is at its new head, so a second move has nothing to do.
  apply_again :
      (id c : ℕ) (m : RefMutation) (db db' : Db) (already : Bool)
      → check_mutation m c id ≡ ok tt
      → apply_ref_mutation id m db ≡ ok (already, db')
      → (again : Bool) × (apply_ref_mutation id m db' ≡ ok (again, db'))
  unfolding apply_ref_mutation check_mutation is_head
  apply_again id c no_move db db' already fits h = (false, refl)
  apply_again id c (compare_and_swap k n expected new_head) db db' already fits h =
      let new : new_head ≡ id = ground (arith, fits) in
      let there : ref_at db' k n ≡ some new_head =
        elim (apply_ref_mutation-Moved id k n expected new_head db db' already h) [
          | inl (_, at, same) ↦ subst (λ (d : Db). ref_at d k n ≡ some new_head) (sym same) at
          | inr (_, _, moved) ↦
              subst (λ (d : Db). ref_at d k n ≡ some new_head) (sym moved.result)
                (moved.others k n ∙ rw (beq_refl {K = ℕ × Bytes} (k, n)) (ap some (sym new)))
        ] in
      (true, rw (there, ==_refl new_head) refl)

  check_parents_of_StoredIn :
      (db : Db) (c : ℕ) (ps : List ℕ)
      → ((q : ℕ) → Memᴰ q ps → StoredIn lib db c q)
      → check_parents lib db c ps ≡ ok tt
  unfolding check_parents
  check_parents_of_StoredIn db c [] f = refl
  check_parents_of_StoredIn db c (p ∷ ps) f = simp (
    authoritative_of_StoredIn lib db p c (f p (Memᴰ.head refl)),
    ==_refl c,
    check_parents_of_StoredIn db c ps (λ q m. f q (Memᴰ.tail m)),
  )

  validate_stored_event-Stored :
      (db : Db) (e : SignedEvent)
      → Stored lib db e.event_id e
      → validate_stored_event lib db e ≡ ok tt
  unfolding validate_stored_event row_matches same_ids edge_rows
  validate_stored_event-Stored db e s =
      let bytes : (w : Bytes) → bytes_eq w w ≡ true = λ w. (bytes_eq_iff w w).1 refl in
      let edges : edge_rows db e.event_id ≡ e.body.parents = rw (s.edges, edge_rows) refl in
      simp (s.at, s.canonical, s.context, s.author, s.kind, edges, ==_refl, bytes)

  -- The genesis test passes again, in the active state that the first admission left.
  genesis_again :
      (state : ℕ) (genesis : Bool) (kind : Bytes) (parents : List ℕ)
      → check_genesis state genesis kind parents ≡ ok tt
      → check_genesis 1 genesis kind parents ≡ ok tt
  unfolding check_genesis
  genesis_again state genesis kind parents h = ground (arith, h)

  row_is_sound_active :
      (r : ContextRow) → r.genesis ≡ some r.expected_genesis → r.state ≡ 1 → row_is_sound r ≡ true
  unfolding row_is_sound
  row_is_sound_active r genesis active = rw (genesis, row_is_sound) (simp (active, ==_refl))

  -- The context's row behind a first admission.
  context_again :
      (db db' : Db) (e : SignedEvent) (expected state : ℕ)
      → context_row db e.body.context ≡ ok (some (expected, state))
      → Expects db db'
      → IsConsistent lib db'
      → Stored lib db' e.event_id e
      → context_row db' e.body.context ≡ ok (some (expected, 1))
  unfolding context_row
  context_again db db' e expected state h x k s =
      let (r, found, is_expected, _) = context_row-eq-some db e.body.context expected state h in
      let (r', found', same) = x.contexts e.body.context r found in
      let (r'', found'', one) = k.live.active e.event_id e s in
      let rows : r'' ≡ r' = cc (found', found'') in
      let active : r'.state ≡ 1 = ap (λ (y : ContextRow). y.state) (sym rows) ∙ one in
      let genesis : r'.genesis ≡ some r'.expected_genesis =
        ⊎_elim (λ z. absurd (ground (arith, active, z.1))) (λ o. o.0)
          (k.sound.contexts e.body.context r' found') in
      let sound = row_is_sound_active r' genesis active in
      let expects : r'.expected_genesis ≡ expected = same ∙ is_expected in
      rw (found', sound, context_row) (simp (expects, active))

  Stages-Expects :
      (e : SignedEvent) (reads : ReadsBack lib e) (verified : SignedEvent) (wire : Bytes)
      (m : RefMutation) (db db' : Db)
      → Stages lib e verified wire m db db'
      → to_wire lib e ≡ ok wire
      → from_wire lib wire ≡ ok verified
      → IsConsistent lib db
      → Expects db db'
  Stages-Expects e reads verified wire m db db' s canonical parsed k =
      let parses = parsed ∙ ap ok (from_wire_agrees lib e verified wire reads canonical parsed) in
      let p =
        store_event-Placed lib e wire db canonical parses
          (check_parents-StoredIn lib db k.sound e.body.context e.body.parents s.parents_there)
          k.sound verified s.fresh s.placed s.placing in
      Expects-trans db s.placed db' (Expects-same db s.placed p.authors p.contexts) (
        Expects-trans s.placed s.activated db'
          (activate_pending-Expects lib s.state e.event_id e.body.context s.placed s.activated
            s.activating)
          (apply-Expects lib e.event_id m s.activated db' s.already s.moving))

  not_missing :
      (genesis : Bool) (wire : Bytes) → (1 == 1 && (genesis && is_none (some wire))) ≡ false
  not_missing true wire = refl
  not_missing false wire = refl

  status_again : Bool → AdmissionStatus
  status_again applied = if applied then already_applied else already_present

  status_again_old : (applied : Bool) → status_again applied ≢ inserted
  unfolding status_again
  status_again_old true e = cc
  status_again_old false e = cc

  module _ (e : SignedEvent) (reads : ReadsBack lib e) where
    -- An admission that was done before, asked for again in the state that it left, succeeds, inserts
    -- nothing and leaves that state.
    pub admit_tx-again :
        (verified : SignedEvent) (wire : Bytes) (m : RefMutation) (db db' : Db)
        (status : AdmissionStatus)
        → to_wire lib e ≡ ok wire
        → from_wire lib wire ≡ ok verified
        → check_mutation m e.body.context e.event_id ≡ ok tt
        → IsConsistent lib db
        → admit_tx lib e verified wire m db ≡ ok (status, db')
        → (again : AdmissionStatus) × (admit_tx lib e verified wire m db' ≡ ok (again, db'))
          × (again ≢ inserted)
    unfolding admit_tx store_event activate_pending is_authorized status_again
    admit_tx-again verified wire m db db' status canonical parsed fits k h =
        let s = admit_tx-Stages lib e verified wire m db db' status h in
        let kept =
          admit_tx-Kept lib e reads verified wire m db db' status canonical parsed fits k h in
        let t = kept.stored in
        let x = Stages-Expects e reads verified wire m db db' s canonical parsed k in
        let context = context_again db db' e s.expected s.state s.context x kept.consistent t in
        let genesis =
          genesis_again s.state (is_genesis s.expected e.event_id e.body.kind e.body.parents)
            e.body.kind e.body.parents s.genesis in
        let authorized : is_authorized db' e.body.context e.body.author ≡ true =
          rw x.authors s.authorized in
        let parents =
          check_parents_of_StoredIn db' e.body.context e.body.parents
            (λ q n. kept.consistent.sound.parents e.event_id e q t n) in
        let there : event_wire db' e.event_id ≡ some wire =
          let both : ◌≡◌ {A = Contract Bytes} (ok t.row.wire) (ok wire) =
            sym t.canonical ∙ canonical in
          let wires : t.row.wire ≡ wire = cc both in
          event_wire-Stored lib db' e.event_id e t ∙ ap some wires in
        let is_e : verified ≡ e = from_wire_agrees lib e verified wire reads canonical parsed in
        let valid : validate_stored_event lib db' verified ≡ ok tt =
          rw is_e (validate_stored_event-Stored db' e t) in
        let (applied, moved) =
          apply_again e.event_id e.body.context m s.activated db' s.already fits s.moving in
        let bytes : bytes_eq wire wire ≡ true = (bytes_eq_iff wire wire).1 refl in
        (
          status_again applied,
          simp (
            context,
            genesis,
            authorized,
            parents,
            there,
            not_missing (is_genesis s.expected e.event_id e.body.kind e.body.parents) wire,
            bytes,
            valid,
            moved,
          ),
          status_again_old applied,
        )

    -- For an event whose wire parses back to it: an admission that would succeed, but whose commit takes effect while its answer is lost, reports
    -- an indeterminate commit; asked for again in the state that it left, it succeeds, inserts nothing
    -- and leaves that state.
    pub admit-again :
        (m : RefMutation) (db : Db) (status : AdmissionStatus)
        → IsConsistent lib db
        → (admit lib acknowledged e m db).0 ≡ ok status
        → ((admit lib lost_after e m db).0 ≡ err indeterminate_commit)
          × ((again : AdmissionStatus) × (admit lib acknowledged e m (admit lib lost_after e m db).1
                ≡ (ok again, (admit lib lost_after e m db).1))
              × (again ≢ inserted))
    unfolding admit
    admit-again m db status k h = elim (Result-cases (prepare lib e m)) [
      | inr (x, p) ↦ cc (rw (p, admit) at h)
      | inl ((wire, verified), p) ↦
          let (_, canonical, parsed, fits) = prepare-eq-ok lib e m wire verified p in
          let operation = admit_tx lib e verified wire m in
          let after = (write acknowledged operation db).1 in
          let first = write_ok acknowledged operation db status (rw (p, admit) at h) in
          let (again, second, old) =
            admit_tx-again verified wire m db after status canonical parsed fits k first in
          let lost : admit lib lost_after e m db ≡ (err indeterminate_commit, after) =
            rw (p, admit) (write_lost_after operation db after status first) in
          let done : admit lib acknowledged e m after ≡ (ok again, after) =
            rw (p, admit) (write_acknowledged operation after after again second) in
          (
            ap (λ (r : StoreResult AdmissionStatus × Db). r.0) lost,
            (
              again,
              subst (λ (d : Db). admit lib acknowledged e m d ≡ (ok again, d))
                  (sym (ap (λ (r : StoreResult AdmissionStatus × Db). r.1) lost)) done,
              old,
            ),
          )
    ]
