-- ===== src/Store/Bundle/Keeps.antt =====
-- The invariant under the import of a bundle (`import_bundle_value`, src/store/bundle.rs).
use contextmesh_rs.Store.Invariant.Growth.{Extends-refl, Extends-trans}
use contextmesh_rs.Common.{
  ℕ, ◌≡◌, refl, sym, ◌∙◌, subst, ap, ◌⊎◌, inl, inr, ⊎_elim, Bool, not, ◌&&◌, Option, none, some,
  List, [], ◌∷◌, arith, Bytes, bytes_eq, bytes_eq_iff, ◌==◌, if◌then◌else◌, Bool-cases, All, ok,
  ok_or, refuse, map_err, >>=-eq-ok,
}
use contextmesh_rs.Common.Table.{id_eq, bytes_key, pair_eq, lookup}
use contextmesh_rs.Event.Body.{SignedEvent, Libraries}
use contextmesh_rs.Event.Wire.{from_wire, to_wire}
use contextmesh_rs.Store.State.{
  Db, Commit, contract, corrupt_storage, event_collision, unauthorized_author, context_unknown,
  bundle_ref_invalid,
}
use contextmesh_rs.Store.Transaction.{write-keeps}
use contextmesh_rs.Store.Invariant.{IsConsistent}
use contextmesh_rs.Store.Rows.{
  context_row, is_authorized, event_wire, validate_stored_event, check_parents,
  authoritative_event_context,
}
use contextmesh_rs.Store.Rows.Context.{check_parents-StoredIn, authoritative-StoredIn}
use contextmesh_rs.Store.Refs.{is_head}
use contextmesh_rs.Store.Refs.Swap.{is_head-some}
use contextmesh_rs.Store.Admit.{is_genesis, insert_event, activate_pending}
use contextmesh_rs.Store.Admit.Stages.{Placed, insert_event-Placed, present-Placed}
use contextmesh_rs.Store.Admit.Keeps.{HasState, context_row-HasState, activate_pending-Kept}
use contextmesh_rs.Store.Admit.Atomic.{map_err-eq-ok}
use contextmesh_rs.Store.Admit.Provision.{Grows}
use contextmesh_rs.Store.Admit.Branch.{remote_moved-Grows}
use contextmesh_rs.Store.Bundle.{
  AdvertisedRef, Bundle, ImportReport, Importing, insert_imported, place, check_imported,
  count_import, import_event, import_events, import_ref, import_refs, import_tx,
  import_bundle_value,
}

-- With the context of the event, it is the insertion of an admission.
insert_imported_same :
    (e : SignedEvent) (wire : Bytes) (db : Db)
    → insert_imported e.body.context e wire db ≡ insert_event e wire db
unfolding insert_imported insert_event
insert_imported_same e wire db = refl

module _ (lib : Libraries) where
  -- An event of a parsed bundle: of the bundle's context, and its canonical wire parses back to it.
  abbrev pub IsImportable : ℕ → SignedEvent → Type 0
  IsImportable context e =
      (e.body.context ≡ context) × ((w : Bytes) → to_wire lib e ≡ ok w → from_wire lib w ≡ ok e)

  place-Placed :
      (state : ℕ) (genesis : Bool) (e : SignedEvent) (wire : Bytes) (existing : Option Bytes)
      (db db' : Db) (fresh : Bool)
      → existing ≡ event_wire db e.event_id
      → to_wire lib e ≡ ok wire
      → from_wire lib wire ≡ ok e
      → check_parents lib db e.body.context e.body.parents ≡ ok tt
      → IsConsistent lib db
      → place lib e.body.context state genesis e wire existing db ≡ ok (fresh, db')
      → Placed lib e db db'
  unfolding place
  place-Placed state genesis e wire none db db' fresh at canonical parses parents k h =
      let (_, _, h₁) = >>=-eq-ok (refuse (state == 1 && genesis) corrupt_storage) _ h in
      let (d, i, last) = >>=-eq-ok (insert_imported e.body.context e wire db) _ h₁ in
      let same : d ≡ db' = ground (arith, last) in
      insert_event-Placed lib e wire db canonical parses
        (check_parents-StoredIn lib db k.sound e.body.context e.body.parents parents) k.sound db'
        (sym (insert_imported_same e wire db) ∙ i ∙ ap ok same)
  place-Placed state genesis e wire (some existing) db db' fresh at canonical parses parents k h =
      let (_, _, h₁) = >>=-eq-ok (refuse (state == 0 && genesis) corrupt_storage) _ h in
      let (_, b, h₂) = >>=-eq-ok (refuse (not (bytes_eq existing wire)) event_collision) _ h₁ in
      let (_, _, last) = >>=-eq-ok (validate_stored_event lib db e) _ h₂ in
      let same : db ≡ db' = ground (arith, last) in
      let bytes : existing ≡ wire = (bytes_eq_iff existing wire).0 (ground (arith, b)) in
      subst (Placed lib e db) same (
        present-Placed lib e wire db canonical parses
          (check_parents-StoredIn lib db k.sound e.body.context e.body.parents parents) k.sound
          (sym at ∙ ap some bytes))

  -- The invariant of the loop over the events.
  record IsImporting (context : ℕ) (before : Db) (i : Importing) : Type 0 where
    grows : Grows lib before i.db
    row : HasState i.db context i.state

  is_bit :
      (context : ℕ) (before : Db) (i : Importing)
      → IsImporting context before i
      → (i.state ≡ 0) ⊎ (i.state ≡ 1)
  is_bit context before i p =
      let (r, found, same) = p.row in
      ⊎_elim (λ z. inl (sym same ∙ z.1)) (λ o. inr (sym same ∙ o.1))
        (p.grows.0.sound.contexts context r found)

  counted_state : (state : ℕ) → (state ≡ 0) ⊎ (state ≡ 1) → (if state == 0 then 1 else state) ≡ 1
  counted_state state h = ground arith

  import_event-IsImporting :
      (expected : ℕ) (e : SignedEvent) (before : Db) (i next : Importing)
      → ((w : Bytes) → to_wire lib e ≡ ok w → from_wire lib w ≡ ok e)
      → IsImporting e.body.context before i
      → import_event lib e.body.context expected e i ≡ ok next
      → IsImporting e.body.context before next
  unfolding import_event
  import_event-IsImporting expected e before i next reparse p h =
      let c = e.body.context in
      let genesis = is_genesis expected e.event_id e.body.kind e.body.parents in
      let (_, _, h₁) = >>=-eq-ok (check_imported lib i.state genesis e) _ h in
      let (_, _, h₂) =
        >>=-eq-ok (refuse (not (is_authorized i.db c e.body.author)) unauthorized_author) _ h₁ in
      let (_, parents, h₃) = >>=-eq-ok (check_parents lib i.db c e.body.parents) _ h₂ in
      let (wire, w, h₄) = >>=-eq-ok (map_err contract (to_wire lib e)) _ h₃ in
      let ((fresh, placed), q, h₅) =
        >>=-eq-ok (place lib c i.state genesis e wire (event_wire i.db e.event_id) i.db) _ h₄ in
      let (activated, a, last) =
        >>=-eq-ok (activate_pending lib i.state e.event_id c placed) _ h₅ in
      let canonical = map_err-eq-ok contract (to_wire lib e) wire w in
      let there =
        place-Placed i.state genesis e wire (event_wire i.db e.event_id) i.db placed fresh refl
          canonical (reparse wire canonical) parents p.grows.0 q in
      let kept =
        activate_pending-Kept lib e i.state i.db placed activated p.row p.grows.0 there a in
      let counted : count_import lib fresh i activated ≡ next = ground (arith, last) in
      subst (IsImporting c before) counted (record {
        grows = (kept.consistent, Extends-trans p.grows.1 kept.extends);
        row =
            let (r, found, one) = kept.consistent.live.active e.event_id e kept.stored in
            (r, found, one ∙ sym (counted_state i.state (is_bit e.body.context before i p)));
      })

  import_events-IsImporting :
      (context expected : ℕ) (es : List SignedEvent) (before : Db) (i last : Importing)
      → All (IsImportable context) es
      → IsImporting context before i
      → import_events lib context expected es i ≡ ok last
      → IsImporting context before last
  unfolding import_events
  import_events-IsImporting context expected [] before i last all p h =
      subst (IsImporting context before) (ground (arith, h)) p
  import_events-IsImporting context expected (e ∷ es) before i last all p h =
      let (next, a, rest) = >>=-eq-ok (import_event lib context expected e i) _ h in
      let same : e.body.context ≡ context = all.0.0 in
      let stepped =
        import_event-IsImporting expected e before i next all.0.1
          (subst (λ c. IsImporting c before i) (sym same) p)
          (subst (λ c. import_event lib c expected e i ≡ ok next) (sym same) a) in
      import_events-IsImporting context expected es before next last all.1
        (subst (λ c. IsImporting c before next) same stepped) rest

  import_ref-Grows :
      (peer : Bytes) (context : ℕ) (r : AdvertisedRef) (updated next : ℕ) (db db' : Db)
      → IsConsistent lib db
      → import_ref lib peer context r updated db ≡ ok (next, db')
      → Grows lib db db'
  unfolding import_ref
  import_ref-Grows peer context r updated next db db' k h =
      let (found, a, h₁) = >>=-eq-ok (authoritative_event_context lib db r.head) _ h in
      let (_, b, h₂) = >>=-eq-ok (refuse (not (is_head found context)) bundle_ref_invalid) _ h₁ in
      let known = is_head-some found context (ground (arith, b)) in
      let there = authoritative-StoredIn lib db k.sound r.head context (a ∙ ap ok known) in
      elim (Bool-cases (is_head (lookup (peer, (context, r.name)) db.remote_refs) r.head)) [
        | inl same ↦ subst (Grows lib db) (ground (arith, rw same at h₂)) (k, Extends-refl db)
        | inr other ↦
            subst (Grows lib db) (ground (arith, rw other at h₂))
              (remote_moved-Grows lib peer context r.name r.head db k there)
      ]

  import_refs-Grows :
      (peer : Bytes) (context : ℕ) (rs : List AdvertisedRef) (updated last : ℕ) (before db db' : Db)
      → Grows lib before db
      → import_refs lib peer context rs updated db ≡ ok (last, db')
      → Grows lib before db'
  unfolding import_refs
  import_refs-Grows peer context [] updated last before db db' g h =
      subst (Grows lib before) (ground (arith, h)) g
  import_refs-Grows peer context (r ∷ rs) updated last before db db' g h =
      let ((next, d), a, rest) = >>=-eq-ok (import_ref lib peer context r updated db) _ h in
      let (k, x) = import_ref-Grows peer context r updated next db d g.0 a in
      import_refs-Grows peer context rs next last before d db' (k, Extends-trans g.1 x) rest

  import_tx-Grows :
      (peer : Bytes) (bundle : Bundle) (db db' : Db) (report : ImportReport)
      → All (IsImportable bundle.context) bundle.events
      → IsConsistent lib db
      → import_tx lib peer bundle db ≡ ok (report, db')
      → Grows lib db db'
  unfolding import_tx
  import_tx-Grows peer bundle db db' report all k h =
      let (found, a, h₁) = >>=-eq-ok (context_row db bundle.context) _ h in
      let ((expected, state), b, h₂) = >>=-eq-ok (ok_or found context_unknown) _ h₁ in
      let start : Importing = record {
        db = db;
        state = state;
        inserted = 0;
        already_present = 0;
      } in
      let (i, e, h₃) =
        >>=-eq-ok (import_events lib bundle.context expected bundle.events start) _ h₂ in
      let ((updated, d), r, last) =
        >>=-eq-ok (import_refs lib peer bundle.context bundle.refs 0 i.db) _ h₃ in
      let there : found ≡ some (expected, state) = ground (arith, b) in
      let begun : IsImporting bundle.context db start = record {
        grows = (k, Extends-refl db);
        row = context_row-HasState db bundle.context expected state (a ∙ ap ok there);
      } in
      let done =
        import_events-IsImporting bundle.context expected bundle.events db start i all begun e in
      subst (Grows lib db) (ground (arith, last))
        (import_refs-Grows peer bundle.context bundle.refs 0 updated db i.db d done.grows r)

  -- Importing a bundle, whose events are of its context and parse back from their wires, keeps a consistent database
  -- consistent and loses nothing of it (`Extends`), whatever the commit answers.
  pub import_bundle_value-IsConsistent :
      (commit : Commit) (peer : Bytes) (bundle : Bundle) (db : Db)
      → All (IsImportable bundle.context) bundle.events
      → IsConsistent lib db
      → Grows lib db (import_bundle_value lib commit peer bundle db).1
  unfolding import_bundle_value
  import_bundle_value-IsConsistent commit peer bundle db all k =
      write-keeps (Grows lib db) commit (import_tx lib peer bundle) db (k, Extends-refl db)
        (λ report db' h. import_tx-Grows peer bundle db db' report all k h)
