-- ===== src/Store/Admit/Atomic.antt =====
-- `Store::admit` (src/store.rs) as a whole, transaction and commit included.
use contextmesh_rs.Store.Invariant.Growth.{Extends-refl}
use contextmesh_rs.Common.{
  ◌≡◌, ◌∙◌, ap, inl, inr, arith, Bytes, Result, ok, err, map_err, >>=-eq-ok, Result-cases,
}
use contextmesh_rs.Event.Body.{SignedEvent, Libraries, verify}
use contextmesh_rs.Event.Wire.{from_wire, to_wire}
use contextmesh_rs.Event.Wire.RoundTrip.{ReadsBack}
use contextmesh_rs.Store.State.{Db, Commit, write, contract}
use contextmesh_rs.Store.Transaction.{write-keeps, write_ok}
use contextmesh_rs.Store.Invariant.{Stored, IsConsistent, Extends}
use contextmesh_rs.Store.Refs.{RefMutation, check_mutation}
use contextmesh_rs.Store.Admit.{AdmissionStatus, admit_tx, prepare, admit}
use contextmesh_rs.Store.Admit.Keeps.{Kept, admit_tx-Kept}

pub map_err-eq-ok :
    {E F A : Type 0} (f : E → F) (r : Result E A) (a : A) → map_err f r ≡ ok a → r ≡ ok a
map_err-eq-ok f (ok b) a h = cc
map_err-eq-ok f (err x) a h = cc

module _ (lib : Libraries) where
  pub prepare-eq-ok :
      (e : SignedEvent) (m : RefMutation) (wire : Bytes) (verified : SignedEvent)
      → prepare lib e m ≡ ok (wire, verified)
      → (verify lib e ≡ ok tt)
        × (to_wire lib e ≡ ok wire)
        × (from_wire lib wire ≡ ok verified)
        × (check_mutation m e.body.context e.event_id ≡ ok tt)
  unfolding prepare
  prepare-eq-ok e m wire verified h =
      let (_, a, h₁) = >>=-eq-ok (map_err contract (verify lib e)) _ h in
      let (w, b, h₂) = >>=-eq-ok (map_err contract (to_wire lib e)) _ h₁ in
      let (v, c, h₃) = >>=-eq-ok (map_err contract (from_wire lib w)) _ h₂ in
      let (_, d, h₄) = >>=-eq-ok (check_mutation m e.body.context e.event_id) _ h₃ in
      let same_wire : w ≡ wire = ground (arith, h₄) in
      let same_event : v ≡ verified = ground (arith, h₄) in
      (
        map_err-eq-ok contract (verify lib e) tt a,
        map_err-eq-ok contract (to_wire lib e) w b ∙ ap ok same_wire,
        rw (← same_wire) (map_err-eq-ok contract (from_wire lib w) v c ∙ ap ok same_event),
        d,
      )

  -- The rule for admissions: what holds before and behind the transaction holds after it.
  admit-keeps :
      (P : Db → Type 0) (commit : Commit) (e : SignedEvent) (m : RefMutation) (db : Db)
      → P db
      → ((wire : Bytes) (verified : SignedEvent) (s : AdmissionStatus) (db' : Db)
          → prepare lib e m ≡ ok (wire, verified)
          → admit_tx lib e verified wire m db ≡ ok (s, db')
          → P db')
      → P (admit lib commit e m db).1
  unfolding admit
  admit-keeps P commit e m db p f = elim (Result-cases (prepare lib e m)) [
    | inl ((wire, verified), prepared) ↦
        rw (prepared, admit)
          (write-keeps P commit (admit_tx lib e verified wire m) db p
            (λ s db' h. f wire verified s db' prepared h))
    | inr (x, failed) ↦ rw (failed, admit) p
  ]

  module _ (e : SignedEvent) (reads : ReadsBack lib e) where
    admitted-Kept :
        (m : RefMutation) (db db' : Db) (wire : Bytes) (verified : SignedEvent)
        (s : AdmissionStatus)
        → IsConsistent lib db
        → prepare lib e m ≡ ok (wire, verified)
        → admit_tx lib e verified wire m db ≡ ok (s, db')
        → Kept lib e db db'
    admitted-Kept m db db' wire verified s k p h =
        let (_, canonical, parsed, fits) = prepare-eq-ok e m wire verified p in
        admit_tx-Kept lib e reads verified wire m db db' s canonical parsed fits k h

    -- From a consistent database, every admission of an event whose wire parses back to it leaves a consistent one,
    -- whether it succeeds, is refused, or loses the acknowledgement of its commit; and nothing of the
    -- database is lost (`Extends`).
    pub admit-IsConsistent :
        (commit : Commit) (m : RefMutation) (db : Db)
        → IsConsistent lib db
        → IsConsistent lib (admit lib commit e m db).1 × Extends db (admit lib commit e m db).1
    admit-IsConsistent commit m db k =
        admit-keeps (λ d. IsConsistent lib d × Extends db d) commit e m db (k, Extends-refl db)
          λ wire verified s db' p h.
            let kept = admitted-Kept m db db' wire verified s k p h in
            (kept.consistent, kept.extends)

    -- After an admission that succeeds, of an event whose wire parses back to it, the event is stored under its
    -- identifier.
    pub admit-Stored :
        (commit : Commit) (m : RefMutation) (db : Db) (s : AdmissionStatus)
        → IsConsistent lib db
        → (admit lib commit e m db).0 ≡ ok s
        → Stored lib (admit lib commit e m db).1 e.event_id e
    unfolding admit
    admit-Stored commit m db s k h = elim (Result-cases (prepare lib e m)) [
      | inl ((wire, verified), p) ↦
          let done = rw (p, admit) at h in
          rw (p, admit)
            (admitted-Kept m db (write commit (admit_tx lib e verified wire m) db).1 wire verified s
              k p (write_ok commit (admit_tx lib e verified wire m) db s done)).stored
      | inr (x, p) ↦ cc (rw (p, admit) at h)
    ]
