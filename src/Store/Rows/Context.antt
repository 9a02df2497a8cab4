-- ===== src/Store/Rows/Context.antt =====
-- What `authoritative_event_context` and the loop over parents find in a sound database.
use mathlib.Core.List.Memᴰ
use contextmesh_rs.Common.{
  ℕ, ◌≡◌, refl, sym, ◌∙◌, subst, ap, inl, inr, ⊎_elim, true, not, none, some, List, [], ◌∷◌, Memᴰ,
  arith, Bytes, ◌==◌, ==_iff, Option-cases, ok, ok_or, refuse, >>=-eq-ok, Memᴰ-cons,
}
use contextmesh_rs.Common.Table.{id_eq, lookup}
use contextmesh_rs.Event.Body.{SignedEvent, Libraries}
use contextmesh_rs.Store.State.{Db, EventRow, parent_missing, parent_context_mismatch}
use contextmesh_rs.Store.Invariant.{Stored, StoredIn, IsSound}
use contextmesh_rs.Store.Rows.{event_wire, authoritative_event_context, check_parents}

module _ (lib : Libraries) (db : Db) where
  pub event_wire-Stored :
      (id : ℕ) (e : SignedEvent) (s : Stored lib db id e) → event_wire db id ≡ some s.row.wire
  unfolding event_wire
  event_wire-Stored id e s = rw (s.at, event_wire)

  -- The event of a row that is there.
  pub event_wire-eq-some :
      (id : ℕ) (w : Bytes)
      → event_wire db id ≡ some w
      → (r : EventRow) × (lookup id db.events ≡ some r) × (r.wire ≡ w)
  unfolding event_wire
  event_wire-eq-some id w h = elim (Option-cases (lookup id db.events)) [
    | inl missing ↦ cc (rw (missing, event_wire) at h)
    | inr (r, found) ↦ (r, found, ground (arith, found))
  ]

  pub authoritative_of_StoredIn :
      (id c : ℕ) → StoredIn lib db c id → authoritative_event_context lib db id ≡ ok (some c)
  unfolding authoritative_event_context
  authoritative_of_StoredIn id c s =
      let t = s.stored in
      let wire = event_wire-Stored id s.event t in
      let same : (s.event.event_id == id) ≡ true = (==_iff s.event.event_id id).1 t.identity in
      rw (wire, authoritative_event_context) (simp (t.parses, same, s.inside))

  missing_context :
      (id : ℕ) → event_wire db id ≡ none → authoritative_event_context lib db id ≡ ok none
  unfolding authoritative_event_context
  missing_context id h = rw (h, authoritative_event_context)

  module _ (sound : IsSound lib db) where
    pub authoritative-StoredIn :
        (id c : ℕ) → authoritative_event_context lib db id ≡ ok (some c) → StoredIn lib db c id
    authoritative-StoredIn id c h = elim (Option-cases (event_wire db id)) [
      | inl missing ↦ cc (missing_context id missing, h)
      | inr (w, found) ↦
          let (r, at, wire) = event_wire-eq-some id w found in
          let (e, s) = sound.rows id r at in
          let here =
            authoritative_of_StoredIn id e.body.context
              (record { event = e; stored = s; inside = refl }) in
          record { event = e; stored = s; inside = ground (arith, here, h) }
    ]

    pub check_parents-StoredIn :
        (c : ℕ) (ps : List ℕ)
        → check_parents lib db c ps ≡ ok tt
        → (q : ℕ) → Memᴰ q ps
        → StoredIn lib db c q
    unfolding check_parents
    check_parents-StoredIn c [] h q m = absurd (Memᴰ.not-nil m)
    check_parents-StoredIn c (p ∷ ps) h q m =
        let (found, a, h') = >>=-eq-ok (authoritative_event_context lib db p) _ h in
        let (c', b, h'') = >>=-eq-ok (ok_or found (parent_missing p)) _ h' in
        let (_, d, rest) = >>=-eq-ok (refuse (not (c' == c)) (parent_context_mismatch p)) _ h'' in
        let known : found ≡ some c = ground (arith, b, d) in
        ⊎_elim
          (λ (e : q ≡ p).
            subst (λ i. StoredIn lib db c i) (sym e) (authoritative-StoredIn p c (a ∙ ap ok known)))
          (λ n. check_parents-StoredIn c ps rest q n) ((Memᴰ-cons q p ps).0 m)
