-- ===== src/Store/Dag/Keeps.antt =====
-- The invariant under `create_context`, `append` and `merge` (src/store/dag.rs).
use mathlib.Core.List.Memᴰ
use contextmesh_rs.Store.Invariant.Growth.{Extends-refl, Extends-trans}
use contextmesh_rs.Store.Admit.Growth.{Placed-Extends, activate-Extends}
use contextmesh_rs.Common.{
  ℕ, ◌≤◌, ◌≡◌, refl, ◌∙◌, subst, ap, inl, inr, Option, none, some, List, [], ◌∷◌, arith, Bytes,
  length, ok, err, map_err, >>=-eq-ok, Result-cases,
}
use contextmesh_rs.Event.Json
use contextmesh_rs.Event.Json.{Json}
use contextmesh_rs.Event.Body.{EventBody, SignedEvent, Libraries, create_event}
use contextmesh_rs.Event.Wire.{from_wire, to_wire, max_raw_wire_bytes}
use contextmesh_rs.Event.Wire.RoundTrip.{
  Documented, ReadsBack, IsWritable, from_wire-to_wire, create_event-verify,
}
use contextmesh_rs.Store.State.{Db, StoreResult, Commit, contract}
use contextmesh_rs.Store.Transaction.{write-keeps}
use contextmesh_rs.Store.Invariant.{StoredIn, IsConsistent}
use contextmesh_rs.Store.Invariant.Tables.{Stored-Contains}
use contextmesh_rs.Store.Rows.{context_row}
use contextmesh_rs.Store.Refs.{compare_and_swap, head, insert_local_ref}
use contextmesh_rs.Store.Refs.Swap.{insert_local_ref-Moved}
use contextmesh_rs.Store.Admit.{
  genesis_kind, insert_context, insert_authors, insert_event, activate,
}
use contextmesh_rs.Store.Admit.Keeps.{Moved-IsConsistent}
use contextmesh_rs.Store.Admit.Stages.{insert_event-Placed, activate-IsConsistent}
use contextmesh_rs.Store.Admit.Atomic.{map_err-eq-ok, admit-IsConsistent}
use contextmesh_rs.Store.Admit.Provision.{Grows, insert_context-Grows, insert_authors-Grows}
use contextmesh_rs.Store.Dag.{
  create_context_at, create_context_tx, new_genesis, create_context, admit_new, append_event,
  append, merge_event, merge,
}

module _ (lib : Libraries) where
  admit_new-Grows :
      (commit : Commit) (context : ℕ) (branch : Bytes) (expected : ℕ) (db : Db)
      (signed : StoreResult SignedEvent)
      → ((e : SignedEvent) → signed ≡ ok e → ReadsBack lib e)
      → IsConsistent lib db
      → Grows lib db (admit_new lib commit context branch expected db signed).1
  unfolding admit_new
  admit_new-Grows commit context branch expected db (err x) reads k = (k, Extends-refl db)
  admit_new-Grows commit context branch expected db (ok e) reads k =
      admit-IsConsistent lib e (reads e refl) commit
        (compare_and_swap context branch (head expected) e.event_id) db k

  pub append-IsConsistent :
      (commit : Commit) (seed context : ℕ) (branch : Bytes) (expected : ℕ) (parents : List ℕ)
      (kind : Bytes) (payload : Json) (db : Db)
      → ((e : SignedEvent)
          → append_event lib seed context expected kind payload ≡ ok e
          → ReadsBack lib e)
      → ((e : SignedEvent)
          → merge_event lib seed context expected parents payload ≡ ok e
          → ReadsBack lib e)
      → IsConsistent lib db
      → Grows lib db (append lib commit seed context branch expected kind payload db).1
        × Grows lib db (merge lib commit seed context branch expected parents payload db).1
  unfolding append merge
  append-IsConsistent commit seed context branch expected parents kind payload db reads merged k = (
    admit_new-Grows commit context branch expected db
        (append_event lib seed context expected kind payload) reads k,
    admit_new-Grows commit context branch expected db
        (merge_event lib seed context expected parents payload) merged k,
  )

module _ (lib : Libraries) where
  -- The transaction, for an event without parents that its wire parses to.
  create_context_at-Grows :
      (g : SignedEvent) (w : Bytes) (name : Bytes) (found : Option (ℕ × ℕ)) (db db' : Db)
      (u : Unit {0})
      → to_wire lib g ≡ ok w
      → from_wire lib w ≡ ok g
      → g.body.parents ≡ []
      → IsConsistent lib db
      → create_context_at g w name found db ≡ ok (u, db')
      → Grows lib db db'
  unfolding create_context_at
  create_context_at-Grows g w name (some known) db db' u canonical parses root k h = cc
  create_context_at-Grows g w name none db db' u canonical parses root k h =
      let c = g.body.context in
      let (a, h_a, h₁) = >>=-eq-ok (insert_context c g.event_id db) _ h in
      let (b, h_b, h₂) = >>=-eq-ok (insert_authors c (g.body.author ∷ []) a) _ h₁ in
      let (d, h_d, h₃) = >>=-eq-ok (insert_event g w b) _ h₂ in
      let (f, h_f, h₄) = >>=-eq-ok (activate g.event_id c d) _ h₃ in
      let (r, h_r, last) = >>=-eq-ok (insert_local_ref c name g.event_id f) _ h₄ in
      let (k_a, x_a) = insert_context-Grows lib c g.event_id db a k h_a in
      let (k_b, x_b) = insert_authors-Grows lib c (g.body.author ∷ []) a b k_a h_b in
      let p =
        insert_event-Placed lib g w b canonical parses (λ q m. absurd (Memᴰ.not-nil (rw root at m)))
          k_b.sound d h_d in
      let (k_f, events, edges, _) = activate-IsConsistent lib g.event_id c d f h_f p.sound (λ e i s.
        elim (p.back i e s) [
          | inl is_g ↦ inl (ap (λ (y : SignedEvent). y.body.context) is_g)
          | inr old ↦ let (row, l, one) = k_b.live.active i e old in inr (row, rw p.contexts l, one)
        ]) in
      let grows = activate-Extends lib g.event_id c d f h_f in
      let there : StoredIn lib f c g.event_id = record {
        event = g;
        stored = Stored-Contains lib grows.rows p.stored;
        inside = refl;
      } in
      let (k_r, x_r) =
        Moved-IsConsistent lib f r c name g.event_id there k_f
          (insert_local_ref-Moved c name g.event_id f r h_r) in
      subst (Grows lib db) (ground (arith, last)) (
        k_r,
        Extends-trans x_a (
            Extends-trans x_b
              (Extends-trans (Placed-Extends lib g b d p) (Extends-trans grows x_r))),
      )

  create_context_tx-Grows :
      (g : SignedEvent) (w : Bytes) (name : Bytes) (db db' : Db) (u : Unit {0})
      → to_wire lib g ≡ ok w
      → from_wire lib w ≡ ok g
      → g.body.parents ≡ []
      → IsConsistent lib db
      → create_context_tx g w name db ≡ ok (u, db')
      → Grows lib db db'
  unfolding create_context_tx
  create_context_tx-Grows g w name db db' u canonical parses root k h =
      let (found, _, h₁) = >>=-eq-ok (context_row db g.body.context) _ h in
      create_context_at-Grows g w name found db db' u canonical parses root k h₁

  new_genesis-eq-ok :
      (seed context : ℕ) (g : SignedEvent) (w : Bytes)
      → new_genesis lib seed context ≡ ok (g, w)
      → (create_event lib seed context [] genesis_kind (Json.object Json.end) ≡ ok g)
        × (to_wire lib g ≡ ok w)
  unfolding new_genesis
  new_genesis-eq-ok seed context g w h =
      let (e, a, h₁) =
        >>=-eq-ok
          (map_err contract (create_event lib seed context [] genesis_kind (Json.object Json.end)))
          _ h in
      let (v, b, last) = >>=-eq-ok (map_err contract (to_wire lib e)) _ h₁ in
      let is_g : e ≡ g = ground (arith, last) in
      let is_w : v ≡ w = ground (arith, last) in
      (
        map_err-eq-ok contract _ e a ∙ ap ok is_g,
        subst (λ (y : SignedEvent). to_wire lib y ≡ ok w) is_g
            (map_err-eq-ok contract (to_wire lib e) v b ∙ ap ok is_w),
      )

  module _ (laws : Documented lib) where
    -- Creating a context keeps a consistent database consistent and loses nothing of it (`Extends`), whatever the
    -- commit answers, provided that the identifiers of the genesis event are of their types and its wire is within
    -- the bound of a wire.
    pub create_context-IsConsistent :
        (commit : Commit) (seed context : ℕ) (name : Bytes) (db : Db)
        → ((g : SignedEvent) (w : Bytes)
            → new_genesis lib seed context ≡ ok (g, w)
            → IsWritable lib g × (length w ≤ max_raw_wire_bytes))
        → IsConsistent lib db
        → Grows lib db (create_context lib commit seed context name db).1
    unfolding create_context
    create_context-IsConsistent commit seed context name db short k =
        elim (Result-cases (new_genesis lib seed context)) [
          | inr (x, n) ↦ rw (n, create_context) (k, Extends-refl db)
          | inl ((g, w), n) ↦
              let (made, canonical) = new_genesis-eq-ok seed context g w n in
              let (_, asked) =
                create_event-verify lib laws seed context [] genesis_kind (Json.object Json.end) g
                  made in
              let (fits, small) = short g w n in
              let parses = from_wire-to_wire lib laws g w fits canonical small in
              rw (n, create_context)
                (write-keeps (Grows lib db) commit (create_context_tx g w name) db
                  (k, Extends-refl db)
                  (λ u db' h.
                    create_context_tx-Grows g w name db db' u canonical parses
                      (ap (λ (b : EventBody). b.parents) asked) k h))
        ]
