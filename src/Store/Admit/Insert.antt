-- ===== src/Store/Admit/Insert.antt =====
-- The invariant under the insertion of an event (`admit`, src/store.rs).
use contextmesh_rs.Common.{
  ℕ, ◌≡◌, ◌≢◌, refl, sym, ◌∙◌, subst, ap, ◌⊎◌, inl, inr, none, some, List, Memᴰ, arith, Bytes, ◌==◌,
  ==_iff, ==_refl, Bool-cases, ok, ok_or, >>=-eq-ok,
}
use contextmesh_rs.Common.Table.{
  Table, id_eq, bytes_key, pair_eq, lookup, insert, lookup-insert, insert-eq-some,
}
use contextmesh_rs.Event.Json.{Contract}
use contextmesh_rs.Event.Body.{SignedEvent, Libraries}
use contextmesh_rs.Event.Wire.{from_wire, to_wire}
use contextmesh_rs.Store.State.{Db, EventRow, database_unavailable}
use contextmesh_rs.Store.Invariant.{Stored, StoredIn, IsSound, Contains}
use contextmesh_rs.Store.Invariant.Tables.{Stored-Contains, StoredIn-Contains}
use contextmesh_rs.Store.Admit.{event_row, insert_event}

-- What a successful insertion did.
pub record Inserted (e : SignedEvent) (wire : Bytes) (db db' : Db) : Type 0 where
  pub events : Table ℕ EventRow
  pub edges : Table ℕ (List ℕ)
  pub event_new : insert e.event_id (event_row e wire) db.events ≡ some events
  pub edges_new : insert e.event_id e.body.parents db.edges ≡ some edges
  pub result : db' ≡ record db { events = events; edges = edges }

pub insert_event-Inserted :
    (e : SignedEvent) (wire : Bytes) (db : Db) {db' : Db}
    → insert_event e wire db ≡ ok db'
    → Inserted e wire db db'
unfolding insert_event
insert_event-Inserted e wire db h =
    let (events, p, h') =
      >>=-eq-ok (ok_or (insert e.event_id (event_row e wire) db.events) database_unavailable) _ h in
    let (edges, q, h'') =
      >>=-eq-ok (ok_or (insert e.event_id e.body.parents db.edges) database_unavailable) _ h' in
    record {
      events = events;
      edges = edges;
      event_new = ground (arith, p);
      edges_new = ground (arith, q);
      result = ground (arith, h'');
    }

-- A row that was there before a new one went in is still there.
pub insert-keeps :
    {V : Type 0} (k j : ℕ) (v w : V) (t : Table ℕ V) {u : Table ℕ V}
    → insert k v t ≡ some u
    → lookup j t ≡ some w
    → lookup j u ≡ some w
insert-keeps k j v w t h l = elim (Bool-cases (k == j)) [
  | inl same ↦
      let gone : lookup j t ≡ none =
        subst (λ i. lookup i t ≡ none) ((==_iff k j).0 same) (insert-eq-some k v t h) in
      cc (gone, l)
  | inr other ↦ lookup-insert k j v t h ∙ rw other l
]

-- A row found behind an insertion is the new one or was there before.
pub insert-found :
    {V : Type 0} (k j : ℕ) (v w : V) (t : Table ℕ V) {u : Table ℕ V}
    → insert k v t ≡ some u
    → lookup j u ≡ some w
    → ((k ≡ j) × (v ≡ w)) ⊎ ((k ≢ j) × (lookup j t ≡ some w))
insert-found k j v w t h l = ground (arith, lookup-insert k j v t h, ==_iff k j)

abbrev pub grown : Db → Table ℕ EventRow → Table ℕ (List ℕ) → Db
grown db events edges = record db { events = events; edges = edges }

module _ (lib : Libraries) (e : SignedEvent) (wire : Bytes) (db : Db) (events : Table ℕ EventRow)
    (edges : Table ℕ (List ℕ))
    (event_new : insert e.event_id (event_row e wire) db.events ≡ some events)
    (edges_new : insert e.event_id e.body.parents db.edges ≡ some edges) where
  pub grown-Contains : Contains db (grown db events edges)
  grown-Contains = record {
    events = λ id r h. insert-keeps e.event_id id (event_row e wire) r db.events event_new h;
    edges = λ id ps h. insert-keeps e.event_id id e.body.parents ps db.edges edges_new h;
  }

  module _ (canonical : to_wire lib e ≡ ok wire) (parses : from_wire lib wire ≡ ok e) where
    pub grown-Stored : Stored lib (grown db events edges) e.event_id e
    grown-Stored = record {
      row = event_row e wire;
      at =
          lookup-insert e.event_id e.event_id (event_row e wire) db.events event_new
          ∙ rw (==_refl e.event_id);
      parses = parses;
      canonical = canonical;
      identity = refl;
      context = refl;
      author = refl;
      kind = refl;
      edges =
          lookup-insert e.event_id e.event_id e.body.parents db.edges edges_new
          ∙ rw (==_refl e.event_id);
    }

    -- What is stored now is the event, or was stored before.
    pub grown_back :
        {id : ℕ} {f : SignedEvent}
        → Stored lib (grown db events edges) id f
        → ((e.event_id ≡ id) × (f ≡ e)) ⊎ Stored lib db id f
    grown_back {id} {f} s =
        elim (insert-found e.event_id id (event_row e wire) s.row db.events event_new s.at) [
          | inl (same, row) ↦
              let wires : wire ≡ s.row.wire = ap (λ (r : EventRow). r.wire) row in
              let both : ◌≡◌ {A = Contract SignedEvent} (ok f) (ok e) =
                sym s.parses ∙ rw (← wires) parses in
              inl (same, cc both)
          | inr (other, there) ↦ inr (record {
            row = s.row;
            at = there;
            parses = s.parses;
            canonical = s.canonical;
            identity = s.identity;
            context = s.context;
            author = s.author;
            kind = s.kind;
            edges =
                elim (insert-found e.event_id id e.body.parents f.body.parents db.edges edges_new
                  s.edges) [ inl (same, ps) ↦ absurd (other same) | inr (_, old) ↦ old ];
          })
        ]

    pub grown-IsSound :
        ((q : ℕ) → Memᴰ q e.body.parents → StoredIn lib db e.body.context q)
        → IsSound lib db
        → IsSound lib (grown db events edges)
    grown-IsSound fits s = record {
      rows = λ id r h.
          elim (insert-found e.event_id id (event_row e wire) r db.events event_new h) [
            | inl (same, row) ↦
                (e, subst (λ i. Stored lib (grown db events edges) i e) same grown-Stored)
            | inr (other, there) ↦
                let (f, t) = s.rows id r there in (f, Stored-Contains lib grown-Contains t)
          ];
      parents = λ id f q t m. elim (grown_back t) [
        | inl (same, is_e) ↦ StoredIn-Contains lib grown-Contains (
            subst (λ (g : SignedEvent). StoredIn lib db g.body.context q) (sym is_e)
              (fits q (subst (λ (g : SignedEvent). Memᴰ q g.body.parents) is_e m)))
        | inr old ↦ StoredIn-Contains lib grown-Contains (s.parents id f q old m)
      ];
      heads = λ c n h l. StoredIn-Contains lib grown-Contains (s.heads c n h l);
      remote_heads = λ p c n h l. StoredIn-Contains lib grown-Contains (s.remote_heads p c n h l);
      contexts = s.contexts;
    }
