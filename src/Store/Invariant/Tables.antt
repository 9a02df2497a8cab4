-- ===== src/Store/Invariant/Tables.antt =====
-- How the invariant fares under a change of one table.
use contextmesh_rs.Common.{ℕ, ◌≡◌, refl, sym, ◌∙◌, ap, some, Bytes, ok}
use contextmesh_rs.Common.Table.{Table, id_eq, bytes_key, pair_eq, lookup}
use contextmesh_rs.Event.Json.{Contract}
use contextmesh_rs.Event.Body.{SignedEvent, Libraries}
use contextmesh_rs.Event.Wire.{from_wire}
use contextmesh_rs.Store.State.{Db, ContextRow, EventRow}
use contextmesh_rs.Store.Invariant.{Stored, StoredIn, RowIsSound, IsSound, IsActive, Contains}

pub Contains-refl : (db : Db) → Contains db db
Contains-refl db = record { events = λ id r h. h; edges = λ id ps h. h }

pub Contains-trans : {a b c : Db} → Contains a b → Contains b c → Contains a c
Contains-trans x y = record {
  events = λ id r h. y.events id r (x.events id r h);
  edges = λ id ps h. y.edges id ps (x.edges id ps h);
}

-- A change of other tables than events and edges.
pub Contains-same : (a b : Db) → a.events ≡ b.events → a.edges ≡ b.edges → Contains a b
Contains-same a b e f = record { events = λ id r h. rw (← e) h; edges = λ id ps h. rw (← f) h }

module _ (lib : Libraries) where
  pub Stored-Contains :
      {db db' : Db} {id : ℕ} {e : SignedEvent}
      → Contains db db'
      → Stored lib db id e
      → Stored lib db' id e
  Stored-Contains x s = record {
    row = s.row;
    at = x.events _ s.row s.at;
    parses = s.parses;
    canonical = s.canonical;
    identity = s.identity;
    context = s.context;
    author = s.author;
    kind = s.kind;
    edges = x.edges _ _ s.edges;
  }

  pub StoredIn-Contains :
      {db db' : Db} {c id : ℕ} → Contains db db' → StoredIn lib db c id → StoredIn lib db' c id
  StoredIn-Contains x s = record {
    event = s.event;
    stored = Stored-Contains x s.stored;
    inside = s.inside;
  }

  -- One identifier stores one event.
  pub Stored-unique :
      {db : Db} {id : ℕ} {e f : SignedEvent} → Stored lib db id e → Stored lib db id f → e ≡ f
  Stored-unique {e} {f} s t =
      let rows : s.row ≡ t.row = cc (s.at, t.at) in
      let same : ◌≡◌ {A = Contract SignedEvent} (ok e) (ok f) =
        sym s.parses ∙ ap (λ (r : EventRow). from_wire lib r.wire) rows ∙ t.parses in
      cc same

  pub set_local_refs :
      (db : Db) (refs : Table (ℕ × Bytes) ℕ)
      → ((c : ℕ) (n : Bytes) (h : ℕ) → lookup (c, n) refs ≡ some h → StoredIn lib db c h)
      → IsSound lib db
      → IsSound lib (record db { local_refs = refs })
  set_local_refs db refs fits s = record {
    rows = λ id r h. let (e, t) = s.rows id r h in (e, Stored-Contains there t);
    parents = λ id e q t m. StoredIn-Contains there (s.parents id e q (Stored-Contains back t) m);
    heads = λ c n h l. StoredIn-Contains there (fits c n h l);
    remote_heads = λ p c n h l. StoredIn-Contains there (s.remote_heads p c n h l);
    contexts = s.contexts;
  }
    where
      there : Contains db (record db { local_refs = refs })
      there = Contains-same db (record db { local_refs = refs }) refl refl

      back : Contains (record db { local_refs = refs }) db
      back = Contains-same (record db { local_refs = refs }) db refl refl

  pub set_remote_refs :
      (db : Db) (refs : Table (Bytes × (ℕ × Bytes)) ℕ)
      → ((p : Bytes) (c : ℕ) (n : Bytes) (h : ℕ)
          → lookup (p, (c, n)) refs ≡ some h
          → StoredIn lib db c h)
      → IsSound lib db
      → IsSound lib (record db { remote_refs = refs })
  set_remote_refs db refs fits s = record {
    rows = λ id r h. let (e, t) = s.rows id r h in (e, Stored-Contains there t);
    parents = λ id e q t m. StoredIn-Contains there (s.parents id e q (Stored-Contains back t) m);
    heads = λ c n h l. StoredIn-Contains there (s.heads c n h l);
    remote_heads = λ p c n h l. StoredIn-Contains there (fits p c n h l);
    contexts = s.contexts;
  }
    where
      there : Contains db (record db { remote_refs = refs })
      there = Contains-same db (record db { remote_refs = refs }) refl refl

      back : Contains (record db { remote_refs = refs }) db
      back = Contains-same (record db { remote_refs = refs }) db refl refl

  pub set_contexts :
      (db : Db) (rows : Table ℕ ContextRow)
      → ((c : ℕ) (r : ContextRow) → lookup c rows ≡ some r → RowIsSound lib r)
      → IsSound lib db
      → IsSound lib (record db { contexts = rows })
  set_contexts db rows fits s = record {
    rows = λ id r h. let (e, t) = s.rows id r h in (e, Stored-Contains there t);
    parents = λ id e q t m. StoredIn-Contains there (s.parents id e q (Stored-Contains back t) m);
    heads = λ c n h l. StoredIn-Contains there (s.heads c n h l);
    remote_heads = λ p c n h l. StoredIn-Contains there (s.remote_heads p c n h l);
    contexts = fits;
  }
    where
      there : Contains db (record db { contexts = rows })
      there = Contains-same db (record db { contexts = rows }) refl refl

      back : Contains (record db { contexts = rows }) db
      back = Contains-same (record db { contexts = rows }) db refl refl

  pub set_authors :
      (db : Db) (rows : Table (ℕ × ℕ) (Unit {0}))
      → IsSound lib db
      → IsSound lib (record db { authors = rows })
  set_authors db rows s = record {
    rows = λ id r h. let (e, t) = s.rows id r h in (e, Stored-Contains there t);
    parents = λ id e q t m. StoredIn-Contains there (s.parents id e q (Stored-Contains back t) m);
    heads = λ c n h l. StoredIn-Contains there (s.heads c n h l);
    remote_heads = λ p c n h l. StoredIn-Contains there (s.remote_heads p c n h l);
    contexts = s.contexts;
  }
    where
      there : Contains db (record db { authors = rows })
      there = Contains-same db (record db { authors = rows }) refl refl

      back : Contains (record db { authors = rows }) db
      back = Contains-same (record db { authors = rows }) db refl refl

  -- `IsActive` speaks of events, edges and contexts alone.
  pub IsActive-same :
      (a b : Db)
      → a.events ≡ b.events
      → a.edges ≡ b.edges
      → a.contexts ≡ b.contexts
      → IsActive lib a
      → IsActive lib b
  IsActive-same a b e f g l = record {
    active = λ id v s.
        let (r, h, one) = l.active id v (Stored-Contains (Contains-same b a (sym e) (sym f)) s) in
        (r, rw (← g) h, one);
  }
