-- ===== src/Store/Invariant.antt =====
-- The invariant of the database of src/store.rs, and its parts.
pub mod Tables
pub mod Initial
pub mod Growth
use contextmesh_rs.Common.{ℕ, ◌≡◌, ◌⊎◌, Option, none, some, List, Memᴰ, Bytes, ok}
use contextmesh_rs.Common.Table.{id_eq, bytes_key, pair_eq, lookup}
use contextmesh_rs.Event.Body.{SignedEvent, Libraries}
use contextmesh_rs.Event.Wire.{from_wire, to_wire}
use contextmesh_rs.Store.State.{Db, ContextRow, EventRow}

module _ (lib : Libraries) where
  -- The row of `id` holds the event `e`: its wire is canonical and parses to it, and the columns and
  -- edges repeat it.
  pub record Stored (db : Db) (id : ℕ) (e : SignedEvent) : Type 0 where
    pub row : EventRow
    pub at : lookup id db.events ≡ some row
    pub parses : from_wire lib row.wire ≡ ok e
    pub canonical : to_wire lib e ≡ ok row.wire
    pub identity : e.event_id ≡ id
    pub context : row.context ≡ e.body.context
    pub author : row.author ≡ e.body.author
    pub kind : row.kind ≡ e.body.kind
    pub edges : lookup id db.edges ≡ some e.body.parents

  -- An event of the context is stored under `id`.
  pub record StoredIn (db : Db) (context id : ℕ) : Type 0 where
    pub event : SignedEvent
    pub stored : Stored db id event
    pub inside : event.body.context ≡ context

  abbrev pub RowIsSound : ContextRow → Type 0
  RowIsSound r =
      (r.genesis ≡ none) × (r.state ≡ 0) ⊎ (r.genesis ≡ some r.expected_genesis) × (r.state ≡ 1)

  -- No row contradicts its event, and parents and heads are stored in the same context: the foreign
  -- keys of the schema, and more.
  pub record IsSound (db : Db) : Type 0 where
    pub rows :
        (id : ℕ) (r : EventRow) → lookup id db.events ≡ some r → (e : SignedEvent) × Stored db id e
    pub parents :
        (id : ℕ) (e : SignedEvent) (q : ℕ)
        → Stored db id e
        → Memᴰ q e.body.parents
        → StoredIn db e.body.context q
    pub heads : (c : ℕ) (n : Bytes) (h : ℕ) → lookup (c, n) db.local_refs ≡ some h → StoredIn db c h
    pub remote_heads :
        (p : Bytes) (c : ℕ) (n : Bytes) (h : ℕ)
        → lookup (p, (c, n)) db.remote_refs ≡ some h
        → StoredIn db c h
    pub contexts : (c : ℕ) (r : ContextRow) → lookup c db.contexts ≡ some r → RowIsSound r

  -- The context of a stored event is active.
  pub record IsActive (db : Db) : Type 0 where
    pub active :
        (id : ℕ) (e : SignedEvent)
        → Stored db id e
        → (r : ContextRow) × (lookup e.body.context db.contexts ≡ some r) × (r.state ≡ 1)

  pub record IsConsistent (db : Db) : Type 0 where
    pub sound : IsSound db
    pub live : IsActive db

-- The events of `db` are in `db'` as they were, and so are their edges.
pub record Contains (db db' : Db) : Type 0 where
  pub events :
      (id : ℕ) (r : EventRow) → lookup id db.events ≡ some r → lookup id db'.events ≡ some r
  pub edges : (id : ℕ) (ps : List ℕ) → lookup id db.edges ≡ some ps → lookup id db'.edges ≡ some ps

-- Nothing of `db` is lost in `db'`: its event rows, edge lists and authors are there as they were, every context is
-- there with the genesis event that it expects, and every branch is there, at the same head or another.
pub record Extends (db db' : Db) : Type 0 where
  pub rows : Contains db db'
  pub authors :
      (k : ℕ × ℕ) (u : Unit {0}) → lookup k db.authors ≡ some u → lookup k db'.authors ≡ some u
  pub contexts :
      (c : ℕ) (r : ContextRow)
      → lookup c db.contexts ≡ some r
      → (r' : ContextRow) × (lookup c db'.contexts ≡ some r')
        × (r'.expected_genesis ≡ r.expected_genesis)
  pub branches :
      (k : ℕ × Bytes) (h : ℕ)
      → lookup k db.local_refs ≡ some h
      → (h' : ℕ) × (lookup k db'.local_refs ≡ some h')
