-- ===== src/Store/Listing.antt =====
-- The listings of refs (`list_local_refs` and `list_remote_refs`, src/store.rs, and `sync_local_ref_snapshot`,
-- src/store/sync.rs). A listing only reads.
pub mod Complete
use contextmesh_rs.Common.{
  All, ℕ, ◌≤◌, ◌≡◌, refl, ap, Bool, true, not, ◌&&◌, ◌||◌, Option, none, some, List, [], ◌∷◌, map,
  arith, Bytes, bytes_eq, bytes_lt, ◌==◌, ==_refl, subst, ltb, if◌then◌else◌, length, ok, ◌>>=◌,
  ◌>>◌, refuse, >>=-eq-ok,
}
use contextmesh_rs.Common.Table.{Table}
use contextmesh_rs.Event.Body.{Libraries}
use contextmesh_rs.Store.State.{StoreResult, Db, corrupt_storage, bundle_limit_exceeded}
use contextmesh_rs.Store.Rows.{authoritative_event_context}
use contextmesh_rs.Store.Refs.{is_head}
use contextmesh_rs.Store.Bundle.{AdvertisedRef, max_bundle_refs}
use contextmesh_rs.Store.Bundle.Wire.{validate_name}
use contextmesh_rs.Store.Bundle.Export.{LocalRef, advertise, advertise_all}
use contextmesh_rs.Store.Bundle.Transfer.{AreNamed}
use contextmesh_rs.Store.Sync.{RemoteRefs}
use contextmesh_rs.Store.Sync.Page.{check_active}

-- `WHERE context_id = …`: the names and heads of a context.
unfoldable pub local_rows : ℕ → Table (ℕ × Bytes) ℕ → Table Bytes ℕ
local_rows context [] = []
local_rows context ((key, h) ∷ t) =
    let rest = local_rows context t in if key.0 == context then (key.1, h) ∷ rest else rest

-- `ORDER BY name`
unfoldable pub insert_row : Bytes × ℕ → Table Bytes ℕ → Table Bytes ℕ
insert_row r [] = r ∷ []
insert_row r (q ∷ qs) =
    let rest = insert_row r qs in if bytes_lt q.0 r.0 then q ∷ rest else r ∷ q ∷ qs

unfoldable pub order_rows : Table Bytes ℕ → Table Bytes ℕ
unfolding insert_row
order_rows [] = []
order_rows (r ∷ rs) = insert_row r (order_rows rs)

pub record RemoteRef : Type 0 where
  pub peer : Bytes
  pub context : ℕ
  pub name : Bytes
  pub head : ℕ

-- `WHERE context_id = …`, with `AND peer = …` where a peer is asked for.
abbrev pub is_asked : Option Bytes → ℕ → Bytes × (ℕ × Bytes) → Bool
is_asked none context key = key.1.0 == context
is_asked (some peer) context key = key.1.0 == context && bytes_eq key.0 peer

unfoldable pub remote_rows : Option Bytes → ℕ → RemoteRefs → List RemoteRef
remote_rows peer context [] = []
remote_rows peer context ((key, h) ∷ t) =
    let rest = remote_rows peer context t in
    if is_asked peer context key
    then record { peer = key.0; context = context; name = key.1.1; head = h } ∷ rest
    else rest

-- `ORDER BY peer, name`
abbrev pub is_before : RemoteRef → RemoteRef → Bool
is_before q r = bytes_lt q.peer r.peer || (bytes_eq q.peer r.peer && bytes_lt q.name r.name)

unfoldable pub insert_remote_row : RemoteRef → List RemoteRef → List RemoteRef
insert_remote_row r [] = r ∷ []
insert_remote_row r (q ∷ qs) =
    let rest = insert_remote_row r qs in if is_before q r then q ∷ rest else r ∷ q ∷ qs

unfoldable pub order_remote_rows : List RemoteRef → List RemoteRef
unfolding insert_remote_row
order_remote_rows [] = []
order_remote_rows (r ∷ rs) = insert_remote_row r (order_remote_rows rs)

module _ (lib : Libraries) where
  -- The test of the head of a listed row.
  unfoldable pub check_row : Db → ℕ → ℕ → StoreResult (Unit {0})
  check_row db context h = do
    found ← authoritative_event_context lib db h
    refuse (not (is_head found context)) corrupt_storage

  -- The loop over the rows.
  unfoldable pub read_rows : Db → ℕ → Table Bytes ℕ → StoreResult (List LocalRef)
  unfolding check_row
  read_rows db context [] = ok []
  read_rows db context ((name, h) ∷ rows) = do
    check_row db context h
    validate_name name
    rest ← read_rows db context rows
    ok (record { context = context; name = name; head = h } ∷ rest)

  unfoldable pub list_local_refs : Db → ℕ → StoreResult (List LocalRef)
  unfolding read_rows local_rows order_rows
  list_local_refs db context = read_rows db context (order_rows (local_rows context db.local_refs))

  unfoldable pub read_remote_rows : Db → ℕ → List RemoteRef → StoreResult (List RemoteRef)
  unfolding check_row
  read_remote_rows db context [] = ok []
  read_remote_rows db context (r ∷ rows) = do
    check_row db context r.head
    validate_name r.peer
    validate_name r.name
    rest ← read_remote_rows db context rows
    ok (r ∷ rest)

  unfoldable pub list_remote_refs : Db → Option Bytes → ℕ → StoreResult (List RemoteRef)
  unfolding read_remote_rows remote_rows order_remote_rows
  list_remote_refs db peer context =
      read_remote_rows db context (order_remote_rows (remote_rows peer context db.remote_refs))

  -- The loop of `sync_local_ref_snapshot` is the one of `list_local_refs`.
  unfoldable pub sync_local_ref_snapshot : Db → ℕ → StoreResult (List LocalRef)
  unfolding check_active list_local_refs
  sync_local_ref_snapshot db context = do
    check_active db context
    refs ← list_local_refs db context
    refuse (ltb max_bundle_refs (length refs)) bundle_limit_exceeded
    ok refs

module _ (lib : Libraries) (db : Db) (context : ℕ) where
  abbrev pub as_row : LocalRef → Bytes × ℕ
  as_row r = (r.name, r.head)

  abbrev pub as_advertised : LocalRef → AdvertisedRef
  as_advertised r = record { name = r.name; head = r.head }

  -- What the loop makes of its rows: each with its name, of the grammar, and its head, and such that an export of the
  -- same store takes it.
  pub record IsRead (rows : Table Bytes ℕ) (refs : List LocalRef) : Type 0 where
    pub exact : map as_row refs ≡ rows
    pub inside : All (λ (r : LocalRef). r.context ≡ context) refs
    pub named : AreNamed lib db context refs
    pub advertised : advertise_all lib db context refs ≡ ok (map as_advertised refs)

  check_row-advertise :
      (name : Bytes) (h : ℕ)
      → check_row lib db context h ≡ ok tt
      → advertise lib db context (record { context = context; name = name; head = h })
        ≡ ok (record { name = name; head = h })
  unfolding check_row advertise
  check_row-advertise name h checked =
      let (found, at, test) = >>=-eq-ok (authoritative_event_context lib db h) _ checked in
      let there : is_head found context ≡ true = ground (arith, test) in
      simp (==_refl context, at, there)

  pub read_rows-IsRead :
      (rows : Table Bytes ℕ) (refs : List LocalRef)
      → read_rows lib db context rows ≡ ok refs
      → IsRead rows refs
  unfolding read_rows advertise_all
  read_rows-IsRead [] refs h =
      let same : [] ≡ refs = ground (arith, h) in
      rw (← same) (record { exact = refl; inside = tt; named = tt; advertised = refl })
  read_rows-IsRead ((name, head) ∷ rows) refs h =
      let (_, checked, h₁) = >>=-eq-ok (check_row lib db context head) _ h in
      let (_, valid, h₂) = >>=-eq-ok (validate_name name) _ h₁ in
      let (rest, reads, last) = >>=-eq-ok (read_rows lib db context rows) _ h₂ in
      let same : record { context = context; name = name; head = head } ∷ rest ≡ refs =
        ground (arith, last) in
      let others = read_rows-IsRead rows rest reads in
      let first = check_row-advertise name head checked in
      let more = others.advertised in
      subst (IsRead ((name, head) ∷ rows)) same (record {
        exact = ap (λ (xs : Table Bytes ℕ). (name, head) ∷ xs) others.exact;
        inside = (refl, others.inside);
        named = (valid, others.named);
        advertised = rw (first, more) refl;
      })
