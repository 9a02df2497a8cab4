-- ===== src/Store/Sync.antt =====
-- The replacement of a peer's remote refs (`replace_remote_ref_snapshot`, src/store/sync.rs). The names of
-- stored rows are names already, so that their parsing cannot fail.
pub mod Namespace
pub mod Replaced
pub mod Page
pub mod Search
pub mod Pages
pub mod Sequence
pub mod Whole
pub mod Ends
use contextmesh_rs.Common.{
  ℕ, ◌+◌, Bool, true, false, not, ◌&&◌, ◌||◌, Option, none, some, List, [], ◌∷◌, map, arith, Bytes,
  bytes_eq, bytes_lt, ◌==◌, ltb, if◌then◌else◌, length, keep, Result, ok, err, ◌>>=◌, ◌>>◌, refuse,
  ok_or,
}
use contextmesh_rs.Common.Table.{Table, id_eq, bytes_key, pair_eq, lookup, insert, delete}
use contextmesh_rs.Event.Body.{Libraries}
use contextmesh_rs.Store.State.{
  StoreError, StoreResult, Db, Op, Commit, write, database_unavailable, context_unknown,
  bundle_ref_invalid,
}
use contextmesh_rs.Store.Rows.{context_row, authoritative_event_context}
use contextmesh_rs.Store.Refs.{is_head}
use contextmesh_rs.Store.Bundle.{AdvertisedRef, max_bundle_refs}

-- The table of remote refs.
abbrev pub RemoteRefs : Type 0
RemoteRefs = Table (Bytes × (ℕ × Bytes)) ℕ

-- `refs.windows(2).any(…)`: two neighbours are not in ascending order of their names.
unfoldable pub names_out_of_order : List AdvertisedRef → Bool
names_out_of_order [] = false
names_out_of_order (a ∷ []) = false
names_out_of_order (a ∷ b ∷ bs) = not (bytes_lt a.name b.name) || names_out_of_order (b ∷ bs)

abbrev pub desired : List AdvertisedRef → Table Bytes ℕ
desired = map (λ (r : AdvertisedRef). (r.name, r.head))

-- `WHERE peer = … AND context_id = …`
abbrev pub in_namespace : Bytes → ℕ → Bytes × (ℕ × Bytes) → Bool
in_namespace peer context (p, (c, n)) = bytes_eq p peer && c == context

-- `SELECT name, event_id`; the order of the rows is lost in the map that they go into.
unfoldable pub namespace : Bytes → ℕ → RemoteRefs → Table Bytes ℕ
namespace peer context [] = []
namespace peer context ((key, h) ∷ t) =
    let rest = namespace peer context t in
    if in_namespace peer context key then (key.1.1, h) ∷ rest else rest

abbrev pub is_gone : Option ℕ → Bool
is_gone none = true
is_gone (some h) = false

-- `namespace_change_count`; with the bound on the refs the sum cannot overflow.
unfoldable pub namespace_change_count : Table Bytes ℕ → Table Bytes ℕ → ℕ
namespace_change_count existing new =
    length (keep (λ (row : Bytes × ℕ). is_gone (lookup row.0 new)) existing)
    + length (keep (λ (row : Bytes × ℕ). not (is_head (lookup row.0 existing) row.1)) new)

-- The loop of insertions.
unfoldable pub insert_remote : Bytes → ℕ → List AdvertisedRef → RemoteRefs → StoreResult RemoteRefs
insert_remote peer context [] t = ok t
insert_remote peer context (r ∷ rs) t = do
  next ← ok_or (insert (peer, (context, r.name)) r.head t) database_unavailable
  insert_remote peer context rs next

-- The checks before the transaction.
unfoldable pub check_refs : List AdvertisedRef → StoreResult (Unit {0})
unfolding names_out_of_order
check_refs refs =
    refuse (ltb max_bundle_refs (length refs) || names_out_of_order refs) bundle_ref_invalid

module _ (lib : Libraries) where
  -- The loop over the heads.
  unfoldable pub check_heads : ℕ → List AdvertisedRef → Db → StoreResult (Unit {0})
  check_heads context [] db = ok tt
  check_heads context (r ∷ rs) db = do
    found ← authoritative_event_context lib db r.head
    refuse (not (is_head found context)) bundle_ref_invalid
    check_heads context rs db

  -- The rows of the snapshot in place of those of the namespace, where they differ.
  unfoldable pub replace_rows : Bytes → ℕ → List AdvertisedRef → Op ℕ
  unfolding namespace_change_count insert_remote namespace
  replace_rows peer context refs db =
      let changed = namespace_change_count (namespace peer context db.remote_refs) (desired refs) in
      if changed == 0 then ok (0, db) else (do
        refs' ← insert_remote peer context refs (delete (in_namespace peer context) db.remote_refs)
        ok (changed, record db { remote_refs = refs' }))

  -- The transaction. A found row has the state 0 or 1.
  unfoldable pub replace_tx : Bytes → ℕ → List AdvertisedRef → Op ℕ
  unfolding check_heads replace_rows
  replace_tx peer context refs db = do
    found ← context_row db context
    (expected, state) ← ok_or found context_unknown
    refuse (not (state == 1)) context_unknown
    check_heads context refs db
    replace_rows peer context refs db

  unfoldable pub replace_remote_ref_snapshot :
      Commit → Bytes → ℕ → List AdvertisedRef → Db → StoreResult ℕ × Db
  unfolding check_refs replace_tx
  replace_remote_ref_snapshot commit peer context refs db = elim (check_refs refs) [
    | ok u ↦ write commit (replace_tx peer context refs) db
    | err x ↦ (err x, db)
  ]
