-- ===== src/Store/Bundle/Export.antt =====
-- The export of a bundle and the import of its wire (`export_bundle`, `import_bundle`,
-- src/store/bundle.rs). The transaction of an export only reads: its end changes nothing, and a failure of the
-- database at that end is left out.
use contextmesh_rs.Common.{
  ℕ, not, ◌||◌, List, [], ◌∷◌, Bytes, bytes_lt, ◌==◌, ltb, if◌then◌else◌, length, is_empty,
  contains, keep, sort_dedup, ok, err, ◌>>=◌, ◌>>◌, refuse,
}
use contextmesh_rs.Event.Body.{SignedEvent, Libraries}
use contextmesh_rs.Walk.{Outcome, finished}
use contextmesh_rs.Walk.Outcomes.{of_result, and_then}
use contextmesh_rs.Store.State.{
  StoreError, StoreResult, Db, Commit, bundle_limit_exceeded, bundle_ref_invalid,
}
use contextmesh_rs.Store.Rows.{authoritative_event_context}
use contextmesh_rs.Store.Refs.{is_head}
use contextmesh_rs.Store.Project.{project_on, max_bundle_events, default_limits}
use contextmesh_rs.Store.Project.Order.{ids}
use contextmesh_rs.Store.Bundle.{AdvertisedRef, Bundle, ImportReport, import_bundle_value}
use contextmesh_rs.Store.Bundle.Parts.{check_bundle_limits, from_parts}
use contextmesh_rs.Store.Bundle.Wire.{bundle_to_wire, bundle_from_wire}

pub record BundleLimits : Type 0 where
  pub max_events : ℕ
  pub max_canonical_bytes : ℕ
  pub max_refs : ℕ

pub record LocalRef : Type 0 where
  pub context : ℕ
  pub name : Bytes
  pub head : ℕ

unfoldable pub validate_bundle_limits : BundleLimits → StoreResult (Unit {0})
unfolding check_bundle_limits
validate_bundle_limits limits =
    check_bundle_limits limits.max_events limits.max_canonical_bytes limits.max_refs

unfoldable pub normalize_bundle_heads : List ℕ → StoreResult (List ℕ)
normalize_bundle_heads heads = do
  refuse (is_empty heads || ltb max_bundle_events (length heads)) bundle_limit_exceeded
  ok (sort_dedup heads)

-- The known frontier may be empty.
unfoldable pub normalize_known : List ℕ → StoreResult (List ℕ)
unfolding normalize_bundle_heads
normalize_known heads = if is_empty heads then ok [] else normalize_bundle_heads heads

-- The checks before the transaction: the requested heads and the known frontier.
unfoldable pub check_export : BundleLimits → List ℕ → List ℕ → StoreResult (List ℕ × List ℕ)
unfolding validate_bundle_limits normalize_bundle_heads normalize_known
check_export limits requested_heads known_frontier = do
  validate_bundle_limits limits
  requested ← normalize_bundle_heads requested_heads
  known ← normalize_known known_frontier
  ok (requested, known)

-- `refs.sort_by(…)` on names, which keeps the order of equal ones.
unfoldable pub insert_ref : AdvertisedRef → List AdvertisedRef → List AdvertisedRef
insert_ref r [] = r ∷ []
insert_ref r (q ∷ qs) =
    let rest = insert_ref r qs in if bytes_lt q.name r.name then q ∷ rest else r ∷ q ∷ qs

unfoldable pub sort_refs : List AdvertisedRef → List AdvertisedRef
unfolding insert_ref
sort_refs [] = []
sort_refs (r ∷ rs) = insert_ref r (sort_refs rs)

-- The events that are not known.
abbrev pub unknown_events : List ℕ → List SignedEvent → List SignedEvent
unknown_events known_ids = keep (λ (e : SignedEvent). not (contains known_ids e.event_id))

module _ (lib : Libraries) where
  -- The body of the loop over the snapshot of refs.
  unfoldable pub advertise : Db → ℕ → LocalRef → StoreResult AdvertisedRef
  advertise db context r = if not (r.context == context) then err bundle_ref_invalid else (do
    found ← authoritative_event_context lib db r.head
    refuse (not (is_head found context)) bundle_ref_invalid
    ok (record { name = r.name; head = r.head }))

  unfoldable pub advertise_all : Db → ℕ → List LocalRef → StoreResult (List AdvertisedRef)
  unfolding advertise
  advertise_all db context [] = ok []
  advertise_all db context (r ∷ rs) = do
    a ← advertise db context r
    others ← advertise_all db context rs
    ok (a ∷ others)

  -- `known_ids`: nothing, or the ancestry of the known heads.
  unfoldable pub project_ids : Db → ℕ → List ℕ → Outcome StoreError (List ℕ)
  unfolding and_then
  project_ids db context heads =
      if is_empty heads
      then finished []
      else and_then (project_on lib db context default_limits heads) (λ a. finished (ids a.ordered))

  -- The rest of the transaction, over the requested ancestry and the known identifiers.
  unfoldable pub pack :
      Db → ℕ → BundleLimits → List LocalRef → List SignedEvent → List ℕ → StoreResult Bundle
  unfolding advertise_all sort_refs
  pack db context limits snapshot requested_events known_ids = do
    let events = unknown_events known_ids requested_events
    refuse (ltb limits.max_events (length events)) bundle_limit_exceeded
    refuse (ltb limits.max_refs (length snapshot)) bundle_limit_exceeded
    refs ← advertise_all db context snapshot
    bundle ← from_parts lib context events (sort_refs refs)
    wire ← bundle_to_wire lib bundle
    refuse (ltb limits.max_canonical_bytes (length wire)) bundle_limit_exceeded
    ok bundle

  unfoldable pub export_bundle :
      Db → ℕ → List ℕ → List ℕ → List LocalRef → BundleLimits → Outcome StoreError Bundle
  unfolding check_export project_ids pack of_result and_then
  export_bundle db context requested_heads known_frontier snapshot limits =
      and_then (of_result (check_export limits requested_heads known_frontier))
        (λ (requested, known). and_then (project_on lib db context default_limits requested) (λ a.
          and_then (project_ids db context known)
            (λ known_ids. of_result (pack db context limits snapshot a.ordered known_ids))))

  -- The checks of `import_bundle` before its transaction.
  unfoldable pub accept_bundle : Bytes → BundleLimits → StoreResult Bundle
  unfolding validate_bundle_limits
  accept_bundle wire limits = do
    validate_bundle_limits limits
    refuse (ltb limits.max_canonical_bytes (length wire)) bundle_limit_exceeded
    bundle ← bundle_from_wire lib wire
    refuse
        (ltb limits.max_events (length bundle.events) || ltb limits.max_refs (length bundle.refs))
        bundle_limit_exceeded
    canonical ← bundle_to_wire lib bundle
    refuse (ltb limits.max_canonical_bytes (length canonical)) bundle_limit_exceeded
    ok bundle

  unfoldable pub import_bundle :
      Commit → Bytes → Bytes → BundleLimits → Db → StoreResult ImportReport × Db
  unfolding accept_bundle
  import_bundle commit peer wire limits db = elim (accept_bundle wire limits) [
    | ok bundle ↦ import_bundle_value lib commit peer bundle db
    | err x ↦ (err x, db)
  ]
