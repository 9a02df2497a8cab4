-- ===== src/Store/Sync/Page.antt =====
-- The export of pages (`export_sync_page`, src/store/sync.rs). The transaction only reads: its end changes
-- nothing, and a failure of the database at that end is left out. The fuel of the binary search is one more than the counts that it searches.
use contextmesh_rs.Common.{
  ℕ, zero, suc, ◌+◌, ◌-◌, ◌/◌, min, Bool, true, false, not, ◌&&◌, ◌||◌, Option, none, some, List,
  [], ◌∷◌, ◌==◌, ltb, leb, if◌then◌else◌, length, is_empty, sort_dedup, ok, ◌>>=◌, ◌>>◌, refuse,
  ok_or,
}
use contextmesh_rs.Common.Slices.{take, drop}
use contextmesh_rs.Event.Body.{SignedEvent, Libraries}
use contextmesh_rs.Walk.{Outcome, finished, out_of_fuel}
use contextmesh_rs.Walk.Outcomes.{of_result, and_then}
use contextmesh_rs.Store.State.{
  StoreError, StoreResult, Db, context_unknown, bundle_limit_exceeded, bundle_order,
}
use contextmesh_rs.Store.Rows.{context_row, authoritative_event_context}
use contextmesh_rs.Store.Refs.{is_head}
use contextmesh_rs.Store.Project.{
  max_bundle_events, checked_add, default_limits, normalize_heads, project_on,
}
use contextmesh_rs.Store.Bundle.{Bundle, max_bundle_refs, max_bundle_canonical_bytes}
use contextmesh_rs.Store.Bundle.Parts.{from_parts}
use contextmesh_rs.Store.Bundle.Wire.{bundle_to_wire}
use contextmesh_rs.Store.Bundle.Export.{unknown_events, project_ids}

pub record SyncExportPage : Type 0 where
  pub bundle : Bundle
  pub effective_known_heads : List ℕ
  pub next_offset : Option ℕ

-- The checks before the transaction: the requested and the known heads.
unfoldable pub check_page : ℕ → ℕ → List ℕ → List ℕ → StoreResult (List ℕ × List ℕ)
unfolding normalize_heads
check_page max_events max_bundle_bytes requested_heads known_heads = do
  refuse
      (max_events == 0
        || (ltb max_bundle_events max_events
            || (max_bundle_bytes == 0 || ltb max_bundle_canonical_bytes max_bundle_bytes)))
      bundle_limit_exceeded
  requested ← normalize_heads requested_heads
  refuse (ltb max_bundle_refs (length known_heads)) bundle_limit_exceeded
  ok (requested, sort_dedup known_heads)

-- `row.ok_or(ContextUnknown)` and the test of its state.
unfoldable pub check_active : Db → ℕ → StoreResult (Unit {0})
check_active db context = do
  found ← context_row db context
  (expected, state) ← ok_or found context_unknown
  refuse (not (state == 1)) context_unknown

-- The variables of the binary search.
pub record Searching : Type 0 where
  pub low : ℕ
  pub high : ℕ
  pub best : Option (ℕ × Bundle)

-- `(low + (high - low) / 2)`
abbrev pub middle : Searching → ℕ
middle s = s.low + (s.high - s.low) / 2

abbrev pub search_start : ℕ → Searching
search_start upper = record { low = 1; high = upper; best = none }

-- The half that is left, by whether the page fits.
unfoldable pub narrow_to : Searching → Bundle → Bool → Searching
narrow_to s bundle true = record {
  low = middle s + 1;
  high = s.high;
  best = some (middle s, bundle);
}
narrow_to s bundle false = record { low = s.low; high = middle s - 1; best = s.best }

-- The test of the offset.
unfoldable pub check_offset : ℕ → ℕ → StoreResult (Unit {0})
check_offset offset plan_length =
    refuse (ltb plan_length offset || (offset == plan_length && not (offset == 0))) bundle_order

-- The page of the best count.
unfoldable pub close_page :
    List SignedEvent → ℕ → List ℕ → Option (ℕ × Bundle) → StoreResult SyncExportPage
close_page plan offset effective best = do
  (count, bundle) ← ok_or best bundle_limit_exceeded
  next ← checked_add bundle_limit_exceeded offset count
  let page : SyncExportPage = record {
    bundle = bundle;
    effective_known_heads = effective;
    next_offset = if ltb next (length plan) then some next else none;
  }
  ok page

module _ (lib : Libraries) where
  -- The loop over the known heads, which keeps those of the context.
  unfoldable pub effective_known : Db → ℕ → List ℕ → StoreResult (List ℕ)
  effective_known db context [] = ok []
  effective_known db context (h ∷ hs) = do
    found ← authoritative_event_context lib db h
    others ← effective_known db context hs
    ok (if is_head found context then h ∷ others else others)

  -- The bundle of so many events, and whether its wire is within the bound.
  unfoldable pub try_page : ℕ → List SignedEvent → ℕ → ℕ → StoreResult (Bundle × Bool)
  try_page context remaining max_bundle_bytes count = do
    bundle ← from_parts lib context (take count remaining) []
    wire ← bundle_to_wire lib bundle
    ok (bundle, leb (length wire) max_bundle_bytes)

  -- `while low <= high`
  unfoldable pub search_page :
      ℕ → List SignedEvent → ℕ → ℕ → Searching → Outcome StoreError (Option (ℕ × Bundle))
  unfolding and_then of_result
  search_page context remaining max_bundle_bytes zero s = out_of_fuel
  search_page context remaining max_bundle_bytes (suc fuel) s =
      if ltb s.high s.low
      then finished s.best
      else and_then (of_result (try_page context remaining max_bundle_bytes (middle s)))
          (λ (bundle, fits).
            search_page context remaining max_bundle_bytes fuel (narrow_to s bundle fits))

  -- The page of a plan.
  unfoldable pub select_page :
      ℕ → List SignedEvent → ℕ → ℕ → ℕ → List ℕ → Outcome StoreError SyncExportPage
  unfolding check_offset search_page close_page and_then of_result
  select_page context plan offset max_events max_bundle_bytes effective =
      let upper = min (length plan - offset) max_events in
      and_then (of_result (check_offset offset (length plan))) (λ u.
        if is_empty plan
        then and_then (of_result (from_parts lib context [] [])) (λ bundle.
          finished
            (record { bundle = bundle; effective_known_heads = effective; next_offset = none }))
        else and_then
            (search_page context (drop offset plan) max_bundle_bytes (upper + 1)
              (search_start upper))
            (λ best. of_result (close_page plan offset effective best)))

  -- The transaction.
  unfoldable pub page_tx : Db → ℕ → List ℕ → List ℕ → ℕ → ℕ → ℕ → Outcome StoreError SyncExportPage
  unfolding check_active effective_known project_ids select_page and_then of_result
  page_tx db context requested known offset max_events max_bundle_bytes =
      and_then (of_result (check_active db context)) (λ u.
        and_then (of_result (effective_known db context known)) (λ effective.
          and_then (project_on lib db context default_limits requested) (λ a.
            and_then (project_ids lib db context effective) (λ known_ids.
              select_page context (unknown_events known_ids a.ordered) offset max_events
                max_bundle_bytes effective))))

  unfoldable pub export_sync_page :
      Db → ℕ → List ℕ → List ℕ → ℕ → ℕ → ℕ → Outcome StoreError SyncExportPage
  unfolding check_page page_tx and_then of_result
  export_sync_page db context requested_heads known_heads offset max_events max_bundle_bytes =
      and_then (of_result (check_page max_events max_bundle_bytes requested_heads known_heads))
        (λ (requested, known).
          page_tx db context requested known offset max_events max_bundle_bytes)
