-- ===== src/Tests/Exports.antt =====
use contextmesh_rs.Event.Exact.{IsExact, FieldsAreExact}
use contextmesh_rs.Tests.Sample.{note-ReadsBack}
-- The theorems on exports, listings and pages at the sample context.
use contextmesh_rs.Common.{
  ℕ, ◌+◌, ◌≡◌, ◌≢◌, ◌≤◌, refl, ap, sym, ◌∙◌, true, false, Option, none, some, List, [], ◌∷◌, Bytes,
  ok, err, ◌>>=◌, length, sort_dedup,
}
use contextmesh_rs.Event.Json
use contextmesh_rs.Event.Json.{Json}
use contextmesh_rs.Event.Wire.{event_json}
use contextmesh_rs.Event.Body.{SignedEvent}
use contextmesh_rs.Walk.{finished}
use contextmesh_rs.Walk.Outcomes.{of_result, and_then}
use contextmesh_rs.Store.Bundle.{AdvertisedRef, Bundle, max_bundle_refs, max_bundle_canonical_bytes}
use contextmesh_rs.Store.Bundle.Parts.{from_parts}
use contextmesh_rs.Store.Bundle.Wire.{
  validate_name, bundle_json, ref_values, bundle_to_wire, bundle_from_wire,
}
use contextmesh_rs.Store.Bundle.Export.{project_ids}
use contextmesh_rs.Store.Bundle.RoundTrip.{bundle_from_wire-bundle_to_wire}
use contextmesh_rs.Store.Bundle.Exports.{Exports, export_bundle-Exports}
use contextmesh_rs.Store.Listing.Complete.{IsListing, sync_local_ref_snapshot-IsListing}
use contextmesh_rs.Store.Sync.Page.{
  SyncExportPage, check_page, check_active, effective_known, search_page, search_start, select_page,
  page_tx, export_sync_page,
}
use contextmesh_rs.Store.Sync.Pages.{IsPage}
use contextmesh_rs.Walk.{out_of_fuel}
use contextmesh_rs.Store.Sync.Ends.{export_sync_page_ends}
use contextmesh_rs.Store.Sync.Sequence.{last_page, next_page}
use contextmesh_rs.Store.Sync.Whole.{
  AreExported, export_sync_page-AreExported, export_sync_page-IsPage,
}
use contextmesh_rs.Tests.Toy.{write_json, toy, toy-Documented}
use contextmesh_rs.Tests.Sample.{noted}
use contextmesh_rs.Tests.Events.{genesis, note}
use contextmesh_rs.Tests.ExportRuns.{
  limits, main_ref, exported, requested_runs, exported_wire, name_valid, parts_run, exported_writes,
  export_runs, listing_runs,
}

abbrev small : SyncExportPage
small = record {
  bundle = record { context = 5; events = genesis ∷ []; refs = [] };
  effective_known_heads = [];
  next_offset = some 1;
}

abbrev rest : SyncExportPage
rest = record {
  bundle = record { context = 5; events = note ∷ []; refs = [] };
  effective_known_heads = [];
  next_offset = none;
}

active_runs : check_active noted 5 ≡ ok tt
unfolding check_active contextmesh_rs.Store.Rows.context_row contextmesh_rs.Common.Table.lookup
active_runs = refl

small_selects : select_page toy 5 (genesis ∷ note ∷ []) 0 1 100_000 [] ≡ finished small
unfolding select_page contextmesh_rs.Store.Sync.Page.try_page from_parts
    contextmesh_rs.Common.Slices.take contextmesh_rs.Common.Slices.drop
    contextmesh_rs.Common.has_repeat contextmesh_rs.Common.sort contextmesh_rs.Event.Body.verify
    contextmesh_rs.Event.Body.verify_parts contextmesh_rs.Event.Body.validate
    contextmesh_rs.Event.Kind.validate_kind contextmesh_rs.Event.Kind.starts_lowercase
    contextmesh_rs.Event.Kind.scan_rest contextmesh_rs.Common.out_of_order Json.validate_json_value
    write_json contextmesh_rs.Event.Body.body_json contextmesh_rs.Common.contains
    contextmesh_rs.Common.bytes_lt contextmesh_rs.Event.Body.canonical_bytes
    contextmesh_rs.Event.Body.canonicalize contextmesh_rs.Event.Body.derive_event_id
    contextmesh_rs.Event.Body.signing_message Json.validate_number
    contextmesh_rs.Event.Kind.scan_label event_json contextmesh_rs.Event.Wire.to_wire
    contextmesh_rs.Store.Bundle.Parts.check_order contextmesh_rs.Store.Bundle.Parts.parent_ahead
    contextmesh_rs.Store.Bundle.Parts.refs_out_of_order bundle_json bundle_to_wire
    contextmesh_rs.Store.Bundle.Wire.event_value contextmesh_rs.Store.Bundle.Wire.event_values
    contextmesh_rs.Store.Bundle.Wire.ref_json ref_values contextmesh_rs.Store.Sync.Page.check_offset
    contextmesh_rs.Store.Sync.Page.close_page contextmesh_rs.Store.Sync.Page.narrow_to search_page
    contextmesh_rs.Tests.Toy.write_bytes contextmesh_rs.Tests.Toy.write_number and_then of_result
    contextmesh_rs.Tests.Toy.digest contextmesh_rs.Tests.Toy.read contextmesh_rs.Tests.Toy.step
small_selects = refl

rest_selects : select_page toy 5 (genesis ∷ note ∷ []) 1 1 100_000 [] ≡ finished rest
unfolding select_page contextmesh_rs.Store.Sync.Page.try_page from_parts
    contextmesh_rs.Common.Slices.take contextmesh_rs.Common.Slices.drop
    contextmesh_rs.Common.has_repeat contextmesh_rs.Common.sort contextmesh_rs.Event.Body.verify
    contextmesh_rs.Event.Body.verify_parts contextmesh_rs.Event.Body.validate
    contextmesh_rs.Event.Kind.validate_kind contextmesh_rs.Event.Kind.starts_lowercase
    contextmesh_rs.Event.Kind.scan_rest contextmesh_rs.Common.out_of_order Json.validate_json_value
    write_json contextmesh_rs.Event.Body.body_json contextmesh_rs.Common.contains
    contextmesh_rs.Common.bytes_lt contextmesh_rs.Event.Body.canonical_bytes
    contextmesh_rs.Event.Body.canonicalize contextmesh_rs.Event.Body.derive_event_id
    contextmesh_rs.Event.Body.signing_message Json.validate_number
    contextmesh_rs.Event.Kind.scan_label event_json contextmesh_rs.Event.Wire.to_wire
    contextmesh_rs.Store.Bundle.Parts.check_order contextmesh_rs.Store.Bundle.Parts.parent_ahead
    contextmesh_rs.Store.Bundle.Parts.refs_out_of_order bundle_json bundle_to_wire
    contextmesh_rs.Store.Bundle.Wire.event_value contextmesh_rs.Store.Bundle.Wire.event_values
    contextmesh_rs.Store.Bundle.Wire.ref_json ref_values contextmesh_rs.Store.Sync.Page.check_offset
    contextmesh_rs.Store.Sync.Page.close_page contextmesh_rs.Store.Sync.Page.narrow_to search_page
    contextmesh_rs.Tests.Toy.write_bytes contextmesh_rs.Tests.Toy.write_number and_then of_result
    contextmesh_rs.Tests.Toy.digest contextmesh_rs.Tests.Toy.read contextmesh_rs.Tests.Toy.step
rest_selects = refl

small_page : export_sync_page toy noted 5 (549793 ∷ []) [] 0 1 100_000 ≡ finished small
unfolding export_sync_page page_tx project_ids effective_known and_then of_result
    contextmesh_rs.Common.contains contextmesh_rs.Common.keep sort_dedup
small_page = simp (active_runs, requested_runs, small_selects)

rest_page : export_sync_page toy noted 5 (549793 ∷ []) [] 1 1 100_000 ≡ finished rest
unfolding export_sync_page page_tx project_ids effective_known and_then of_result
    contextmesh_rs.Common.contains contextmesh_rs.Common.keep sort_dedup
rest_page = simp (active_runs, requested_runs, rest_selects)

bundle_from_wire-bundle_to_wire_example : bundle_from_wire toy exported_wire ≡ ok exported
unfolding IsExact FieldsAreExact
bundle_from_wire-bundle_to_wire_example =
    bundle_from_wire-bundle_to_wire toy toy-Documented 5 (note ∷ []) exported.refs exported
      exported_wire parts_run ((note-ReadsBack, tt), tt) refl ((name_valid, refl), tt)
      exported_writes

export_bundle-Exports_example : Exports toy noted 5 (549793 ∷ []) (875852 ∷ []) exported
export_bundle-Exports_example =
    export_bundle-Exports toy noted 5 (549793 ∷ []) (875852 ∷ []) (main_ref ∷ []) limits exported
      export_runs

sync_local_ref_snapshot-IsListing_example : IsListing toy noted 5 (main_ref ∷ [])
sync_local_ref_snapshot-IsListing_example =
    sync_local_ref_snapshot-IsListing toy noted 5 (main_ref ∷ []) listing_runs

export_sync_page-AreExported_example :
    AreExported toy noted 5 (549793 ∷ []) [] 1 100_000 (genesis ∷ note ∷ [])
export_sync_page-AreExported_example =
    export_sync_page-AreExported toy noted 5 (549793 ∷ []) [] 1 100_000 (genesis ∷ note ∷ [])
      (next_page small_page refl (last_page rest_page refl))

export_sync_page-IsPage_example :
    (plan : List SignedEvent) × AreExported toy noted 5 (549793 ∷ []) [] 1 100_000 plan
    × IsPage toy 5 plan 1 100_000 0 small
export_sync_page-IsPage_example =
    export_sync_page-IsPage toy noted 5 (549793 ∷ []) [] 1 100_000 0 small small_page

export_sync_page_ends_example :
    export_sync_page toy noted 5 (549793 ∷ []) [] 0 1 100_000 ≢ out_of_fuel
export_sync_page_ends_example = export_sync_page_ends toy noted 5 (549793 ∷ []) [] 0 1 100_000
