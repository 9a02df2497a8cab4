-- ===== src/Tests/ExportRuns.antt =====
-- The runs of an export at the sample context, of which one event is known to the other side.
use contextmesh_rs.Common.{
  ℕ, ◌+◌, ◌≡◌, ◌≢◌, ◌≤◌, codes, refl, ap, sym, ◌∙◌, true, false, Option, none, some, List, [], ◌∷◌,
  Bytes, ok, err, ◌>>=◌, length, sort_dedup,
}
use contextmesh_rs.Event.Json
use contextmesh_rs.Event.Json.{Json}
use contextmesh_rs.Event.Wire.{event_json}
use contextmesh_rs.Event.Body.{SignedEvent}
use contextmesh_rs.Walk.{Outcome, finished, out_of_fuel}
use contextmesh_rs.Walk.Outcomes.{of_result, and_then}
use contextmesh_rs.Store.Project.{Projecting, project_on, default_limits, max_bundle_events}
use contextmesh_rs.Store.Bundle.{AdvertisedRef, Bundle, max_bundle_refs, max_bundle_canonical_bytes}
use contextmesh_rs.Store.Bundle.Parts.{from_parts}
use contextmesh_rs.Store.Bundle.Wire.{
  validate_name, bundle_json, ref_values, bundle_to_wire, bundle_from_wire,
}
use contextmesh_rs.Store.Bundle.Export.{
  BundleLimits, LocalRef, check_export, project_ids, pack, export_bundle,
}
use contextmesh_rs.Store.Bundle.{import_bundle_value}
use contextmesh_rs.Store.Bundle.Export.{import_bundle}
use contextmesh_rs.Store.Listing.{local_rows, order_rows, sync_local_ref_snapshot}
use contextmesh_rs.Store.Sync.Page.{check_active, effective_known}
use contextmesh_rs.Tests.Toy.{write_json, toy, toy-Documented}
use contextmesh_rs.Tests.Sample.{main, noted}
use contextmesh_rs.Tests.Events.{genesis, note}

abbrev pub limits : BundleLimits
limits = record { max_events = 16; max_canonical_bytes = 100_000; max_refs = 4 }

abbrev pub main_ref : LocalRef
main_ref = record { context = 5; name = main; head = 549793 }

abbrev pub exported : Bundle
exported = record {
  context = 5;
  events = note ∷ [];
  refs = record { name = main; head = 549793 } ∷ [];
}

abbrev walked : Projecting
walked = record { loaded = []; ordered = genesis ∷ note ∷ []; wire_bytes = 464 }

abbrev known_walk : Projecting
known_walk = record { loaded = []; ordered = genesis ∷ []; wire_bytes = 233 }

pub requested_runs : project_on toy noted 5 default_limits (549793 ∷ []) ≡ finished walked
unfolding project_on contextmesh_rs.Store.Project.check_project
    contextmesh_rs.Store.Project.validate_projection_limits contextmesh_rs.Walk.walk
    contextmesh_rs.Store.Project.first_project contextmesh_rs.Store.Project.load_verified_event
    contextmesh_rs.Store.Rows.event_wire contextmesh_rs.Common.Table.lookup
    contextmesh_rs.Store.Rows.reparse contextmesh_rs.Event.Wire.from_wire
    contextmesh_rs.Event.Wire.parse_envelope contextmesh_rs.Tests.Toy.write_json
    contextmesh_rs.Event.Wire.event_json contextmesh_rs.Tests.Toy.read contextmesh_rs.Tests.Toy.step
    contextmesh_rs.Event.Wire.parse_body contextmesh_rs.Tests.Toy.read_id
    contextmesh_rs.Event.Body.validate contextmesh_rs.Common.out_of_order
    contextmesh_rs.Common.Table.delete contextmesh_rs.Common.Table.upsert
    contextmesh_rs.Common.bytes_eq contextmesh_rs.Event.Body.body_json
    contextmesh_rs.Event.Body.canonical_bytes contextmesh_rs.Event.Body.canonicalize
    contextmesh_rs.Event.Body.derive_event_id contextmesh_rs.Event.Body.signing_message
    contextmesh_rs.Event.Body.verify contextmesh_rs.Event.Body.verify_parts
    contextmesh_rs.Event.Json.validate_json_value contextmesh_rs.Event.Json.validate_number
    contextmesh_rs.Event.Kind.scan_label contextmesh_rs.Event.Kind.scan_rest
    contextmesh_rs.Event.Kind.starts_lowercase contextmesh_rs.Event.Kind.validate_kind
    contextmesh_rs.Event.Wire.check_parts contextmesh_rs.Event.Wire.has_bom
    contextmesh_rs.Event.Wire.has_unknown contextmesh_rs.Event.Wire.into_object
    contextmesh_rs.Event.Wire.into_string contextmesh_rs.Event.Wire.is_allowed
    contextmesh_rs.Event.Wire.parse_parents contextmesh_rs.Event.Wire.parse_text
    contextmesh_rs.Event.Wire.parse_texts contextmesh_rs.Event.Wire.parse_version
    contextmesh_rs.Event.Wire.reject_unknown contextmesh_rs.Event.Wire.remove_field
    contextmesh_rs.Event.Wire.strict_json contextmesh_rs.Event.Wire.take_required
    contextmesh_rs.Event.Wire.to_wire contextmesh_rs.Store.Project.close_project
    contextmesh_rs.Store.Rows.edge_rows contextmesh_rs.Store.Rows.row_matches
    contextmesh_rs.Store.Rows.same_ids contextmesh_rs.Store.Rows.validate_stored_event
    contextmesh_rs.Tests.Toy.add_byte contextmesh_rs.Tests.Toy.add_field
    contextmesh_rs.Tests.Toy.add_item contextmesh_rs.Tests.Toy.result contextmesh_rs.Tests.Toy.run
    contextmesh_rs.Tests.Toy.to_array contextmesh_rs.Tests.Toy.to_object
    contextmesh_rs.Tests.Toy.to_string contextmesh_rs.Tests.Toy.write_bytes
    contextmesh_rs.Tests.Toy.write_number contextmesh_rs.Walk.enter_step
    contextmesh_rs.Walk.exit_step contextmesh_rs.Walk.frame_step contextmesh_rs.Tests.Toy.digest
requested_runs = refl

known_runs : project_on toy noted 5 default_limits (875852 ∷ []) ≡ finished known_walk
unfolding project_on contextmesh_rs.Store.Project.check_project
    contextmesh_rs.Store.Project.validate_projection_limits contextmesh_rs.Walk.walk
    contextmesh_rs.Store.Project.first_project contextmesh_rs.Store.Project.load_verified_event
    contextmesh_rs.Store.Rows.event_wire contextmesh_rs.Common.Table.lookup
    contextmesh_rs.Store.Rows.reparse contextmesh_rs.Event.Wire.from_wire
    contextmesh_rs.Event.Wire.parse_envelope contextmesh_rs.Tests.Toy.write_json
    contextmesh_rs.Event.Wire.event_json contextmesh_rs.Tests.Toy.read contextmesh_rs.Tests.Toy.step
    contextmesh_rs.Event.Wire.parse_body contextmesh_rs.Tests.Toy.read_id
    contextmesh_rs.Event.Body.validate contextmesh_rs.Common.out_of_order
    contextmesh_rs.Common.Table.delete contextmesh_rs.Common.Table.upsert
    contextmesh_rs.Common.bytes_eq contextmesh_rs.Event.Body.body_json
    contextmesh_rs.Event.Body.canonical_bytes contextmesh_rs.Event.Body.canonicalize
    contextmesh_rs.Event.Body.derive_event_id contextmesh_rs.Event.Body.signing_message
    contextmesh_rs.Event.Body.verify contextmesh_rs.Event.Body.verify_parts
    contextmesh_rs.Event.Json.validate_json_value contextmesh_rs.Event.Json.validate_number
    contextmesh_rs.Event.Kind.scan_label contextmesh_rs.Event.Kind.scan_rest
    contextmesh_rs.Event.Kind.starts_lowercase contextmesh_rs.Event.Kind.validate_kind
    contextmesh_rs.Event.Wire.check_parts contextmesh_rs.Event.Wire.has_bom
    contextmesh_rs.Event.Wire.has_unknown contextmesh_rs.Event.Wire.into_object
    contextmesh_rs.Event.Wire.into_string contextmesh_rs.Event.Wire.is_allowed
    contextmesh_rs.Event.Wire.parse_parents contextmesh_rs.Event.Wire.parse_text
    contextmesh_rs.Event.Wire.parse_texts contextmesh_rs.Event.Wire.parse_version
    contextmesh_rs.Event.Wire.reject_unknown contextmesh_rs.Event.Wire.remove_field
    contextmesh_rs.Event.Wire.strict_json contextmesh_rs.Event.Wire.take_required
    contextmesh_rs.Event.Wire.to_wire contextmesh_rs.Store.Project.close_project
    contextmesh_rs.Store.Rows.edge_rows contextmesh_rs.Store.Rows.row_matches
    contextmesh_rs.Store.Rows.same_ids contextmesh_rs.Store.Rows.validate_stored_event
    contextmesh_rs.Tests.Toy.add_byte contextmesh_rs.Tests.Toy.add_field
    contextmesh_rs.Tests.Toy.add_item contextmesh_rs.Tests.Toy.result contextmesh_rs.Tests.Toy.run
    contextmesh_rs.Tests.Toy.to_array contextmesh_rs.Tests.Toy.to_object
    contextmesh_rs.Tests.Toy.to_string contextmesh_rs.Tests.Toy.write_bytes
    contextmesh_rs.Tests.Toy.write_number contextmesh_rs.Walk.enter_step
    contextmesh_rs.Walk.exit_step contextmesh_rs.Walk.frame_step contextmesh_rs.Tests.Toy.digest
known_runs = refl

abbrev pub exported_wire : Bytes
exported_wire =
    0
    ∷ 0
    ∷ 0
    ∷ write_json
        (bundle_json toy 5 (Json.cons (event_json toy note) Json.nil)
          (ref_values toy exported.refs))
        []

pub name_valid : validate_name main ≡ ok tt
unfolding validate_name contextmesh_rs.Event.Kind.starts_lowercase
    contextmesh_rs.Event.Kind.scan_rest
name_valid = refl

pub parts_run : from_parts toy 5 (note ∷ []) exported.refs ≡ ok exported
unfolding from_parts contextmesh_rs.Common.has_repeat contextmesh_rs.Common.sort
    contextmesh_rs.Event.Body.verify contextmesh_rs.Event.Body.verify_parts
    contextmesh_rs.Event.Body.validate contextmesh_rs.Event.Kind.validate_kind
    contextmesh_rs.Event.Kind.starts_lowercase contextmesh_rs.Event.Kind.scan_rest
    contextmesh_rs.Common.out_of_order Json.validate_json_value write_json
    contextmesh_rs.Event.Body.body_json contextmesh_rs.Event.Body.derive_event_id
    contextmesh_rs.Event.Body.canonical_bytes contextmesh_rs.Tests.Toy.digest
    contextmesh_rs.Event.Body.signing_message contextmesh_rs.Common.contains
    contextmesh_rs.Common.bytes_lt contextmesh_rs.Event.Body.canonicalize Json.validate_number
    contextmesh_rs.Event.Kind.scan_label contextmesh_rs.Store.Bundle.Parts.check_order
    contextmesh_rs.Store.Bundle.Parts.parent_ahead
    contextmesh_rs.Store.Bundle.Parts.refs_out_of_order contextmesh_rs.Tests.Toy.write_bytes
    contextmesh_rs.Tests.Toy.write_number
parts_run = refl

pub exported_writes : bundle_to_wire toy exported ≡ ok exported_wire
unfolding bundle_to_wire contextmesh_rs.Event.Wire.to_wire contextmesh_rs.Event.Body.verify
    contextmesh_rs.Event.Body.verify_parts contextmesh_rs.Event.Body.validate
    contextmesh_rs.Event.Kind.validate_kind contextmesh_rs.Event.Kind.starts_lowercase
    contextmesh_rs.Event.Kind.scan_rest contextmesh_rs.Common.out_of_order Json.validate_json_value
    write_json contextmesh_rs.Event.Body.derive_event_id contextmesh_rs.Event.Body.canonical_bytes
    contextmesh_rs.Tests.Toy.digest contextmesh_rs.Event.Body.signing_message
    contextmesh_rs.Tests.Toy.read contextmesh_rs.Tests.Toy.step contextmesh_rs.Event.Body.body_json
    contextmesh_rs.Event.Body.canonicalize Json.validate_number contextmesh_rs.Event.Kind.scan_label
    event_json bundle_json contextmesh_rs.Store.Bundle.Wire.event_value
    contextmesh_rs.Store.Bundle.Wire.event_values contextmesh_rs.Store.Bundle.Wire.ref_json
    ref_values contextmesh_rs.Tests.Toy.add_byte contextmesh_rs.Tests.Toy.add_field
    contextmesh_rs.Tests.Toy.add_item contextmesh_rs.Tests.Toy.result contextmesh_rs.Tests.Toy.run
    contextmesh_rs.Tests.Toy.to_array contextmesh_rs.Tests.Toy.to_object
    contextmesh_rs.Tests.Toy.to_string contextmesh_rs.Tests.Toy.write_bytes
    contextmesh_rs.Tests.Toy.write_number
exported_writes = refl

pack_runs :
    pack toy noted 5 limits (main_ref ∷ []) (genesis ∷ note ∷ []) (875852 ∷ []) ≡ ok exported
unfolding pack contextmesh_rs.Common.keep contextmesh_rs.Common.contains
    contextmesh_rs.Store.Rows.authoritative_event_context contextmesh_rs.Store.Rows.event_wire
    contextmesh_rs.Common.Table.lookup contextmesh_rs.Event.Wire.from_wire
    contextmesh_rs.Event.Wire.parse_envelope write_json event_json contextmesh_rs.Tests.Toy.read
    contextmesh_rs.Tests.Toy.step contextmesh_rs.Event.Wire.parse_body
    contextmesh_rs.Tests.Toy.read_id contextmesh_rs.Event.Body.validate
    contextmesh_rs.Event.Kind.validate_kind contextmesh_rs.Event.Kind.starts_lowercase
    contextmesh_rs.Common.has_repeat contextmesh_rs.Common.out_of_order contextmesh_rs.Common.sort
    contextmesh_rs.Common.bytes_eq contextmesh_rs.Common.bytes_lt
    contextmesh_rs.Event.Body.body_json contextmesh_rs.Event.Body.canonical_bytes
    contextmesh_rs.Event.Body.canonicalize contextmesh_rs.Event.Body.derive_event_id
    contextmesh_rs.Event.Body.signing_message contextmesh_rs.Event.Body.verify
    contextmesh_rs.Event.Body.verify_parts Json.validate_json_value Json.validate_number
    contextmesh_rs.Event.Kind.scan_label contextmesh_rs.Event.Kind.scan_rest
    contextmesh_rs.Event.Wire.check_parts contextmesh_rs.Event.Wire.has_bom
    contextmesh_rs.Event.Wire.has_unknown contextmesh_rs.Event.Wire.into_object
    contextmesh_rs.Event.Wire.into_string contextmesh_rs.Event.Wire.is_allowed
    contextmesh_rs.Event.Wire.parse_parents contextmesh_rs.Event.Wire.parse_text
    contextmesh_rs.Event.Wire.parse_texts contextmesh_rs.Event.Wire.parse_version
    contextmesh_rs.Event.Wire.reject_unknown contextmesh_rs.Event.Wire.remove_field
    contextmesh_rs.Event.Wire.strict_json contextmesh_rs.Event.Wire.take_required
    contextmesh_rs.Event.Wire.to_wire contextmesh_rs.Store.Bundle.Export.advertise
    contextmesh_rs.Store.Bundle.Export.advertise_all contextmesh_rs.Store.Bundle.Export.insert_ref
    contextmesh_rs.Store.Bundle.Export.sort_refs contextmesh_rs.Store.Bundle.Parts.check_order
    from_parts contextmesh_rs.Store.Bundle.Parts.parent_ahead
    contextmesh_rs.Store.Bundle.Parts.refs_out_of_order bundle_json bundle_to_wire
    contextmesh_rs.Store.Bundle.Wire.event_value contextmesh_rs.Store.Bundle.Wire.event_values
    contextmesh_rs.Store.Bundle.Wire.ref_json ref_values contextmesh_rs.Store.Refs.is_head
    contextmesh_rs.Store.Rows.reparse contextmesh_rs.Tests.Toy.add_byte
    contextmesh_rs.Tests.Toy.add_field contextmesh_rs.Tests.Toy.add_item
    contextmesh_rs.Tests.Toy.result contextmesh_rs.Tests.Toy.run contextmesh_rs.Tests.Toy.to_array
    contextmesh_rs.Tests.Toy.to_object contextmesh_rs.Tests.Toy.to_string
    contextmesh_rs.Tests.Toy.write_bytes contextmesh_rs.Tests.Toy.write_number
    contextmesh_rs.Tests.Toy.digest
pack_runs = refl

pub export_runs :
    export_bundle toy noted 5 (549793 ∷ []) (875852 ∷ []) (main_ref ∷ []) limits ≡ finished exported
unfolding export_bundle project_ids and_then of_result project_on
    contextmesh_rs.Store.Project.check_project
    contextmesh_rs.Store.Project.validate_projection_limits sort_dedup
export_runs = simp (requested_runs, known_runs, pack_runs)

pub listing_runs : sync_local_ref_snapshot toy noted 5 ≡ ok (main_ref ∷ [])
unfolding sync_local_ref_snapshot contextmesh_rs.Store.Rows.context_row
    contextmesh_rs.Common.Table.lookup contextmesh_rs.Store.Rows.authoritative_event_context
    contextmesh_rs.Store.Rows.event_wire contextmesh_rs.Event.Wire.from_wire
    contextmesh_rs.Event.Wire.parse_envelope write_json event_json contextmesh_rs.Tests.Toy.read
    contextmesh_rs.Tests.Toy.step contextmesh_rs.Event.Wire.parse_body
    contextmesh_rs.Tests.Toy.read_id contextmesh_rs.Event.Body.validate
    contextmesh_rs.Event.Kind.validate_kind contextmesh_rs.Event.Kind.starts_lowercase
    contextmesh_rs.Event.Kind.scan_rest contextmesh_rs.Common.out_of_order
    contextmesh_rs.Common.bytes_eq contextmesh_rs.Common.bytes_lt
    contextmesh_rs.Event.Body.body_json contextmesh_rs.Event.Body.canonical_bytes
    contextmesh_rs.Event.Body.canonicalize contextmesh_rs.Event.Body.derive_event_id
    contextmesh_rs.Event.Body.signing_message contextmesh_rs.Event.Body.verify_parts
    Json.validate_json_value Json.validate_number contextmesh_rs.Event.Kind.scan_label
    contextmesh_rs.Event.Wire.check_parts contextmesh_rs.Event.Wire.has_bom
    contextmesh_rs.Event.Wire.has_unknown contextmesh_rs.Event.Wire.into_object
    contextmesh_rs.Event.Wire.into_string contextmesh_rs.Event.Wire.is_allowed
    contextmesh_rs.Event.Wire.parse_parents contextmesh_rs.Event.Wire.parse_text
    contextmesh_rs.Event.Wire.parse_texts contextmesh_rs.Event.Wire.parse_version
    contextmesh_rs.Event.Wire.reject_unknown contextmesh_rs.Event.Wire.remove_field
    contextmesh_rs.Event.Wire.strict_json contextmesh_rs.Event.Wire.take_required validate_name
    contextmesh_rs.Store.Listing.check_row contextmesh_rs.Store.Listing.insert_row
    contextmesh_rs.Store.Listing.list_local_refs local_rows order_rows
    contextmesh_rs.Store.Listing.read_rows contextmesh_rs.Store.Refs.is_head
    contextmesh_rs.Store.Rows.reparse contextmesh_rs.Store.Rows.row_is_sound check_active
    contextmesh_rs.Tests.Toy.add_byte contextmesh_rs.Tests.Toy.add_field
    contextmesh_rs.Tests.Toy.add_item contextmesh_rs.Tests.Toy.result contextmesh_rs.Tests.Toy.run
    contextmesh_rs.Tests.Toy.to_array contextmesh_rs.Tests.Toy.to_object
    contextmesh_rs.Tests.Toy.to_string contextmesh_rs.Tests.Toy.write_bytes
    contextmesh_rs.Tests.Toy.write_number contextmesh_rs.Tests.Toy.digest
listing_runs = refl

effective_runs : effective_known toy noted 5 (875852 ∷ []) ≡ ok (875852 ∷ [])
unfolding effective_known contextmesh_rs.Store.Rows.authoritative_event_context
    contextmesh_rs.Store.Rows.event_wire contextmesh_rs.Common.Table.lookup
    contextmesh_rs.Event.Wire.from_wire contextmesh_rs.Event.Wire.parse_envelope write_json
    event_json contextmesh_rs.Tests.Toy.read contextmesh_rs.Tests.Toy.step
    contextmesh_rs.Event.Wire.parse_body contextmesh_rs.Tests.Toy.read_id
    contextmesh_rs.Event.Body.validate contextmesh_rs.Event.Kind.validate_kind
    contextmesh_rs.Event.Kind.starts_lowercase contextmesh_rs.Event.Kind.scan_rest
    contextmesh_rs.Common.out_of_order contextmesh_rs.Common.bytes_eq
    contextmesh_rs.Event.Body.body_json contextmesh_rs.Event.Body.canonical_bytes
    contextmesh_rs.Event.Body.canonicalize contextmesh_rs.Event.Body.derive_event_id
    contextmesh_rs.Event.Body.signing_message contextmesh_rs.Event.Body.verify_parts
    Json.validate_json_value Json.validate_number contextmesh_rs.Event.Kind.scan_label
    contextmesh_rs.Event.Wire.check_parts contextmesh_rs.Event.Wire.has_bom
    contextmesh_rs.Event.Wire.has_unknown contextmesh_rs.Event.Wire.into_object
    contextmesh_rs.Event.Wire.into_string contextmesh_rs.Event.Wire.is_allowed
    contextmesh_rs.Event.Wire.parse_parents contextmesh_rs.Event.Wire.parse_text
    contextmesh_rs.Event.Wire.parse_texts contextmesh_rs.Event.Wire.parse_version
    contextmesh_rs.Event.Wire.reject_unknown contextmesh_rs.Event.Wire.remove_field
    contextmesh_rs.Event.Wire.strict_json contextmesh_rs.Event.Wire.take_required
    contextmesh_rs.Store.Refs.is_head contextmesh_rs.Store.Rows.reparse
    contextmesh_rs.Tests.Toy.add_byte contextmesh_rs.Tests.Toy.add_field
    contextmesh_rs.Tests.Toy.add_item contextmesh_rs.Tests.Toy.result contextmesh_rs.Tests.Toy.run
    contextmesh_rs.Tests.Toy.to_array contextmesh_rs.Tests.Toy.to_object
    contextmesh_rs.Tests.Toy.to_string contextmesh_rs.Tests.Toy.write_bytes
    contextmesh_rs.Tests.Toy.write_number contextmesh_rs.Tests.Toy.digest
effective_runs = refl
