-- ===== src/Tests/Ancestry.antt =====
-- The theorems on projections, closures and deltas at the sample database.
use contextmesh_rs.Common.{
  ℕ, ◌≤◌, ◌≡◌, ◌≢◌, refl, ap, sym, ◌∙◌, subst, ◌⊎◌, inl, inr, ◌↔◌, Bool, true, false, Option, none,
  some, List, [], ◌∷◌, Memᴰ, arith, Bytes, codes, length, Result, ok, err, IsAscending,
}
use contextmesh_rs.Common.Table.{lookup}
use contextmesh_rs.Event.Json
use contextmesh_rs.Event.Json.{
  Json, Contract, validate_json_value, depth_of, NumbersAreSafe, validate_json_value_iff,
}
use contextmesh_rs.Event.Kind.{IsLabel, max_kind_bytes, validate_kind, validate_kind_iff}
use contextmesh_rs.Event.Body.{
  EventBody, SignedEvent, verify, validate, validate_parents, max_parents, create_event,
}
use contextmesh_rs.Event.Wire.{event_json, from_wire, to_wire, max_raw_wire_bytes}
use contextmesh_rs.Store.Project.{ProjectionLimits, Projecting, project_on}
use contextmesh_rs.Store.Project.Complete.{Projects, project_on-Projects}
use contextmesh_rs.Store.Project.{max_bundle_events}
use contextmesh_rs.Delta.{RecipientState, delta_over, from_closure}
use contextmesh_rs.Delta.Partition.{IsPartition, delta_over-IsPartition}
use contextmesh_rs.Closure.{ClosureLimits, EventNode, Loading, load_closure_nodes}
use contextmesh_rs.Closure.Loaded.{Loads, load_closure_nodes-Loads, load_closure_nodes_ends}
use contextmesh_rs.Common.{All}
use contextmesh_rs.Walk.{finished, out_of_fuel}
use contextmesh_rs.Tests.Toy.{write_json, toy, toy-Documented}
use contextmesh_rs.Tests.Sample.{noted}
use contextmesh_rs.Tests.Events.{genesis, note}

limits : ProjectionLimits
limits = record { max_events = 2; max_wire_bytes = 1_000 }

projected : Projecting
projected = record { loaded = []; ordered = genesis ∷ note ∷ []; wire_bytes = 464 }

project_runs : project_on toy noted 5 limits (549793 ∷ 875852 ∷ []) ≡ finished projected
unfolding project_on limits projected contextmesh_rs.Store.Project.check_project
    contextmesh_rs.Store.Project.validate_projection_limits contextmesh_rs.Walk.walk
    contextmesh_rs.Store.Project.first_project contextmesh_rs.Store.Project.load_verified_event
    contextmesh_rs.Store.Rows.event_wire lookup contextmesh_rs.Store.Rows.reparse from_wire
    contextmesh_rs.Event.Wire.parse_envelope contextmesh_rs.Tests.Toy.write_json
    contextmesh_rs.Event.Wire.event_json contextmesh_rs.Tests.Toy.read contextmesh_rs.Tests.Toy.step
    contextmesh_rs.Event.Wire.parse_body contextmesh_rs.Tests.Toy.read_id validate
    contextmesh_rs.Common.out_of_order contextmesh_rs.Common.Table.delete
    contextmesh_rs.Common.Table.upsert contextmesh_rs.Common.bytes_eq
    contextmesh_rs.Event.Body.body_json contextmesh_rs.Event.Body.canonical_bytes
    contextmesh_rs.Event.Body.canonicalize contextmesh_rs.Event.Body.derive_event_id
    contextmesh_rs.Event.Body.signing_message verify contextmesh_rs.Event.Body.verify_parts
    validate_json_value Json.validate_number contextmesh_rs.Event.Kind.scan_label
    contextmesh_rs.Event.Kind.scan_rest contextmesh_rs.Event.Kind.starts_lowercase validate_kind
    contextmesh_rs.Event.Wire.check_parts contextmesh_rs.Event.Wire.has_bom
    contextmesh_rs.Event.Wire.has_unknown contextmesh_rs.Event.Wire.into_object
    contextmesh_rs.Event.Wire.into_string contextmesh_rs.Event.Wire.is_allowed
    contextmesh_rs.Event.Wire.parse_parents contextmesh_rs.Event.Wire.parse_text
    contextmesh_rs.Event.Wire.parse_texts contextmesh_rs.Event.Wire.parse_version
    contextmesh_rs.Event.Wire.reject_unknown contextmesh_rs.Event.Wire.remove_field
    contextmesh_rs.Event.Wire.strict_json contextmesh_rs.Event.Wire.take_required to_wire
    contextmesh_rs.Store.Project.close_project contextmesh_rs.Store.Rows.edge_rows
    contextmesh_rs.Store.Rows.row_matches contextmesh_rs.Store.Rows.same_ids
    contextmesh_rs.Store.Rows.validate_stored_event contextmesh_rs.Tests.Toy.add_byte
    contextmesh_rs.Tests.Toy.add_field contextmesh_rs.Tests.Toy.add_item
    contextmesh_rs.Tests.Toy.result contextmesh_rs.Tests.Toy.run contextmesh_rs.Tests.Toy.to_array
    contextmesh_rs.Tests.Toy.to_object contextmesh_rs.Tests.Toy.to_string
    contextmesh_rs.Tests.Toy.write_bytes contextmesh_rs.Tests.Toy.write_number
    contextmesh_rs.Walk.enter_step contextmesh_rs.Walk.exit_step contextmesh_rs.Walk.frame_step
    contextmesh_rs.Tests.Toy.digest
project_runs = refl

project_on-Projects_example : Projects toy noted 5 limits (549793 ∷ 875852 ∷ []) projected
project_on-Projects_example =
    project_on-Projects toy noted 5 limits (549793 ∷ 875852 ∷ []) projected project_runs

closure_limits : ClosureLimits
closure_limits = record { max_events = 2; max_exported_bytes = 100 }

loaded : Loading
loaded = record {
  nodes =
      record { event = 549793; parents = 875852 ∷ [] }
      ∷ record { event = 875852; parents = [] }
      ∷ [];
  count = 2;
  total_bytes = 14;
}

closure_runs : load_closure_nodes toy noted 5 closure_limits (549793 ∷ []) ≡ finished loaded
unfolding load_closure_nodes closure_limits loaded contextmesh_rs.Walk.walk
    contextmesh_rs.Closure.first_node contextmesh_rs.Store.Rows.event
    contextmesh_rs.Store.Rows.event_wire lookup from_wire contextmesh_rs.Event.Wire.parse_envelope
    write_json event_json contextmesh_rs.Tests.Toy.read contextmesh_rs.Tests.Toy.step
    contextmesh_rs.Event.Wire.parse_body contextmesh_rs.Tests.Toy.read_id validate validate_kind
    contextmesh_rs.Event.Kind.starts_lowercase contextmesh_rs.Event.Kind.scan_rest
    contextmesh_rs.Closure.close_node contextmesh_rs.Closure.found contextmesh_rs.Closure.missing
    contextmesh_rs.Common.out_of_order contextmesh_rs.Common.bytes_eq
    contextmesh_rs.Event.Body.body_json contextmesh_rs.Event.Body.canonical_bytes
    contextmesh_rs.Event.Body.canonical_payload_bytes contextmesh_rs.Event.Body.canonicalize
    contextmesh_rs.Event.Body.derive_event_id contextmesh_rs.Event.Body.signing_message verify
    contextmesh_rs.Event.Body.verify_parts validate_json_value Json.validate_number
    contextmesh_rs.Event.Kind.scan_label contextmesh_rs.Event.Wire.check_parts
    contextmesh_rs.Event.Wire.has_bom contextmesh_rs.Event.Wire.has_unknown
    contextmesh_rs.Event.Wire.into_object contextmesh_rs.Event.Wire.into_string
    contextmesh_rs.Event.Wire.is_allowed contextmesh_rs.Event.Wire.parse_parents
    contextmesh_rs.Event.Wire.parse_text contextmesh_rs.Event.Wire.parse_texts
    contextmesh_rs.Event.Wire.parse_version contextmesh_rs.Event.Wire.reject_unknown
    contextmesh_rs.Event.Wire.remove_field contextmesh_rs.Event.Wire.strict_json
    contextmesh_rs.Event.Wire.take_required to_wire contextmesh_rs.Store.Rows.edge_rows
    contextmesh_rs.Store.Rows.reparse contextmesh_rs.Store.Rows.row_matches
    contextmesh_rs.Store.Rows.same_ids contextmesh_rs.Store.Rows.validate_stored_event
    contextmesh_rs.Tests.Toy.add_byte contextmesh_rs.Tests.Toy.add_field
    contextmesh_rs.Tests.Toy.add_item contextmesh_rs.Tests.Toy.result contextmesh_rs.Tests.Toy.run
    contextmesh_rs.Tests.Toy.to_array contextmesh_rs.Tests.Toy.to_object
    contextmesh_rs.Tests.Toy.to_string contextmesh_rs.Tests.Toy.write_bytes
    contextmesh_rs.Tests.Toy.write_number contextmesh_rs.Walk.enter_step
    contextmesh_rs.Walk.exit_step contextmesh_rs.Walk.frame_step contextmesh_rs.Tests.Toy.digest
closure_runs = refl

load_closure_nodes-Loads_example : Loads toy noted 5 closure_limits (549793 ∷ []) loaded
load_closure_nodes-Loads_example =
    load_closure_nodes-Loads toy noted 5 closure_limits (549793 ∷ []) loaded closure_runs

load_closure_nodes_ends_example :
    load_closure_nodes toy noted 5 closure_limits (549793 ∷ []) ≢ out_of_fuel
load_closure_nodes_ends_example = load_closure_nodes_ends toy noted 5 closure_limits (549793 ∷ [])

delta_runs :
    delta_over (3 ∷ 1 ∷ 2 ∷ 3 ∷ []) (2 ∷ 5 ∷ []) ≡ record { delta = 1 ∷ 3 ∷ []; known = 2 ∷ [] }
unfolding delta_over contextmesh_rs.Common.sort_dedup contextmesh_rs.Common.contains
delta_runs = refl

delta_over-IsPartition_example :
    IsPartition (3 ∷ 1 ∷ 2 ∷ 3 ∷ []) (2 ∷ 5 ∷ []) (delta_over (3 ∷ 1 ∷ 2 ∷ 3 ∷ []) (2 ∷ 5 ∷ []))
delta_over-IsPartition_example = delta_over-IsPartition (3 ∷ 1 ∷ 2 ∷ 3 ∷ []) (2 ∷ 5 ∷ [])

known_state : RecipientState
known_state = record { context = 5; head = some 2; closure = 1 ∷ 2 ∷ []; total_bytes = 14 }

state_runs : from_closure 5 (some 2) (2 ∷ 1 ∷ 2 ∷ []) 14 ≡ ok known_state
unfolding from_closure known_state contextmesh_rs.Common.sort_dedup contextmesh_rs.Common.contains
state_runs = refl
