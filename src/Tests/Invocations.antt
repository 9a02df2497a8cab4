-- ===== src/Tests/Invocations.antt =====
-- The theorem on pending invocations at a database with a request that is off the branch.
use contextmesh_rs.Common.{ℕ, ◌≡◌, refl, List, [], ◌∷◌, Bytes, codes, ok, some}
use contextmesh_rs.Event.Body.{SignedEvent}
use contextmesh_rs.Event.Wire.{event_json}
use contextmesh_rs.Walk.{finished}
use contextmesh_rs.Store.State.{Db}
use contextmesh_rs.Store.Refs.{local_ref}
use contextmesh_rs.Store.Project.{project, default_limits}
use contextmesh_rs.Store.Invocation
use contextmesh_rs.Store.Invocation.{pending_invocations, scan_invocations, request, invocation_row}
use contextmesh_rs.Tests.Toy.{toy, write_json}
use contextmesh_rs.Tests.Sample.{main, noted}
use contextmesh_rs.Tests.Events.{payload, genesis, note}

abbrev question : SignedEvent
question = record {
  event_id = 875104;
  body = record {
    version = 1;
    context = 5;
    parents = 549793 ∷ [];
    kind = codes "agent.request";
    author = 2;
    payload = payload;
  };
  signature = 347410;
}

-- The request is stored, and the branch stays at its parent.
abbrev asked : Db
asked = record noted {
  events =
      (
        875104,
        record {
          context = 5;
          author = 2;
          kind = codes "agent.request";
          wire = 0 ∷ 0 ∷ 0 ∷ write_json (event_json toy question) [];
        },
      )
      ∷ noted.events;
  edges = (875104, 549793 ∷ []) ∷ noted.edges;
}

scan_runs :
    scan_invocations toy asked 5 request (875852 ∷ 549793 ∷ [])
    ≡ ok (invocation_row (875852 ∷ 549793 ∷ []) ((request, question) ∷ []) (request, question) ∷ [])
unfolding scan_invocations contextmesh_rs.Common.bytes_eq contextmesh_rs.Event.Wire.from_wire
    contextmesh_rs.Event.Wire.parse_envelope write_json event_json contextmesh_rs.Tests.Toy.read
    contextmesh_rs.Tests.Toy.step contextmesh_rs.Event.Wire.parse_body
    contextmesh_rs.Tests.Toy.read_id contextmesh_rs.Event.Body.validate
    contextmesh_rs.Event.Kind.validate_kind contextmesh_rs.Event.Kind.starts_lowercase
    contextmesh_rs.Event.Kind.scan_rest contextmesh_rs.Common.out_of_order
    contextmesh_rs.Event.Json.validate_json_value contextmesh_rs.Event.Body.verify_parts
    contextmesh_rs.Event.Body.derive_event_id contextmesh_rs.Common.contains
    contextmesh_rs.Common.keep contextmesh_rs.Event.Body.body_json
    contextmesh_rs.Event.Body.canonical_bytes contextmesh_rs.Event.Body.canonicalize
    contextmesh_rs.Event.Body.signing_message contextmesh_rs.Event.Json.validate_number
    contextmesh_rs.Event.Kind.scan_label contextmesh_rs.Event.Wire.check_parts
    contextmesh_rs.Event.Wire.has_bom contextmesh_rs.Event.Wire.has_unknown
    contextmesh_rs.Event.Wire.into_object contextmesh_rs.Event.Wire.into_string
    contextmesh_rs.Event.Wire.is_allowed contextmesh_rs.Event.Wire.parse_parents
    contextmesh_rs.Event.Wire.parse_text contextmesh_rs.Event.Wire.parse_texts
    contextmesh_rs.Event.Wire.parse_version contextmesh_rs.Event.Wire.reject_unknown
    contextmesh_rs.Event.Wire.remove_field contextmesh_rs.Event.Wire.strict_json
    contextmesh_rs.Event.Wire.take_required contextmesh_rs.Store.Invocation.answered
    contextmesh_rs.Store.Invocation.from_kind contextmesh_rs.Store.Invocation.parse_row
    contextmesh_rs.Store.Invocation.parse_rows contextmesh_rs.Store.Invocation.scan_rows
    contextmesh_rs.Tests.Toy.add_byte contextmesh_rs.Tests.Toy.add_field
    contextmesh_rs.Tests.Toy.add_item contextmesh_rs.Tests.Toy.result contextmesh_rs.Tests.Toy.run
    contextmesh_rs.Tests.Toy.to_array contextmesh_rs.Tests.Toy.to_object
    contextmesh_rs.Tests.Toy.to_string contextmesh_rs.Tests.Toy.write_bytes
    contextmesh_rs.Tests.Toy.write_number contextmesh_rs.Tests.Toy.digest
scan_runs = refl

head_runs : local_ref toy asked 5 main ≡ ok (some 549793)
unfolding local_ref contextmesh_rs.Common.Table.lookup contextmesh_rs.Common.Table.pair_beq
    contextmesh_rs.Common.bytes_eq contextmesh_rs.Store.Rows.authoritative_event_context
    contextmesh_rs.Store.Rows.event_wire contextmesh_rs.Event.Wire.from_wire
    contextmesh_rs.Event.Wire.parse_envelope write_json event_json contextmesh_rs.Tests.Toy.read
    contextmesh_rs.Tests.Toy.step contextmesh_rs.Event.Wire.parse_body
    contextmesh_rs.Tests.Toy.read_id contextmesh_rs.Event.Body.validate
    contextmesh_rs.Event.Kind.validate_kind contextmesh_rs.Event.Kind.starts_lowercase
    contextmesh_rs.Event.Kind.scan_rest contextmesh_rs.Common.out_of_order
    contextmesh_rs.Event.Body.body_json contextmesh_rs.Event.Body.canonical_bytes
    contextmesh_rs.Event.Body.canonicalize contextmesh_rs.Event.Body.derive_event_id
    contextmesh_rs.Event.Body.signing_message contextmesh_rs.Event.Body.verify_parts
    contextmesh_rs.Event.Json.validate_json_value contextmesh_rs.Event.Json.validate_number
    contextmesh_rs.Event.Kind.scan_label contextmesh_rs.Event.Wire.check_parts
    contextmesh_rs.Event.Wire.has_bom contextmesh_rs.Event.Wire.has_unknown
    contextmesh_rs.Event.Wire.into_object contextmesh_rs.Event.Wire.into_string
    contextmesh_rs.Event.Wire.is_allowed contextmesh_rs.Event.Wire.parse_parents
    contextmesh_rs.Event.Wire.parse_text contextmesh_rs.Event.Wire.parse_texts
    contextmesh_rs.Event.Wire.parse_version contextmesh_rs.Event.Wire.reject_unknown
    contextmesh_rs.Event.Wire.remove_field contextmesh_rs.Event.Wire.strict_json
    contextmesh_rs.Event.Wire.take_required contextmesh_rs.Store.Refs.is_head
    contextmesh_rs.Store.Rows.reparse contextmesh_rs.Tests.Toy.add_byte
    contextmesh_rs.Tests.Toy.add_field contextmesh_rs.Tests.Toy.add_item
    contextmesh_rs.Tests.Toy.result contextmesh_rs.Tests.Toy.run contextmesh_rs.Tests.Toy.to_array
    contextmesh_rs.Tests.Toy.to_object contextmesh_rs.Tests.Toy.to_string
    contextmesh_rs.Tests.Toy.write_bytes contextmesh_rs.Tests.Toy.write_number
    contextmesh_rs.Tests.Toy.digest
head_runs = refl

project_runs :
    project toy asked 5 default_limits (549793 ∷ [])
    ≡ finished (record {
      context = 5;
      heads = 549793 ∷ [];
      events = genesis ∷ note ∷ [];
      canonical_wire_bytes = 464;
    })
unfolding project contextmesh_rs.Store.Project.validate_projection_limits
    contextmesh_rs.Store.Project.normalize_heads contextmesh_rs.Store.Project.project_on
    contextmesh_rs.Store.Project.check_project contextmesh_rs.Common.sort_dedup
    contextmesh_rs.Walk.walk contextmesh_rs.Store.Project.first_project
    contextmesh_rs.Store.Project.load_verified_event contextmesh_rs.Store.Rows.event_wire
    contextmesh_rs.Common.Table.lookup contextmesh_rs.Store.Rows.reparse
    contextmesh_rs.Event.Wire.from_wire contextmesh_rs.Event.Wire.parse_envelope write_json
    event_json contextmesh_rs.Tests.Toy.read contextmesh_rs.Tests.Toy.step
    contextmesh_rs.Common.dedup contextmesh_rs.Common.out_of_order contextmesh_rs.Common.sort
    contextmesh_rs.Common.Table.delete contextmesh_rs.Common.Table.upsert
    contextmesh_rs.Common.bytes_eq contextmesh_rs.Event.Body.body_json
    contextmesh_rs.Event.Body.canonical_bytes contextmesh_rs.Event.Body.canonicalize
    contextmesh_rs.Event.Body.derive_event_id contextmesh_rs.Event.Body.signing_message
    contextmesh_rs.Event.Body.validate contextmesh_rs.Event.Body.verify
    contextmesh_rs.Event.Body.verify_parts contextmesh_rs.Event.Json.validate_json_value
    contextmesh_rs.Event.Json.validate_number contextmesh_rs.Event.Kind.scan_label
    contextmesh_rs.Event.Kind.scan_rest contextmesh_rs.Event.Kind.starts_lowercase
    contextmesh_rs.Event.Kind.validate_kind contextmesh_rs.Event.Wire.check_parts
    contextmesh_rs.Event.Wire.has_bom contextmesh_rs.Event.Wire.has_unknown
    contextmesh_rs.Event.Wire.into_object contextmesh_rs.Event.Wire.into_string
    contextmesh_rs.Event.Wire.is_allowed contextmesh_rs.Event.Wire.parse_body
    contextmesh_rs.Event.Wire.parse_parents contextmesh_rs.Event.Wire.parse_text
    contextmesh_rs.Event.Wire.parse_texts contextmesh_rs.Event.Wire.parse_version
    contextmesh_rs.Event.Wire.reject_unknown contextmesh_rs.Event.Wire.remove_field
    contextmesh_rs.Event.Wire.strict_json contextmesh_rs.Event.Wire.take_required
    contextmesh_rs.Event.Wire.to_wire contextmesh_rs.Store.Project.close_project
    contextmesh_rs.Store.Rows.edge_rows contextmesh_rs.Store.Rows.row_matches
    contextmesh_rs.Store.Rows.same_ids contextmesh_rs.Store.Rows.validate_stored_event
    contextmesh_rs.Tests.Toy.add_byte contextmesh_rs.Tests.Toy.add_field
    contextmesh_rs.Tests.Toy.add_item contextmesh_rs.Tests.Toy.result contextmesh_rs.Tests.Toy.run
    contextmesh_rs.Tests.Toy.to_array contextmesh_rs.Tests.Toy.to_object
    contextmesh_rs.Tests.Toy.to_string contextmesh_rs.Tests.Toy.write_bytes
    contextmesh_rs.Tests.Toy.write_number contextmesh_rs.Walk.enter_step
    contextmesh_rs.Walk.exit_step contextmesh_rs.Walk.frame_step contextmesh_rs.Tests.Toy.read_id
    contextmesh_rs.Tests.Toy.digest
project_runs = refl

pending_runs : pending_invocations toy asked 5 main ≡ finished (question ∷ [])
unfolding pending_invocations Invocation.invocation_rows Invocation.from_head
    Invocation.over_projection Invocation.settled Invocation.select_rows contextmesh_rs.Common.keep
    contextmesh_rs.Common.contains Invocation.answered
pending_runs = rw (head_runs, project_runs, scan_runs) refl
