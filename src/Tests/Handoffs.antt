-- ===== src/Tests/Handoffs.antt =====
-- The theorems on closed selections, deltas, handoffs and repair sequences at the sample database.
use contextmesh_rs.Common.{
  ℕ, zero, suc, ◌+◌, ◌≤◌, ◌<◌, ◌≡◌, ◌≢◌, refl, ◌↔◌, ◌⊎◌, Bool, true, false, Option, none, some,
  List, [], ◌∷◌, ◌++◌, map, Memᴰ, arith, Bytes, codes, length, Result, ok, err,
}
use contextmesh_rs.Event.Json
use contextmesh_rs.Event.Json.{Json, Contract}
use contextmesh_rs.Event.Body.{SignedEvent}
use contextmesh_rs.Selection.Sources.{SourceReference}
use contextmesh_rs.Walk.{finished}
use contextmesh_rs.Walk.Reach.{Reach}
use contextmesh_rs.Closure.{ClosureLimits}
use contextmesh_rs.Closure.Nodes.{event_parents}
use contextmesh_rs.Closure.Select.{ClosedSelection, binary_search, new_policy, close_selection}
use contextmesh_rs.Closure.Closes.{Closes}
use contextmesh_rs.Closure.Closed.{close_selection-Closes}
use contextmesh_rs.Delta.{RecipientState}
use contextmesh_rs.Delta.Head.{at_head}
use contextmesh_rs.Delta.Compute.{Delta, compute_delta, compute_delta-at_head}
use contextmesh_rs.Handoff.{
  Handoff, OmissionChallenge, not_selected, from_delta, with_omission, challenge, follow_up,
  verify_valid,
}
use contextmesh_rs.Handoff.FollowUp.{FollowsUp, follow_up-FollowsUp}
use contextmesh_rs.Repair
use contextmesh_rs.Repair.{TaskOutcome, success, needs_source, RepairHistory, RepairReport, Setting}
use contextmesh_rs.Tests.Toy.{toy}
use contextmesh_rs.Tests.Sample.{noted}
use contextmesh_rs.Tests.Events.{genesis, note}

abbrev limits : ClosureLimits
limits = record { max_events = 4; max_exported_bytes = 1_000 }

abbrev critical : List Bytes
critical = genesis.body.kind ∷ []

-- An identifier of the list is missed where the list is not in ascending order.
missed : binary_search (3 ∷ 10 ∷ 1 ∷ 2 ∷ []) 3 ≡ false
unfolding binary_search
missed = refl

abbrev to_genesis : SourceReference
to_genesis = record {
  event = 875852;
  context = 5;
  kind = genesis.body.kind;
  author = 1;
  payload_bytes = 7;
}

abbrev pub to_note : SourceReference
to_note = record {
  event = 549793;
  context = 5;
  kind = note.body.kind;
  author = 2;
  payload_bytes = 7;
}

abbrev closed : ClosedSelection
closed = record {
  context = 5;
  references = to_note ∷ to_genesis ∷ [];
  selected = 549793 ∷ [];
  added_critical = [];
  total_bytes = 14;
  limits = limits;
}

close_runs :
    close_selection toy noted 5 (549793 ∷ []) (875852 ∷ []) critical limits ≡ some (ok closed)
unfolding close_selection contextmesh_rs.Closure.new_limits contextmesh_rs.Common.sort_dedup
    contextmesh_rs.Closure.load_closure_nodes contextmesh_rs.Walk.walk
    contextmesh_rs.Closure.first_node contextmesh_rs.Store.Rows.event
    contextmesh_rs.Store.Rows.event_wire contextmesh_rs.Common.Table.lookup
    contextmesh_rs.Event.Wire.from_wire contextmesh_rs.Event.Wire.parse_envelope
    contextmesh_rs.Tests.Toy.write_json contextmesh_rs.Event.Wire.event_json
    contextmesh_rs.Tests.Toy.read contextmesh_rs.Tests.Toy.step contextmesh_rs.Event.Wire.parse_body
    contextmesh_rs.Tests.Toy.read_id contextmesh_rs.Common.out_of_order contextmesh_rs.Common.dedup
    contextmesh_rs.Common.sort contextmesh_rs.Common.bytes_eq contextmesh_rs.Delta.Head.absent
    contextmesh_rs.Delta.Head.check_head contextmesh_rs.Delta.Head.check_recipient
    contextmesh_rs.Delta.Head.close_known contextmesh_rs.Delta.Head.first_known
    contextmesh_rs.Delta.Head.gather contextmesh_rs.Delta.Head.known_event
    contextmesh_rs.Event.Body.body_json contextmesh_rs.Event.Body.canonical_bytes
    contextmesh_rs.Event.Body.canonical_payload_bytes contextmesh_rs.Event.Body.canonicalize
    contextmesh_rs.Event.Body.derive_event_id contextmesh_rs.Event.Body.signing_message
    contextmesh_rs.Event.Body.verify contextmesh_rs.Event.Body.verify_parts Json.validate_json_value
    Json.validate_number contextmesh_rs.Event.Kind.scan_label contextmesh_rs.Event.Wire.check_parts
    contextmesh_rs.Event.Wire.has_bom contextmesh_rs.Event.Wire.has_unknown
    contextmesh_rs.Event.Wire.into_object contextmesh_rs.Event.Wire.into_string
    contextmesh_rs.Event.Wire.is_allowed contextmesh_rs.Event.Wire.parse_parents
    contextmesh_rs.Event.Wire.parse_text contextmesh_rs.Event.Wire.parse_texts
    contextmesh_rs.Event.Wire.parse_version contextmesh_rs.Event.Wire.reject_unknown
    contextmesh_rs.Event.Wire.remove_field contextmesh_rs.Event.Wire.strict_json
    contextmesh_rs.Event.Wire.take_required contextmesh_rs.Event.Wire.to_wire
    contextmesh_rs.Store.Rows.edge_rows contextmesh_rs.Store.Rows.reparse
    contextmesh_rs.Store.Rows.row_matches contextmesh_rs.Store.Rows.same_ids
    contextmesh_rs.Store.Rows.validate_stored_event contextmesh_rs.Tests.Toy.add_byte
    contextmesh_rs.Tests.Toy.add_field contextmesh_rs.Tests.Toy.add_item
    contextmesh_rs.Tests.Toy.result contextmesh_rs.Tests.Toy.run contextmesh_rs.Tests.Toy.to_array
    contextmesh_rs.Tests.Toy.to_object contextmesh_rs.Tests.Toy.to_string
    contextmesh_rs.Tests.Toy.write_bytes contextmesh_rs.Tests.Toy.write_number
    contextmesh_rs.Walk.enter_step contextmesh_rs.Walk.exit_step contextmesh_rs.Walk.frame_step
    contextmesh_rs.Event.Body.validate contextmesh_rs.Event.Kind.validate_kind
    contextmesh_rs.Event.Kind.starts_lowercase contextmesh_rs.Event.Kind.scan_rest
    contextmesh_rs.Tests.Toy.digest contextmesh_rs.Closure.close_node
    contextmesh_rs.Closure.Over.close_over contextmesh_rs.Closure.Over.dedup_edges
    contextmesh_rs.Closure.Over.sort_edges contextmesh_rs.Selection.Sources.from_signed
    contextmesh_rs.Selection.Sources.from_source
close_runs = refl

abbrev at_genesis : RecipientState
at_genesis = record { context = 5; head = some 875852; closure = 875852 ∷ []; total_bytes = 7 }

abbrev delta : Delta
delta = record {
  context = 5;
  recipient_head = some 875852;
  recipient_closure = 875852 ∷ [];
  selected_known = 875852 ∷ [];
  references = to_note ∷ [];
  total_bytes = 7;
  limits = limits;
}

at_runs : at_head toy noted 5 875852 limits ≡ finished at_genesis
unfolding at_head contextmesh_rs.Closure.new_limits contextmesh_rs.Store.Rows.event
    contextmesh_rs.Store.Rows.event_wire contextmesh_rs.Common.Table.lookup
    contextmesh_rs.Event.Wire.from_wire contextmesh_rs.Event.Wire.parse_envelope
    contextmesh_rs.Tests.Toy.write_json contextmesh_rs.Event.Wire.event_json
    contextmesh_rs.Tests.Toy.read contextmesh_rs.Tests.Toy.step contextmesh_rs.Event.Wire.parse_body
    contextmesh_rs.Tests.Toy.read_id contextmesh_rs.Event.Body.validate
    contextmesh_rs.Event.Kind.validate_kind contextmesh_rs.Event.Kind.starts_lowercase
    contextmesh_rs.Event.Kind.scan_rest contextmesh_rs.Common.out_of_order
    contextmesh_rs.Common.dedup contextmesh_rs.Common.sort contextmesh_rs.Common.sort_dedup
    contextmesh_rs.Common.bytes_eq contextmesh_rs.Delta.Head.absent
    contextmesh_rs.Delta.Head.check_head contextmesh_rs.Delta.Head.check_recipient
    contextmesh_rs.Delta.Head.close_known contextmesh_rs.Delta.Head.first_known
    contextmesh_rs.Delta.Head.gather contextmesh_rs.Delta.Head.known_event
    contextmesh_rs.Event.Body.body_json contextmesh_rs.Event.Body.canonical_bytes
    contextmesh_rs.Event.Body.canonical_payload_bytes contextmesh_rs.Event.Body.canonicalize
    contextmesh_rs.Event.Body.derive_event_id contextmesh_rs.Event.Body.signing_message
    contextmesh_rs.Event.Body.verify contextmesh_rs.Event.Body.verify_parts Json.validate_json_value
    Json.validate_number contextmesh_rs.Event.Kind.scan_label contextmesh_rs.Event.Wire.check_parts
    contextmesh_rs.Event.Wire.has_bom contextmesh_rs.Event.Wire.has_unknown
    contextmesh_rs.Event.Wire.into_object contextmesh_rs.Event.Wire.into_string
    contextmesh_rs.Event.Wire.is_allowed contextmesh_rs.Event.Wire.parse_parents
    contextmesh_rs.Event.Wire.parse_text contextmesh_rs.Event.Wire.parse_texts
    contextmesh_rs.Event.Wire.parse_version contextmesh_rs.Event.Wire.reject_unknown
    contextmesh_rs.Event.Wire.remove_field contextmesh_rs.Event.Wire.strict_json
    contextmesh_rs.Event.Wire.take_required contextmesh_rs.Event.Wire.to_wire
    contextmesh_rs.Store.Rows.edge_rows contextmesh_rs.Store.Rows.reparse
    contextmesh_rs.Store.Rows.row_matches contextmesh_rs.Store.Rows.same_ids
    contextmesh_rs.Store.Rows.validate_stored_event contextmesh_rs.Tests.Toy.add_byte
    contextmesh_rs.Tests.Toy.add_field contextmesh_rs.Tests.Toy.add_item
    contextmesh_rs.Tests.Toy.result contextmesh_rs.Tests.Toy.run contextmesh_rs.Tests.Toy.to_array
    contextmesh_rs.Tests.Toy.to_object contextmesh_rs.Tests.Toy.to_string
    contextmesh_rs.Tests.Toy.write_bytes contextmesh_rs.Tests.Toy.write_number
    contextmesh_rs.Walk.enter_step contextmesh_rs.Walk.exit_step contextmesh_rs.Walk.frame_step
    contextmesh_rs.Walk.walk contextmesh_rs.Tests.Toy.digest at_genesis
at_runs = refl

delta_runs : compute_delta toy noted closed at_genesis ≡ ok delta
unfolding compute_delta contextmesh_rs.Delta.Head.check_head contextmesh_rs.Store.Rows.event
    contextmesh_rs.Store.Rows.event_wire contextmesh_rs.Common.Table.lookup
    contextmesh_rs.Event.Wire.from_wire contextmesh_rs.Event.Wire.parse_envelope
    contextmesh_rs.Tests.Toy.write_json contextmesh_rs.Event.Wire.event_json
    contextmesh_rs.Tests.Toy.read contextmesh_rs.Tests.Toy.step contextmesh_rs.Event.Wire.parse_body
    contextmesh_rs.Tests.Toy.read_id contextmesh_rs.Event.Body.validate
    contextmesh_rs.Event.Kind.validate_kind contextmesh_rs.Event.Kind.starts_lowercase
    contextmesh_rs.Event.Kind.scan_rest contextmesh_rs.Common.contains contextmesh_rs.Common.dedup
    contextmesh_rs.Common.out_of_order contextmesh_rs.Common.sort contextmesh_rs.Common.sort_dedup
    contextmesh_rs.Common.bytes_eq contextmesh_rs.Delta.Compute.check_recipient_head
    contextmesh_rs.Delta.Compute.pick contextmesh_rs.Delta.delta_over contextmesh_rs.Delta.partition
    contextmesh_rs.Event.Body.body_json contextmesh_rs.Event.Body.canonical_bytes
    contextmesh_rs.Event.Body.canonicalize contextmesh_rs.Event.Body.derive_event_id
    contextmesh_rs.Event.Body.signing_message contextmesh_rs.Event.Body.verify
    contextmesh_rs.Event.Body.verify_parts Json.validate_json_value Json.validate_number
    contextmesh_rs.Event.Kind.scan_label contextmesh_rs.Event.Wire.check_parts
    contextmesh_rs.Event.Wire.has_bom contextmesh_rs.Event.Wire.has_unknown
    contextmesh_rs.Event.Wire.into_object contextmesh_rs.Event.Wire.into_string
    contextmesh_rs.Event.Wire.is_allowed contextmesh_rs.Event.Wire.parse_parents
    contextmesh_rs.Event.Wire.parse_text contextmesh_rs.Event.Wire.parse_texts
    contextmesh_rs.Event.Wire.parse_version contextmesh_rs.Event.Wire.reject_unknown
    contextmesh_rs.Event.Wire.remove_field contextmesh_rs.Event.Wire.strict_json
    contextmesh_rs.Event.Wire.take_required contextmesh_rs.Event.Wire.to_wire
    contextmesh_rs.Store.Rows.edge_rows contextmesh_rs.Store.Rows.reparse
    contextmesh_rs.Store.Rows.row_matches contextmesh_rs.Store.Rows.same_ids
    contextmesh_rs.Store.Rows.validate_stored_event contextmesh_rs.Tests.Toy.add_byte
    contextmesh_rs.Tests.Toy.add_field contextmesh_rs.Tests.Toy.add_item
    contextmesh_rs.Tests.Toy.result contextmesh_rs.Tests.Toy.run contextmesh_rs.Tests.Toy.to_array
    contextmesh_rs.Tests.Toy.to_object contextmesh_rs.Tests.Toy.to_string
    contextmesh_rs.Tests.Toy.write_bytes contextmesh_rs.Tests.Toy.write_number
    contextmesh_rs.Tests.Toy.digest delta
delta_runs = refl

close_selection-Closes_example : Closes toy noted 5 critical (549793 ∷ []) (875852 ∷ []) closed
close_selection-Closes_example =
    close_selection-Closes toy noted 5 critical (549793 ∷ []) (875852 ∷ []) limits closed close_runs

compute_delta-at_head_example : Memᴰ to_note delta.references ↔ (
    Memᴰ to_note closed.references × (Reach (event_parents toy noted 5) (875852 ∷ []) 549793 → ⊥))
compute_delta-at_head_example =
    compute_delta-at_head toy noted 5 875852 limits closed at_genesis delta at_runs delta_runs
      to_note

abbrev handoff : Handoff
handoff = record {
  delta = record {
    context = 5;
    recipient_head = some 875852;
    recipient_closure = 875852 ∷ [];
    selected_known = 875852 ∷ [];
    references = [];
    total_bytes = 0;
    limits = limits;
  };
  omissions = record { event = 549793; reason = not_selected } ∷ [];
  uncertainty = [];
  re_included = [];
}

abbrev why : Bytes
why = codes "the note"

abbrev objection : OmissionChallenge
objection = record { event = 549793; note = why }

abbrev pub followed : Handoff
followed = record {
  delta = delta;
  omissions = [];
  uncertainty = [];
  re_included = record { event = 549793; challenge = objection } ∷ [];
}

follow_runs : follow_up toy noted handoff closed at_genesis objection ≡ ok followed
unfolding follow_up contextmesh_rs.Store.Rows.event contextmesh_rs.Store.Rows.event_wire
    contextmesh_rs.Common.Table.lookup contextmesh_rs.Event.Wire.from_wire
    contextmesh_rs.Event.Wire.parse_envelope contextmesh_rs.Tests.Toy.write_json
    contextmesh_rs.Event.Wire.event_json contextmesh_rs.Tests.Toy.read contextmesh_rs.Tests.Toy.step
    contextmesh_rs.Event.Wire.parse_body contextmesh_rs.Tests.Toy.read_id
    contextmesh_rs.Event.Body.validate contextmesh_rs.Event.Kind.validate_kind
    contextmesh_rs.Event.Kind.starts_lowercase contextmesh_rs.Event.Kind.scan_rest
    contextmesh_rs.Common.out_of_order Json.validate_json_value binary_search
    contextmesh_rs.Closure.Select.narrow contextmesh_rs.Common.any contextmesh_rs.Common.contains
    contextmesh_rs.Common.keep contextmesh_rs.Common.dedup contextmesh_rs.Common.sort
    contextmesh_rs.Common.sort_dedup contextmesh_rs.Common.bytes_eq
    contextmesh_rs.Delta.Compute.check_recipient_head compute_delta
    contextmesh_rs.Delta.Compute.pick contextmesh_rs.Delta.Head.check_head
    contextmesh_rs.Delta.delta_over contextmesh_rs.Delta.partition
    contextmesh_rs.Event.Body.body_json contextmesh_rs.Event.Body.canonical_bytes
    contextmesh_rs.Event.Body.canonicalize contextmesh_rs.Event.Body.derive_event_id
    contextmesh_rs.Event.Body.signing_message contextmesh_rs.Event.Body.verify
    contextmesh_rs.Event.Body.verify_parts Json.validate_number contextmesh_rs.Event.Kind.scan_label
    contextmesh_rs.Event.Wire.check_parts contextmesh_rs.Event.Wire.has_bom
    contextmesh_rs.Event.Wire.has_unknown contextmesh_rs.Event.Wire.into_object
    contextmesh_rs.Event.Wire.into_string contextmesh_rs.Event.Wire.is_allowed
    contextmesh_rs.Event.Wire.parse_parents contextmesh_rs.Event.Wire.parse_text
    contextmesh_rs.Event.Wire.parse_texts contextmesh_rs.Event.Wire.parse_version
    contextmesh_rs.Event.Wire.reject_unknown contextmesh_rs.Event.Wire.remove_field
    contextmesh_rs.Event.Wire.strict_json contextmesh_rs.Event.Wire.take_required
    contextmesh_rs.Event.Wire.to_wire contextmesh_rs.Handoff.check_known
    contextmesh_rs.Handoff.check_stated from_delta contextmesh_rs.Handoff.head_outside
    contextmesh_rs.Handoff.same_head verify_valid contextmesh_rs.Store.Rows.edge_rows
    contextmesh_rs.Store.Rows.reparse contextmesh_rs.Store.Rows.row_matches
    contextmesh_rs.Store.Rows.same_ids contextmesh_rs.Store.Rows.validate_stored_event
    contextmesh_rs.Tests.Toy.add_byte contextmesh_rs.Tests.Toy.add_field
    contextmesh_rs.Tests.Toy.add_item contextmesh_rs.Tests.Toy.result contextmesh_rs.Tests.Toy.run
    contextmesh_rs.Tests.Toy.to_array contextmesh_rs.Tests.Toy.to_object
    contextmesh_rs.Tests.Toy.to_string contextmesh_rs.Tests.Toy.write_bytes
    contextmesh_rs.Tests.Toy.write_number contextmesh_rs.Tests.Toy.digest
follow_runs = refl

follow_up-FollowsUp_example : FollowsUp closed at_genesis objection handoff followed
follow_up-FollowsUp_example =
    follow_up-FollowsUp toy noted handoff followed closed at_genesis objection follow_runs

-- The task needs the note first, and succeeds once it has it.
abbrev needs_note : ℕ → Handoff → TaskOutcome
needs_note zero h = needs_source 549793 why closed
needs_note (suc i) h = success

abbrev setting : Setting
setting = record {
  lib = toy;
  stores = λ i. noted;
  driver = needs_note;
  writes = λ i. true;
  original = handoff;
  recipient = at_genesis;
  bounds = record { max_iterations = 2; max_re_included_events = 1; max_delta_bytes = 100 };
}

abbrev report : RepairReport
report = record {
  converged = true;
  iterations = 2;
  re_included = 549793 ∷ [];
  non_convergence = none;
  handoff = followed;
}

abbrev before : RepairHistory
before = record { attempts = []; sequence = 0 }

abbrev after : RepairHistory
after = record {
  attempts =
      record {
        sequence = 0;
        iteration = 0;
        re_included = some 549793;
        note = some why;
        events = [];
        omissions = 549793 ∷ [];
        bytes = 0;
        terminal = none;
      }
      ∷ record {
        sequence = 1;
        iteration = 1;
        re_included = none;
        note = none;
        events = 549793 ∷ [];
        omissions = [];
        bytes = 7;
        terminal = some contextmesh_rs.Repair.converged;
      }
      ∷ [];
  sequence = 2;
}
