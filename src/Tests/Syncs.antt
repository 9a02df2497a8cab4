-- ===== src/Tests/Syncs.antt =====
-- The theorem on the replacement of remote refs at the sample database.
use contextmesh_rs.Common.{ℕ, ◌≡◌, refl, List, [], ◌∷◌, Bytes, codes, ok}
use contextmesh_rs.Store.State.{acknowledged}
use contextmesh_rs.Store.Admit.Provision.{Grows}
use contextmesh_rs.Store.Bundle.{AdvertisedRef}
use contextmesh_rs.Store.Sync.{replace_remote_ref_snapshot}
use contextmesh_rs.Store.Sync.Replaced.{Replaced, replace_remote_ref_snapshot-Replaced}
use contextmesh_rs.Tests.Toy.{toy}
use contextmesh_rs.Tests.Sample.{main, started, started-IsConsistent}

abbrev hub : Bytes
hub = codes "hub"

abbrev advertised : List AdvertisedRef
advertised = record { name = main; head = 875852 } ∷ []

replace_runs : (replace_remote_ref_snapshot toy acknowledged hub 5 advertised started).0 ≡ ok 1
unfolding replace_remote_ref_snapshot contextmesh_rs.Store.State.write
    contextmesh_rs.Store.Rows.context_row contextmesh_rs.Common.Table.lookup
    contextmesh_rs.Store.Rows.authoritative_event_context contextmesh_rs.Store.Rows.event_wire
    contextmesh_rs.Event.Wire.from_wire contextmesh_rs.Event.Wire.parse_envelope
    contextmesh_rs.Tests.Toy.write_json contextmesh_rs.Event.Wire.event_json
    contextmesh_rs.Tests.Toy.read contextmesh_rs.Tests.Toy.step contextmesh_rs.Event.Wire.parse_body
    contextmesh_rs.Tests.Toy.read_id contextmesh_rs.Event.Body.validate
    contextmesh_rs.Event.Kind.validate_kind contextmesh_rs.Event.Kind.starts_lowercase
    contextmesh_rs.Event.Kind.scan_rest contextmesh_rs.Common.keep
    contextmesh_rs.Common.out_of_order contextmesh_rs.Common.Table.delete
    contextmesh_rs.Common.Table.insert contextmesh_rs.Common.Table.pair_beq
    contextmesh_rs.Common.bytes_eq contextmesh_rs.Common.bytes_lt
    contextmesh_rs.Event.Body.body_json contextmesh_rs.Event.Body.canonical_bytes
    contextmesh_rs.Event.Body.canonicalize contextmesh_rs.Event.Body.derive_event_id
    contextmesh_rs.Event.Body.signing_message contextmesh_rs.Event.Body.verify_parts
    contextmesh_rs.Event.Json.validate_json_value contextmesh_rs.Event.Json.validate_number
    contextmesh_rs.Event.Kind.scan_label contextmesh_rs.Event.Wire.check_parts
    contextmesh_rs.Event.Wire.has_bom contextmesh_rs.Event.Wire.has_unknown
    contextmesh_rs.Event.Wire.into_object contextmesh_rs.Event.Wire.into_string
    contextmesh_rs.Event.Wire.is_allowed contextmesh_rs.Event.Wire.parse_parents
    contextmesh_rs.Event.Wire.parse_text contextmesh_rs.Event.Wire.parse_texts
    contextmesh_rs.Event.Wire.parse_version contextmesh_rs.Event.Wire.reject_unknown
    contextmesh_rs.Event.Wire.remove_field contextmesh_rs.Event.Wire.strict_json
    contextmesh_rs.Event.Wire.take_required contextmesh_rs.Store.Refs.is_head
    contextmesh_rs.Store.Rows.reparse contextmesh_rs.Store.Rows.row_is_sound
    contextmesh_rs.Store.State.finish_transaction contextmesh_rs.Store.Sync.check_heads
    contextmesh_rs.Store.Sync.check_refs contextmesh_rs.Store.Sync.insert_remote
    contextmesh_rs.Store.Sync.names_out_of_order contextmesh_rs.Store.Sync.namespace
    contextmesh_rs.Store.Sync.namespace_change_count contextmesh_rs.Store.Sync.replace_rows
    contextmesh_rs.Store.Sync.replace_tx contextmesh_rs.Tests.Toy.add_byte
    contextmesh_rs.Tests.Toy.add_field contextmesh_rs.Tests.Toy.add_item
    contextmesh_rs.Tests.Toy.result contextmesh_rs.Tests.Toy.run contextmesh_rs.Tests.Toy.to_array
    contextmesh_rs.Tests.Toy.to_object contextmesh_rs.Tests.Toy.to_string
    contextmesh_rs.Tests.Toy.write_bytes contextmesh_rs.Tests.Toy.write_number
    contextmesh_rs.Tests.Toy.digest
replace_runs = refl

replace_remote_ref_snapshot-Replaced_example :
    Replaced hub 5 advertised started
      (replace_remote_ref_snapshot toy acknowledged hub 5 advertised started).1
    × Grows toy started (replace_remote_ref_snapshot toy acknowledged hub 5 advertised started).1
replace_remote_ref_snapshot-Replaced_example =
    replace_remote_ref_snapshot-Replaced toy acknowledged hub 5 advertised started 1
      started-IsConsistent replace_runs
