-- ===== src/Tests/Bundles.antt =====
-- The theorems on bundles at a bundle of the two sample events.
use contextmesh_rs.Common.{
  ℕ, ◌≤◌, ◌≡◌, ◌≢◌, refl, ap, sym, ◌∙◌, subst, ◌⊎◌, inl, inr, ◌↔◌, Bool, true, false, Option, none,
  some, List, [], ◌∷◌, Memᴰ, arith, Bytes, codes, length, Result, ok, err, IsAscending,
}
use contextmesh_rs.Common.Table.{lookup}
use contextmesh_rs.Event.Json
use contextmesh_rs.Event.Json.{
  Json, Contract, validate_json_value, depth_of, NumbersAreSafe, validate_json_value_iff,
}
use contextmesh_rs.Event.Kind.{IsLabel, max_kind_bytes, validate_kind, validate_kind_iff}
use contextmesh_rs.Event.Body.{
  EventBody, SignedEvent, verify, validate, validate_parents, max_parents, create_event,
}
use contextmesh_rs.Event.Wire.{event_json, from_wire, to_wire, max_raw_wire_bytes}
use contextmesh_rs.Store.State.{
  StoreResult, Db, empty_db, write, acknowledged, lost_after, context_unknown, indeterminate_commit,
  stale_head,
}
use contextmesh_rs.Store.Refs.{
  RefMutation, no_move, compare_and_swap, absent, head, apply_ref_mutation, create_branch,
  set_remote_ref,
}
use contextmesh_rs.Store.Admit.{
  inserted, admit, provision_context_tx, join_context_tx, authorize_author_tx,
}
use contextmesh_rs.Store.Admit.Provision.{Grows}
use contextmesh_rs.Store.Bundle.{Bundle, AdvertisedRef, ImportReport, import_bundle_value}
use contextmesh_rs.Store.Bundle.Keeps.{IsImportable, import_bundle_value-IsConsistent}
use contextmesh_rs.Store.Bundle.Parts.{InOrder, from_parts, from_parts-InOrder}
use contextmesh_rs.Store.Project.{max_bundle_events}
use contextmesh_rs.Store.Bundle.{max_bundle_refs}
use contextmesh_rs.Store.Admit.{AdmissionStatus}
use contextmesh_rs.Store.State.{indeterminate_commit}
use contextmesh_rs.Common.{All}
use contextmesh_rs.Tests.Toy.{write_json, toy, toy-Documented}
use contextmesh_rs.Tests.Sample.{main, provisioned, provisioned-IsConsistent}
use contextmesh_rs.Tests.Events.{genesis, genesis_wire, note}
use contextmesh_rs.Tests.Events.{
  genesis_to_wire, genesis_from_wire, note-to_wire, note-from_wire, note_wire, reparses,
}

sent : Bundle
sent = record {
  context = 5;
  events = genesis ∷ note ∷ [];
  refs = record { name = main; head = 549793 } ∷ [];
}

import_report : ImportReport
import_report = record { inserted = 2; already_present = 0; remote_refs_updated = 1 }

import_runs :
    (import_bundle_value toy acknowledged (codes "peer") sent provisioned).0 ≡ ok import_report
unfolding import_bundle_value sent import_report write contextmesh_rs.Store.Bundle.import_tx
    contextmesh_rs.Store.Rows.context_row lookup contextmesh_rs.Store.Bundle.import_event
    contextmesh_rs.Store.Admit.is_genesis contextmesh_rs.Common.bytes_eq
    contextmesh_rs.Store.Rows.is_authorized contextmesh_rs.Common.Table.pair_beq
    contextmesh_rs.Store.Rows.check_parents to_wire verify contextmesh_rs.Event.Body.verify_parts
    validate validate_kind contextmesh_rs.Event.Kind.starts_lowercase
    contextmesh_rs.Event.Kind.scan_rest contextmesh_rs.Common.out_of_order
    contextmesh_rs.Common.Table.delete contextmesh_rs.Common.Table.insert
    contextmesh_rs.Common.Table.upsert contextmesh_rs.Event.Body.body_json
    contextmesh_rs.Event.Body.canonical_bytes contextmesh_rs.Event.Body.canonicalize
    contextmesh_rs.Event.Body.derive_event_id contextmesh_rs.Event.Body.signing_message
    validate_json_value Json.validate_number contextmesh_rs.Event.Kind.scan_label
    contextmesh_rs.Event.Wire.check_parts event_json from_wire contextmesh_rs.Event.Wire.has_bom
    contextmesh_rs.Event.Wire.has_unknown contextmesh_rs.Event.Wire.into_object
    contextmesh_rs.Event.Wire.into_string contextmesh_rs.Event.Wire.is_allowed
    contextmesh_rs.Event.Wire.parse_body contextmesh_rs.Event.Wire.parse_envelope
    contextmesh_rs.Event.Wire.parse_parents contextmesh_rs.Event.Wire.parse_text
    contextmesh_rs.Event.Wire.parse_texts contextmesh_rs.Event.Wire.parse_version
    contextmesh_rs.Event.Wire.reject_unknown contextmesh_rs.Event.Wire.remove_field
    contextmesh_rs.Event.Wire.strict_json contextmesh_rs.Event.Wire.take_required
    contextmesh_rs.Store.Admit.activate contextmesh_rs.Store.Admit.activate_pending
    contextmesh_rs.Store.Bundle.check_imported contextmesh_rs.Store.Bundle.import_events
    contextmesh_rs.Store.Bundle.import_ref contextmesh_rs.Store.Bundle.import_refs
    contextmesh_rs.Store.Bundle.insert_imported contextmesh_rs.Store.Bundle.place
    contextmesh_rs.Store.Refs.is_head contextmesh_rs.Store.Rows.authoritative_event_context
    contextmesh_rs.Store.Rows.edge_rows contextmesh_rs.Store.Rows.event_wire
    contextmesh_rs.Store.Rows.reparse contextmesh_rs.Store.Rows.row_is_sound
    contextmesh_rs.Store.Rows.row_matches contextmesh_rs.Store.Rows.same_ids
    contextmesh_rs.Store.Rows.validate_stored_event contextmesh_rs.Store.State.finish_transaction
    write_json contextmesh_rs.Tests.Toy.digest contextmesh_rs.Tests.Toy.read
    contextmesh_rs.Tests.Toy.step contextmesh_rs.Tests.Toy.read_id
import_runs = refl

sent-IsImportable : All (IsImportable toy 5) (genesis ∷ note ∷ [])
sent-IsImportable = (
  (refl, reparses genesis genesis_wire genesis_to_wire genesis_from_wire),
  ((refl, reparses note note_wire note-to_wire note-from_wire), tt),
)

import_bundle_value-IsConsistent_example :
    Grows toy provisioned (import_bundle_value toy acknowledged (codes "peer") sent provisioned).1
unfolding sent
import_bundle_value-IsConsistent_example =
    import_bundle_value-IsConsistent toy acknowledged (codes "peer") sent provisioned
      sent-IsImportable provisioned-IsConsistent

parts_run :
    from_parts toy 5 (genesis ∷ note ∷ []) (record { name = main; head = 549793 } ∷ []) ≡ ok sent
unfolding from_parts sent contextmesh_rs.Common.has_repeat contextmesh_rs.Common.sort verify
    contextmesh_rs.Event.Body.verify_parts validate validate_kind
    contextmesh_rs.Event.Kind.starts_lowercase contextmesh_rs.Event.Kind.scan_rest
    contextmesh_rs.Common.out_of_order validate_json_value write_json
    contextmesh_rs.Event.Body.body_json contextmesh_rs.Event.Body.derive_event_id
    contextmesh_rs.Event.Body.canonical_bytes contextmesh_rs.Tests.Toy.digest
    contextmesh_rs.Event.Body.signing_message contextmesh_rs.Common.contains
    contextmesh_rs.Common.bytes_lt contextmesh_rs.Event.Body.canonicalize Json.validate_number
    contextmesh_rs.Event.Kind.scan_label contextmesh_rs.Store.Bundle.Parts.check_order
    contextmesh_rs.Store.Bundle.Parts.parent_ahead
    contextmesh_rs.Store.Bundle.Parts.refs_out_of_order contextmesh_rs.Tests.Toy.write_bytes
    contextmesh_rs.Tests.Toy.write_number
parts_run = refl

from_parts-InOrder_example :
    (sent ≡ record {
      context = 5;
      events = genesis ∷ note ∷ [];
      refs = record { name = main; head = 549793 } ∷ [];
    })
    × InOrder toy 5 (875852 ∷ 549793 ∷ []) [] (genesis ∷ note ∷ [])
    × (2 ≤ max_bundle_events)
    × (1 ≤ max_bundle_refs)
from_parts-InOrder_example =
    from_parts-InOrder toy 5 (genesis ∷ note ∷ []) (record { name = main; head = 549793 } ∷ []) sent
      parts_run
