-- ===== src/Tests/Receipts.antt =====
use contextmesh_rs.Common.{◌++◌}
use contextmesh_rs.Receipt.Dag.{
  ReceiptDagFinding, Reason, AreReported, IsReported, verify_against_dag-AreReported,
}
-- The theorems on receipts and their timestamps at a receipt of the sample context.
use contextmesh_rs.Common.{
  ℕ, suc, ◌+◌, ◌<◌, ◌≡◌, refl, ◌↔◌, Bool, true, false, Option, none, some, List, [], ◌∷◌, ◌++◌,
  Bytes, codes, All, length, Result, ok, err,
}
use contextmesh_rs.Event.Json
use contextmesh_rs.Event.Json.{Json, Contract}
use contextmesh_rs.Event.Body.{SignedEvent, Libraries, canonicalize}
use contextmesh_rs.Store.Rows.{event}
use contextmesh_rs.Receipt.{
  TaskRecord, SelectorRecord, ReceiptBody, SignedReceipt, issue, task_from_verbatim, new_selector,
  receipt_domain,
}
use contextmesh_rs.Receipt.Time
use contextmesh_rs.Receipt.Time.{Date, utc_timestamp, civil_from_days}
use contextmesh_rs.Receipt.Calendar.{civil_from_days_next, next_date}
use contextmesh_rs.Receipt.Wire.{receipt_json}
use contextmesh_rs.Receipt.RoundTrip.{signed_by}
use contextmesh_rs.Receipt.Dag.{ReceiptDagReport, verify_against_dag}
use contextmesh_rs.Tests.Toy.{toy, toy-Documented, write_json}
use contextmesh_rs.Tests.Sample.{noted}
use contextmesh_rs.Tests.Events.{genesis, note}

-- The last day of February 2000.
civil_leap : civil_from_days 11_016 ≡ record { year = 2000; month = 2; day = 29 }
unfolding civil_from_days contextmesh_rs.Receipt.Time.date_of
    contextmesh_rs.Receipt.Time.year_of_era
civil_leap = refl

civil_from_days_next_example : civil_from_days 11_017 ≡ next_date (civil_from_days 11_016)
civil_from_days_next_example = civil_from_days_next 11_016

pub event_note : event toy noted 549793 ≡ ok (some note)
unfolding event contextmesh_rs.Store.Rows.event_wire contextmesh_rs.Common.Table.lookup
    contextmesh_rs.Event.Wire.from_wire contextmesh_rs.Event.Wire.parse_envelope write_json
    contextmesh_rs.Event.Wire.event_json contextmesh_rs.Tests.Toy.read contextmesh_rs.Tests.Toy.step
    contextmesh_rs.Event.Wire.parse_body contextmesh_rs.Tests.Toy.read_id
    contextmesh_rs.Event.Body.validate contextmesh_rs.Event.Kind.validate_kind
    contextmesh_rs.Event.Kind.starts_lowercase contextmesh_rs.Event.Kind.scan_rest
    contextmesh_rs.Common.out_of_order Json.validate_json_value
    contextmesh_rs.Event.Body.verify_parts contextmesh_rs.Common.bytes_eq
    contextmesh_rs.Event.Body.body_json contextmesh_rs.Event.Body.canonical_bytes
    contextmesh_rs.Event.Body.canonicalize contextmesh_rs.Event.Body.derive_event_id
    contextmesh_rs.Event.Body.signing_message contextmesh_rs.Event.Body.verify Json.validate_number
    contextmesh_rs.Event.Kind.scan_label contextmesh_rs.Event.Wire.check_parts
    contextmesh_rs.Event.Wire.has_bom contextmesh_rs.Event.Wire.has_unknown
    contextmesh_rs.Event.Wire.into_object contextmesh_rs.Event.Wire.into_string
    contextmesh_rs.Event.Wire.is_allowed contextmesh_rs.Event.Wire.parse_parents
    contextmesh_rs.Event.Wire.parse_text contextmesh_rs.Event.Wire.parse_texts
    contextmesh_rs.Event.Wire.parse_version contextmesh_rs.Event.Wire.reject_unknown
    contextmesh_rs.Event.Wire.remove_field contextmesh_rs.Event.Wire.strict_json
    contextmesh_rs.Event.Wire.take_required contextmesh_rs.Event.Wire.to_wire
    contextmesh_rs.Store.Rows.edge_rows contextmesh_rs.Store.Rows.reparse
    contextmesh_rs.Store.Rows.row_matches contextmesh_rs.Store.Rows.same_ids
    contextmesh_rs.Store.Rows.validate_stored_event contextmesh_rs.Tests.Toy.add_byte
    contextmesh_rs.Tests.Toy.add_field contextmesh_rs.Tests.Toy.add_item
    contextmesh_rs.Tests.Toy.result contextmesh_rs.Tests.Toy.run contextmesh_rs.Tests.Toy.to_array
    contextmesh_rs.Tests.Toy.to_object contextmesh_rs.Tests.Toy.to_string
    contextmesh_rs.Tests.Toy.write_bytes contextmesh_rs.Tests.Toy.write_number
    contextmesh_rs.Tests.Toy.digest
event_note = refl

pub event_genesis : event toy noted 875852 ≡ ok (some genesis)
unfolding event contextmesh_rs.Store.Rows.event_wire contextmesh_rs.Common.Table.lookup
    contextmesh_rs.Event.Wire.from_wire contextmesh_rs.Event.Wire.parse_envelope write_json
    contextmesh_rs.Event.Wire.event_json contextmesh_rs.Tests.Toy.read contextmesh_rs.Tests.Toy.step
    contextmesh_rs.Event.Wire.parse_body contextmesh_rs.Tests.Toy.read_id
    contextmesh_rs.Event.Body.validate contextmesh_rs.Event.Kind.validate_kind
    contextmesh_rs.Event.Kind.starts_lowercase contextmesh_rs.Event.Kind.scan_rest
    contextmesh_rs.Common.out_of_order Json.validate_json_value
    contextmesh_rs.Event.Body.verify_parts contextmesh_rs.Common.bytes_eq
    contextmesh_rs.Event.Body.body_json contextmesh_rs.Event.Body.canonical_bytes
    contextmesh_rs.Event.Body.canonicalize contextmesh_rs.Event.Body.derive_event_id
    contextmesh_rs.Event.Body.signing_message contextmesh_rs.Event.Body.verify Json.validate_number
    contextmesh_rs.Event.Kind.scan_label contextmesh_rs.Event.Wire.check_parts
    contextmesh_rs.Event.Wire.has_bom contextmesh_rs.Event.Wire.has_unknown
    contextmesh_rs.Event.Wire.into_object contextmesh_rs.Event.Wire.into_string
    contextmesh_rs.Event.Wire.is_allowed contextmesh_rs.Event.Wire.parse_parents
    contextmesh_rs.Event.Wire.parse_text contextmesh_rs.Event.Wire.parse_texts
    contextmesh_rs.Event.Wire.parse_version contextmesh_rs.Event.Wire.reject_unknown
    contextmesh_rs.Event.Wire.remove_field contextmesh_rs.Event.Wire.strict_json
    contextmesh_rs.Event.Wire.take_required contextmesh_rs.Event.Wire.to_wire
    contextmesh_rs.Store.Rows.edge_rows contextmesh_rs.Store.Rows.reparse
    contextmesh_rs.Store.Rows.row_matches contextmesh_rs.Store.Rows.same_ids
    contextmesh_rs.Store.Rows.validate_stored_event contextmesh_rs.Tests.Toy.add_byte
    contextmesh_rs.Tests.Toy.add_field contextmesh_rs.Tests.Toy.add_item
    contextmesh_rs.Tests.Toy.result contextmesh_rs.Tests.Toy.run contextmesh_rs.Tests.Toy.to_array
    contextmesh_rs.Tests.Toy.to_object contextmesh_rs.Tests.Toy.to_string
    contextmesh_rs.Tests.Toy.write_bytes contextmesh_rs.Tests.Toy.write_number
    contextmesh_rs.Tests.Toy.digest
event_genesis = refl

abbrev task : TaskRecord
task = record {
  verbatim = codes "go";
  content_hash = codes "blake3_ab";
  structured = some Json.null;
}

abbrev selector : SelectorRecord
selector = record { identity = codes "s"; version = codes "1"; config_hash = codes "c" }

abbrev body : ReceiptBody
body = record {
  version = 1;
  context = 5;
  events = 549793 ∷ 875852 ∷ [];
  task = task;
  head = 875852;
  selector = selector;
  omissions = [];
  uncertainty = codes "none" ∷ [];
  created_at = codes "2023-11-14T22:13:20Z";
  author = 1;
}

abbrev issued : SignedReceipt
issued = signed_by toy toy-Documented 0 297975 body

abbrev issued_wire : Bytes
issued_wire = 0 ∷ 0 ∷ 0 ∷ write_json (receipt_json toy issued) []

checked : ReceiptDagReport
checked = record { valid = true; checked_events = 3; findings = [] }

check_runs : verify_against_dag toy noted issued ≡ ok checked
unfolding verify_against_dag checked
check_runs = rw (event_note, event_genesis) refl

verify_against_dag-AreReported_example :
    ((most : List ReceiptDagFinding) × (last : List ReceiptDagFinding) × (checked.findings
        ≡ most ++ last)
      × AreReported toy noted 5 (549793 ∷ 875852 ∷ []) most
      × IsReported toy noted 5 Reason.recipient_missing Reason.recipient_wrong_context 875852 last)
    × (checked.checked_events + length checked.findings ≡ suc 2)
    × ((checked.valid ≡ true) ↔ (checked.findings ≡ []))
verify_against_dag-AreReported_example =
    verify_against_dag-AreReported toy noted issued checked check_runs
