-- ===== src/Tests/Selections.antt =====
-- The theorems on selections at the sample database.
use contextmesh_rs.Common.{
  ℕ, suc, ◌≤◌, ◌<◌, ◌≡◌, ◌≢◌, refl, ◌↔◌, ◌⊎◌, Bool, true, false, Option, none, some, List, [], ◌∷◌,
  ◌++◌, map, Memᴰ, arith, Bytes, codes, length, Result, ok, err,
}
use contextmesh_rs.Event.Json
use contextmesh_rs.Event.Json.{Json, Contract}
use contextmesh_rs.Receipt.{TaskRecord, task_content_hash}
use contextmesh_rs.Selection.Sources
use contextmesh_rs.Selection.Sources.{
  SelectionBudget, SourceEvent, SourceReference, from_source, empty_task, budget_exceeded,
}
use contextmesh_rs.Selection.Baseline.{Scored, baseline, baseline_select, tokenize}
use contextmesh_rs.Selection.Select.{Selected, select_sources, is_blank}
use contextmesh_rs.Selection.Exact.{IsSelected, select_sources-IsSelected}
use contextmesh_rs.Compiler.{compile_context, sum_bytes}
use contextmesh_rs.Tests.Toy.{toy}
use contextmesh_rs.Tests.Sample.{noted}
use contextmesh_rs.Tests.Events.{note}
use contextmesh_rs.Tests.Receipts.{event_note, event_genesis}

abbrev reference : SourceReference
reference = record {
  event = 549793;
  context = 5;
  kind = note.body.kind;
  author = 2;
  payload_bytes = 7;
}

abbrev budget : SelectionBudget
budget = record { selected_events = 2; exported_bytes = 10 }

tokens :
    tokenize (codes "Fix the bug-42!") ≡ codes "fix" ∷ codes "the" ∷ codes "bug" ∷ codes "42" ∷ []
unfolding tokenize
tokens = refl

blank : is_blank (0x20 ∷ 0xe2 ∷ 0x80 ∷ 0x89 ∷ 9 ∷ []) ≡ true
unfolding is_blank
blank = refl

abbrev task_text : Bytes
task_text = codes "A Note"

abbrev selected : Selected
selected = record {
  context = record { references = reference ∷ []; budget = budget; total_bytes = 7 };
  marker = none;
  uncertainty = [];
  selector = record {
    identity = codes "ob-baseline-lexical-tf";
    version = codes "0.1.0";
    config_hash = task_content_hash toy (codes "{}");
  };
}

select_runs :
    select_sources toy noted task_text none budget
      (baseline toy (codes "0.1.0"))
      (549793 ∷ 875852 ∷ [])
    ≡ ok selected
unfolding select_sources contextmesh_rs.Receipt.task_from_verbatim task_content_hash
    contextmesh_rs.Receipt.validate_task contextmesh_rs.Tests.Toy.digest
    contextmesh_rs.Receipt.starts_with contextmesh_rs.Receipt.validate_structured
    contextmesh_rs.Common.sort_dedup contextmesh_rs.Receipt.new_selector
    contextmesh_rs.Receipt.validate_selector baseline Sources.from_signed
    contextmesh_rs.Event.Body.canonical_payload_bytes Json.validate_json_value
    contextmesh_rs.Tests.Toy.write_json baseline_select tokenize compile_context
    contextmesh_rs.Selection.Baseline.score_source contextmesh_rs.Common.bytes_eq
    contextmesh_rs.Common.keep contextmesh_rs.Common.dedup contextmesh_rs.Common.out_of_order
    contextmesh_rs.Common.sort contextmesh_rs.Common.Table.lookup sum_bytes
    contextmesh_rs.Event.Body.body_json contextmesh_rs.Event.Body.canonical_bytes
    contextmesh_rs.Event.Body.canonicalize contextmesh_rs.Event.Body.derive_event_id
    contextmesh_rs.Event.Body.signing_message contextmesh_rs.Event.Body.validate
    contextmesh_rs.Event.Body.verify contextmesh_rs.Event.Body.verify_parts Json.validate_number
    contextmesh_rs.Event.Kind.scan_label contextmesh_rs.Event.Kind.scan_rest
    contextmesh_rs.Event.Kind.starts_lowercase contextmesh_rs.Event.Kind.validate_kind
    contextmesh_rs.Event.Wire.check_parts contextmesh_rs.Event.Wire.event_json
    contextmesh_rs.Event.Wire.from_wire contextmesh_rs.Event.Wire.has_bom
    contextmesh_rs.Event.Wire.has_unknown contextmesh_rs.Event.Wire.into_object
    contextmesh_rs.Event.Wire.into_string contextmesh_rs.Event.Wire.is_allowed
    contextmesh_rs.Event.Wire.parse_body contextmesh_rs.Event.Wire.parse_envelope
    contextmesh_rs.Event.Wire.parse_parents contextmesh_rs.Event.Wire.parse_text
    contextmesh_rs.Event.Wire.parse_texts contextmesh_rs.Event.Wire.parse_version
    contextmesh_rs.Event.Wire.reject_unknown contextmesh_rs.Event.Wire.remove_field
    contextmesh_rs.Event.Wire.strict_json contextmesh_rs.Event.Wire.take_required
    contextmesh_rs.Event.Wire.to_wire contextmesh_rs.Receipt.hex contextmesh_rs.Receipt.new_task
    contextmesh_rs.Selection.Baseline.insert_ranked contextmesh_rs.Selection.Baseline.occurrences
    contextmesh_rs.Selection.Baseline.ranked contextmesh_rs.Selection.Baseline.sort_ranked
    contextmesh_rs.Selection.Baseline.sum_occurrences
    contextmesh_rs.Selection.Baseline.tokenize_from contextmesh_rs.Selection.Select.all_space
    is_blank contextmesh_rs.Selection.Select.load_source
    contextmesh_rs.Selection.Select.load_sources contextmesh_rs.Selection.Select.select_from
    contextmesh_rs.Selection.Select.select_nothing contextmesh_rs.Selection.Select.select_ranked
    contextmesh_rs.Selection.Select.space_step from_source contextmesh_rs.Store.Rows.edge_rows
    contextmesh_rs.Store.Rows.event contextmesh_rs.Store.Rows.event_wire
    contextmesh_rs.Store.Rows.reparse contextmesh_rs.Store.Rows.row_matches
    contextmesh_rs.Store.Rows.same_ids contextmesh_rs.Store.Rows.validate_stored_event
    contextmesh_rs.Tests.Toy.write_bytes contextmesh_rs.Tests.Toy.write_number
select_runs = rw (event_note, event_genesis) refl

select_sources-IsSelected_example :
    (is_blank task_text ≡ false) × IsSelected budget (549793 ∷ 875852 ∷ []) selected
select_sources-IsSelected_example =
    select_sources-IsSelected toy noted task_text none budget (549793 ∷ 875852 ∷ [])
      (baseline toy (codes "0.1.0")) selected select_runs
