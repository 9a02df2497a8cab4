-- ===== src/Tests/Sample.antt =====
use contextmesh_rs.Event.Wire.RoundTrip.{ReadsBack}
use contextmesh_rs.Store.Dag.{append_event, merge_event}
-- A context with its genesis event and one more event, over the small libraries.
use contextmesh_rs.Common.{
  arith, ℕ, ◌≡◌, refl, ap, subst, Bool, true, false, Option, none, some, List, [], ◌∷◌, Bytes,
  codes, Result, ok, err,
}
use contextmesh_rs.Event.Json
use contextmesh_rs.Event.Json.{Json, Contract}
use contextmesh_rs.Event.Body.{EventBody, SignedEvent, create_event}
use contextmesh_rs.Event.Wire.{event_json}
use contextmesh_rs.Store.State.{
  StoreResult, Db, empty_db, write, finish_transaction, acknowledged, context_unknown,
}
use contextmesh_rs.Store.Invariant.{IsConsistent}
use contextmesh_rs.Store.Invariant.Initial.{IsConsistent-empty}
use contextmesh_rs.Store.Refs.{RefMutation, no_move, compare_and_swap, absent, head}
use contextmesh_rs.Store.Admit.{
  AdmissionStatus, inserted, already_applied, provision_context_tx, genesis_kind, admit,
}
use contextmesh_rs.Store.Admit.Atomic.{admit-IsConsistent}
use contextmesh_rs.Store.Admit.Provision.{provision-IsConsistent}
use contextmesh_rs.Store.Dag.{append}
use contextmesh_rs.Store.Dag.Keeps.{append-IsConsistent}
use contextmesh_rs.Tests.Events.{
  payload, genesis, genesis_wire, note, genesis_to_wire, note_wire, note-to_wire, note-from_wire,
  genesis_from_wire, reparses,
}
use contextmesh_rs.Tests.Toy.{toy, toy-Documented, write_json}

-- The context 5 with its two authors, before its genesis event is there.
abbrev pub provisioned : Db
provisioned = record empty_db {
  contexts = (5, record { expected_genesis = 875852; genesis = none; state = 0 }) ∷ [];
  authors = ((5, 2), tt) ∷ ((5, 1), tt) ∷ [];
}

abbrev pub main : Bytes
main = codes "main"

provision_runs : provision_context_tx 5 875852 (1 ∷ 2 ∷ []) empty_db ≡ ok (tt, provisioned)
unfolding provision_context_tx contextmesh_rs.Store.Rows.validate_authors
    contextmesh_rs.Common.out_of_order contextmesh_rs.Store.Rows.context_row
    contextmesh_rs.Common.Table.lookup contextmesh_rs.Store.Admit.insert_context
    contextmesh_rs.Common.Table.insert contextmesh_rs.Store.Admit.insert_authors
    contextmesh_rs.Common.Table.pair_beq
provision_runs = refl

-- The genesis event admitted, with the branch `main` at it.
abbrev pub started : Db
started = record provisioned {
  contexts = (5, record { expected_genesis = 875852; genesis = some 875852; state = 1 }) ∷ [];
  events =
      (875852, record { context = 5; author = 1; kind = genesis_kind; wire = genesis_wire }) ∷ [];
  edges = (875852, []) ∷ [];
  local_refs = ((5, main), 875852) ∷ [];
}

abbrev pub start_main : RefMutation
start_main = compare_and_swap 5 main absent 875852

pub admit_genesis : admit toy acknowledged genesis start_main provisioned ≡ (ok inserted, started)
unfolding admit contextmesh_rs.Store.Admit.prepare contextmesh_rs.Event.Body.verify
    contextmesh_rs.Event.Body.verify_parts contextmesh_rs.Event.Body.validate
    contextmesh_rs.Event.Kind.validate_kind contextmesh_rs.Event.Kind.starts_lowercase
    contextmesh_rs.Event.Kind.scan_rest contextmesh_rs.Common.out_of_order Json.validate_json_value
    write_json contextmesh_rs.Event.Body.body_json contextmesh_rs.Event.Body.derive_event_id
    contextmesh_rs.Event.Body.canonical_bytes contextmesh_rs.Tests.Toy.digest
    contextmesh_rs.Event.Body.signing_message contextmesh_rs.Event.Wire.to_wire
    contextmesh_rs.Event.Wire.from_wire contextmesh_rs.Common.Table.delete
    contextmesh_rs.Common.Table.insert contextmesh_rs.Common.Table.lookup
    contextmesh_rs.Common.Table.pair_beq contextmesh_rs.Common.Table.upsert
    contextmesh_rs.Common.bytes_eq contextmesh_rs.Event.Body.canonicalize Json.validate_number
    contextmesh_rs.Event.Kind.scan_label contextmesh_rs.Event.Wire.check_parts event_json
    contextmesh_rs.Event.Wire.has_bom contextmesh_rs.Event.Wire.has_unknown
    contextmesh_rs.Event.Wire.into_object contextmesh_rs.Event.Wire.into_string
    contextmesh_rs.Event.Wire.is_allowed contextmesh_rs.Event.Wire.parse_body
    contextmesh_rs.Event.Wire.parse_envelope contextmesh_rs.Event.Wire.parse_parents
    contextmesh_rs.Event.Wire.parse_text contextmesh_rs.Event.Wire.parse_texts
    contextmesh_rs.Event.Wire.parse_version contextmesh_rs.Event.Wire.reject_unknown
    contextmesh_rs.Event.Wire.remove_field contextmesh_rs.Event.Wire.strict_json
    contextmesh_rs.Event.Wire.take_required contextmesh_rs.Store.Admit.activate
    contextmesh_rs.Store.Admit.activate_pending contextmesh_rs.Store.Admit.admit_tx
    contextmesh_rs.Store.Admit.check_genesis contextmesh_rs.Store.Admit.insert_event
    contextmesh_rs.Store.Admit.is_genesis contextmesh_rs.Store.Admit.store_event
    contextmesh_rs.Store.Refs.apply_ref_mutation contextmesh_rs.Store.Refs.check_mutation
    contextmesh_rs.Store.Refs.insert_local_ref contextmesh_rs.Store.Refs.check_reference
    contextmesh_rs.Store.Refs.is_head contextmesh_rs.Store.Refs.set_local_ref
    contextmesh_rs.Store.Refs.swap_ref contextmesh_rs.Store.Rows.authoritative_event_context
    contextmesh_rs.Store.Rows.check_parents contextmesh_rs.Store.Rows.context_row
    contextmesh_rs.Store.Rows.edge_rows contextmesh_rs.Store.Rows.event_wire
    contextmesh_rs.Store.Rows.is_authorized contextmesh_rs.Store.Rows.reparse
    contextmesh_rs.Store.Rows.row_is_sound contextmesh_rs.Store.Rows.row_matches
    contextmesh_rs.Store.Rows.same_ids contextmesh_rs.Store.Rows.validate_stored_event
    finish_transaction write contextmesh_rs.Tests.Toy.write_bytes
    contextmesh_rs.Tests.Toy.write_number contextmesh_rs.Tests.Toy.read
    contextmesh_rs.Tests.Toy.step contextmesh_rs.Tests.Toy.read_id
admit_genesis = refl

admit_genesis_again :
    admit toy acknowledged genesis start_main started ≡ (ok already_applied, started)
unfolding admit contextmesh_rs.Store.Admit.prepare contextmesh_rs.Event.Body.verify
    contextmesh_rs.Event.Body.verify_parts contextmesh_rs.Event.Body.validate
    contextmesh_rs.Event.Kind.validate_kind contextmesh_rs.Event.Kind.starts_lowercase
    contextmesh_rs.Event.Kind.scan_rest contextmesh_rs.Common.out_of_order Json.validate_json_value
    write_json contextmesh_rs.Event.Body.body_json contextmesh_rs.Event.Body.derive_event_id
    contextmesh_rs.Event.Body.canonical_bytes contextmesh_rs.Tests.Toy.digest
    contextmesh_rs.Event.Body.signing_message contextmesh_rs.Event.Wire.to_wire
    contextmesh_rs.Event.Wire.from_wire contextmesh_rs.Common.Table.delete
    contextmesh_rs.Common.Table.insert contextmesh_rs.Common.Table.lookup
    contextmesh_rs.Common.Table.pair_beq contextmesh_rs.Common.Table.upsert
    contextmesh_rs.Common.bytes_eq contextmesh_rs.Event.Body.canonicalize Json.validate_number
    contextmesh_rs.Event.Kind.scan_label contextmesh_rs.Event.Wire.check_parts event_json
    contextmesh_rs.Event.Wire.has_bom contextmesh_rs.Event.Wire.has_unknown
    contextmesh_rs.Event.Wire.into_object contextmesh_rs.Event.Wire.into_string
    contextmesh_rs.Event.Wire.is_allowed contextmesh_rs.Event.Wire.parse_body
    contextmesh_rs.Event.Wire.parse_envelope contextmesh_rs.Event.Wire.parse_parents
    contextmesh_rs.Event.Wire.parse_text contextmesh_rs.Event.Wire.parse_texts
    contextmesh_rs.Event.Wire.parse_version contextmesh_rs.Event.Wire.reject_unknown
    contextmesh_rs.Event.Wire.remove_field contextmesh_rs.Event.Wire.strict_json
    contextmesh_rs.Event.Wire.take_required contextmesh_rs.Store.Admit.activate
    contextmesh_rs.Store.Admit.activate_pending contextmesh_rs.Store.Admit.admit_tx
    contextmesh_rs.Store.Admit.check_genesis contextmesh_rs.Store.Admit.insert_event
    contextmesh_rs.Store.Admit.is_genesis contextmesh_rs.Store.Admit.store_event
    contextmesh_rs.Store.Refs.apply_ref_mutation contextmesh_rs.Store.Refs.check_mutation
    contextmesh_rs.Store.Refs.insert_local_ref contextmesh_rs.Store.Refs.check_reference
    contextmesh_rs.Store.Refs.is_head contextmesh_rs.Store.Refs.set_local_ref
    contextmesh_rs.Store.Refs.swap_ref contextmesh_rs.Store.Rows.authoritative_event_context
    contextmesh_rs.Store.Rows.check_parents contextmesh_rs.Store.Rows.context_row
    contextmesh_rs.Store.Rows.edge_rows contextmesh_rs.Store.Rows.event_wire
    contextmesh_rs.Store.Rows.is_authorized contextmesh_rs.Store.Rows.reparse
    contextmesh_rs.Store.Rows.row_is_sound contextmesh_rs.Store.Rows.row_matches
    contextmesh_rs.Store.Rows.same_ids contextmesh_rs.Store.Rows.validate_stored_event
    finish_transaction write contextmesh_rs.Tests.Toy.write_bytes
    contextmesh_rs.Tests.Toy.write_number contextmesh_rs.Tests.Toy.read
    contextmesh_rs.Tests.Toy.step contextmesh_rs.Tests.Toy.read_id
admit_genesis_again = refl

admit_genesis_unknown :
    admit toy acknowledged genesis start_main empty_db ≡ (err context_unknown, empty_db)
unfolding admit contextmesh_rs.Store.Admit.prepare contextmesh_rs.Event.Body.verify
    contextmesh_rs.Event.Body.verify_parts contextmesh_rs.Event.Body.validate
    contextmesh_rs.Event.Kind.validate_kind contextmesh_rs.Event.Kind.starts_lowercase
    contextmesh_rs.Event.Kind.scan_rest contextmesh_rs.Common.out_of_order Json.validate_json_value
    write_json contextmesh_rs.Event.Body.body_json contextmesh_rs.Event.Body.derive_event_id
    contextmesh_rs.Event.Body.canonical_bytes contextmesh_rs.Tests.Toy.digest
    contextmesh_rs.Event.Body.signing_message contextmesh_rs.Event.Wire.to_wire
    contextmesh_rs.Event.Wire.from_wire contextmesh_rs.Common.Table.delete
    contextmesh_rs.Common.Table.insert contextmesh_rs.Common.Table.lookup
    contextmesh_rs.Common.Table.pair_beq contextmesh_rs.Common.Table.upsert
    contextmesh_rs.Common.bytes_eq contextmesh_rs.Event.Body.canonicalize Json.validate_number
    contextmesh_rs.Event.Kind.scan_label contextmesh_rs.Event.Wire.check_parts event_json
    contextmesh_rs.Event.Wire.has_bom contextmesh_rs.Event.Wire.has_unknown
    contextmesh_rs.Event.Wire.into_object contextmesh_rs.Event.Wire.into_string
    contextmesh_rs.Event.Wire.is_allowed contextmesh_rs.Event.Wire.parse_body
    contextmesh_rs.Event.Wire.parse_envelope contextmesh_rs.Event.Wire.parse_parents
    contextmesh_rs.Event.Wire.parse_text contextmesh_rs.Event.Wire.parse_texts
    contextmesh_rs.Event.Wire.parse_version contextmesh_rs.Event.Wire.reject_unknown
    contextmesh_rs.Event.Wire.remove_field contextmesh_rs.Event.Wire.strict_json
    contextmesh_rs.Event.Wire.take_required contextmesh_rs.Store.Admit.activate
    contextmesh_rs.Store.Admit.activate_pending contextmesh_rs.Store.Admit.admit_tx
    contextmesh_rs.Store.Admit.check_genesis contextmesh_rs.Store.Admit.insert_event
    contextmesh_rs.Store.Admit.is_genesis contextmesh_rs.Store.Admit.store_event
    contextmesh_rs.Store.Refs.apply_ref_mutation contextmesh_rs.Store.Refs.check_mutation
    contextmesh_rs.Store.Refs.insert_local_ref contextmesh_rs.Store.Refs.check_reference
    contextmesh_rs.Store.Refs.is_head contextmesh_rs.Store.Refs.set_local_ref
    contextmesh_rs.Store.Refs.swap_ref contextmesh_rs.Store.Rows.authoritative_event_context
    contextmesh_rs.Store.Rows.check_parents contextmesh_rs.Store.Rows.context_row
    contextmesh_rs.Store.Rows.edge_rows contextmesh_rs.Store.Rows.event_wire
    contextmesh_rs.Store.Rows.is_authorized contextmesh_rs.Store.Rows.reparse
    contextmesh_rs.Store.Rows.row_is_sound contextmesh_rs.Store.Rows.row_matches
    contextmesh_rs.Store.Rows.same_ids contextmesh_rs.Store.Rows.validate_stored_event
    finish_transaction write contextmesh_rs.Tests.Toy.write_bytes
    contextmesh_rs.Tests.Toy.write_number contextmesh_rs.Tests.Toy.read
    contextmesh_rs.Tests.Toy.step contextmesh_rs.Tests.Toy.read_id
admit_genesis_unknown = refl

abbrev pub move_main : RefMutation
move_main = compare_and_swap 5 main (head 875852) 549793

abbrev pub noted : Db
noted = record started {
  events =
      (
        549793,
        record {
          context = 5;
          author = 2;
          kind = codes "note.added";
          wire = 0 ∷ 0 ∷ 0 ∷ write_json (event_json toy note) [];
        },
      )
      ∷ started.events;
  edges = (549793, 875852 ∷ []) ∷ started.edges;
  local_refs = ((5, main), 549793) ∷ [];
}

pub append-note :
    append toy acknowledged 1 5 main 875852 (codes "note.added") payload started ≡ (ok note, noted)
unfolding admit contextmesh_rs.Store.Admit.prepare contextmesh_rs.Event.Body.verify
    contextmesh_rs.Event.Body.verify_parts contextmesh_rs.Event.Body.validate
    contextmesh_rs.Event.Kind.validate_kind contextmesh_rs.Event.Kind.starts_lowercase
    contextmesh_rs.Event.Kind.scan_rest contextmesh_rs.Common.out_of_order Json.validate_json_value
    write_json contextmesh_rs.Event.Body.body_json contextmesh_rs.Event.Body.derive_event_id
    contextmesh_rs.Event.Body.canonical_bytes contextmesh_rs.Tests.Toy.digest
    contextmesh_rs.Event.Body.signing_message contextmesh_rs.Event.Wire.to_wire
    contextmesh_rs.Event.Wire.from_wire contextmesh_rs.Common.Table.delete
    contextmesh_rs.Common.Table.insert contextmesh_rs.Common.Table.lookup
    contextmesh_rs.Common.Table.pair_beq contextmesh_rs.Common.Table.upsert
    contextmesh_rs.Common.bytes_eq contextmesh_rs.Event.Body.canonicalize Json.validate_number
    contextmesh_rs.Event.Kind.scan_label contextmesh_rs.Event.Wire.check_parts event_json
    contextmesh_rs.Event.Wire.has_bom contextmesh_rs.Event.Wire.has_unknown
    contextmesh_rs.Event.Wire.into_object contextmesh_rs.Event.Wire.into_string
    contextmesh_rs.Event.Wire.is_allowed contextmesh_rs.Event.Wire.parse_body
    contextmesh_rs.Event.Wire.parse_envelope contextmesh_rs.Event.Wire.parse_parents
    contextmesh_rs.Event.Wire.parse_text contextmesh_rs.Event.Wire.parse_texts
    contextmesh_rs.Event.Wire.parse_version contextmesh_rs.Event.Wire.reject_unknown
    contextmesh_rs.Event.Wire.remove_field contextmesh_rs.Event.Wire.strict_json
    contextmesh_rs.Event.Wire.take_required contextmesh_rs.Store.Admit.activate
    contextmesh_rs.Store.Admit.activate_pending contextmesh_rs.Store.Admit.admit_tx
    contextmesh_rs.Store.Admit.check_genesis contextmesh_rs.Store.Admit.insert_event
    contextmesh_rs.Store.Admit.is_genesis contextmesh_rs.Store.Admit.store_event
    contextmesh_rs.Store.Refs.apply_ref_mutation contextmesh_rs.Store.Refs.check_mutation
    contextmesh_rs.Store.Refs.insert_local_ref contextmesh_rs.Store.Refs.check_reference
    contextmesh_rs.Store.Refs.is_head contextmesh_rs.Store.Refs.set_local_ref
    contextmesh_rs.Store.Refs.swap_ref contextmesh_rs.Store.Rows.authoritative_event_context
    contextmesh_rs.Store.Rows.check_parents contextmesh_rs.Store.Rows.context_row
    contextmesh_rs.Store.Rows.edge_rows contextmesh_rs.Store.Rows.event_wire
    contextmesh_rs.Store.Rows.is_authorized contextmesh_rs.Store.Rows.reparse
    contextmesh_rs.Store.Rows.row_is_sound contextmesh_rs.Store.Rows.row_matches
    contextmesh_rs.Store.Rows.same_ids contextmesh_rs.Store.Rows.validate_stored_event
    finish_transaction write contextmesh_rs.Tests.Toy.write_bytes
    contextmesh_rs.Tests.Toy.write_number contextmesh_rs.Tests.Toy.read
    contextmesh_rs.Tests.Toy.step contextmesh_rs.Tests.Toy.read_id append
    contextmesh_rs.Store.Dag.admit_new contextmesh_rs.Store.Dag.append_event create_event
    contextmesh_rs.Event.Body.new_body contextmesh_rs.Event.Body.sign_body
append-note = refl

pub provisioned-IsConsistent : IsConsistent toy provisioned
unfolding write finish_transaction
provisioned-IsConsistent =
    subst (IsConsistent toy) (ap after provision_runs)
      (provision-IsConsistent toy acknowledged 5 875852 1 (1 ∷ 2 ∷ []) empty_db
        (IsConsistent-empty toy)).0.0
  where
    after : StoreResult (Unit {0} × Db) → Db
    after r = (finish_transaction acknowledged empty_db r).1

pub genesis-ReadsBack : ReadsBack toy genesis
genesis-ReadsBack = reparses genesis genesis_wire genesis_to_wire genesis_from_wire

pub note-ReadsBack : ReadsBack toy note
note-ReadsBack = reparses note note_wire note-to_wire note-from_wire

pub started-IsConsistent : IsConsistent toy started
started-IsConsistent =
    subst (IsConsistent toy) (ap (λ r. r.1) admit_genesis)
      (admit-IsConsistent toy genesis genesis-ReadsBack acknowledged start_main provisioned
        provisioned-IsConsistent).0

note_runs : append_event toy 1 5 875852 (codes "note.added") payload ≡ ok note
unfolding append_event contextmesh_rs.Common.bytes_eq create_event
    contextmesh_rs.Event.Body.new_body contextmesh_rs.Event.Body.validate
    contextmesh_rs.Event.Kind.validate_kind contextmesh_rs.Event.Kind.starts_lowercase
    contextmesh_rs.Event.Kind.scan_rest contextmesh_rs.Common.out_of_order Json.validate_json_value
    write_json contextmesh_rs.Event.Body.body_json contextmesh_rs.Event.Body.sign_body
    contextmesh_rs.Event.Body.derive_event_id contextmesh_rs.Event.Body.canonical_bytes
    contextmesh_rs.Tests.Toy.digest contextmesh_rs.Event.Body.signing_message
note_runs = refl

pub appended-ReadsBack :
    (e : SignedEvent)
    → append_event toy 1 5 875852 (codes "note.added") payload ≡ ok e
    → ReadsBack toy e
appended-ReadsBack e h =
    let same : note ≡ e = ground (arith, h, note_runs) in subst (ReadsBack toy) same note-ReadsBack

merged-ReadsBack :
    (e : SignedEvent) → merge_event toy 1 5 875852 [] payload ≡ ok e → ReadsBack toy e
unfolding merge_event
merged-ReadsBack e h = cc

pub noted-IsConsistent : IsConsistent toy noted
noted-IsConsistent =
    subst (IsConsistent toy) (ap (λ r. r.1) append-note)
      (append-IsConsistent toy acknowledged 1 5 main 875852 [] (codes "note.added") payload started
        appended-ReadsBack merged-ReadsBack started-IsConsistent).0.0
