-- ===== src/Tests/Events.antt =====
use contextmesh_rs.Event.Exact.{IsExact, FieldsAreExact}
-- The theorems on events and wires at the sample events.
use contextmesh_rs.Common.{
  ℕ, ◌≤◌, ◌≡◌, ◌≢◌, refl, ap, sym, ◌∙◌, subst, ◌⊎◌, inl, inr, ◌↔◌, Bool, true, false, Option, none,
  some, List, [], ◌∷◌, Memᴰ, arith, Bytes, codes, length, Result, ok, err, IsAscending,
}
use contextmesh_rs.Event.Json
use contextmesh_rs.Event.Json.{
  Json, Contract, validate_json_value, depth_of, NumbersAreSafe, validate_json_value_iff,
}
use contextmesh_rs.Event.Kind.{IsLabel, max_kind_bytes, validate_kind, validate_kind_iff}
use contextmesh_rs.Store.Admit.{genesis_kind}
use contextmesh_rs.Event.Body.{
  EventBody, SignedEvent, verify, validate, validate_parents, max_parents, create_event,
}
use contextmesh_rs.Event.Wire.{event_json, from_wire, to_wire, max_raw_wire_bytes}
use contextmesh_rs.Event.Wire.RoundTrip.{IsWritable, ReadsBack, from_wire-to_wire}
use contextmesh_rs.Event.Wire.Authentic.{IsAuthentic, from_wire-IsAuthentic}
use contextmesh_rs.Common.{All}
use contextmesh_rs.Tests.Toy.{write_json, toy, toy-Documented}

abbrev pub payload : Json
payload = Json.object Json.end

abbrev pub genesis : SignedEvent
genesis = record {
  event_id = 875852;
  body = record {
    version = 1;
    context = 5;
    parents = [];
    kind = genesis_kind;
    author = 1;
    payload = payload;
  };
  signature = 262472;
}

genesis_created : create_event toy 0 5 [] genesis_kind payload ≡ ok genesis
unfolding create_event contextmesh_rs.Event.Body.new_body contextmesh_rs.Event.Body.validate
    contextmesh_rs.Event.Kind.validate_kind contextmesh_rs.Event.Kind.starts_lowercase
    contextmesh_rs.Event.Kind.scan_rest contextmesh_rs.Common.out_of_order Json.validate_json_value
    contextmesh_rs.Tests.Toy.write_json contextmesh_rs.Event.Body.body_json
    contextmesh_rs.Event.Body.sign_body contextmesh_rs.Event.Body.derive_event_id
    contextmesh_rs.Event.Body.canonical_bytes contextmesh_rs.Tests.Toy.digest
    contextmesh_rs.Event.Body.signing_message
genesis_created = refl

abbrev pub genesis_wire : Bytes
genesis_wire = 0 ∷ 0 ∷ 0 ∷ write_json (event_json toy genesis) []

-- An event of the second author on top of the genesis event.
abbrev pub note : SignedEvent
note = record {
  event_id = 549793;
  body = record {
    version = 1;
    context = 5;
    parents = 875852 ∷ [];
    kind = codes "note.added";
    author = 2;
    payload = payload;
  };
  signature = 285722;
}

pub genesis_to_wire : to_wire toy genesis ≡ ok genesis_wire
unfolding to_wire verify contextmesh_rs.Event.Body.verify_parts validate validate_kind
    contextmesh_rs.Event.Kind.starts_lowercase contextmesh_rs.Event.Kind.scan_rest
    contextmesh_rs.Common.out_of_order validate_json_value contextmesh_rs.Tests.Toy.write_json
    contextmesh_rs.Event.Body.derive_event_id contextmesh_rs.Event.Body.canonical_bytes
    contextmesh_rs.Tests.Toy.digest contextmesh_rs.Event.Body.signing_message
genesis_to_wire = refl

pub genesis_from_wire : from_wire toy genesis_wire ≡ ok genesis
unfolding from_wire contextmesh_rs.Event.Wire.parse_envelope contextmesh_rs.Tests.Toy.write_json
    contextmesh_rs.Event.Wire.event_json contextmesh_rs.Tests.Toy.read contextmesh_rs.Tests.Toy.step
    contextmesh_rs.Event.Wire.parse_body contextmesh_rs.Tests.Toy.read_id validate validate_kind
    contextmesh_rs.Event.Kind.starts_lowercase contextmesh_rs.Event.Kind.scan_rest
    contextmesh_rs.Common.out_of_order validate_json_value contextmesh_rs.Event.Body.verify_parts
    contextmesh_rs.Event.Body.derive_event_id contextmesh_rs.Event.Body.canonical_bytes
    contextmesh_rs.Tests.Toy.digest contextmesh_rs.Common.bytes_eq
    contextmesh_rs.Event.Body.body_json contextmesh_rs.Event.Body.canonicalize
    contextmesh_rs.Event.Body.signing_message Json.validate_number
    contextmesh_rs.Event.Kind.scan_label contextmesh_rs.Event.Wire.check_parts
    contextmesh_rs.Event.Wire.has_bom contextmesh_rs.Event.Wire.has_unknown
    contextmesh_rs.Event.Wire.into_object contextmesh_rs.Event.Wire.into_string
    contextmesh_rs.Event.Wire.is_allowed contextmesh_rs.Event.Wire.parse_parents
    contextmesh_rs.Event.Wire.parse_text contextmesh_rs.Event.Wire.parse_texts
    contextmesh_rs.Event.Wire.parse_version contextmesh_rs.Event.Wire.reject_unknown
    contextmesh_rs.Event.Wire.remove_field contextmesh_rs.Event.Wire.strict_json
    contextmesh_rs.Event.Wire.take_required contextmesh_rs.Tests.Toy.add_byte
    contextmesh_rs.Tests.Toy.add_field contextmesh_rs.Tests.Toy.add_item
    contextmesh_rs.Tests.Toy.result contextmesh_rs.Tests.Toy.run contextmesh_rs.Tests.Toy.to_array
    contextmesh_rs.Tests.Toy.to_object contextmesh_rs.Tests.Toy.to_string
    contextmesh_rs.Tests.Toy.write_bytes contextmesh_rs.Tests.Toy.write_number
genesis_from_wire = refl

from_wire-IsAuthentic_example : IsAuthentic toy genesis × (length genesis_wire ≤ max_raw_wire_bytes)
from_wire-IsAuthentic_example = from_wire-IsAuthentic toy genesis_wire genesis genesis_from_wire

pub genesis-IsWritable : IsWritable toy genesis
unfolding IsExact FieldsAreExact
genesis-IsWritable = record {
  payload = tt;
  context = refl;
  parents = tt;
  author = refl;
  identity = refl;
  signature = refl;
}

from_wire-to_wire_example : from_wire toy genesis_wire ≡ ok genesis
unfolding contextmesh_rs.Tests.Toy.write_json contextmesh_rs.Event.Wire.event_json
from_wire-to_wire_example =
    from_wire-to_wire toy toy-Documented genesis genesis_wire genesis-IsWritable genesis_to_wire
      short_wire
  where
    short_wire : length genesis_wire ≤ max_raw_wire_bytes
    short_wire = omega arith

create_runs : create_event toy 1 5 (875852 ∷ []) (codes "note.added") payload ≡ ok note
unfolding create_event contextmesh_rs.Event.Body.new_body validate validate_kind
    contextmesh_rs.Event.Kind.starts_lowercase contextmesh_rs.Event.Kind.scan_rest
    contextmesh_rs.Common.out_of_order validate_json_value contextmesh_rs.Tests.Toy.write_json
    contextmesh_rs.Event.Body.body_json contextmesh_rs.Event.Body.sign_body
    contextmesh_rs.Event.Body.derive_event_id contextmesh_rs.Event.Body.canonical_bytes
    contextmesh_rs.Tests.Toy.digest contextmesh_rs.Event.Body.signing_message
create_runs = refl

validate_kind_iff_example :
    (validate_kind (codes "note.added") ≡ ok tt)
    ↔ (IsLabel (codes "note.added") × (length (codes "note.added") ≤ max_kind_bytes))
validate_kind_iff_example = validate_kind_iff (codes "note.added")

validate_json_value_iff_example :
    (validate_json_value payload 1 ≡ ok tt) ↔ ((depth_of payload ≤ 64) × NumbersAreSafe payload)
validate_json_value_iff_example = validate_json_value_iff payload

note_validates : validate toy note.body ≡ ok tt
unfolding validate validate_kind contextmesh_rs.Event.Kind.starts_lowercase
    contextmesh_rs.Event.Kind.scan_rest contextmesh_rs.Common.out_of_order validate_json_value
    contextmesh_rs.Tests.Toy.write_json contextmesh_rs.Event.Body.body_json
note_validates = refl

abbrev pub note_wire : Bytes
note_wire = 0 ∷ 0 ∷ 0 ∷ write_json (event_json toy note) []

pub note-to_wire : to_wire toy note ≡ ok note_wire
unfolding to_wire verify contextmesh_rs.Event.Body.verify_parts validate validate_kind
    contextmesh_rs.Event.Kind.starts_lowercase contextmesh_rs.Event.Kind.scan_rest
    contextmesh_rs.Common.out_of_order validate_json_value write_json
    contextmesh_rs.Event.Body.derive_event_id contextmesh_rs.Event.Body.canonical_bytes
    contextmesh_rs.Tests.Toy.digest contextmesh_rs.Event.Body.signing_message
note-to_wire = refl

pub note-from_wire : from_wire toy note_wire ≡ ok note
unfolding from_wire contextmesh_rs.Event.Wire.parse_envelope write_json event_json
    contextmesh_rs.Tests.Toy.read contextmesh_rs.Tests.Toy.step contextmesh_rs.Event.Wire.parse_body
    contextmesh_rs.Tests.Toy.read_id validate validate_kind
    contextmesh_rs.Event.Kind.starts_lowercase contextmesh_rs.Event.Kind.scan_rest
    contextmesh_rs.Common.out_of_order validate_json_value contextmesh_rs.Event.Body.verify_parts
    contextmesh_rs.Event.Body.derive_event_id contextmesh_rs.Event.Body.canonical_bytes
    contextmesh_rs.Tests.Toy.digest contextmesh_rs.Common.bytes_eq
    contextmesh_rs.Event.Body.body_json contextmesh_rs.Event.Body.canonicalize
    contextmesh_rs.Event.Body.signing_message Json.validate_number
    contextmesh_rs.Event.Kind.scan_label contextmesh_rs.Event.Wire.check_parts
    contextmesh_rs.Event.Wire.has_bom contextmesh_rs.Event.Wire.has_unknown
    contextmesh_rs.Event.Wire.into_object contextmesh_rs.Event.Wire.into_string
    contextmesh_rs.Event.Wire.is_allowed contextmesh_rs.Event.Wire.parse_parents
    contextmesh_rs.Event.Wire.parse_text contextmesh_rs.Event.Wire.parse_texts
    contextmesh_rs.Event.Wire.parse_version contextmesh_rs.Event.Wire.reject_unknown
    contextmesh_rs.Event.Wire.remove_field contextmesh_rs.Event.Wire.strict_json
    contextmesh_rs.Event.Wire.take_required contextmesh_rs.Tests.Toy.add_byte
    contextmesh_rs.Tests.Toy.add_field contextmesh_rs.Tests.Toy.add_item
    contextmesh_rs.Tests.Toy.result contextmesh_rs.Tests.Toy.run contextmesh_rs.Tests.Toy.to_array
    contextmesh_rs.Tests.Toy.to_object contextmesh_rs.Tests.Toy.to_string
    contextmesh_rs.Tests.Toy.write_bytes contextmesh_rs.Tests.Toy.write_number
note-from_wire = refl

-- What reads back from one wire of an event reads back from all.
pub reparses :
    (e : SignedEvent) (v : Bytes) → to_wire toy e ≡ ok v → from_wire toy v ≡ ok e → ReadsBack toy e
reparses e v written read w h =
    let both : ◌≡◌ {A = Contract Bytes} (ok v) (ok w) = sym written ∙ h in
    let same : v ≡ w = cc both in subst (λ (x : Bytes). from_wire toy x ≡ ok e) same read
