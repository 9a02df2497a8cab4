-- ===== src/Event/Wire.antt =====
-- The strict wire form of an event (`from_wire`, `to_wire` and `parse_body`, src/model.rs).
pub mod RoundTrip
pub mod Authentic
use contextmesh_rs.Event.Body.{IdKind, event_id, context_id, author_id, event_signature, receipt_id}
use contextmesh_rs.Common.{
  ℕ, ◌≤◌, ◌≡◌, refl, sym, ◌↔◌, Bool, true, false, not, ◌&&◌, ◌||◌, Option, none, some, List, [],
  ◌∷◌, arith, Bytes, codes, bytes_eq, ◌==◌, ltb, if◌then◌else◌, length, Result, ok, err, ◌>>=◌,
  ◌>>◌, refuse, ok_or, String, Result-cases, >>=-eq-ok,
}
use contextmesh_rs.Event.Json
use contextmesh_rs.Event.Json.{
  ContractError, Contract, Json, Items, Fields, Number, json_syntax, unknown_field, missing_field,
  unsupported_version, wire_too_large,
}
use contextmesh_rs.Event.Body.{
  EventBody, SignedEvent, Libraries, event_version, items, body_json, validate, verify,
  verify_parts, canonicalize,
}

abbrev pub max_raw_wire_bytes : ℕ
max_raw_wire_bytes = 2_097_152

unfoldable pub into_object : Json → Contract Fields
into_object (Json.object fs) = ok fs
into_object _ = err json_syntax

unfoldable pub into_string : Json → Contract Bytes
into_string (Json.string s) = ok s
into_string _ = err json_syntax

-- The text is in the list.
unfoldable pub is_allowed : Bytes → List Bytes → Bool
unfolding bytes_eq
is_allowed key [] = false
is_allowed key (a ∷ others) = bytes_eq key a || is_allowed key others

unfoldable pub has_unknown : Fields → List Bytes → Bool
unfolding is_allowed
has_unknown Json.end allowed = false
has_unknown (Json.field k x fs) allowed = not (is_allowed k allowed) || has_unknown fs allowed

unfoldable pub reject_unknown : Fields → List Bytes → Contract (Unit {0})
unfolding has_unknown
reject_unknown fs allowed = refuse (has_unknown fs allowed) unknown_field

-- `object.remove(key)`: the value, and the object without it.
unfoldable pub remove_field : Bytes → Fields → Option (Json × Fields)
unfolding bytes_eq
remove_field key Json.end = none
remove_field key (Json.field k x fs) =
    let rest = remove_field key fs in
    if bytes_eq k key
    then some (x, fs)
    else elim rest [ none ↦ none | some (y, others) ↦ some (y, Json.field k x others) ]

unfoldable pub take_required : Fields → Bytes → Contract (Json × Fields)
unfolding remove_field
take_required fs key = ok_or (remove_field key fs) missing_field

unfoldable pub parse_version : Json → Contract ℕ
parse_version (Json.number (Json.unsigned n)) =
    if n == event_version then ok event_version else err unsupported_version
parse_version (Json.number _) = err unsupported_version
parse_version _ = err json_syntax

abbrev body_keys : List Bytes
body_keys =
    codes "version"
    ∷ codes "context"
    ∷ codes "parents"
    ∷ codes "kind"
    ∷ codes "author"
    ∷ codes "payload"
    ∷ []

abbrev event_keys : List Bytes
event_keys = codes "event_id" ∷ codes "body" ∷ codes "signature" ∷ []

unfoldable pub has_bom : Bytes → Bool
has_bom (a ∷ b ∷ c ∷ rest) = a == 0xef && b == 0xbb && c == 0xbf
has_bom _ = false

module _ (lib : Libraries) where
  unfoldable pub parse_text : IdKind → Json → Contract ℕ
  unfolding into_string
  parse_text kind j = do s ← into_string j; lib.parse_id kind s

  unfoldable pub parse_texts : Items → Contract (List ℕ)
  unfolding parse_text
  parse_texts Json.nil = ok []
  parse_texts (Json.cons x xs) = do id ← parse_text event_id x; ids ← parse_texts xs; ok (id ∷ ids)

  unfoldable pub parse_parents : Json → Contract (List ℕ)
  unfolding parse_texts
  parse_parents (Json.array xs) = parse_texts xs
  parse_parents _ = err json_syntax

  unfoldable pub parse_body : Json → Contract EventBody
  unfolding into_object into_string reject_unknown take_required parse_version parse_text
      parse_parents
  parse_body value = do
    object ← into_object value
    reject_unknown object body_keys
    (version_value, object) ← take_required object (codes "version")
    (context_value, object) ← take_required object (codes "context")
    (parents_value, object) ← take_required object (codes "parents")
    (kind_value, object) ← take_required object (codes "kind")
    (author_value, object) ← take_required object (codes "author")
    (payload, object) ← take_required object (codes "payload")
    version ← parse_version version_value
    context ← parse_text context_id context_value
    parents ← parse_parents parents_value
    kind ← into_string kind_value
    author ← parse_text author_id author_value
    let body : EventBody = record {
      version = version;
      context = context;
      parents = parents;
      kind = kind;
      author = author;
      payload = payload;
    }
    validate lib body
    ok body

  -- `strict_json`: no byte order mark, then the strict parser.
  unfoldable pub strict_json : Bytes → Contract Json
  unfolding has_bom
  strict_json input = do refuse (has_bom input) json_syntax; lib.parse input

  -- `EventBodyV1::from_json`
  unfoldable pub from_json : Bytes → Contract EventBody
  from_json input = do
    refuse (ltb max_raw_wire_bytes (length input)) wire_too_large
    value ← strict_json input
    parse_body value

  -- `SignedEventV1::from_wire` up to the check of the parts: body, identifier and signature.
  unfoldable pub parse_envelope : Bytes → Contract (EventBody × ℕ × ℕ)
  unfolding strict_json into_object reject_unknown take_required parse_text
  parse_envelope input = do
    refuse (ltb max_raw_wire_bytes (length input)) wire_too_large
    value ← strict_json input
    object ← into_object value
    reject_unknown object event_keys
    (id_value, object) ← take_required object (codes "event_id")
    (body_value, object) ← take_required object (codes "body")
    (signature_value, object) ← take_required object (codes "signature")
    body ← parse_body body_value
    id ← parse_text event_id id_value
    signature ← parse_text event_signature signature_value
    ok (body, id, signature)

  unfoldable pub check_parts : EventBody × ℕ × ℕ → Contract SignedEvent
  check_parts (body, id, signature) = do
    verify_parts lib body id signature
    ok (record { event_id = id; body = body; signature = signature })

  -- `SignedEventV1::from_wire`
  unfoldable pub from_wire : Bytes → Contract SignedEvent
  unfolding check_parts
  from_wire input = do parts ← parse_envelope input; check_parts parts

  -- `Serialize for SignedEventV1`, in the key order of the canonical form.
  unfoldable pub event_json : SignedEvent → Json
  unfolding body_json
  event_json e = Json.object (
      Json.field (codes "body") (body_json lib e.body) (
        Json.field (codes "event_id") (Json.string (lib.id_text event_id e.event_id)) (
          Json.field (codes "signature") (Json.string (lib.id_text event_signature e.signature))
            Json.end)))

  -- `SignedEventV1::to_wire`
  unfoldable pub to_wire : SignedEvent → Contract Bytes
  unfolding event_json
  to_wire e = do verify lib e; canonicalize lib (event_json e)
