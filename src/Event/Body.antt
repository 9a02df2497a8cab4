-- ===== src/Event/Body.antt =====
-- `EventBodyV1`, `SignedEventV1`, `validate`, `derive_event_id`, `verify_parts` and the signing of
-- events (src/model.rs, src/crypto.rs), over what serde_json, serde_jcs, BLAKE3, Ed25519 and base64
-- give.
use contextmesh_rs.Common.{
  ℕ, ◌≤◌, ◌≡◌, Bool, not, Option, List, [], ◌∷◌, ◌++◌, arith, Bytes, codes, ◌==◌, ltb, length, ok,
  ◌>>=◌, ◌>>◌, refuse, ok_or, out_of_order, out_of_order-IsAscending, IsAscending, String,
}
use contextmesh_rs.Event.Json
use contextmesh_rs.Event.Json.{
  ContractError, Contract, Json, Items, Fields, validate_json_value, unsupported_version,
  limit_exceeded, parent_order, canonicalization, author_mismatch, id_mismatch, signature_invalid,
}
use contextmesh_rs.Event.Kind.{validate_kind}

abbrev pub event_version : ℕ
event_version = 1

abbrev pub max_parents : ℕ
max_parents = 64

abbrev pub max_canonical_payload_bytes : ℕ
max_canonical_payload_bytes = 1_048_576

abbrev pub max_canonical_body_bytes : ℕ
max_canonical_body_bytes = 1_114_112

pub record EventBody : Type 0 where
  pub version : ℕ
  pub context : ℕ
  pub parents : List ℕ
  pub kind : Bytes
  pub author : ℕ
  pub payload : Json

pub record SignedEvent : Type 0 where
  pub event_id : ℕ
  pub body : EventBody
  pub signature : ℕ

abbrev pub text : String → Bytes
text s = codes s

abbrev pub items : (ℕ → Bytes) → List ℕ → Items
items render [] = Json.nil
items render (x ∷ xs) = Json.cons (Json.string (render x)) (items render xs)

-- The types that `fixed_text_type!` makes.
pub data IdKind : Type 0 where
  event_id context_id author_id event_signature receipt_id : IdKind

-- The libraries that the code calls. `parse` is serde_json's parser driven by `StrictValue`, with the
-- errors of `map_json_error`; `canonical` is serde_jcs; an identifier of a type has the text of its prefix
-- and its base64url form, and the parser of a type reads only texts of its prefix and length. `is_id` says
-- which numbers stand for identifiers of a type.
pub record Libraries : Type 0 where
  pub parse : Bytes → Contract Json
  pub from_slice : Bytes → Option Json
  pub canonical : Json → Option Bytes
  pub derive_key : Bytes → Bytes → ℕ
  pub hash : Bytes → Bytes
  pub id_bytes : ℕ → Bytes
  pub valid_key : ℕ → Bool
  pub verify_strict : ℕ → Bytes → ℕ → Bool
  pub public_key : ℕ → ℕ
  pub sign : ℕ → Bytes → ℕ
  pub id_text : IdKind → ℕ → Bytes
  pub parse_id : IdKind → Bytes → Contract ℕ
  pub is_id : IdKind → ℕ → Bool

module _ (lib : Libraries) where
  unfoldable pub canonicalize : Json → Contract Bytes
  canonicalize j = ok_or (lib.canonical j) canonicalization

  -- `Serialize for EventBodyV1`, in the key order of the canonical form.
  unfoldable pub body_json : EventBody → Json
  body_json b = Json.object (
      Json.field (text "author") (Json.string (lib.id_text author_id b.author)) (
        Json.field (text "context") (Json.string (lib.id_text context_id b.context)) (
          Json.field (text "kind") (Json.string b.kind) (
            Json.field (text "parents") (Json.array (items (lib.id_text event_id) b.parents)) (
              Json.field (text "payload") b.payload
                (Json.field (text "version") (Json.number (Json.unsigned b.version)) Json.end))))))

  -- `EventBodyV1::validate`
  unfoldable pub validate : EventBody → Contract (Unit {0})
  unfolding canonicalize
  validate b = do
    refuse (not (b.version == event_version)) unsupported_version
    refuse (ltb max_parents (length b.parents)) limit_exceeded
    validate_kind b.kind
    refuse (out_of_order b.parents) parent_order
    validate_json_value b.payload 1
    payload ← canonicalize b.payload
    refuse (ltb max_canonical_payload_bytes (length payload)) limit_exceeded
    body ← canonicalize (body_json b)
    refuse (ltb max_canonical_body_bytes (length body)) limit_exceeded

  -- `EventBodyV1::canonical_bytes`
  unfoldable pub canonical_bytes : EventBody → Contract Bytes
  canonical_bytes b = do validate b; canonicalize (body_json b)

  -- `canonical_payload_bytes`
  unfoldable pub canonical_payload_bytes : Json → Contract Bytes
  unfolding canonicalize
  canonical_payload_bytes payload = do
    validate_json_value payload 1
    bytes ← canonicalize payload
    refuse (ltb max_canonical_payload_bytes (length bytes)) limit_exceeded
    ok bytes

  unfoldable pub derive_event_id : EventBody → Contract ℕ
  derive_event_id b = do
    canonical ← canonical_bytes b
    ok (lib.derive_key (text "org.aaif.contextmesh.event-id.v1") canonical)

  -- `SIGNATURE_DOMAIN`, a zero byte at its end, before the bytes of the identifier.
  unfoldable pub signing_message : ℕ → Bytes
  signing_message id = text "org.aaif.contextmesh.signature.v1" ++ (0 ∷ lib.id_bytes id)

  unfoldable pub verify_parts : EventBody → ℕ → ℕ → Contract (Unit {0})
  verify_parts b supplied signature = do
    validate b
    expected ← derive_event_id b
    refuse (not (supplied == expected)) id_mismatch
    refuse (not (lib.valid_key b.author)) signature_invalid
    refuse (not (lib.verify_strict b.author (signing_message supplied) signature)) signature_invalid

  -- `SignedEventV1::verify`
  unfoldable pub verify : SignedEvent → Contract (Unit {0})
  verify e = verify_parts e.body e.event_id e.signature

  -- `EventBodyV1::new`
  unfoldable pub new_body : ℕ → List ℕ → Bytes → ℕ → Json → Contract EventBody
  new_body context parents kind author payload = do
    let body : EventBody = record {
      version = event_version;
      context = context;
      parents = parents;
      kind = kind;
      author = author;
      payload = payload;
    }
    validate body
    ok body

  -- `SigningIdentity::sign_body`, with the identity as its seed
  unfoldable pub sign_body : ℕ → EventBody → Contract SignedEvent
  sign_body seed b = do
    validate b
    refuse (not (b.author == lib.public_key seed)) author_mismatch
    id ← derive_event_id b
    ok (record { event_id = id; body = b; signature = lib.sign seed (signing_message id) })

  -- `SigningIdentity::create_event`
  unfoldable pub create_event : ℕ → ℕ → List ℕ → Bytes → Json → Contract SignedEvent
  create_event seed context parents kind payload = do
    body ← new_body context parents kind (lib.public_key seed) payload
    sign_body seed body

  pub validate_version : (b : EventBody) → validate b ≡ ok tt → b.version ≡ event_version
  unfolding validate
  validate_version b h = ground arith

  -- A body that validates has at most 64 parents, in strictly ascending order.
  pub validate_parents :
      (b : EventBody)
      → validate b ≡ ok tt
      → (length b.parents ≤ max_parents) × IsAscending b.parents
  unfolding validate
  validate_parents b h = ground (arith, out_of_order-IsAscending b.parents)
