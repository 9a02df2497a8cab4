-- ===== src/Event/Wire/Authentic.antt =====
-- What `SignedEventV1::from_wire` asks of an event (src/model.rs, src/crypto.rs), each condition written out by
-- itself.
use contextmesh_rs.Common.{
  ◌≤◌, ◌≡◌, ◌++◌, ◌∷◌, true, not, some, arith, Bytes, ◌==◌, length, ok, IsAscending, >>=-eq-ok,
  refuse,
}
use contextmesh_rs.Event.Json.{
  depth_of, NumbersAreSafe, max_payload_depth, validate_json_value, validate_json_value_iff,
  id_mismatch,
}
use contextmesh_rs.Event.Kind.{IsLabel, max_kind_bytes, validate_kind, validate_kind_iff}
use contextmesh_rs.Event.Body.{
  Libraries, EventBody, SignedEvent, text, event_version, max_parents, max_canonical_body_bytes,
  body_json, canonicalize, canonical_bytes, derive_event_id, signing_message, validate, verify,
  verify_parts, validate_version, validate_parents,
}
use contextmesh_rs.Event.Wire.{from_wire, max_raw_wire_bytes}
use contextmesh_rs.Event.Wire.RoundTrip.{from_wire-verify, verify-validate}

-- The identifier is that of the canonical text of the body.
abbrev IsIdentified : Libraries → SignedEvent → Type 0
IsIdentified lib e =
    (canonical : Bytes) × (lib.canonical (body_json lib e.body) ≡ some canonical)
    × (length canonical ≤ max_canonical_body_bytes)
    × (lib.derive_key (text "org.aaif.contextmesh.event-id.v1") canonical ≡ e.event_id)

-- A well-formed event under its own identifier, signed by its author.
pub record IsAuthentic (lib : Libraries) (e : SignedEvent) : Type 0 where
  pub version : e.body.version ≡ event_version
  pub parents : (length e.body.parents ≤ max_parents) × IsAscending e.body.parents
  pub kind : IsLabel e.body.kind × (length e.body.kind ≤ max_kind_bytes)
  pub payload : (depth_of e.body.payload ≤ max_payload_depth) × NumbersAreSafe e.body.payload
  pub identity : IsIdentified lib e
  pub key : lib.valid_key e.body.author ≡ true
  pub signature :
      lib.verify_strict e.body.author
        (text "org.aaif.contextmesh.signature.v1" ++ (0 ∷ lib.id_bytes e.event_id))
        e.signature
      ≡ true

module _ (lib : Libraries) where
  validated_kind : (b : EventBody) → validate lib b ≡ ok tt → validate_kind b.kind ≡ ok tt
  unfolding validate
  validated_kind b h = ground arith

  validated_payload :
      (b : EventBody) → validate lib b ≡ ok tt → validate_json_value b.payload 1 ≡ ok tt
  unfolding validate
  validated_payload b h = ground arith

  validated_length :
      (b : EventBody) (w : Bytes)
      → validate lib b ≡ ok tt
      → lib.canonical (body_json lib b) ≡ some w
      → length w ≤ max_canonical_body_bytes
  unfolding validate canonicalize
  validated_length b w h c = ground arith

  canonical_text :
      (b : EventBody) (w : Bytes)
      → canonicalize lib (body_json lib b) ≡ ok w
      → lib.canonical (body_json lib b) ≡ some w
  unfolding canonicalize
  canonical_text b w h = ground arith

  verified_identity : (e : SignedEvent) → verify lib e ≡ ok tt → IsIdentified lib e
  unfolding verify verify_parts derive_event_id canonical_bytes
  verified_identity e h =
      let (_, valid, h₁) = >>=-eq-ok (validate lib e.body) _ h in
      let (expected, derived, h₂) = >>=-eq-ok (derive_event_id lib e.body) _ h₁ in
      let (_, test, _) = >>=-eq-ok (refuse (not (e.event_id == expected)) id_mismatch) _ h₂ in
      let (w, bytes, last) = >>=-eq-ok (canonical_bytes lib e.body) _ derived in
      let (_, _, written) = >>=-eq-ok (validate lib e.body) _ bytes in
      let canonical = canonical_text e.body w written in
      (w, canonical, validated_length e.body w valid canonical, ground (arith, test, last))

  verified_key : (e : SignedEvent) → verify lib e ≡ ok tt → lib.valid_key e.body.author ≡ true
  unfolding verify verify_parts
  verified_key e h = ground arith

  verified_signature :
      (e : SignedEvent)
      → verify lib e ≡ ok tt
      → lib.verify_strict e.body.author (signing_message lib e.event_id) e.signature ≡ true
  unfolding verify verify_parts
  verified_signature e h = ground arith

  -- An event that is parsed from a wire has the version 1, at most 64 parents in strictly ascending order, a kind of
  -- the grammar of at most 64 bytes, a payload of at most 64 levels with safe numbers and a canonical body within its
  -- bound. Its identifier is the one derived from that canonical body, its author is a valid key, and its signature
  -- verifies under that key for the identifier. The wire is at most as long as the bound for raw wires.
  pub from_wire-IsAuthentic :
      (w : Bytes) (e : SignedEvent)
      → from_wire lib w ≡ ok e
      → IsAuthentic lib e × (length w ≤ max_raw_wire_bytes)
  unfolding signing_message
  from_wire-IsAuthentic w e h =
      let (v, short) = from_wire-verify lib w e h in
      let valid = verify-validate lib e v in
      (
        record {
          version = validate_version lib e.body valid;
          parents = validate_parents lib e.body valid;
          kind = (validate_kind_iff e.body.kind).0 (validated_kind e.body valid);
          payload = (validate_json_value_iff e.body.payload).0 (validated_payload e.body valid);
          identity = verified_identity e v;
          key = verified_key e v;
          signature = verified_signature e v;
        },
        short,
      )
