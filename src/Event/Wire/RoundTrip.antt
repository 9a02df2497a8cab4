-- ===== src/Event/Wire/RoundTrip.antt =====
-- The wire form of an event (`from_wire`, `to_wire`, src/model.rs) under the documented behaviour of
-- the libraries, and events that are created and signed (src/crypto.rs).
use contextmesh_rs.Event.Json.{
  depth_of, depth_items, depth_fields, max_payload_depth, max_safe_integer,
}
use contextmesh_rs.Event.Exact.{
  IsExact, IsReadable, ItemsAreExact, FieldsAreExact, items-ItemsAreExact, validated_depth,
}
use contextmesh_rs.Common.{All, bytes_lt, ◌+◌}
use contextmesh_rs.Event.Body.{IdKind, event_id, context_id, author_id, event_signature}
use contextmesh_rs.Common.{
  ℕ, ◌≤◌, ◌≡◌, refl, sym, ◌∙◌, true, false, some, List, [], ◌∷◌, arith, Bytes, ==_refl, ==_iff,
  ◌==◌, ltb, length, ok, ◌>>◌, ok_or, inl, inr, Bool-cases, Result-cases, >>=-eq-ok,
}
use contextmesh_rs.Event.Json.{Contract, Json, canonicalization}
use contextmesh_rs.Event.Body.{
  EventBody, SignedEvent, Libraries, event_version, items, body_json, validate, validate_version,
  verify, verify_parts, canonicalize, sign_body, create_event, new_body, derive_event_id,
  signing_message,
}
use contextmesh_rs.Event.Wire.{
  has_bom, parse_envelope, check_parts, from_wire, to_wire, parse_body, parse_texts, event_json,
  max_raw_wire_bytes,
}

-- What the libraries document: the canonical text of a value of integers, within the depth of the parser, parses
-- back to it; a canonical text has no byte order mark; the text of an identifier of a type parses back to it; and
-- a signature verifies under the key of its seed.
pub record Documented (lib : Libraries) : Type 0 where
  pub parse_canonical :
      (j : Json) (w : Bytes) → IsReadable j → lib.canonical j ≡ some w → lib.parse w ≡ ok j
  pub slice_canonical :
      (j : Json) (w : Bytes) → IsReadable j → lib.canonical j ≡ some w → lib.from_slice w ≡ some j
  pub plain_canonical : (j : Json) (w : Bytes) → lib.canonical j ≡ some w → has_bom w ≡ false
  pub parse_text :
      (k : IdKind) (n : ℕ) → lib.is_id k n ≡ true → lib.parse_id k (lib.id_text k n) ≡ ok n
  pub key_valid : (seed : ℕ) → lib.valid_key (lib.public_key seed) ≡ true
  pub signature_verifies :
      (seed : ℕ) (m : Bytes) → lib.verify_strict (lib.public_key seed) m (lib.sign seed m) ≡ true

-- The wire of an event, if it has one, parses back to the event.
abbrev pub ReadsBack : Libraries → SignedEvent → Type 0
ReadsBack lib e = (w : Bytes) → to_wire lib e ≡ ok w → from_wire lib w ≡ ok e

-- The identifiers of an event are of their types, and the numbers of its payload are integers.
pub record IsWritable (lib : Libraries) (e : SignedEvent) : Type 0 where
  pub payload : IsExact e.body.payload
  pub context : lib.is_id context_id e.body.context ≡ true
  pub parents : All (λ p. lib.is_id event_id p ≡ true) e.body.parents
  pub author : lib.is_id author_id e.body.author ≡ true
  pub identity : lib.is_id event_id e.event_id ≡ true
  pub signature : lib.is_id event_signature e.signature ≡ true

module _ (lib : Libraries) where
  check_parts-verify :
      (parts : EventBody × ℕ × ℕ) (e : SignedEvent)
      → check_parts lib parts ≡ ok e
      → verify lib e ≡ ok tt
  unfolding check_parts verify
  check_parts-verify (b, id, signature) e h = ground arith

  parse_envelope-length :
      (w : Bytes) (parts : EventBody × ℕ × ℕ)
      → parse_envelope lib w ≡ ok parts
      → length w ≤ max_raw_wire_bytes
  unfolding parse_envelope
  parse_envelope-length w parts h = elim (Bool-cases (ltb max_raw_wire_bytes (length w))) [
    | inl long ↦ cc (rw long at h)
    | inr short ↦ ground arith
  ]

  -- `from_wire` returns verified events of bounded wires only.
  pub from_wire-verify :
      (w : Bytes) (e : SignedEvent)
      → from_wire lib w ≡ ok e
      → (verify lib e ≡ ok tt) × (length w ≤ max_raw_wire_bytes)
  unfolding from_wire
  from_wire-verify w e h =
      let (parts, p, c) = >>=-eq-ok (parse_envelope lib w) (check_parts lib) h in
      (check_parts-verify parts e c, parse_envelope-length w parts p)

  pub verify-validate : (e : SignedEvent) → verify lib e ≡ ok tt → validate lib e.body ≡ ok tt
  unfolding verify verify_parts
  verify-validate e h = elim (Result-cases (validate lib e.body)) [
    | inl (u, v) ↦ v
    | inr (x, v) ↦ cc (rw v at h)
  ]

module _ (lib : Libraries) where
  validate_depth : (b : EventBody) → validate lib b ≡ ok tt → depth_of b.payload ≤ max_payload_depth
  unfolding validate
  validate_depth b h = validated_depth b.payload (ground arith)

  -- The value of a valid event whose payload has integers only comes back from its canonical text.
  pub event_json-IsReadable :
      (e : SignedEvent)
      → validate lib e.body ≡ ok tt
      → IsExact e.body.payload
      → IsExact (event_json lib e) × (depth_of (event_json lib e) ≤ max_payload_depth + 2)
  unfolding event_json body_json IsExact FieldsAreExact ItemsAreExact depth_of depth_items
      depth_fields bytes_lt
  event_json-IsReadable e valid payload =
      let (parents, level) = items-ItemsAreExact (lib.id_text event_id) e.body.parents in
      let deep = validate_depth e.body valid in
      let version : e.body.version ≡ event_version = validate_version lib e.body valid in
      let small : e.body.version ≤ max_safe_integer = omega (arith, version) in
      (
        (
          (tt, refl, (tt, refl, (tt, refl, (parents, refl, (payload, refl, (small, tt, tt)))))),
          refl,
          (tt, refl, (tt, tt, tt)),
        ),
        omega (arith, level, deep),
      )

  -- What parses from the wire of an event that reads back is that event.
  pub from_wire_agrees :
      (e f : SignedEvent) (w : Bytes)
      → ReadsBack lib e
      → to_wire lib e ≡ ok w
      → from_wire lib w ≡ ok f
      → f ≡ e
  from_wire_agrees e f w reads h g =
      let same : ◌≡◌ {A = Contract SignedEvent} (ok f) (ok e) = sym g ∙ reads w h in cc same

module _ (lib : Libraries) (laws : Documented lib) where
  pub parse_texts-items :
      (ids : List ℕ)
      → All (λ p. lib.is_id event_id p ≡ true) ids
      → parse_texts lib (items (lib.id_text event_id) ids) ≡ ok ids
  unfolding parse_texts
  parse_texts-items [] all = refl
  parse_texts-items (x ∷ xs) all =
      simp (laws.parse_text event_id x all.0, parse_texts-items xs all.1)

  accepted : (b c : EventBody) → b ≡ c → validate lib b ≡ ok tt → (validate lib c >> ok c) ≡ ok b
  accepted b c e h = rw (← e) (rw h refl)

  parse_body-body_json :
      (e : SignedEvent)
      → IsWritable lib e
      → validate lib e.body ≡ ok tt
      → parse_body lib (body_json lib e.body) ≡ ok e.body
  unfolding parse_body body_json
  parse_body-body_json e fits h =
      let b = e.body in
      let version : b.version ≡ event_version = validate_version lib b h in
      simp
        (
          laws.parse_text context_id b.context fits.context,
          laws.parse_text author_id b.author fits.author,
          parse_texts-items b.parents fits.parents,
          version,
        )
        (accepted b (record b { version = event_version }) (λ i. record b { version = version (i) })
          h)

  parse_envelope-canonical :
      (e : SignedEvent) (w : Bytes)
      → IsWritable lib e
      → validate lib e.body ≡ ok tt
      → lib.canonical (event_json lib e) ≡ some w
      → length w ≤ max_raw_wire_bytes
      → parse_envelope lib w ≡ ok (e.body, e.event_id, e.signature)
  unfolding parse_envelope event_json
  parse_envelope-canonical e w fits valid canonical short =
      let small : ltb max_raw_wire_bytes (length w) ≡ false = ground arith in
      let (exact, deep) = event_json-IsReadable lib e valid fits.payload in
      simp (
        small,
        laws.plain_canonical (event_json lib e) w canonical,
        laws.parse_canonical (event_json lib e) w (exact, omega (arith, deep)) canonical,
        laws.parse_text event_id e.event_id fits.identity,
        laws.parse_text event_signature e.signature fits.signature,
        parse_body-body_json e fits valid,
      )

  check_parts_verified :
      (e : SignedEvent)
      → verify lib e ≡ ok tt
      → check_parts lib (e.body, e.event_id, e.signature) ≡ ok e
  unfolding check_parts verify
  check_parts_verified e v = rw v

  pub to_wire-eq-ok :
      (e : SignedEvent) (w : Bytes)
      → to_wire lib e ≡ ok w
      → (verify lib e ≡ ok tt) × (lib.canonical (event_json lib e) ≡ some w)
  unfolding to_wire canonicalize
  to_wire-eq-ok e w h =
      let (_, v, c) =
        >>=-eq-ok (verify lib e) (λ _. ok_or (lib.canonical (event_json lib e)) canonicalization)
          h in
      (v, ground (arith, c))

  -- The canonical wire of an event, if it is within the bound, parses back to the event, where the numbers of its
  -- payload are integers and its identifiers are of their types.
  pub from_wire-to_wire :
      (e : SignedEvent) (w : Bytes)
      → IsWritable lib e
      → to_wire lib e ≡ ok w
      → length w ≤ max_raw_wire_bytes
      → from_wire lib w ≡ ok e
  unfolding from_wire
  from_wire-to_wire e w fits h short =
      let (v, c) = to_wire-eq-ok e w h in
      rw (parse_envelope-canonical e w fits (verify-validate lib e v) c short)
        (check_parts_verified e v)

  signed_parts :
      (seed id : ℕ) (b : EventBody)
      → validate lib b ≡ ok tt
      → b.author ≡ lib.public_key seed
      → derive_event_id lib b ≡ ok id
      → verify_parts lib b id (lib.sign seed (signing_message lib id)) ≡ ok tt
  unfolding verify_parts
  signed_parts seed id b v a d = simp (v, d, ==_refl, a, laws.key_valid, laws.signature_verifies)

  sign_body-verify :
      (seed : ℕ) (b : EventBody) (e : SignedEvent)
      → sign_body lib seed b ≡ ok e
      → (verify lib e ≡ ok tt) × (e.body ≡ b) × (b.author ≡ lib.public_key seed)
  unfolding sign_body verify
  sign_body-verify seed b e h = elim (Result-cases (validate lib b)) [
    | inr (x, v) ↦ cc (rw v at h)
    | inl (u, v) ↦ elim (Bool-cases (b.author == lib.public_key seed)) [
      | inr other ↦ cc (rw (v, other) at h)
      | inl same ↦ elim (Result-cases (derive_event_id lib b)) [
        | inr (x, d) ↦ cc (rw (v, same, d) at h)
        | inl (id, d) ↦
            let made : ◌≡◌ {A = Contract SignedEvent}
                (ok (record {
                  event_id = id;
                  body = b;
                  signature = lib.sign seed (signing_message lib id);
                }))
                (ok e) =
              rw (v, same, d) at h in
            let author = (==_iff b.author (lib.public_key seed)).0 same in
            let parts = signed_parts seed id b v author d in
            (ground (arith, made, parts), ground (arith, made), author)
      ]
    ]
  ]

  -- An event made by `create_event` verifies, and is what was asked for, by the seed's key.
  pub create_event-verify :
      (seed context : ℕ) (parents : List ℕ) (kind : Bytes) (payload : Json) (e : SignedEvent)
      → create_event lib seed context parents kind payload ≡ ok e
      → (verify lib e ≡ ok tt)
        × (e.body ≡ record {
          version = event_version;
          context = context;
          parents = parents;
          kind = kind;
          author = lib.public_key seed;
          payload = payload;
        })
  unfolding create_event new_body
  create_event-verify seed context parents kind payload e h =
      elim (Result-cases (validate lib asked)) [
        | inr (x, v) ↦ cc (rw v at h)
        | inl (u, v) ↦
            let (ok_e, same, _) = sign_body-verify seed asked e (rw v at h) in (ok_e, same)
      ]
    where
      asked : EventBody
      asked = record {
        version = event_version;
        context = context;
        parents = parents;
        kind = kind;
        author = lib.public_key seed;
        payload = payload;
      }
