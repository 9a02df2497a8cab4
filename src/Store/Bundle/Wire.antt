-- ===== src/Store/Bundle/Wire.antt =====
-- The wire form of a bundle (`BundleV1::to_wire`, `BundleV1::from_wire`, src/store/bundle.rs) and the grammar
-- of ref and peer names (`validate_name`, src/store.rs). An object stands in the key order of its canonical form.
use contextmesh_rs.Event.Body.{event_id, context_id}
use contextmesh_rs.Common.{
  ℕ, ◌+◌, not, ◌||◌, List, [], ◌∷◌, Bytes, bytes_eq, codes, ◌==◌, ltb, length, is_empty, ok, err,
  ◌>>=◌, ◌>>◌, refuse, ok_or, map_err,
}
use contextmesh_rs.Event.Json
use contextmesh_rs.Event.Json.{Json, Items, Fields}
use contextmesh_rs.Event.Kind.{starts_lowercase, scan_rest}
use contextmesh_rs.Event.Body.{SignedEvent, Libraries, canonicalize}
use contextmesh_rs.Event.Wire.{
  into_object, into_string, has_unknown, take_required, strict_json, from_wire, to_wire,
}
use contextmesh_rs.Store.State.{
  StoreResult, bundle_malformed, bundle_limit_exceeded, bundle_unsupported_version,
  bundle_ref_invalid, invalid_ref_name,
}
use contextmesh_rs.Store.Project.{max_bundle_events}
use contextmesh_rs.Store.Bundle.{AdvertisedRef, Bundle, max_bundle_refs, max_bundle_canonical_bytes}
use contextmesh_rs.Store.Bundle.Parts.{from_parts}

abbrev pub bundle_version : ℕ
bundle_version = 1

abbrev pub max_ref_name_bytes : ℕ
max_ref_name_bytes = 64

unfoldable pub validate_name : Bytes → StoreResult (Unit {0})
validate_name name = do
  refuse (is_empty name || ltb max_ref_name_bytes (length name) || not (starts_lowercase name))
      invalid_ref_name
  refuse (not (scan_rest name)) invalid_ref_name

-- The keys of the objects.
abbrev pub bundle_keys : List Bytes
bundle_keys = codes "bundle_version" ∷ codes "context" ∷ codes "events" ∷ codes "refs" ∷ []

abbrev pub ref_keys : List Bytes
ref_keys = codes "namespace" ∷ codes "name" ∷ codes "head" ∷ []

unfoldable pub length_items : Items → ℕ
length_items Json.nil = 0
length_items (Json.cons x xs) = length_items xs + 1

-- `JsonValue::Array(values)`, or it is malformed.
unfoldable pub into_array : Json → StoreResult Items
into_array (Json.array xs) = ok xs
into_array _ = err bundle_malformed

-- `version.as_u64() != Some(1)`
unfoldable pub check_version : Json → StoreResult (Unit {0})
check_version (Json.number (Json.unsigned n)) =
    refuse (not (n == bundle_version)) bundle_unsupported_version
check_version _ = err bundle_unsupported_version

-- `take_required`, where a failure is a malformed bundle.
unfoldable pub take_value : Fields → Bytes → StoreResult (Json × Fields)
unfolding take_required
take_value object key = map_err (λ _. bundle_malformed) (take_required object key)

unfoldable pub take_string : Fields → Bytes → StoreResult (Bytes × Fields)
unfolding take_value into_string
take_string object key = do
  (value, rest) ← take_value object key
  s ← map_err (λ _. bundle_malformed) (into_string value)
  ok (s, rest)

module _ (lib : Libraries) where
  unfoldable pub parse_ref : Json → StoreResult AdvertisedRef
  unfolding into_object has_unknown take_string validate_name
  parse_ref value = do
    object ← map_err (λ _. bundle_malformed) (into_object value)
    refuse (has_unknown object ref_keys) bundle_malformed
    (namespace, object) ← take_string object (codes "namespace")
    refuse (not (bytes_eq namespace (codes "local"))) bundle_ref_invalid
    (name, object) ← take_string object (codes "name")
    map_err (λ _. bundle_ref_invalid) (validate_name name)
    (head_text, object) ← take_string object (codes "head")
    head ← map_err (λ _. bundle_ref_invalid) (lib.parse_id event_id head_text)
    ok (record { name = name; head = head })

  unfoldable pub parse_refs : Items → StoreResult (List AdvertisedRef)
  unfolding parse_ref
  parse_refs Json.nil = ok []
  parse_refs (Json.cons x xs) = do r ← parse_ref x; rs ← parse_refs xs; ok (r ∷ rs)

  -- The body of the loop over the event values.
  unfoldable pub parse_event : Json → StoreResult SignedEvent
  parse_event value = do
    wire ← map_err (λ _. bundle_malformed) (canonicalize lib value)
    map_err (λ _. bundle_malformed) (from_wire lib wire)

  unfoldable pub parse_events : Items → StoreResult (List SignedEvent)
  unfolding parse_event
  parse_events Json.nil = ok []
  parse_events (Json.cons x xs) = do e ← parse_event x; es ← parse_events xs; ok (e ∷ es)

  -- The value of an event in the wire: its own wire, read back.
  unfoldable pub event_value : SignedEvent → StoreResult Json
  event_value e = do
    wire ← map_err (λ _. bundle_malformed) (to_wire lib e)
    ok_or (lib.from_slice wire) bundle_malformed

  unfoldable pub event_values : List SignedEvent → StoreResult Items
  unfolding event_value
  event_values [] = ok Json.nil
  event_values (e ∷ es) = do x ← event_value e; xs ← event_values es; ok (Json.cons x xs)

  unfoldable pub ref_json : AdvertisedRef → Json
  ref_json r = Json.object (
      Json.field (codes "head") (Json.string (lib.id_text event_id r.head)) (
        Json.field (codes "name") (Json.string r.name)
          (Json.field (codes "namespace") (Json.string (codes "local")) Json.end)))

  unfoldable pub ref_values : List AdvertisedRef → Items
  unfolding ref_json
  ref_values [] = Json.nil
  ref_values (r ∷ rs) = Json.cons (ref_json r) (ref_values rs)

  unfoldable pub bundle_json : ℕ → Items → Items → Json
  bundle_json context events refs = Json.object (
      Json.field (codes "bundle_version") (Json.number (Json.unsigned bundle_version)) (
        Json.field (codes "context") (Json.string (lib.id_text context_id context)) (
          Json.field (codes "events") (Json.array events)
            (Json.field (codes "refs") (Json.array refs) Json.end))))

  -- `BundleV1::to_wire`
  unfoldable pub bundle_to_wire : Bundle → StoreResult Bytes
  unfolding event_values ref_values bundle_json canonicalize
  bundle_to_wire b = do
    events ← event_values b.events
    wire ←
        map_err (λ _. bundle_malformed)
          (canonicalize lib (bundle_json b.context events (ref_values b.refs)))
    refuse (ltb max_bundle_canonical_bytes (length wire)) bundle_limit_exceeded
    ok wire

  -- `BundleV1::from_wire`
  unfoldable pub bundle_from_wire : Bytes → StoreResult Bundle
  unfolding strict_json into_object has_unknown take_value take_string check_version into_array
      length_items parse_events parse_refs
  bundle_from_wire input = do
    refuse (ltb max_bundle_canonical_bytes (length input)) bundle_limit_exceeded
    value ← map_err (λ _. bundle_malformed) (strict_json lib input)
    object ← map_err (λ _. bundle_malformed) (into_object value)
    refuse (has_unknown object bundle_keys) bundle_malformed
    (version, object) ← take_value object (codes "bundle_version")
    check_version version
    (context_text, object) ← take_string object (codes "context")
    context ← map_err (λ _. bundle_malformed) (lib.parse_id context_id context_text)
    (event_value, object) ← take_value object (codes "events")
    (ref_value, object) ← take_value object (codes "refs")
    event_items ← into_array event_value
    ref_items ← into_array ref_value
    refuse
        (ltb max_bundle_events (length_items event_items)
          || ltb max_bundle_refs (length_items ref_items))
        bundle_limit_exceeded
    events ← parse_events event_items
    refs ← parse_refs ref_items
    bundle ← from_parts lib context events refs
    wire ← bundle_to_wire bundle
    refuse (ltb max_bundle_canonical_bytes (length wire)) bundle_limit_exceeded
    ok bundle
