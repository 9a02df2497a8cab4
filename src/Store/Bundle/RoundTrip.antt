-- ===== src/Store/Bundle/RoundTrip.antt =====
-- The canonical wire of a bundle parses back to it (`BundleV1::from_wire`, `BundleV1::to_wire`,
-- src/store/bundle.rs).
use contextmesh_rs.Common.{true, ◌+◌, bytes_lt}
use contextmesh_rs.Event.Json.{depth_of, depth_items, depth_fields, max_payload_depth}
use contextmesh_rs.Event.Exact.{IsExact, IsReadable, ItemsAreExact, FieldsAreExact}
use contextmesh_rs.Event.Body.{event_id, context_id}
use contextmesh_rs.Common.{
  ℕ, ◌≤◌, ◌≡◌, refl, sym, ap, ◌∙◌, false, some, List, [], ◌∷◌, arith, All, Bytes, ltb, length, ok,
  refuse, map_err, >>=-eq-ok,
}
use contextmesh_rs.Event.Json
use contextmesh_rs.Event.Json.{Json, Items}
use contextmesh_rs.Event.Body.{SignedEvent, Libraries, canonicalize}
use contextmesh_rs.Event.Wire.{event_json, to_wire}
use contextmesh_rs.Event.Wire.RoundTrip.{
  Documented, ReadsBack, event_json-IsReadable, verify-validate, to_wire-eq-ok,
}
use contextmesh_rs.Store.State.{bundle_malformed, bundle_limit_exceeded}
use contextmesh_rs.Store.Admit.Atomic.{map_err-eq-ok}
use contextmesh_rs.Store.Project.{max_bundle_events}
use contextmesh_rs.Store.Bundle.{AdvertisedRef, Bundle, max_bundle_refs, max_bundle_canonical_bytes}
use contextmesh_rs.Store.Bundle.Parts.{from_parts, from_parts-InOrder}
use contextmesh_rs.Store.Bundle.Wire.{
  validate_name, length_items, parse_ref, parse_refs, parse_event, parse_events, event_value,
  event_values, ref_json, ref_values, bundle_json, bundle_to_wire, bundle_from_wire,
}

module _ (lib : Libraries) where
  -- The name of a ref is in the grammar, and its head is an identifier.
  abbrev pub IsNamed : AdvertisedRef → Type 0
  IsNamed r = (validate_name r.name ≡ ok tt) × (lib.is_id event_id r.head ≡ true)

  -- An event parses back from its wire, and its payload has integers only.
  abbrev pub IsSendable : SignedEvent → Type 0
  IsSendable e = ReadsBack lib e × IsExact e.body.payload

module _ (lib : Libraries) (laws : Documented lib) where
  parse_event-event_value :
      (e : SignedEvent) (x : Json)
      → IsSendable lib e
      → event_value lib e ≡ ok x
      → (parse_event lib x ≡ ok e) × IsExact x × (depth_of x ≤ max_payload_depth + 2)
  unfolding event_value parse_event canonicalize
  parse_event-event_value e x (back, payload) h =
      let (w, wires, h₁) = >>=-eq-ok (map_err (λ _. bundle_malformed) (to_wire lib e)) _ h in
      let writes = map_err-eq-ok (λ _. bundle_malformed) (to_wire lib e) w wires in
      let (verified, canonical) = to_wire-eq-ok lib laws e w writes in
      let (exact, deep) = event_json-IsReadable lib e (verify-validate lib e verified) payload in
      let slice =
        laws.slice_canonical (event_json lib e) w (exact, omega (arith, deep)) canonical in
      let same : event_json lib e ≡ x = ground (arith, rw slice at h₁) in
      (rw (← same, canonical, back w writes) refl, rw (← same) exact, rw (← same) deep)

  parse_events-event_values :
      (es : List SignedEvent) (xs : Items)
      → All (IsSendable lib) es
      → event_values lib es ≡ ok xs
      → (parse_events lib xs ≡ ok es)
        × (length_items xs ≡ length es)
        × ItemsAreExact xs
        × (depth_items xs ≤ max_payload_depth + 2)
  unfolding event_values parse_events length_items ItemsAreExact depth_items
  parse_events-event_values [] xs all h =
      let same : Json.nil ≡ xs = ground (arith, h) in rw (← same) (refl, refl, tt, omega arith)
  parse_events-event_values (e ∷ es) xs all h =
      let (y, first, h₁) = >>=-eq-ok (event_value lib e) _ h in
      let (ys, rest, last) = >>=-eq-ok (event_values lib es) _ h₁ in
      let same : Json.cons y ys ≡ xs = ground (arith, last) in
      let (parses, count, exact, deep) = parse_events-event_values es ys all.1 rest in
      let (one, exact_one, deep_one) = parse_event-event_value e y all.0 first in
      rw (← same) (
        rw (one, parses) refl,
        omega (arith, count),
        (exact_one, exact),
        omega (arith, deep, deep_one),
      )

  parse_ref-ref_json : (r : AdvertisedRef) → IsNamed lib r → parse_ref lib (ref_json lib r) ≡ ok r
  unfolding parse_ref ref_json
  parse_ref-ref_json r (named, identity) = simp (named, laws.parse_text event_id r.head identity)

  ref_json-IsExact : (r : AdvertisedRef) → IsExact (ref_json lib r)
  unfolding ref_json IsExact FieldsAreExact bytes_lt
  ref_json-IsExact r = (tt, refl, (tt, refl, (tt, tt, tt)))

  ref_json_depth : (r : AdvertisedRef) → depth_of (ref_json lib r) ≤ 2
  unfolding ref_json depth_of depth_fields
  ref_json_depth r = omega arith

  -- The value of a bundle comes back from its canonical text.
  bundle_json-IsReadable :
      (context : ℕ) (xs rs : Items)
      → ItemsAreExact xs × (depth_items xs ≤ max_payload_depth + 2)
      → ItemsAreExact rs × (depth_items rs ≤ 2)
      → IsReadable (bundle_json lib context xs rs)
  unfolding bundle_json IsExact FieldsAreExact depth_of depth_fields bytes_lt
  bundle_json-IsReadable context xs rs (events, deep) (refs, low) =
      ((omega arith, refl, (tt, refl, (events, refl, (refs, tt, tt)))), omega (arith, deep, low))

  parse_refs-ref_values :
      (rs : List AdvertisedRef)
      → All (IsNamed lib) rs
      → (parse_refs lib (ref_values lib rs) ≡ ok rs)
        × (length_items (ref_values lib rs) ≡ length rs)
        × ItemsAreExact (ref_values lib rs)
        × (depth_items (ref_values lib rs) ≤ 2)
  unfolding parse_refs ref_values length_items ItemsAreExact depth_items
  parse_refs-ref_values [] all = (refl, refl, tt, omega arith)
  parse_refs-ref_values (r ∷ rs) all =
      let (parses, count, exact, deep) = parse_refs-ref_values rs all.1 in
      (
        rw (parse_ref-ref_json r all.0, parses) refl,
        omega (arith, count),
        (ref_json-IsExact r, exact),
        omega (arith, deep, ref_json_depth r),
      )

  abbrev whole : ℕ → List SignedEvent → List AdvertisedRef → Bundle
  whole context events refs = record { context = context; events = events; refs = refs }

  whole-ReadsBack :
      (context : ℕ) (es : List SignedEvent) (rs : List AdvertisedRef) (w : Bytes)
      → from_parts lib context es rs ≡ ok (whole context es rs)
      → (length es ≤ max_bundle_events) × (length rs ≤ max_bundle_refs)
      → All (IsSendable lib) es
      → lib.is_id context_id context ≡ true
      → All (IsNamed lib) rs
      → bundle_to_wire lib (whole context es rs) ≡ ok w
      → bundle_from_wire lib w ≡ ok (whole context es rs)
  unfolding bundle_from_wire bundle_to_wire bundle_json canonicalize
  whole-ReadsBack context es rs w parts sizes back named_context named h =
      let (xs, values, h₁) = >>=-eq-ok (event_values lib es) _ h in
      let json = bundle_json lib context xs (ref_values lib rs) in
      let (v, writes, h₂) =
        >>=-eq-ok (map_err (λ _. bundle_malformed) (canonicalize lib json)) _ h₁ in
      let (_, short, last) =
        >>=-eq-ok (refuse (ltb max_bundle_canonical_bytes (length v)) bundle_limit_exceeded) _ h₂ in
      let same : v ≡ w = ground (arith, last) in
      let canonical : lib.canonical json ≡ some w = ground (arith, writes, same) in
      let small : ltb max_bundle_canonical_bytes (length w) ≡ false =
        rw (← same) (ground (arith, short)) in
      let (events, event_count, exact, deep) = parse_events-event_values es xs back values in
      let (refs, ref_count, exact_refs, low) = parse_refs-ref_values rs named in
      let readable =
        bundle_json-IsReadable context xs (ref_values lib rs) (exact, deep) (exact_refs, low) in
      let few : ltb max_bundle_events (length_items xs) ≡ false =
        ground (arith, event_count, sizes) in
      let few_refs : ltb max_bundle_refs (length_items (ref_values lib rs)) ≡ false =
        ground (arith, ref_count, sizes) in
      simp (
        small,
        laws.plain_canonical json w canonical,
        laws.parse_canonical json w readable canonical,
        laws.parse_text context_id context named_context,
        few,
        few_refs,
        events,
        refs,
        parts,
        values,
        canonical,
      )

  -- The canonical wire of a bundle that `from_parts` accepts parses back to the bundle, where the wires of
  -- its events do, the numbers of their payloads are integers, the names of its refs are in the grammar, and its
  -- context and heads are identifiers.
  pub bundle_from_wire-bundle_to_wire :
      (context : ℕ) (events : List SignedEvent) (refs : List AdvertisedRef) (b : Bundle) (w : Bytes)
      → from_parts lib context events refs ≡ ok b
      → All (IsSendable lib) events
      → lib.is_id context_id context ≡ true
      → All (IsNamed lib) refs
      → bundle_to_wire lib b ≡ ok w
      → bundle_from_wire lib w ≡ ok b
  bundle_from_wire-bundle_to_wire context events refs b w parts back named_context named h =
      let (same, _, few, few_refs) = from_parts-InOrder lib context events refs b parts in
      rw same (
        whole-ReadsBack context events refs w (parts ∙ ap ok same) (few, few_refs) back
          named_context named (ap (bundle_to_wire lib) (sym same) ∙ h))
