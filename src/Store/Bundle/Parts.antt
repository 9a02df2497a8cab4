-- ===== src/Store/Bundle/Parts.antt =====
-- `BundleV1::from_parts` and `BundleLimits::new` (src/store/bundle.rs): the checks of a bundle's
-- order and bounds.
use mathlib.Core.List.Memᴰ
use contextmesh_rs.Common.{
  ℕ, ◌≤◌, ◌≡◌, sym, subst, ⊎_elim, Bool, true, false, not, ◌&&◌, ◌||◌, List, [], ◌∷◌, Memᴰ,
  Memᴰ-cons, arith, bytes_lt, ◌==◌, ltb, length, contains, contains_iff, has_repeat, sort, ok, ◌>>◌,
  refuse, map_err, >>=-eq-ok,
}
use contextmesh_rs.Event.Body.{SignedEvent, Libraries, verify}
use contextmesh_rs.Store.State.{StoreResult, bundle_limit_exceeded, bundle_order, bundle_malformed}
use contextmesh_rs.Store.Project.{max_bundle_events}
use contextmesh_rs.Store.Project.Order.{ids}
use contextmesh_rs.Store.Admit.Atomic.{map_err-eq-ok}
use contextmesh_rs.Store.Bundle.{Bundle, AdvertisedRef, max_bundle_refs, max_bundle_canonical_bytes}

-- `BundleLimits::new`, as the check of its arguments
unfoldable pub check_bundle_limits : ℕ → ℕ → ℕ → StoreResult (Unit {0})
check_bundle_limits max_events max_canonical_bytes max_refs =
    refuse
      (max_events == 0
        || (ltb max_bundle_events max_events
            || (max_canonical_bytes == 0
                || (ltb max_bundle_canonical_bytes max_canonical_bytes
                    || (max_refs == 0 || ltb max_bundle_refs max_refs)))))
      bundle_limit_exceeded

-- `refs.windows(2).any(…)`: two neighbours that do not ascend.
unfoldable pub refs_out_of_order : List AdvertisedRef → Bool
refs_out_of_order [] = false
refs_out_of_order (r ∷ []) = false
refs_out_of_order (r ∷ q ∷ rs) = not (bytes_lt r.name q.name) || refs_out_of_order (q ∷ rs)

-- A parent that the bundle holds, and that has not come yet.
unfoldable pub parent_ahead : List ℕ → List ℕ → List ℕ → Bool
parent_ahead all seen [] = false
parent_ahead all seen (p ∷ ps) = contains all p && not (contains seen p) || parent_ahead all seen ps

module _ (lib : Libraries) where
  -- The loop over the events.
  unfoldable pub check_order : ℕ → List ℕ → List ℕ → List SignedEvent → StoreResult (Unit {0})
  unfolding parent_ahead
  check_order context all seen [] = ok tt
  check_order context all seen (e ∷ es) = do
    map_err (λ _. bundle_malformed) (verify lib e)
    refuse (not (e.body.context == context)) bundle_malformed
    refuse (parent_ahead all seen e.body.parents) bundle_order
    check_order context all (e.event_id ∷ seen) es

  unfoldable pub from_parts : ℕ → List SignedEvent → List AdvertisedRef → StoreResult Bundle
  unfolding check_order refs_out_of_order
  from_parts context events refs = do
    refuse (ltb max_bundle_events (length events) || ltb max_bundle_refs (length refs))
        bundle_limit_exceeded
    refuse (has_repeat (sort (ids events))) bundle_order
    check_order context (ids events) [] events
    refuse (refs_out_of_order refs) bundle_order
    let bundle : Bundle = record { context = context; events = events; refs = refs }
    ok bundle

  -- After the events in `seen`: each event verifies, is of the context, and has before it those of its
  -- parents that are in the bundle.
  abbrev pub InOrder : ℕ → List ℕ → List ℕ → List SignedEvent → Type 0
  InOrder context all seen [] = Unit
  InOrder context all seen (e ∷ es) =
      (verify lib e ≡ ok tt)
      × ((e.body.context ≡ context)
          × (((q : ℕ) → Memᴰ q e.body.parents → Memᴰ q all → Memᴰ q seen)
              × InOrder context all (e.event_id ∷ seen) es))

  none_ahead :
      (all seen ps : List ℕ) (q : ℕ)
      → parent_ahead all seen ps ≡ false
      → Memᴰ q ps
      → Memᴰ q all
      → Memᴰ q seen
  unfolding parent_ahead
  none_ahead all seen [] q h m a = absurd (Memᴰ.not-nil m)
  none_ahead all seen (p ∷ ps) q h m a =
      ⊎_elim
        (λ (e : q ≡ p).
          let there : contains all p ≡ true =
            (contains_iff p all).1 (subst (λ j. Memᴰ j all) e a) in
          subst (λ j. Memᴰ j seen) (sym e) ((contains_iff p seen).0 (ground (arith, h, there))))
        (λ n. none_ahead all seen ps q (ground (arith, h)) n a) ((Memᴰ-cons q p ps).0 m)

  check_order-InOrder :
      (context : ℕ) (all seen : List ℕ) (es : List SignedEvent)
      → check_order context all seen es ≡ ok tt
      → InOrder context all seen es
  unfolding check_order
  check_order-InOrder context all seen [] h = tt
  check_order-InOrder context all seen (e ∷ es) h =
      let (u, v, h₁) = >>=-eq-ok (map_err (λ _. bundle_malformed) (verify lib e)) _ h in
      let (_, c, h₂) = >>=-eq-ok (refuse (not (e.body.context == context)) bundle_malformed) _ h₁ in
      let (_, p, h₃) =
        >>=-eq-ok (refuse (parent_ahead all seen e.body.parents) bundle_order) _ h₂ in
      (
        map_err-eq-ok (λ _. bundle_malformed) (verify lib e) u v,
        (
          ground (arith, c),
          (
            λ q m a. none_ahead all seen e.body.parents q (ground (arith, p)) m a,
            check_order-InOrder context all (e.event_id ∷ seen) es h₃,
          ),
        ),
      )

  -- A bundle that `from_parts` accepts is the given one; each of its events verifies, is of its
  -- context and comes after those of its parents that the bundle holds; and it is within the bounds.
  pub from_parts-InOrder :
      (context : ℕ) (events : List SignedEvent) (refs : List AdvertisedRef) (bundle : Bundle)
      → from_parts context events refs ≡ ok bundle
      → (bundle ≡ record { context = context; events = events; refs = refs })
        × InOrder context (ids events) [] events
        × (length events ≤ max_bundle_events)
        × (length refs ≤ max_bundle_refs)
  unfolding from_parts
  from_parts-InOrder context events refs bundle h =
      let (_, s, h₁) =
        >>=-eq-ok
          (refuse (ltb max_bundle_events (length events) || ltb max_bundle_refs (length refs))
            bundle_limit_exceeded)
          _ h in
      let (_, _, h₂) = >>=-eq-ok (refuse (has_repeat (sort (ids events))) bundle_order) _ h₁ in
      let (_, o, h₃) = >>=-eq-ok (check_order context (ids events) [] events) _ h₂ in
      let (_, _, last) = >>=-eq-ok (refuse (refs_out_of_order refs) bundle_order) _ h₃ in
      (
        ground (arith, last),
        check_order-InOrder context (ids events) [] events o,
        ground (arith, s),
        ground (arith, s),
      )
