-- ===== src/Store/Sync/Search.antt =====
-- The binary search for the size of a page (`export_sync_page`, src/store/sync.rs).
use contextmesh_rs.Common.{
  ℕ, zero, suc, ◌+◌, ◌-◌, ◌≤◌, ◌<◌, ◌≡◌, ◌≢◌, refl, ◌⊎◌, inl, inr, ⊎_elim, Bool, true, false,
  Option, none, some, List, arith, ltb, Bool-cases, ok, Result-cases,
}
use contextmesh_rs.Event.Body.{SignedEvent, Libraries}
use contextmesh_rs.Walk.{finished, out_of_fuel}
use contextmesh_rs.Walk.Outcomes.{of_result, of_result-finished, and_then-finished}
use contextmesh_rs.Store.Bundle.{Bundle}
use contextmesh_rs.Store.Sync.Page.{
  Searching, middle, narrow_to, try_page, search_page, search_start,
}

module _ (lib : Libraries) (context : ℕ) (remaining : List SignedEvent) (max_bundle_bytes : ℕ) where
  -- A page of so many events is too long.
  unfoldable pub Oversize : ℕ → Type 0
  Oversize count =
      (b : Bundle) × (try_page lib context remaining max_bundle_bytes count ≡ ok (b, false))

  -- The result of a search up to a count: nothing, where not one event fits, or a page that fits, and that is
  -- the longest one admitted or does not fit with one event more.
  unfoldable pub IsBest : ℕ → Option (ℕ × Bundle) → Type 0
  IsBest upper none = (upper ≡ 0) ⊎ Oversize 1
  IsBest upper (some (count, b)) =
      (1 ≤ count)
      × (count ≤ upper)
      × (try_page lib context remaining max_bundle_bytes count ≡ ok (b, true))
      × ((count ≡ upper) ⊎ Oversize (count + 1))

  -- What has been found below `low`.
  IsBelow : ℕ → Option (ℕ × Bundle) → Type 0
  IsBelow low none = low ≡ 1
  IsBelow low (some (count, b)) =
      (low ≡ count + 1)
      × (1 ≤ count)
      × (try_page lib context remaining max_bundle_bytes count ≡ ok (b, true))

  record IsSearching (upper : ℕ) (s : Searching) : Type 0 where
    bounds : (1 ≤ s.low) × (s.low ≤ s.high + 1) × (s.high ≤ upper)
    below : IsBelow s.low s.best
    above : (s.high ≡ upper) ⊎ Oversize (s.high + 1)

  searching_ends :
      (upper low high : ℕ) (best : Option (ℕ × Bundle))
      → low ≡ high + 1
      → high ≤ upper
      → IsBelow low best
      → ((high ≡ upper) ⊎ Oversize (high + 1))
      → IsBest upper best
  unfolding IsBest IsBelow
  searching_ends upper low high none e bound below above =
      let first : high + 1 ≡ 1 = omega (arith, e, below) in
      ⊎_elim (λ full. inl (omega (arith, first, full))) (λ long. inr (rw first at long)) above
  searching_ends upper low high (some (count, b)) e bound (at, positive, fits) above =
      let same : high ≡ count = omega (arith, e, at) in
      (positive, rw same at bound, fits, rw same at above)

  narrow_to-IsSearching :
      (upper : ℕ) (s : Searching) (b : Bundle) (fits : Bool)
      → s.low ≤ s.high
      → IsSearching upper s
      → try_page lib context remaining max_bundle_bytes (middle s) ≡ ok (b, fits)
      → IsSearching upper (narrow_to s b fits)
  unfolding narrow_to IsBelow Oversize
  narrow_to-IsSearching upper s b true wide k h = record {
    bounds = omega (arith, k.bounds, wide);
    below = (refl, omega (arith, k.bounds), h);
    above = k.above;
  }
  narrow_to-IsSearching upper s b false wide k h =
      let back : (middle s - 1) + 1 ≡ middle s = omega (arith, k.bounds, wide) in
      record { bounds = omega (arith, k.bounds, wide); below = k.below; above = inr (b, rw back h) }

  search_page-IsBest_from :
      (upper fuel : ℕ) (s : Searching) (best : Option (ℕ × Bundle))
      → IsSearching upper s
      → search_page lib context remaining max_bundle_bytes fuel s ≡ finished best
      → IsBest upper best
  unfolding search_page
  search_page-IsBest_from upper zero s best k h = cc
  search_page-IsBest_from upper (suc fuel) s best k h = elim (Bool-cases (ltb s.high s.low)) [
    | inl closed ↦
        let same : s.best ≡ best = ground (arith, closed, rw closed at h) in
        rw (← same) (
          searching_ends upper s.low s.high s.best (ground (arith, closed, k.bounds)) (k.bounds.2)
            k.below k.above)
    | inr wide ↦
        let ((b, fits), tries, rest) =
          and_then-finished (of_result (try_page lib context remaining max_bundle_bytes (middle s)))
            _ (rw wide at h) in
        let tried =
          of_result-finished (try_page lib context remaining max_bundle_bytes (middle s)) tries in
        search_page-IsBest_from upper fuel (narrow_to s b fits) best
          (narrow_to-IsSearching upper s b fits (ground (arith, wide)) k tried) rest
  ]

  -- The search over the counts from 1 to `upper` returns nothing, where not even one event fits, or a page that
  -- fits and is either the longest or does not fit with one event more.
  pub search_page-IsBest :
      (upper fuel : ℕ) (best : Option (ℕ × Bundle))
      → search_page lib context remaining max_bundle_bytes fuel (search_start upper) ≡ finished best
      → IsBest upper best
  unfolding IsBelow
  search_page-IsBest upper fuel best h =
      search_page-IsBest_from upper fuel (search_start upper) best
        (record { bounds = omega arith; below = refl; above = inl refl }) h

  narrow_to-less :
      (s : Searching) (b : Bundle) (fits : Bool) (fuel : ℕ)
      → s.low ≤ s.high
      → s.high + 1 - s.low < suc fuel
      → 1 ≤ s.low
      → ((narrow_to s b fits).high + 1 - (narrow_to s b fits).low < fuel)
        × (1 ≤ (narrow_to s b fits).low)
  unfolding narrow_to
  narrow_to-less s b true fuel wide enough positive = omega (arith, wide, enough, positive)
  narrow_to-less s b false fuel wide enough positive = omega (arith, wide, enough, positive)

  search_page_ends_from :
      (fuel : ℕ) (s : Searching)
      → s.high + 1 - s.low < fuel
      → 1 ≤ s.low
      → search_page lib context remaining max_bundle_bytes fuel s ≢ out_of_fuel
  unfolding search_page
  search_page_ends_from zero s enough positive h = absurd (omega (arith, enough))
  search_page_ends_from (suc fuel) s enough positive h = elim (Bool-cases (ltb s.high s.low)) [
    | inl closed ↦ ground (arith, closed, rw closed at h)
    | inr wide ↦ elim (Result-cases (try_page lib context remaining max_bundle_bytes (middle s))) [
      | inl ((b, fits), tries) ↦
          let less = narrow_to-less s b fits fuel (ground (arith, wide)) enough positive in
          search_page_ends_from fuel (narrow_to s b fits) less.0 less.1 (rw (wide, tries) at h)
      | inr (x, fails) ↦ cc (rw (wide, fails) at h)
    ]
  ]

  -- The search ends within the fuel that it is given.
  pub search_page_ends :
      (upper : ℕ)
      → search_page lib context remaining max_bundle_bytes (upper + 1) (search_start upper)
        ≢ out_of_fuel
  search_page_ends upper =
      search_page_ends_from (upper + 1) (search_start upper) (omega arith) (omega arith)
