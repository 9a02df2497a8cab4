-- ===== src/Store/Sync/Pages.antt =====
-- A page of an export and the pages of an export together (`export_sync_page`, src/store/sync.rs).
use contextmesh_rs.Common.{⊎_elim, Bytes, leb, ◌<◌}
use contextmesh_rs.Common.{
  ℕ, ◌+◌, ◌-◌, ◌≤◌, ◌≡◌, refl, sym, ap, ◌∙◌, ◌⊎◌, inl, inr, min, Bool, true, false, Option, none,
  some, List, [], ◌∷◌, arith, ltb, if◌then◌else◌, Bool-cases, length, is_empty, ok, >>=-eq-ok,
}
use contextmesh_rs.Common.Slices.{take, drop}
use contextmesh_rs.Event.Body.{SignedEvent, Libraries}
use contextmesh_rs.Walk.{Outcome, finished}
use contextmesh_rs.Walk.Outcomes.{of_result, of_result-finished, and_then-finished}
use contextmesh_rs.Store.State.{StoreError, bundle_limit_exceeded}
use contextmesh_rs.Store.Project.{checked_add}
use contextmesh_rs.Store.Bundle.{Bundle}
use contextmesh_rs.Store.Bundle.Parts.{from_parts, from_parts-InOrder}
use contextmesh_rs.Store.Bundle.Wire.{bundle_to_wire}
use contextmesh_rs.Store.Sync.Page.{
  SyncExportPage, check_offset, close_page, try_page, search_page, search_start, select_page,
}
use contextmesh_rs.Store.Sync.Search.{Oversize, IsBest, search_page-IsBest}

module _ (lib : Libraries) (context : ℕ) (plan : List SignedEvent)
    (max_events max_bundle_bytes : ℕ) where
  -- The bundle of a page, without refs.
  abbrev pub piece : List SignedEvent → Bundle
  piece es = record { context = context; events = es; refs = [] }

  -- A page of a plan: the events from the offset on, as many as the limits admit, and where the next page starts.
  pub record IsPage (offset : ℕ) (page : SyncExportPage) : Type 0 where
    pub count : ℕ
    pub within : offset ≤ length plan
    pub events : page.bundle.events ≡ take count (drop offset plan)
    pub no_refs : page.bundle.refs ≡ []
    pub next :
        page.next_offset
        ≡ (if ltb (offset + count) (length plan) then some (offset + count) else none)
    pub progress : (plan ≡ []) ⊎ (1 ≤ count)
    pub few : count ≤ min (length plan - offset) max_events
    pub fits :
        (plan ≡ [])
        ⊎ (w : Bytes) × (bundle_to_wire lib page.bundle ≡ ok w) × (length w ≤ max_bundle_bytes)
    pub longest :
        (count ≡ min (length plan - offset) max_events)
        ⊎ (w : Bytes) × (bundle_to_wire lib (piece (take (count + 1) (drop offset plan))) ≡ ok w)
          × (max_bundle_bytes < length w)

  -- A page that was tried is the piece of so many events, and its wire was compared with the bound.
  try_page-wire :
      (remaining : List SignedEvent) (count : ℕ) (b : Bundle) (fits : Bool)
      → try_page lib context remaining max_bundle_bytes count ≡ ok (b, fits)
      → (b ≡ piece (take count remaining))
        × ((w : Bytes) × (bundle_to_wire lib (piece (take count remaining)) ≡ ok w)
            × (leb (length w) max_bundle_bytes ≡ fits))
  unfolding try_page
  try_page-wire remaining count b fits h =
      let (c, parts, h₁) = >>=-eq-ok (from_parts lib context (take count remaining) []) _ h in
      let (w, writes, last) = >>=-eq-ok (bundle_to_wire lib c) _ h₁ in
      let same : c ≡ b = ground (arith, last) in
      let made = (from_parts-InOrder lib context (take count remaining) [] c parts).0 in
      (sym same ∙ made, (w, ap (bundle_to_wire lib) (sym made) ∙ writes, ground (arith, last)))

  too_long :
      (remaining : List SignedEvent) (count : ℕ)
      → Oversize lib context remaining max_bundle_bytes count
      → (w : Bytes) × (bundle_to_wire lib (piece (take count remaining)) ≡ ok w)
        × (max_bundle_bytes < length w)
  unfolding Oversize
  too_long remaining count (b, tries) =
      let (_, (w, writes, short)) = try_page-wire remaining count b false tries in
      (w, writes, ground (arith, short))

  abbrev paged : ℕ → List ℕ → Bundle → SyncExportPage
  paged next effective b = record {
    bundle = b;
    effective_known_heads = effective;
    next_offset = if ltb next (length plan) then some next else none;
  }

  close_page-IsPage :
      (offset : ℕ) (effective : List ℕ) (best : Option (ℕ × Bundle)) (page : SyncExportPage)
      → offset ≤ length plan
      → IsBest lib context
          (drop offset plan)
          max_bundle_bytes
          (min (length plan - offset) max_events)
          best
      → close_page plan offset effective best ≡ ok page
      → IsPage offset page
  unfolding close_page IsBest
  close_page-IsPage offset effective none page within found h = cc
  close_page-IsPage offset effective (some (count, b)) page within (positive, few, fits, longest)
        h =
      let (parts, (w, writes, short)) = try_page-wire (drop offset plan) count b true fits in
      let (next, sum, last) = >>=-eq-ok (checked_add bundle_limit_exceeded offset count) _ h in
      let same : next ≡ offset + count = ground (arith, sum) in
      let bundles : b ≡ page.bundle = ground (arith, last) in
      let pages : page ≡ paged next effective b = cc last in
      let nexts = ap (λ (x : SyncExportPage). x.next_offset) pages in
      record {
        count = count;
        within = within;
        events = ap (λ (x : Bundle). x.events) (sym bundles ∙ parts);
        no_refs = ap (λ (x : Bundle). x.refs) (sym bundles ∙ parts);
        next = rw (← same) nexts;
        progress = inr positive;
        few = few;
        fits =
            inr (w, rw (← bundles) (ap (bundle_to_wire lib) parts ∙ writes), ground (arith, short));
        longest = ⊎_elim inl (λ o. inr (too_long (drop offset plan) (count + 1) o)) longest;
      }

  check_offset-within :
      (offset : ℕ) → check_offset offset (length plan) ≡ ok tt → offset ≤ length plan
  unfolding check_offset
  check_offset-within offset h = ground arith

  -- The page of an empty plan.
  empty-IsPage :
      (offset : ℕ) (page : SyncExportPage) (b : Bundle)
      → plan ≡ []
      → offset ≤ length plan
      → from_parts lib context [] [] ≡ ok b
      → b ≡ page.bundle
      → page.next_offset ≡ none
      → IsPage offset page
  unfolding take
  empty-IsPage offset page b empty within parts bundles last =
      let same = sym bundles ∙ (from_parts-InOrder lib context [] [] b parts).0 in
      let zero_length : length plan ≡ 0 = ap (λ (es : List SignedEvent). length es) empty in
      let behind : ltb (offset + 0) (length plan) ≡ false = ground (arith, zero_length) in
      record {
        count = 0;
        within = within;
        events = ap (λ (x : Bundle). x.events) same;
        no_refs = ap (λ (x : Bundle). x.refs) same;
        next = rw (behind, last) refl;
        progress = inl empty;
        few = omega arith;
        fits = inl empty;
        longest = inl (omega (arith, zero_length));
      }

  finished_same :
      {p q : SyncExportPage}
      → ◌≡◌ {A = Outcome StoreError SyncExportPage} (finished p) (finished q)
      → q ≡ p
  finished_same h = cc

  is_empty-nil : (es : List SignedEvent) → is_empty es ≡ true → es ≡ []
  is_empty-nil [] h = refl
  is_empty-nil (e ∷ es) h = cc

  pub select_page-IsPage :
      (offset : ℕ) (effective : List ℕ) (page : SyncExportPage)
      → select_page lib context plan offset max_events max_bundle_bytes effective ≡ finished page
      → IsPage offset page
  unfolding select_page
  select_page-IsPage offset effective page h =
      let (_, checks, h₁) = and_then-finished (of_result (check_offset offset (length plan))) _ h in
      let within =
        check_offset-within offset
          (of_result-finished (check_offset offset (length plan)) checks) in
      let upper = min (length plan - offset) max_events in
      elim (Bool-cases (is_empty plan)) [
        | inl empty ↦
            let (b, parts, last) =
              and_then-finished (of_result (from_parts lib context [] [])) _ (rw empty at h₁) in
            empty-IsPage offset page b (is_empty-nil plan empty) within
              (of_result-finished (from_parts lib context [] []) parts) (ground (arith, last))
              (ap (λ (x : SyncExportPage). x.next_offset) (finished_same last))
        | inr full ↦
            let (best, found, last) =
              and_then-finished
                (search_page lib context (drop offset plan) max_bundle_bytes (upper + 1)
                  (search_start upper))
                _ (rw full at h₁) in
            close_page-IsPage offset effective best page within
              (search_page-IsBest lib context (drop offset plan) max_bundle_bytes upper (upper + 1)
                best found)
              (of_result-finished (close_page plan offset effective best) last)
      ]
