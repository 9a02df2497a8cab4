-- ===== src/Store/Sync/Sequence.antt =====
-- Pages in sequence (`export_sync_page`, src/store/sync.rs).
use mathlib.Core.List.{append-nil}
use contextmesh_rs.Common.{
  ℕ, ◌+◌, ◌≤◌, ◌≡◌, sym, ap, ◌∙◌, none, some, List, ◌++◌, arith, ltb, Bool-cases, inl, inr, length,
}
use contextmesh_rs.Common.Slices.{take, drop, drop_all, take-drop}
use contextmesh_rs.Event.Body.{SignedEvent, Libraries}
use contextmesh_rs.Walk.{Outcome, finished}
use contextmesh_rs.Store.State.{StoreError}
use contextmesh_rs.Store.Sync.Page.{SyncExportPage}
use contextmesh_rs.Store.Sync.Pages.{IsPage}

-- The pages from an offset on, where each one starts at the offset that the one before has named, and their events.
pub data Pages (step : ℕ → Outcome StoreError SyncExportPage) : ℕ → List SignedEvent → Type 0 where
  last_page :
      {offset : ℕ} {page : SyncExportPage}
      → step offset ≡ finished page
      → page.next_offset ≡ none
      → Pages step offset page.bundle.events
  next_page :
      {offset next : ℕ} {page : SyncExportPage} {es : List SignedEvent}
      → step offset ≡ finished page
      → page.next_offset ≡ some next
      → Pages step next es
      → Pages step offset (page.bundle.events ++ es)

module _ (lib : Libraries) (context : ℕ) (plan : List SignedEvent)
    (max_events max_bundle_bytes : ℕ) where
  next_none :
      (offset : ℕ) (page : SyncExportPage)
      → (p : IsPage lib context plan max_events max_bundle_bytes offset page)
      → page.next_offset ≡ none
      → length plan ≤ offset + p.count
  next_none offset page p h = elim (Bool-cases (ltb (offset + p.count) (length plan))) [
    | inl more ↦ cc (rw more at p.next, h)
    | inr behind ↦ ground (arith, behind)
  ]

  next_some :
      (offset next : ℕ) (page : SyncExportPage)
      → (p : IsPage lib context plan max_events max_bundle_bytes offset page)
      → page.next_offset ≡ some next
      → next ≡ offset + p.count
  next_some offset next page p h = elim (Bool-cases (ltb (offset + p.count) (length plan))) [
    | inl more ↦ cc (rw more at p.next, h)
    | inr behind ↦ cc (rw behind at p.next, h)
  ]

  -- The pages from an offset on hold the plan from there on.
  pub Pages-drop :
      (step : ℕ → Outcome StoreError SyncExportPage)
      → ((offset : ℕ) (page : SyncExportPage)
          → step offset ≡ finished page
          → IsPage lib context plan max_events max_bundle_bytes offset page)
      → (offset : ℕ) (es : List SignedEvent) → Pages step offset es
      → es ≡ drop offset plan
  Pages-drop step pages offset es (last_page {page = page} at last) =
      let p = pages offset page at in
      let rest = drop_all (offset + p.count) plan (next_none offset page p last) in
      p.events
      ∙ sym (append-nil (take p.count (drop offset plan)))
      ∙ ap (λ xs. take p.count (drop offset plan) ++ xs) (sym rest)
      ∙ take-drop p.count offset plan
  Pages-drop step pages offset es
        (next_page {next = next} {page = page} {es = others} at more run) =
      let p = pages offset page at in
      let rest = Pages-drop step pages next others run in
      let from = next_some offset next page p more in
      ap (λ xs. page.bundle.events ++ xs) (rest ∙ ap (λ n. drop n plan) from)
      ∙ ap (λ xs. xs ++ drop (offset + p.count) plan) p.events
      ∙ take-drop p.count offset plan
