-- ===== src/Store/Sync/Ends.antt =====
-- The exports end (`export_bundle`, src/store/bundle.rs, and `export_sync_page`, src/store/sync.rs).
use contextmesh_rs.Common.{
  ℕ, ◌+◌, ◌-◌, ◌≢◌, min, List, [], ◌∷◌, Bool-cases, inl, inr, length, is_empty,
}
use contextmesh_rs.Common.Slices.{drop}
use contextmesh_rs.Event.Body.{SignedEvent, Libraries}
use contextmesh_rs.Walk.{out_of_fuel}
use contextmesh_rs.Walk.Outcomes.{of_result, of_result_ends, and_then_ends}
use contextmesh_rs.Store.State.{Db}
use contextmesh_rs.Store.Project.{project_on, default_limits}
use contextmesh_rs.Store.Project.Complete.{project_on_ends}
use contextmesh_rs.Store.Bundle.Parts.{from_parts}
use contextmesh_rs.Store.Bundle.Export.{
  BundleLimits, LocalRef, check_export, project_ids, pack, export_bundle, unknown_events,
}
use contextmesh_rs.Store.Sync.Page.{
  check_page, check_active, check_offset, close_page, effective_known, search_page, search_start,
  select_page, page_tx, export_sync_page,
}
use contextmesh_rs.Store.Sync.Search.{search_page_ends}

module _ (lib : Libraries) (db : Db) (context : ℕ) where
  project_ids_ends : (heads : List ℕ) → project_ids lib db context heads ≢ out_of_fuel
  unfolding project_ids
  project_ids_ends [] h = cc
  project_ids_ends (x ∷ xs) h =
      and_then_ends (project_on lib db context default_limits (x ∷ xs)) _
        (project_on_ends lib db context default_limits (x ∷ xs)) (λ a e. cc e) h

  -- An export returns a bundle or an error: the fuel of its walks is enough.
  pub export_bundle_ends :
      (requested known : List ℕ) (snapshot : List LocalRef) (limits : BundleLimits)
      → export_bundle lib db context requested known snapshot limits ≢ out_of_fuel
  unfolding export_bundle
  export_bundle_ends requested known snapshot limits =
      and_then_ends (of_result (check_export limits requested known)) _
        (of_result_ends (check_export limits requested known))
        (λ (r, k).
          and_then_ends (project_on lib db context default_limits r) _
            (project_on_ends lib db context default_limits r)
            (λ a. and_then_ends (project_ids lib db context k) _ (project_ids_ends k) (λ known_ids.
              of_result_ends (pack lib db context limits snapshot a.ordered known_ids))))

  select_page_ends :
      (plan : List SignedEvent) (offset max_events max_bundle_bytes : ℕ) (effective : List ℕ)
      → select_page lib context plan offset max_events max_bundle_bytes effective ≢ out_of_fuel
  unfolding select_page
  select_page_ends plan offset max_events max_bundle_bytes effective =
      let upper = min (length plan - offset) max_events in
      and_then_ends (of_result (check_offset offset (length plan))) _
        (of_result_ends (check_offset offset (length plan)))
        (λ u. elim (Bool-cases (is_empty plan)) [
          | inl empty ↦ rw empty (
              and_then_ends (of_result (from_parts lib context [] [])) _
                (of_result_ends (from_parts lib context [] [])) (λ b e. cc e))
          | inr full ↦ rw full (
              and_then_ends
                (search_page lib context (drop offset plan) max_bundle_bytes (upper + 1)
                  (search_start upper))
                _ (search_page_ends lib context (drop offset plan) max_bundle_bytes upper)
                (λ best. of_result_ends (close_page plan offset effective best)))
        ])

  -- An export of a page returns a page or an error, for all inputs: the fuel of its walks and of its search is enough.
  pub export_sync_page_ends :
      (requested known : List ℕ) (offset max_events max_bundle_bytes : ℕ)
      → export_sync_page lib db context requested known offset max_events max_bundle_bytes
        ≢ out_of_fuel
  unfolding export_sync_page page_tx
  export_sync_page_ends requested known offset max_events max_bundle_bytes =
      and_then_ends (of_result (check_page max_events max_bundle_bytes requested known)) _
        (of_result_ends (check_page max_events max_bundle_bytes requested known))
        (λ (r, k).
          and_then_ends (of_result (check_active db context)) _
            (of_result_ends (check_active db context))
            (λ u.
              and_then_ends (of_result (effective_known lib db context k)) _
                (of_result_ends (effective_known lib db context k))
                (λ effective.
                  and_then_ends (project_on lib db context default_limits r) _
                    (project_on_ends lib db context default_limits r)
                    (λ a.
                      and_then_ends (project_ids lib db context effective) _
                        (project_ids_ends effective)
                        (λ known_ids.
                          select_page_ends (unknown_events known_ids a.ordered) offset max_events
                            max_bundle_bytes effective)))))
