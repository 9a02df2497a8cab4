-- ===== src/Store/Sync/Whole.antt =====
-- The pages of an export, one after the other (`export_sync_page`, src/store/sync.rs).
use mathlib.Core.List.Memᴰ
use contextmesh_rs.Common.{
  ⊎_elim, Memᴰ-cons, Memᴰ-sort_dedup, Option, some, [], ◌∷◌, Bool-cases, inl, inr, false,
}
use contextmesh_rs.Store.State.{StoreResult}
use contextmesh_rs.Store.Rows.{authoritative_event_context}
use contextmesh_rs.Store.Refs.{is_head}
use contextmesh_rs.Store.Refs.Swap.{is_head-some}
use contextmesh_rs.Common.{
  ℕ, ◌≡◌, sym, ap, subst, ◌∙◌, ◌↔◌, not, ◌||◌, ◌==◌, List, Memᴰ, All, arith, ltb, length, contains,
  sort_dedup, ok, >>=-eq-ok, refuse,
}
use contextmesh_rs.Common.Slices.{drop}
use contextmesh_rs.Event.Body.{SignedEvent, Libraries}
use contextmesh_rs.Walk.{finished}
use contextmesh_rs.Walk.Reach.{Reach}
use contextmesh_rs.Walk.Outcomes.{of_result, and_then, of_result-finished, and_then-finished}
use contextmesh_rs.Store.State.{Db, bundle_limit_exceeded}
use contextmesh_rs.Store.Project.{
  Projecting, project_on, default_limits, normalize_heads, max_bundle_events,
}
use contextmesh_rs.Store.Project.Order.{ids, ParentsFirst}
use contextmesh_rs.Store.Project.Keeps.{loaded_parents}
use contextmesh_rs.Store.Project.Complete.{project_on-Projects}
use contextmesh_rs.Store.Bundle.{max_bundle_refs, max_bundle_canonical_bytes}
use contextmesh_rs.Event.Wire.RoundTrip.{ReadsBack}
use contextmesh_rs.Store.Bundle.Export.{unknown_events, project_ids}
use contextmesh_rs.Store.Bundle.Sent.{
  Memᴰ-unknown, All-keep, without, project_ids-exact, project_ids-ParentsFirst, loaded_reads,
}
use contextmesh_rs.Store.Sync.Page.{
  SyncExportPage, check_page, check_active, effective_known, select_page, page_tx, export_sync_page,
}
use contextmesh_rs.Store.Sync.Pages.{IsPage, select_page-IsPage}
use contextmesh_rs.Store.Sync.Sequence.{last_page, next_page, Pages-drop, Pages}

module _ (lib : Libraries) (db : Db) (context : ℕ) (requested known : List ℕ)
    (max_events max_bundle_bytes : ℕ) where
  -- The plan of an export, which its pages share.
  record Planned : Type 0 where
    checks :
        check_page max_events max_bundle_bytes requested known
        ≡ ok (sort_dedup requested, sort_dedup known)
    is_active : check_active db context ≡ ok tt
    effective : List ℕ
    knows : effective_known lib db context (sort_dedup known) ≡ ok effective
    walked : Projecting
    walks : project_on lib db context default_limits (sort_dedup requested) ≡ finished walked
    known_ids : List ℕ
    known_walk : project_ids lib db context effective ≡ finished known_ids

  abbrev plan_of : Planned → List SignedEvent
  plan_of p = unknown_events p.known_ids p.walked.ordered

  normalize_heads-sorts : (r : List ℕ) → normalize_heads requested ≡ ok r → r ≡ sort_dedup requested
  unfolding normalize_heads
  normalize_heads-sorts r h = ground (arith, h)

  check_page-sorts :
      (r k : List ℕ)
      → check_page max_events max_bundle_bytes requested known ≡ ok (r, k)
      → ◌≡◌ {A = List ℕ × List ℕ} (r, k) (sort_dedup requested, sort_dedup known)
  unfolding check_page
  check_page-sorts r k h =
      let (_, _, h₁) =
        >>=-eq-ok
          (refuse
            (max_events == 0
              || (ltb max_bundle_events max_events
                  || (max_bundle_bytes == 0 || ltb max_bundle_canonical_bytes max_bundle_bytes)))
            bundle_limit_exceeded)
          _ h in
      let (a, sorts, h₂) = >>=-eq-ok (normalize_heads requested) _ h₁ in
      let (_, _, last) =
        >>=-eq-ok (refuse (ltb max_bundle_refs (length known)) bundle_limit_exceeded) _ h₂ in
      let same : ◌≡◌ {A = List ℕ × List ℕ} (a, sort_dedup known) (r, k) = cc last in
      sym same ∙ ap (λ (x : List ℕ). (x, sort_dedup known)) (normalize_heads-sorts a sorts)

  page_tx-Planned :
      (r k : List ℕ) (offset : ℕ) (page : SyncExportPage)
      → check_page max_events max_bundle_bytes requested known ≡ ok (r, k)
      → page_tx lib db context r k offset max_events max_bundle_bytes ≡ finished page
      → Planned
  unfolding page_tx
  page_tx-Planned r k offset page checked h =
      let (_, is_active, h₂) = and_then-finished (of_result (check_active db context)) _ h in
      let (effective, knows, h₃) =
        and_then-finished (of_result (effective_known lib db context k)) _ h₂ in
      let (a, walks, h₄) = and_then-finished (project_on lib db context default_limits r) _ h₃ in
      let (known_ids, known_walk, _) =
        and_then-finished (project_ids lib db context effective) _ h₄ in
      let pair = check_page-sorts r k checked in
      record {
        checks = checked ∙ ap ok pair;
        is_active = of_result-finished (check_active db context) is_active;
        effective = effective;
        knows =
            ap (λ (x : List ℕ × List ℕ). effective_known lib db context x.1) (sym pair)
            ∙ of_result-finished (effective_known lib db context k) knows;
        walked = a;
        walks =
            ap (λ (x : List ℕ × List ℕ). project_on lib db context default_limits x.0) (sym pair)
            ∙ walks;
        known_ids = known_ids;
        known_walk = known_walk;
      }

  export_sync_page-Planned :
      (offset : ℕ) (page : SyncExportPage)
      → export_sync_page lib db context requested known offset max_events max_bundle_bytes
        ≡ finished page
      → Planned
  unfolding export_sync_page
  export_sync_page-Planned offset page h =
      let ((r, k), checks, h₁) =
        and_then-finished (of_result (check_page max_events max_bundle_bytes requested known)) _
          h in
      page_tx-Planned r k offset page
        (of_result-finished (check_page max_events max_bundle_bytes requested known) checks) h₁

  Planned-page :
      (p : Planned) (offset : ℕ)
      → export_sync_page lib db context requested known offset max_events max_bundle_bytes
        ≡ select_page lib context (plan_of p) offset max_events max_bundle_bytes p.effective
  unfolding export_sync_page page_tx and_then of_result
  Planned-page p offset = simp (p.checks, p.is_active, p.knows, p.walks, p.known_walk)

  -- A page is one of the plan of its export.
  planned-IsPage :
      (p : Planned) (offset : ℕ) (page : SyncExportPage)
      → export_sync_page lib db context requested known offset max_events max_bundle_bytes
        ≡ finished page
      → IsPage lib context (plan_of p) max_events max_bundle_bytes offset page
  planned-IsPage p offset page h =
      select_page-IsPage lib context (plan_of p) max_events max_bundle_bytes offset p.effective page
        (sym (Planned-page p offset) ∙ h)

  not_here :
      (x : ℕ) (found : Option ℕ)
      → authoritative_event_context lib db x ≡ ok found
      → is_head found context ≡ false
      → authoritative_event_context lib db x ≡ ok (some context)
      → ⊥
  unfolding is_head
  not_here x found at outside here =
      let both : ◌≡◌ {A = StoreResult (Option ℕ)} (ok found) (ok (some context)) = sym at ∙ here in
      let same : found ≡ some context = cc both in ground (arith, rw same at outside)

  effective_known-Memᴰ :
      (hs effective : List ℕ) (h : ℕ)
      → effective_known lib db context hs ≡ ok effective
      → Memᴰ h effective ↔ (Memᴰ h hs × (authoritative_event_context lib db h ≡ ok (some context)))
  unfolding effective_known
  effective_known-Memᴰ [] effective h e =
      let same : [] ≡ effective = ground (arith, e) in
      rw (← same) (λ m. absurd (Memᴰ.not-nil m), λ m. absurd (Memᴰ.not-nil m.0))
  effective_known-Memᴰ (x ∷ xs) effective h e =
      let (found, at, e₁) = >>=-eq-ok (authoritative_event_context lib db x) _ e in
      let (others, rest, last) = >>=-eq-ok (effective_known lib db context xs) _ e₁ in
      let (out, into) = effective_known-Memᴰ xs others h rest in
      elim (Bool-cases (is_head found context)) [
        | inl inside ↦
            let same : x ∷ others ≡ effective = ground (arith, rw inside at last) in
            let here = at ∙ ap ok (is_head-some found context inside) in
            rw (← same) (
              λ m.
                  ⊎_elim
                    (λ is_x. (
                      Memᴰ.head is_x,
                      subst (λ j. authoritative_event_context lib db j ≡ ok (some context))
                          (sym is_x) here,
                    ))
                    (λ n. let (k, a) = out n in (Memᴰ.tail k, a)) ((Memᴰ-cons h x others).0 m),
              λ (m, a).
                  ⊎_elim (λ is_x. Memᴰ.head is_x) (λ n. Memᴰ.tail (into (n, a)))
                    ((Memᴰ-cons h x xs).0 m),
            )
        | inr outside ↦
            let same : others ≡ effective = ground (arith, rw outside at last) in
            rw (← same) (
              λ m. let (k, a) = out m in (Memᴰ.tail k, a),
              λ (m, a).
                  ⊎_elim
                    (λ is_x. absurd (
                      not_here x found at outside (
                        subst (λ j. authoritative_event_context lib db j ≡ ok (some context)) is_x
                          a)))
                    (λ n. into (n, a)) ((Memᴰ-cons h x xs).0 m),
            )
      ]

  -- The events of an export: the ancestry of the requested heads without that of those known heads that are
  -- in the context, each once and behind those of its parents that are not known, and with a wire that parses back to it.
  pub record AreExported (es : List SignedEvent) : Type 0 where
    pub effective : List ℕ
    pub knows :
        (h : ℕ)
        → Memᴰ h effective
          ↔ (Memᴰ h known × (authoritative_event_context lib db h ≡ ok (some context)))
    pub exact :
        (j : ℕ)
        → Memᴰ j (ids es) ↔ (
            Reach (loaded_parents lib db context) (sort_dedup requested) j
            × (Reach (loaded_parents lib db context) effective j → ⊥))
    pub order : ParentsFirst (λ j. Reach (loaded_parents lib db context) effective j) es
    pub reads : All (ReadsBack lib) es

  known_effective :
      {A : Type 0} (h : ℕ) {B : Type 0}
      → B ↔ (Memᴰ h (sort_dedup known) × A)
      → B ↔ (Memᴰ h known × A)
  known_effective h (out, into) =
      let (there, back) = Memᴰ-sort_dedup h known in
      (λ b. let (m, a) = out b in (there m, a), λ (m, a). into (back m, a))

  plan-AreExported : (p : Planned) → AreExported (plan_of p)
  plan-AreExported p =
      let a =
        project_on-Projects lib db context default_limits (sort_dedup requested) p.walked p.walks in
      let known_ids = p.known_ids in
      record {
        effective = p.effective;
        knows =
            λ h. known_effective h (effective_known-Memᴰ (sort_dedup known) p.effective h p.knows);
        exact = λ j.
            without (Memᴰ-unknown j known_ids p.walked.ordered) (a.exact j)
              (project_ids-exact lib db context p.effective known_ids j p.known_walk);
        order =
            project_ids-ParentsFirst lib db context p.effective known_ids p.walked.ordered
              p.known_walk a.order;
        reads =
            All-keep (ReadsBack lib) (λ (x : SignedEvent). not (contains known_ids x.event_id))
              p.walked.ordered (loaded_reads lib db context p.walked.ordered a.loads);
      }

  first_planned :
      {es : List SignedEvent}
      → Pages
          (λ offset.
            export_sync_page lib db context requested known offset max_events max_bundle_bytes)
          0
          es
      → Planned
  first_planned (last_page {page = page} at last) = export_sync_page-Planned 0 page at
  first_planned (next_page {page = page} at more run) = export_sync_page-Planned 0 page at

  -- The pages of an export over one snapshot of the store, from the offset 0 on and each from where the one before
  -- has named, hold together the ancestry of the requested heads without that of the known heads of the context,
  -- with nothing lost or sent that is known, each event once and behind those of its parents that are not known, and
  -- with a wire that parses back to it.
  pub export_sync_page-AreExported :
      (es : List SignedEvent)
      → Pages
          (λ offset.
            export_sync_page lib db context requested known offset max_events max_bundle_bytes)
          0
          es
      → AreExported es
  unfolding drop
  export_sync_page-AreExported es run =
      let p = first_planned run in
      let whole =
        Pages-drop lib context (plan_of p) max_events max_bundle_bytes _ (planned-IsPage p) 0 es
          run in
      subst AreExported (sym whole) (plan-AreExported p)

  -- A page that is returned holds a piece of the plan of the export from the offset on, names where the next one
  -- starts if there is more, goes on by one event at least unless the plan is empty, fits in the limits, and is the
  -- longest admitted or would not fit with one event more.
  pub export_sync_page-IsPage :
      (offset : ℕ) (page : SyncExportPage)
      → export_sync_page lib db context requested known offset max_events max_bundle_bytes
        ≡ finished page
      → (plan : List SignedEvent) × AreExported plan
        × IsPage lib context plan max_events max_bundle_bytes offset page
  export_sync_page-IsPage offset page h =
      let p = export_sync_page-Planned offset page h in
      (plan_of p, plan-AreExported p, planned-IsPage p offset page h)
