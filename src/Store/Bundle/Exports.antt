-- ===== src/Store/Bundle/Exports.antt =====
-- What an export holds (`export_bundle`, src/store/bundle.rs).
use contextmesh_rs.Common.{
  ℕ, ◌≡◌, refl, sym, ap, ◌∙◌, ◌↔◌, false, not, List, [], ◌∷◌, Memᴰ, All, arith, Bytes, ltb, length,
  contains, sort, dedup, sort_dedup, ok, refuse, >>=-eq-ok,
}
use contextmesh_rs.Common.Table.{id_eq}
use contextmesh_rs.Event.Body.{SignedEvent, Libraries}
use contextmesh_rs.Walk.{finished}
use contextmesh_rs.Walk.Reach.{Reach}
use contextmesh_rs.Walk.Outcomes.{of_result, of_result-finished, and_then-finished}
use contextmesh_rs.Store.State.{Db, bundle_limit_exceeded}
use contextmesh_rs.Store.Project.{Projecting, project_on, default_limits}
use contextmesh_rs.Store.Project.Order.{ids, ParentsFirst}
use contextmesh_rs.Store.Project.Keeps.{loaded_parents}
use contextmesh_rs.Store.Project.Complete.{project_on-Projects}
use contextmesh_rs.Store.Bundle.{AdvertisedRef, Bundle}
use contextmesh_rs.Store.Bundle.Parts.{from_parts, InOrder, from_parts-InOrder}
use contextmesh_rs.Store.Bundle.Wire.{bundle_to_wire}
use contextmesh_rs.Event.Wire.RoundTrip.{ReadsBack}
use contextmesh_rs.Store.Bundle.Export.{
  BundleLimits, LocalRef, check_export, normalize_bundle_heads, normalize_known,
  validate_bundle_limits, unknown_events, advertise_all, sort_refs, project_ids, pack,
  export_bundle,
}
use contextmesh_rs.Store.Bundle.Sent.{
  Memᴰ-unknown, All-keep, without, project_ids-exact, project_ids-ParentsFirst, loaded_reads,
}

module _ (lib : Libraries) (db : Db) (context : ℕ) where
  -- An exported bundle: the ancestry of the requested heads without that of the known ones, each event once
  -- and behind those of its parents that are not known, verified, of the context, and with a wire that parses back
  -- to it.
  pub record Exports (requested known : List ℕ) (b : Bundle) : Type 0 where
    pub exact :
        (j : ℕ)
        → Memᴰ j (ids b.events) ↔ (
            Reach (loaded_parents lib db context) (sort_dedup requested) j
            × (Reach (loaded_parents lib db context) (sort_dedup known) j → ⊥))
    pub same_context : b.context ≡ context
    pub order : InOrder lib context (ids b.events) [] b.events
    pub once :
        ParentsFirst (λ j. Reach (loaded_parents lib db context) (sort_dedup known) j) b.events
    pub reads : All (ReadsBack lib) b.events

  -- What `pack` has done, where it succeeds.
  pub record Packs (limits : BundleLimits) (snapshot : List LocalRef) (es : List SignedEvent)
      (known_ids : List ℕ) (b : Bundle) : Type 0 where
    pub few_events : ltb limits.max_events (length (unknown_events known_ids es)) ≡ false
    pub few_refs : ltb limits.max_refs (length snapshot) ≡ false
    pub refs : List AdvertisedRef
    pub advertised : advertise_all lib db context snapshot ≡ ok refs
    pub parts : from_parts lib context (unknown_events known_ids es) (sort_refs refs) ≡ ok b
    pub wire : Bytes
    pub writes : bundle_to_wire lib b ≡ ok wire
    pub short : ltb limits.max_canonical_bytes (length wire) ≡ false

  pack-Packs :
      (limits : BundleLimits) (snapshot : List LocalRef) (es : List SignedEvent)
      (known_ids : List ℕ) (b : Bundle)
      → pack lib db context limits snapshot es known_ids ≡ ok b
      → Packs limits snapshot es known_ids b
  unfolding pack
  pack-Packs limits snapshot es known_ids b h =
      let (_, few, h₁) =
        >>=-eq-ok
          (refuse (ltb limits.max_events (length (unknown_events known_ids es)))
            bundle_limit_exceeded)
          _ h in
      let (_, few_refs, h₂) =
        >>=-eq-ok (refuse (ltb limits.max_refs (length snapshot)) bundle_limit_exceeded) _ h₁ in
      let (refs, advertised, h₃) = >>=-eq-ok (advertise_all lib db context snapshot) _ h₂ in
      let (c, parts, h₄) =
        >>=-eq-ok (from_parts lib context (unknown_events known_ids es) (sort_refs refs)) _ h₃ in
      let (wire, writes, h₅) = >>=-eq-ok (bundle_to_wire lib c) _ h₄ in
      let (_, short, last) =
        >>=-eq-ok (refuse (ltb limits.max_canonical_bytes (length wire)) bundle_limit_exceeded) _
          h₅ in
      let same : c ≡ b = ground (arith, last) in
      record {
        few_events = ground (arith, few);
        few_refs = ground (arith, few_refs);
        short = ground (arith, short);
        refs = refs;
        advertised = advertised;
        parts = parts ∙ ap ok same;
        wire = wire;
        writes = ap (bundle_to_wire lib) (sym same) ∙ writes;
      }

  normalize_bundle_heads-sorts :
      (heads r : List ℕ) → normalize_bundle_heads heads ≡ ok r → r ≡ sort_dedup heads
  unfolding normalize_bundle_heads
  normalize_bundle_heads-sorts heads r h = ground (arith, h)

  normalize_known-sorts : (heads r : List ℕ) → normalize_known heads ≡ ok r → r ≡ sort_dedup heads
  unfolding normalize_known sort_dedup sort dedup
  normalize_known-sorts [] r h = ground (arith, h)
  normalize_known-sorts (x ∷ xs) r h = normalize_bundle_heads-sorts (x ∷ xs) r h

  check_export-sorts :
      (limits : BundleLimits) (requested known r k : List ℕ)
      → check_export limits requested known ≡ ok (r, k)
      → (validate_bundle_limits limits ≡ ok tt)
        × (r ≡ sort_dedup requested)
        × (k ≡ sort_dedup known)
  unfolding check_export normalize_known
  check_export-sorts limits requested known r k h =
      let (_, bounded, h₁) = >>=-eq-ok (validate_bundle_limits limits) _ h in
      let (a, requests, h₂) = >>=-eq-ok (normalize_bundle_heads requested) _ h₁ in
      let (c, knows, last) = >>=-eq-ok (normalize_known known) _ h₂ in
      let same : (a, c) ≡ (r, k) = cc last in
      (
        bounded,
        sym (ap (λ (x : List ℕ × List ℕ). x.0) same)
            ∙ normalize_bundle_heads-sorts requested a requests,
        sym (ap (λ (x : List ℕ × List ℕ). x.1) same) ∙ normalize_known-sorts known c knows,
      )

  -- What a successful export went through.
  pub record Exporting (requested known : List ℕ) (snapshot : List LocalRef) (limits : BundleLimits)
      (b : Bundle) : Type 0 where
    pub bounded : validate_bundle_limits limits ≡ ok tt
    pub walked : Projecting
    pub walks : project_on lib db context default_limits (sort_dedup requested) ≡ finished walked
    pub known_ids : List ℕ
    pub knows : project_ids lib db context (sort_dedup known) ≡ finished known_ids
    pub packs : Packs limits snapshot walked.ordered known_ids b

  pub export_bundle-Exporting :
      (requested known : List ℕ) (snapshot : List LocalRef) (limits : BundleLimits) (b : Bundle)
      → export_bundle lib db context requested known snapshot limits ≡ finished b
      → Exporting requested known snapshot limits b
  unfolding export_bundle
  export_bundle-Exporting requested known snapshot limits b h =
      let ((r, k), checks, h₁) =
        and_then-finished (of_result (check_export limits requested known)) _ h in
      let (a, walks, h₂) = and_then-finished (project_on lib db context default_limits r) _ h₁ in
      let (known_ids, knows, last) = and_then-finished (project_ids lib db context k) _ h₂ in
      let (bounded, rs, ks) =
        check_export-sorts limits requested known r k
          (of_result-finished (check_export limits requested known) checks) in
      record {
        bounded = bounded;
        walked = a;
        walks = rw (← rs) walks;
        known_ids = known_ids;
        knows = rw (← ks) knows;
        packs =
            pack-Packs limits snapshot a.ordered known_ids b
              (of_result-finished (pack lib db context limits snapshot a.ordered known_ids) last);
      }

  -- An export that returns a bundle has put into it exactly the ancestry of the requested heads without the
  -- ancestry of the known ones, each event once and behind those of its parents that are not known, verified, of the
  -- context, and with a wire that parses back to it.
  pub export_bundle-Exports :
      (requested known : List ℕ) (snapshot : List LocalRef) (limits : BundleLimits) (b : Bundle)
      → export_bundle lib db context requested known snapshot limits ≡ finished b
      → Exports requested known b
  export_bundle-Exports requested known snapshot limits b h =
      let e = export_bundle-Exporting requested known snapshot limits b h in
      let p =
        project_on-Projects lib db context default_limits (sort_dedup requested) e.walked e.walks in
      let known_ids = e.known_ids in
      let sent = unknown_events known_ids e.walked.ordered in
      let (same, order, _, _) =
        from_parts-InOrder lib context sent (sort_refs e.packs.refs) b e.packs.parts in
      rw same (record {
        exact = λ j.
            without (Memᴰ-unknown j known_ids e.walked.ordered) (p.exact j)
              (project_ids-exact lib db context (sort_dedup known) known_ids j e.knows);
        same_context = refl;
        order = order;
        once =
            project_ids-ParentsFirst lib db context (sort_dedup known) known_ids e.walked.ordered
              e.knows p.order;
        reads =
            All-keep (ReadsBack lib) (λ (x : SignedEvent). not (contains known_ids x.event_id))
              e.walked.ordered (loaded_reads lib db context e.walked.ordered p.loads);
      })
