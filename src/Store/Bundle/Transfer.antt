-- ===== src/Store/Bundle/Transfer.antt =====
-- An export in one store and the import of its wire in another (`export_bundle`, `import_bundle`,
-- src/store/bundle.rs).
use contextmesh_rs.Common.{true}
use contextmesh_rs.Event.Exact.{IsExact}
use contextmesh_rs.Event.Body.{event_id, context_id}
use contextmesh_rs.Common.{ℕ, ◌≡◌, List, All, Bytes, ok}
use contextmesh_rs.Event.Body.{SignedEvent, Libraries}
use contextmesh_rs.Event.Wire.RoundTrip.{Documented}
use contextmesh_rs.Walk.{finished}
use contextmesh_rs.Store.State.{Db}
use contextmesh_rs.Store.Bundle.{Bundle}
use contextmesh_rs.Store.Bundle.Wire.{validate_name, bundle_to_wire}
use contextmesh_rs.Store.Bundle.Export.{BundleLimits, LocalRef, unknown_events, export_bundle}
use contextmesh_rs.Store.Bundle.Exports.{Exporting, export_bundle-Exporting}

module _ (lib : Libraries) (db : Db) (context : ℕ) where
  -- The names of the local refs of a store are in the grammar.
  abbrev pub AreNamed : List LocalRef → Type 0
  AreNamed = All (λ (l : LocalRef). validate_name l.name ≡ ok tt)

  -- The heads of the local refs are identifiers.
  abbrev pub AreHeads : List LocalRef → Type 0
  AreHeads = All (λ (l : LocalRef). lib.is_id event_id l.head ≡ true)

  module _ (laws : Documented lib) (requested known : List ℕ) (snapshot : List LocalRef)
      (limits : BundleLimits) (b : Bundle) (w : Bytes)
      (exports : export_bundle lib db context requested known snapshot limits ≡ finished b)
      (named : AreNamed snapshot) (heads : AreHeads snapshot)
      (identity : lib.is_id context_id context ≡ true)
      (exact : All (λ (e : SignedEvent). IsExact e.body.payload) b.events)
      (writes : bundle_to_wire lib b ≡ ok w) where
    -- What the export went through and the parts of its bundle.
    abbrev through : Exporting lib db context requested known snapshot limits b
    through = export_bundle-Exporting lib db context requested known snapshot limits b exports

    abbrev sent : List SignedEvent
    sent = unknown_events through.known_ids through.walked.ordered
