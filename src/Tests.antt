-- ===== src/Tests.antt =====
-- Concrete inputs: libraries that keep what the real ones document, a database with events, and the
-- theorems applied to them.
pub mod Toy
pub mod Sample
pub mod Events
pub mod ExportRuns
pub mod Exports
pub mod Admissions
pub mod Ancestry
pub mod Bundles
pub mod Receipts
pub mod Selections
pub mod Handoffs
pub mod Capabilities
pub mod Syncs
pub mod Invocations
