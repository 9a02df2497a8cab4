-- ===== src/Store.antt =====
-- The transactional store (src/store.rs, src/store/dag.rs, src/store/bundle.rs).
pub mod State
pub mod Transaction
pub mod Rows
pub mod Refs
pub mod Invariant
pub mod Admit
pub mod Dag
pub mod Project
pub mod Bundle
pub mod Sync
pub mod Listing
pub mod Invocation
