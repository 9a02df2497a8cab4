-- ===== src/Store/State.antt =====
-- The database of src/store.rs: one table for each of `SCHEMA_SQL`, keyed by its primary key, the
-- errors of the store and the transaction around a write. The rows of `parent_edges` are grouped by
-- their child, in order of their ordinals. Of the foreign keys those of local refs are checked where a ref is
-- written (`check_reference`); the others hold by the lookups that the code makes before it inserts. The `CHECK`s
-- are of the lengths of identifiers and the two states, which are the only ones written.
use contextmesh_rs.Common.{ℕ, Option, List, [], Bytes, Result, ok, err}
use contextmesh_rs.Common.Table.{Table}
use contextmesh_rs.Event.Json.{ContractError}

pub data StoreError : Type 0 where
  database_unavailable migration_failed newer_schema corrupt_storage context_unknown : StoreError
  context_provision_mismatch genesis_mismatch unauthorized_author : StoreError
  parent_missing parent_context_mismatch : ℕ → StoreError
  event_collision invalid_ref_name ref_mutation_mismatch ref_missing ref_already_exists : StoreError
  stale_head : Option ℕ → StoreError
  limit_exceeded entropy_unavailable reserved_event_kind invalid_merge projection_cycle : StoreError
  projection_limit_exceeded bundle_malformed bundle_unsupported_version bundle_order : StoreError
  bundle_limit_exceeded bundle_ref_invalid verification_limit_invalid indeterminate_commit :
      StoreError
  contract : ContractError → StoreError

abbrev pub StoreResult : Type 0 → Type 0
StoreResult = Result StoreError

pub record ContextRow : Type 0 where
  pub expected_genesis : ℕ
  pub genesis : Option ℕ
  pub state : ℕ

pub record EventRow : Type 0 where
  pub context : ℕ
  pub author : ℕ
  pub kind : Bytes
  pub wire : Bytes

pub record Db : Type 0 where
  pub contexts : Table ℕ ContextRow
  pub authors : Table (ℕ × ℕ) (Unit {0})
  pub events : Table ℕ EventRow
  pub edges : Table ℕ (List ℕ)
  pub local_refs : Table (ℕ × Bytes) ℕ
  pub remote_refs : Table (Bytes × (ℕ × Bytes)) ℕ

abbrev pub empty_db : Db
empty_db = record {
  contexts = [];
  authors = [];
  events = [];
  edges = [];
  local_refs = [];
  remote_refs = [];
}

-- An operation inside a transaction: it reads and changes the open transaction's state.
abbrev pub Op : Type 0 → Type 0
Op A = Db → StoreResult (A × Db)

-- How the database answers the `COMMIT` or the `ROLLBACK` at the end of a transaction: it is acknowledged, or the
-- acknowledgement is lost after or before the end took effect. A transaction that does not commit changes nothing,
-- as SQL has it.
pub data Commit : Type 0 where
  acknowledged lost_after lost_before : Commit

-- `finish_transaction`, with the state before the transaction for the rollback: the outcome and the state that the
-- next transaction finds. A rollback that fails is reported by `map_db`.
unfoldable pub finish_transaction :
    {A : Type 0} → Commit → Db → StoreResult (A × Db) → StoreResult A × Db
finish_transaction acknowledged before (err e) = (err e, before)
finish_transaction lost_after before (err e) = (err database_unavailable, before)
finish_transaction lost_before before (err e) = (err database_unavailable, before)
finish_transaction acknowledged before (ok (a, after)) = (ok a, after)
finish_transaction lost_after before (ok (a, after)) = (err indeterminate_commit, after)
finish_transaction lost_before before (ok (a, after)) = (err indeterminate_commit, before)

-- `Store::write`
unfoldable pub write : {A : Type 0} → Commit → Op A → Db → StoreResult A × Db
unfolding finish_transaction
write commit operation db = finish_transaction commit db (operation db)
