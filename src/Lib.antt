-- ===== src/Lib.antt =====
-- The core of contextmesh: signed events, the transactional store that admits them, and the walks over
-- their ancestry.
--
-- An event is a signed body with the identifiers of its parents. It comes from a strict JSON wire or
-- is made by a signing identity, is verified at every border, and is admitted into a database that
-- keeps its wire, its edges, and the refs that point to it. All writes of the database go through one
-- transaction each; a bundle brings many events and remote refs in one. Readers project the ancestry
-- of some heads out of the database, select the sources of a task and record them in a signed receipt,
-- close a selection over its ancestry, and subtract from it what a recipient knows. The difference is
-- handed over, and handed over again with more where the recipient asks for it.
--
-- Event, src/model.rs and src/crypto.rs:
--   Event/Json   `validate_json_value`, `validate_number` and the errors of src/error.rs
--   Event/Kind   `validate_kind`
--   Event/Body   `EventBodyV1`, `SignedEventV1`, `validate`, `derive_event_id`, `verify_parts`,
--                `sign_body`, `create_event`
--   Event/Wire   `from_wire`, `to_wire`, `parse_body`, `from_json`
--   Event/Magnitude, the whole numbers among the f64 values, and Event/Exact, the values that come back
--   from their canonical text, are for the proofs.
-- Store, src/store.rs and src/store/dag.rs:
--   Store/State        the tables of `SCHEMA_SQL`, `write` and `finish_transaction`
--   Store/Rows         the queries and the checks of stored rows
--   Store/Refs         `apply_ref_mutation`, `local_ref`, `set_remote_ref`, `create_branch`
--   Store/Admit        `admit`, `admit_wire`, `provision_context`, `join_context`, `authorize_author`
--   Store/Dag          `create_context`, `append`, `merge`
--   Store/Project      `project_on`, `project` and their limits
--   Store/Bundle       `import_bundle_value` of src/store/bundle.rs; its children are Parts, `from_parts`,
--                      Wire, `to_wire` and `from_wire`, and Export, `export_bundle` and `import_bundle`
--   Store/Sync         `replace_remote_ref_snapshot` of src/store/sync.rs; Store/Sync/Page is
--                      `export_sync_page`
--   Store/Listing      `list_local_refs`, `list_remote_refs` and `sync_local_ref_snapshot`
--   Store/Invocation   `pending_invocations` and `detached_results` of src/store/invocation.rs
--   Store/Invariant    what a consistent database is
-- Walk, the Enter/Exit loop over parent edges that src/store/dag.rs, src/closure.rs and src/delta.rs
-- each write out: Walk/Sound and Walk/Fuel are the rules for it, Walk/Maps relates two walks,
-- Walk/Outcomes puts walks and other steps in sequence.
-- Closure, src/closure.rs:
--   Closure            `load_closure_nodes`, the ancestry of a selection, and its limits
--   Closure/Over       `close_over` and `close_check`
--   Closure/Select     `CriticalPolicy` and `close_selection`; Closure/Closed is its result
-- Delta, src/delta.rs: what a recipient knows and what it lacks, `delta_over` and `from_closure`;
-- Delta/Head is `at_head`, with its proof in Delta/Head/Knows, Delta/Compute `compute_delta`.
-- Selection, src/selection.rs: Sources and budgets, the Baseline selector, and Select, the
-- `select_sources` over any selector. Compiler is src/compiler.rs.
-- Receipt, src/receipt.rs: task and selector records, bodies and signing; Receipt/Time renders and checks
-- timestamps, Receipt/Wire is the strict wire, Receipt/Dag the check of a receipt against a store.
-- Handoff, src/handoff.rs: a delta bound to the head of its recipient, with its omissions, and the
-- follow-up to a challenge; `verify_valid` is in Handoff/Valid, the follow-up in Handoff/FollowUp.
-- Capability, src/capability.rs: the flags of what a recipient cannot act on.
-- Repair, src/repair.rs: the loop that hands over again until a task succeeds or a bound is reached.
-- Common holds the shared names, lists, results, sorting and tables; Tests the concrete inputs, over libraries
-- small enough to run.
--
-- How the code is rendered. An operation of the store is a function from the database to an error or a
-- result with the next database; `write` runs one in a transaction, for each of the three answers that
-- a commit can get. A table is an association list of its primary key and the rest of the row, an
-- insertion that meets a key fails, and so does a local ref to an event or a
-- context that is not stored. The other foreign keys hold by the code's own tests and are no part of the tables. A
-- rollback whose answer is lost reports an unavailable database, and with `map_db` so does a database
-- that finds itself corrupt. The fresh bytes of a new context are an argument, as is the seed
-- of a signing identity. An identifier is the number whose digits are the bytes of its text, so the
-- order of the numbers is that of the texts, which the code sorts by; the reading and writing of the
-- text, as BLAKE3, Ed25519, serde_json and serde_jcs, belongs to the record `Libraries`, and what the
-- theorems need of them is the record `Documented`: the canonical text of a value that nests at most
-- 127 deep, has integers of at most 2^53 - 1 as its numbers and the fields of its objects in order
-- parses back to it, for the strict and for the plain parser, and begins with no byte order mark; the
-- text of an identifier parses back to it under its type; and a signature verifies under the key of
-- its seed. An f64 is left out there, since an integral one is written as an integer, and -0 as 0. An
-- f64 is held by its 64 bits, and `validate_number` reads its exponent and significand from them. The clock is read
-- by the caller: its seconds are an argument. The binary search of the standard library is written out
-- where the list may be out of order. The driver of a repair, the store that each of its iterations
-- finds and the success of each write to its history are functions of the iteration or the record.
-- Sizes that the code adds with a check are compared with the largest 64-bit number.
--
-- Loops are structural, but for the walks, which take fuel: one unit for each head, and for each event
-- that the limit admits one unit and one for each of its parents, of which a valid body has at most
-- 64; `close_over` takes one for each start, and for each event that the limit admits one and one for
-- each edge of the nodes it is given. A repair recurs on the iterations that are left. The binary
-- search for the size of a page takes one unit more than the events that a page may have.
--
-- Not modelled: opening and migrating a database, key files, the files of receipts and of repair
-- histories, the wires of closed selections, deltas, handoffs and capability models, the client and
-- server of a sync, the audit of a store, summaries, the claims of a selection, which stand on the
-- evaluation; and what is input and output only: the HTTP transport, the providers, the command line.
pub mod Common
pub mod Walk
pub mod Event
pub mod Receipt
pub mod Selection
pub mod Compiler
pub mod Store
pub mod Closure
pub mod Delta
pub mod Handoff
pub mod Capability
pub mod Repair
pub mod Tests
