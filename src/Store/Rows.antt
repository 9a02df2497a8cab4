-- ===== src/Store/Rows.antt =====
-- The queries of src/store.rs. A column holds a value of its type, and a primary key finds at most
-- one row, so the checks of `blob_value`, `exact_32` and of a second row have nothing to refuse.
pub mod Context
use contextmesh_rs.Common.{
  ℕ, ◌≡◌, refl, Bool, true, false, not, ◌&&◌, ◌||◌, Option, none, some, List, [], ◌∷◌, arith, Bytes,
  bytes_eq, ◌==◌, ltb, if◌then◌else◌, length, sort, out_of_order, Result, ok, err, ◌>>=◌, ◌>>◌,
  refuse, ok_or, map_err,
}
use contextmesh_rs.Common.Table.{Table, id_eq, bytes_key, pair_eq, lookup}
use contextmesh_rs.Event.Body.{SignedEvent, Libraries}
use contextmesh_rs.Event.Wire.{from_wire, to_wire}
use contextmesh_rs.Event.Kind.{starts_lowercase, scan_rest}
use contextmesh_rs.Store.State.{
  StoreError, StoreResult, Db, ContextRow, EventRow, context_provision_mismatch, corrupt_storage,
  contract, invalid_ref_name, limit_exceeded, unauthorized_author, parent_missing,
  parent_context_mismatch,
}

abbrev pub max_ref_name_bytes : ℕ
max_ref_name_bytes = 64

abbrev pub max_authorized_authors : ℕ
max_authorized_authors = 1_024

unfoldable pub validate_name : Bytes → StoreResult (Unit {0})
validate_name text = do
  refuse (ltb max_ref_name_bytes (length text) || not (starts_lowercase text)) invalid_ref_name
  refuse (not (scan_rest text)) invalid_ref_name

unfoldable pub validate_authors : List ℕ → StoreResult (Unit {0})
validate_authors [] = err unauthorized_author
validate_authors (a ∷ authors) = do
  refuse (ltb max_authorized_authors (length (a ∷ authors))) limit_exceeded
  refuse (out_of_order (a ∷ authors)) context_provision_mismatch

-- The test of `context_row`: the state is 0 and there is no genesis, or it is 1 and the genesis is
-- the expected one.
unfoldable pub row_is_sound : ContextRow → Bool
row_is_sound r = elim r.genesis [
  | none ↦ r.state == 0
  | some g ↦ r.state == 1 && g == r.expected_genesis
]

unfoldable pub context_row : Db → ℕ → StoreResult (Option (ℕ × ℕ))
unfolding row_is_sound
context_row db context = elim (lookup context db.contexts) [
  | none ↦ ok none
  | some r ↦ if row_is_sound r then ok (some (r.expected_genesis, r.state)) else err corrupt_storage
]

-- The authors of a context, in the order of their texts.
unfoldable pub authors_of : ℕ → Table (ℕ × ℕ) (Unit {0}) → List ℕ
authors_of context [] = []
authors_of context (((c, a), u) ∷ rows) =
    let rest = authors_of context rows in if c == context then a ∷ rest else rest

unfoldable pub author_rows : Db → ℕ → List ℕ
unfolding authors_of
author_rows db context = sort (authors_of context db.authors)

unfoldable pub is_authorized : Db → ℕ → ℕ → Bool
is_authorized db context author = elim (lookup (context, author) db.authors) [
  | none ↦ false
  | some u ↦ true
]

unfoldable pub event_wire : Db → ℕ → Option Bytes
event_wire db id = elim (lookup id db.events) [ none ↦ none | some r ↦ some r.wire ]

unfoldable pub edge_rows : Db → ℕ → List ℕ
edge_rows db id = elim (lookup id db.edges) [ none ↦ [] | some parents ↦ parents ]

unfoldable pub same_ids : List ℕ → List ℕ → Bool
same_ids = bytes_eq

module _ (lib : Libraries) where
  -- `from_wire` of a stored wire, where a failure is corruption.
  unfoldable pub reparse : Bytes → StoreResult SignedEvent
  reparse wire = map_err (λ _. corrupt_storage) (from_wire lib wire)

  unfoldable pub authoritative_event_context : Db → ℕ → StoreResult (Option ℕ)
  unfolding reparse
  authoritative_event_context db id = elim (event_wire db id) [
    | none ↦ ok none
    | some wire ↦ do
      event ← reparse wire
      refuse (not (event.event_id == id)) corrupt_storage
      ok (some event.body.context)
  ]

  -- The columns and edges of a row against its event.
  unfoldable pub row_matches : Db → EventRow → SignedEvent → Bytes → Bool
  unfolding same_ids
  row_matches db r e wire =
      r.context == e.body.context
      && (r.author == e.body.author
          && (bytes_eq r.kind e.body.kind
              && (bytes_eq r.wire wire && same_ids (edge_rows db e.event_id) e.body.parents)))

  unfoldable pub validate_stored_event : Db → SignedEvent → StoreResult (Unit {0})
  unfolding row_matches
  validate_stored_event db e = do
    r ← ok_or (lookup e.event_id db.events) corrupt_storage
    wire ← map_err contract (to_wire lib e)
    refuse (not (row_matches db r e wire)) corrupt_storage

  -- `Store::event`
  unfoldable pub event : Db → ℕ → StoreResult (Option SignedEvent)
  unfolding reparse
  event db id = elim (event_wire db id) [
    | none ↦ ok none
    | some wire ↦ do e ← reparse wire; validate_stored_event db e; ok (some e)
  ]

  -- The loop over the parents in `admit` and `import_bundle_value`.
  unfoldable pub check_parents : Db → ℕ → List ℕ → StoreResult (Unit {0})
  check_parents db context [] = ok tt
  check_parents db context (p ∷ ps) =
      let rest = check_parents db context ps in
      do
        found ← authoritative_event_context db p
        parent_context ← ok_or found (parent_missing p)
        refuse (not (parent_context == context)) (parent_context_mismatch p)
        rest
