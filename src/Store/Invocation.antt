-- ===== src/Store/Invocation.antt =====
-- The invocations of agents that a context records (src/store/invocation.rs): requests without a result and
-- results off a branch. Without `ORDER BY` the rows of the query stand in the order of the table.
use contextmesh_rs.Common.{
  ℕ, Bool, true, false, not, ◌&&◌, ◌||◌, Option, none, some, List, [], ◌∷◌, ◌++◌, map, Bytes,
  bytes_eq, codes, ◌==◌, ltb, if◌then◌else◌, length, take, contains, keep, ok, err, ◌>>=◌, ◌>>◌,
  refuse, ok_or, map_err,
}
use contextmesh_rs.Common.Table.{Table}
use contextmesh_rs.Event.Body.{SignedEvent, Libraries}
use contextmesh_rs.Event.Wire.{from_wire}
use contextmesh_rs.Walk.{Outcome, finished, failed, out_of_fuel}
use contextmesh_rs.Store.State.{
  StoreError, StoreResult, Db, EventRow, corrupt_storage, ref_missing, projection_limit_exceeded,
}
use contextmesh_rs.Store.Refs.{local_ref}
use contextmesh_rs.Store.Project.{Projection, project, default_limits}

abbrev pub max_invocation_query_results : ℕ
max_invocation_query_results = 1024

pub data InvocationKind : Type 0 where
  request result : InvocationKind

-- `InvocationKind::from_kind`
unfoldable pub from_kind : Bytes → Option InvocationKind
from_kind kind =
    if bytes_eq kind (codes "agent.request")
    then some request
    else if bytes_eq kind (codes "agent.response") || bytes_eq kind (codes "agent.error")
    then some result
    else none

abbrev pub same_kind : InvocationKind → InvocationKind → Bool
same_kind request request = true
same_kind result result = true
same_kind _ _ = false

pub record InvocationRow : Type 0 where
  pub kind : InvocationKind
  pub event : SignedEvent
  pub on_branch : Bool
  pub linked : Bool

abbrev pub is_invocation : Option InvocationKind → Bool
is_invocation none = false
is_invocation (some k) = true

-- `WHERE context_id = … AND kind IN …`
unfoldable pub scan_rows : ℕ → Table ℕ EventRow → List Bytes
unfolding from_kind
scan_rows context [] = []
scan_rows context ((id, row) ∷ t) =
    let rest = scan_rows context t in
    if row.context == context && is_invocation (from_kind row.kind) then row.wire ∷ rest else rest

-- The parent of an event that has just one.
abbrev pub sole_parent : List ℕ → List ℕ
sole_parent (p ∷ []) = p ∷ []
sole_parent _ = []

unfoldable pub answered : List (InvocationKind × SignedEvent) → List ℕ
answered [] = []
answered ((request, e) ∷ rows) = answered rows
answered ((result, e) ∷ rows) = sole_parent e.body.parents ++ answered rows

abbrev pub invocation_row :
    List ℕ → List (InvocationKind × SignedEvent) → InvocationKind × SignedEvent → InvocationRow
invocation_row ancestry parsed (kind, e) = record {
  kind = kind;
  event = e;
  on_branch = contains ancestry e.event_id;
  linked = contains (answered parsed) e.event_id;
}

abbrev pub Scan : Type 0
Scan = Projection → StoreResult (List InvocationRow)

unfoldable pub settled : StoreResult (List InvocationRow) → Outcome StoreError (List InvocationRow)
settled (err x) = failed x
settled (ok rows) = finished rows

-- The projection of the branch, and the rows over it.
unfoldable pub over_projection :
    Scan → Outcome StoreError Projection → Outcome StoreError (List InvocationRow)
unfolding settled
over_projection scan (failed x) = failed x
over_projection scan out_of_fuel = out_of_fuel
over_projection scan (finished p) = settled (scan p)

unfoldable pub from_head :
    (ℕ → Outcome StoreError Projection)
    → Scan
    → StoreResult ℕ
    → Outcome StoreError (List InvocationRow)
unfolding over_projection
from_head walks scan (err x) = failed x
from_head walks scan (ok head) = over_projection scan (walks head)

-- `.filter(…).map(|row| row.event).collect()`
unfoldable pub select_rows :
    (InvocationRow → Bool)
    → Outcome StoreError (List InvocationRow)
    → Outcome StoreError (List SignedEvent)
select_rows test (failed x) = failed x
select_rows test out_of_fuel = out_of_fuel
select_rows test (finished rows) =
    finished (map (λ (row : InvocationRow). row.event) (keep test rows))

module _ (lib : Libraries) where
  -- The body of the loop over the rows.
  unfoldable pub parse_row : ℕ → Bytes → StoreResult (InvocationKind × SignedEvent)
  unfolding from_kind
  parse_row context wire = do
    e ← map_err (λ x. corrupt_storage) (from_wire lib wire)
    kind ← ok_or (from_kind e.body.kind) corrupt_storage
    refuse (not (e.body.context == context)) corrupt_storage
    ok (kind, e)

  unfoldable pub parse_rows : ℕ → List Bytes → StoreResult (List (InvocationKind × SignedEvent))
  unfolding parse_row
  parse_rows context [] = ok []
  parse_rows context (wire ∷ wires) = do
    row ← parse_row context wire
    rows ← parse_rows context wires
    ok (row ∷ rows)

  -- The transaction of `invocation_rows`, with the ancestry of the branch.
  unfoldable pub scan_invocations :
      Db → ℕ → InvocationKind → List ℕ → StoreResult (List InvocationRow)
  unfolding scan_rows parse_rows answered
  scan_invocations db context scan ancestry = do
    parsed ← parse_rows context (take 2049 (scan_rows context db.events))
    refuse
        (ltb max_invocation_query_results
            (length (keep (λ (row : InvocationKind × SignedEvent). same_kind row.0 scan) parsed))
          || ltb 2048 (length parsed))
        projection_limit_exceeded
    ok (map (invocation_row ancestry parsed) parsed)

  -- `self.invocation_rows(context, branch, scan)`
  unfoldable pub invocation_rows :
      Db → ℕ → Bytes → InvocationKind → Outcome StoreError (List InvocationRow)
  unfolding scan_invocations from_head
  invocation_rows db context branch scan =
      from_head (λ head. project lib db context default_limits (head ∷ []))
        (λ p. scan_invocations db context scan (map (λ (e : SignedEvent). e.event_id) p.events))
        (do found ← local_ref lib db context branch; ok_or found ref_missing)

  unfoldable pub pending_invocations : Db → ℕ → Bytes → Outcome StoreError (List SignedEvent)
  unfolding invocation_rows select_rows
  pending_invocations db context branch =
      select_rows (λ row. same_kind row.kind request && not row.linked)
        (invocation_rows db context branch request)

  unfoldable pub detached_results : Db → ℕ → Bytes → Outcome StoreError (List SignedEvent)
  unfolding invocation_rows select_rows
  detached_results db context branch =
      select_rows (λ row. same_kind row.kind result && not row.on_branch)
        (invocation_rows db context branch result)
