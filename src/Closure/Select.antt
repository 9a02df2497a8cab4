-- ===== src/Closure/Select.antt =====
-- The policy of critical kinds and `close_selection` (src/closure.rs): the ancestry of a selection with the
-- critical candidates, as references.
use contextmesh_rs.Common.{
  ℕ, zero, suc, ◌+◌, ◌-◌, ◌/◌, Bool, false, not, ◌||◌, Option, none, some, List, [], ◌∷◌, ◌++◌,
  Bytes, bytes_eq, bytes_lt, ◌==◌, ltb, leb, if◌then◌else◌, length, is_empty, any, get_elem?,
  sort_dedup, ok, err, ◌>>=◌, ◌>>◌, refuse, map_err,
}
use contextmesh_rs.Event.Kind.{max_kind_bytes}
use contextmesh_rs.Event.Body.{SignedEvent, Libraries}
use contextmesh_rs.Store.State.{StoreResult, Db}
use contextmesh_rs.Store.Rows.{event}
use contextmesh_rs.Store.Project.{max_usize}
use contextmesh_rs.Walk.{Outcome, finished, failed, out_of_fuel}
use contextmesh_rs.Selection.Sources.{SourceReference, from_signed, from_source}
use contextmesh_rs.Closure.{
  ClosureError, ClosureResult, ClosureLimits, EventNode, Loading, new_limits, load_closure_nodes,
  invalid_policy, unverifiable_source, wrong_context, limit_exceeded, store,
}
use contextmesh_rs.Closure.Over.{ClosureReport, close_over, check_report}

abbrev pub max_closure_candidates : ℕ
max_closure_candidates = 65_536

abbrev pub max_critical_kinds : ℕ
max_critical_kinds = 64

-- `sort()` and `dedup()` on kinds
unfoldable pub insert_kind : Bytes → List Bytes → List Bytes
insert_kind a [] = a ∷ []
insert_kind a (b ∷ bs) =
    let rest = insert_kind a bs in if bytes_lt b a then b ∷ rest else a ∷ b ∷ bs

unfoldable pub sort_kinds : List Bytes → List Bytes
unfolding insert_kind
sort_kinds [] = []
sort_kinds (a ∷ bs) = insert_kind a (sort_kinds bs)

unfoldable pub dedup_kinds : List Bytes → List Bytes
dedup_kinds [] = []
dedup_kinds (a ∷ []) = a ∷ []
dedup_kinds (a ∷ b ∷ bs) =
    let rest = dedup_kinds (b ∷ bs) in if bytes_eq a b then rest else a ∷ rest

-- `CriticalPolicy::new`, with a policy as its kinds
unfoldable pub new_policy : List Bytes → ClosureResult (List Bytes)
unfolding sort_kinds dedup_kinds
new_policy kinds = do
  refuse (is_empty kinds || ltb max_critical_kinds (length kinds)) invalid_policy
  refuse (any (λ kind. is_empty kind || ltb max_kind_bytes (length kind)) kinds) invalid_policy
  ok (dedup_kinds (sort_kinds kinds))

-- `CriticalPolicy::is_critical`
unfoldable pub is_critical : List Bytes → Bytes → Bool
is_critical policy kind = any (λ flagged. bytes_eq flagged kind) policy

-- The loop of the standard library's `binary_search`, whose result on a list that is not sorted is
-- unspecified. It takes the length as fuel.
unfoldable pub narrow : ℕ → List ℕ → ℕ → ℕ → ℕ → ℕ
narrow zero xs a base size = base
narrow (suc fuel) xs a base size =
    let half = size / 2 in
    let left = narrow fuel xs a base (size - half) in
    let right = narrow fuel xs a (base + half) (size - half) in
    if leb size 1 then base else elim (get_elem? xs (base + half)) [
      | none ↦ left
      | some x ↦ if ltb a x then left else right
    ]

-- `.binary_search(&a).is_ok()`
unfoldable pub binary_search : List ℕ → ℕ → Bool
unfolding narrow
binary_search xs a = elim (get_elem? xs (narrow (length xs) xs a 0 (length xs))) [
  | none ↦ false
  | some x ↦ x == a
]

pub record ClosedSelection : Type 0 where
  pub context : ℕ
  pub references : List SourceReference
  pub selected : List ℕ
  pub added_critical : List ℕ
  pub total_bytes : ℕ
  pub limits : ClosureLimits

-- The variables of the loop over the candidates.
pub record Covering : Type 0 where
  pub closed_ids : List ℕ
  pub added_critical : List ℕ

-- The variables of the loop over the closed identifiers.
pub record Referring : Type 0 where
  pub references : List SourceReference
  pub total_bytes : ℕ

-- `match store.event(*id).await?`
unfoldable pub closed_event : ℕ → StoreResult (Option SignedEvent) → ClosureResult SignedEvent
closed_event id (ok (some e)) = ok e
closed_event id (ok none) = err (unverifiable_source id)
closed_event id (err x) = err (store x)

unfoldable pub cover_event : List Bytes → ℕ → Bytes → Covering → Covering
unfolding is_critical
cover_event policy id kind c =
    if is_critical policy kind
    then record {
      closed_ids = c.closed_ids ++ (id ∷ []);
      added_critical = c.added_critical ++ (id ∷ []);
    }
    else c

module _ (lib : Libraries) (db : Db) where
  -- The body of the loop over the candidates.
  unfoldable pub cover_one : ℕ → List Bytes → ℕ → Covering → ClosureResult Covering
  unfolding closed_event cover_event
  cover_one context policy id c = do
    e ← closed_event id (event lib db id)
    refuse (not (e.body.context == context)) (wrong_context id)
    ok (cover_event policy id e.body.kind c)

  unfoldable pub cover : ℕ → List Bytes → List ℕ → Covering → ClosureResult Covering
  unfolding binary_search cover_one
  cover context policy [] c = ok c
  cover context policy (id ∷ ids) c = do
    next ← if binary_search c.closed_ids id then ok c else cover_one context policy id c
    cover context policy ids next

  -- The body of the loop over the closed identifiers.
  unfoldable pub refer_one : ℕ → Referring → ClosureResult Referring
  unfolding closed_event
  refer_one id r = do
    e ← closed_event id (event lib db id)
    source ← map_err (λ _. unverifiable_source id) (from_signed lib e)
    let total = r.total_bytes + source.payload_bytes
    refuse (ltb max_usize total) limit_exceeded
    let next : Referring = record {
      references = r.references ++ (from_source source ∷ []);
      total_bytes = total;
    }
    ok next

  unfoldable pub refer : List ℕ → Referring → ClosureResult Referring
  unfolding refer_one
  refer [] r = ok r
  refer (id ∷ ids) r = do next ← refer_one id r; refer ids next

  -- What an outcome of `load_closure_nodes` means; its fuel does not run out.
  unfoldable pub loaded_nodes :
      Outcome ClosureError Loading → Option (ClosureResult (List EventNode))
  loaded_nodes (finished a) = some (ok a.nodes)
  loaded_nodes (failed x) = some (err x)
  loaded_nodes out_of_fuel = none

  unfoldable pub close_nodes :
      ℕ
      → List ℕ
      → List ℕ
      → List Bytes
      → ClosureLimits
      → ClosureReport
      → ClosureResult ClosedSelection
  unfolding cover refer check_report
  close_nodes context selected candidates policy limits report = do
    check_report report
    let start : Covering = record { closed_ids = report.closed; added_critical = [] }
    c ← cover context policy candidates start
    let empty : Referring = record { references = []; total_bytes = 0 }
    r ← refer (sort_dedup c.closed_ids) empty
    let closed : ClosedSelection = record {
      context = context;
      references = r.references;
      selected = selected;
      added_critical = sort_dedup c.added_critical;
      total_bytes = r.total_bytes;
      limits = limits;
    }
    ok closed

  -- The closure of the nodes, once they are loaded.
  unfoldable pub close_loaded :
      ℕ
      → List ℕ
      → List ℕ
      → List Bytes
      → ClosureLimits
      → ClosureResult (List EventNode)
      → Option (ClosureResult ClosedSelection)
  unfolding close_nodes
  close_loaded context selected candidates policy limits (err x) = some (err x)
  close_loaded context selected candidates policy limits (ok nodes) =
      elim (close_over nodes limits) [
        | none ↦ none
        | some report ↦ some (close_nodes context selected candidates policy limits report)
      ]

  -- The checks before the store is read.
  unfoldable pub check_closing : List ℕ → ClosureLimits → ClosureResult ClosureLimits
  check_closing candidates stated = do
    limits ← new_limits stated.max_events stated.max_exported_bytes
    refuse (ltb max_closure_candidates (length candidates)) limit_exceeded
    ok limits

  unfoldable pub close_checked :
      ℕ
      → List ℕ
      → List ℕ
      → List Bytes
      → ClosureResult ClosureLimits
      → Option (ClosureResult ClosedSelection)
  unfolding close_loaded loaded_nodes
  close_checked context selected candidates policy (err x) = some (err x)
  close_checked context selected candidates policy (ok limits) =
      elim (loaded_nodes (load_closure_nodes lib db context limits selected)) [
        | none ↦ none
        | some nodes ↦ close_loaded context selected candidates policy limits nodes
      ]

  -- `close_selection`; nothing, where a loop has run out of its fuel.
  unfoldable pub close_selection :
      ℕ → List ℕ → List ℕ → List Bytes → ClosureLimits → Option (ClosureResult ClosedSelection)
  unfolding close_checked check_closing
  close_selection context selected candidates policy stated =
      let ids = sort_dedup candidates in
      close_checked context (sort_dedup selected) ids policy (check_closing ids stated)
