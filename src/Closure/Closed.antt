-- ===== src/Closure/Closed.antt =====
-- What `close_selection` (src/closure.rs) returns, and its fuel.
use contextmesh_rs.Common.{
  ℕ, ◌≡◌, ◌≢◌, refl, subst, ◌↔◌, Option, none, some, List, Memᴰ, Bytes, sort_dedup, ok, err,
}
use contextmesh_rs.Event.Body.{Libraries}
use contextmesh_rs.Store.State.{Db}
use contextmesh_rs.Walk.{Outcome, finished, failed, out_of_fuel}
use contextmesh_rs.Walk.Reach.{Reach}
use contextmesh_rs.Closure.{
  ClosureError, ClosureResult, ClosureLimits, EventNode, Loading, load_closure_nodes,
}
use contextmesh_rs.Closure.Nodes.{node_ids, event_parents}
use contextmesh_rs.Closure.Loaded.{load_closure_nodes-Loads, load_closure_nodes_ends}
use contextmesh_rs.Closure.Over.{ClosureReport, close_over}
use contextmesh_rs.Closure.Over.Ends.{close_over_ends}
use contextmesh_rs.Closure.Closes.{Closes, close_nodes-Closes}
use contextmesh_rs.Closure.Select.{
  ClosedSelection, loaded_nodes, close_nodes, close_loaded, check_closing, close_checked,
  close_selection,
}

module _ (lib : Libraries) (db : Db) (context : ℕ) (policy : List Bytes) where
  loaded_nodes-finished :
      (o : Outcome ClosureError Loading) (nodes : List EventNode)
      → loaded_nodes lib db o ≡ some (ok nodes)
      → (a : Loading) × (o ≡ finished a) × (a.nodes ≡ nodes)
  unfolding loaded_nodes
  loaded_nodes-finished (finished a) nodes h = (a, refl, cc)
  loaded_nodes-finished (failed x) nodes h = cc
  loaded_nodes-finished out_of_fuel nodes h = cc

  close_checked-Closes :
      (selected candidates : List ℕ) (limits : ClosureLimits) (c : ClosedSelection)
      → close_checked lib db context
          (sort_dedup selected)
          (sort_dedup candidates)
          policy
          (ok limits)
        ≡ some (ok c)
      → Closes lib db context policy selected candidates c
  unfolding close_checked close_loaded
  close_checked-Closes selected candidates limits c h =
      loads (loaded_nodes lib db (load_closure_nodes lib db context limits (sort_dedup selected)))
        refl h
    where
      reports :
          (nodes : List EventNode) (o : Option ClosureReport)
          → loaded_nodes lib db (load_closure_nodes lib db context limits (sort_dedup selected))
            ≡ some (ok nodes)
          → close_over nodes limits ≡ o
          → (elim o [
            | none ↦ none
            | some report ↦ some (
                close_nodes lib db context
                  (sort_dedup selected)
                  (sort_dedup candidates)
                  policy
                  limits
                  report)
          ])
            ≡ some (ok c)
          → Closes lib db context policy selected candidates c
      reports nodes none l o h = cc
      reports nodes (some report) l o h =
          let (a, ends, same) =
            loaded_nodes-finished (load_closure_nodes lib db context limits (sort_dedup selected))
              nodes l in
          let exact =
            (load_closure_nodes-Loads lib db context limits (sort_dedup selected) a ends).exact in
          close_nodes-Closes lib db context policy selected candidates limits nodes report c o
            (λ j.
              subst
                (λ (ns : List EventNode).
                  Memᴰ j (node_ids ns)
                  ↔ Reach (event_parents lib db context) (sort_dedup selected) j)
                same (exact j))
            (cc h)

      loads :
          (o : Option (ClosureResult (List EventNode)))
          → loaded_nodes lib db (load_closure_nodes lib db context limits (sort_dedup selected)) ≡ o
          → (elim o [
            | none ↦ none
            | some nodes ↦
                close_loaded lib db context
                  (sort_dedup selected)
                  (sort_dedup candidates)
                  policy
                  limits
                  nodes
          ])
            ≡ some (ok c)
          → Closes lib db context policy selected candidates c
      loads none l h = cc
      loads (some (err x)) l h = cc
      loads (some (ok nodes)) l h = reports nodes (close_over nodes limits) l refl h

  refused :
      {selected candidates : List ℕ} {c : ClosedSelection} (x : ClosureError)
      → close_checked lib db context (sort_dedup selected) (sort_dedup candidates) policy (err x)
        ≡ some (ok c)
      → Closes lib db context policy selected candidates c
  unfolding close_checked
  refused x h = cc

  -- What `close_selection` returns, where it succeeds, is the closure of the selection with its
  -- critical candidates: references in ascending order of their identifiers to exactly the events of
  -- the ancestry of the selection and the candidates of a critical kind, each as the store gives it,
  -- with the sum of their bytes.
  pub close_selection-Closes :
      (selected candidates : List ℕ) (stated : ClosureLimits) (c : ClosedSelection)
      → close_selection lib db context selected candidates policy stated ≡ some (ok c)
      → Closes lib db context policy selected candidates c
  unfolding close_selection
  close_selection-Closes selected candidates stated c h =
      checked (check_closing lib db (sort_dedup candidates) stated) h
    where
      checked :
          (limits : ClosureResult ClosureLimits)
          → close_checked lib db context (sort_dedup selected) (sort_dedup candidates) policy limits
            ≡ some (ok c)
          → Closes lib db context policy selected candidates c
      checked (err x) h = refused x h
      checked (ok limits) h = close_checked-Closes selected candidates limits c h

  -- `close_selection` never runs out of fuel: it returns a closure or an error.
  pub close_selection_ends :
      (selected candidates : List ℕ) (stated : ClosureLimits)
      → close_selection lib db context selected candidates policy stated ≢ none
  unfolding close_selection close_checked close_loaded loaded_nodes
  close_selection_ends selected candidates stated =
      checked (check_closing lib db (sort_dedup candidates) stated)
    where
      over :
          (limits : ClosureLimits) (nodes : List EventNode) (o : Option ClosureReport)
          → close_over nodes limits ≡ o
          → (elim o [
            | none ↦ none
            | some report ↦ some (
                close_nodes lib db context
                  (sort_dedup selected)
                  (sort_dedup candidates)
                  policy
                  limits
                  report)
          ])
            ≢ none
      over limits nodes none e = absurd (close_over_ends nodes limits e)
      over limits nodes (some r) e = λ k. cc

      loaded :
          (limits : ClosureLimits) (o : Outcome ClosureError Loading)
          → load_closure_nodes lib db context limits (sort_dedup selected) ≡ o
          → (elim (loaded_nodes lib db o) [
            | none ↦ none
            | some nodes ↦
                close_loaded lib db context
                  (sort_dedup selected)
                  (sort_dedup candidates)
                  policy
                  limits
                  nodes
          ])
            ≢ none
      loaded limits (finished a) e = over limits a.nodes (close_over a.nodes limits) refl
      loaded limits (failed x) e = λ k. cc
      loaded limits out_of_fuel e =
          absurd (load_closure_nodes_ends lib db context limits (sort_dedup selected) e)

      checked :
          (limits : ClosureResult ClosureLimits)
          → close_checked lib db context (sort_dedup selected) (sort_dedup candidates) policy limits
            ≢ none
      checked (err x) = λ k. cc
      checked (ok limits) =
          loaded limits (load_closure_nodes lib db context limits (sort_dedup selected)) refl
