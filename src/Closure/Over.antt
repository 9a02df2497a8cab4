-- ===== src/Closure/Over.antt =====
-- The closure of loaded nodes (`close_over`, `close_check`, src/closure.rs). The loop takes fuel: a unit
-- for each start, and for each event of the limit one and one for each parent of a node.
pub mod Exact
pub mod Ends
use contextmesh_rs.Common.{
  ℕ, zero, suc, ◌+◌, ◌*◌, ◌≡◌, Bool, true, false, ◌&&◌, ◌||◌, Option, none, some, List, [], ◌∷◌,
  ◌++◌, map, reverse, arith, ◌==◌, ltb, leb, if◌then◌else◌, length, sort_dedup, Result, ok, err,
  ◌>>=◌, ◌>>◌, refuse,
}
use contextmesh_rs.Walk.{
  Mark, unseen, active, done, Frame, enter, exit, Marks, set_mark, blank, start_frames,
}
use contextmesh_rs.Closure.{
  ClosureError, ClosureResult, ClosureLimits, EventNode, cycle, limit_exceeded, dangling_parent,
}

pub record DanglingEdge : Type 0 where
  pub child : ℕ
  pub parent : ℕ

pub record ClosureReport : Type 0 where
  pub closed : List ℕ
  pub dangling : List DanglingEdge
  pub cycle : Bool
  pub exceeded : Bool

-- `by_id.get(id)`: of nodes with one identifier the last was kept.
unfoldable pub parents_of : List EventNode → ℕ → Option (List ℕ)
parents_of [] id = none
parents_of (n ∷ ns) id = elim (parents_of ns id) [
  | some ps ↦ some ps
  | none ↦ if n.event == id then some (sort_dedup n.parents) else none
]

-- `by_id.keys()` in order
unfoldable pub starts_of : List EventNode → List ℕ
starts_of nodes = sort_dedup (map (λ (n : EventNode). n.event) nodes)

-- `by_id.contains_key(id)`
unfoldable pub is_node : List EventNode → ℕ → Bool
unfolding parents_of
is_node nodes id = elim (parents_of nodes id) [ none ↦ false | some ps ↦ true ]

-- The variables of the loop besides `state` and `stack`.
pub record Sweep : Type 0 where
  pub closed : List ℕ
  pub dangling : List DanglingEdge
  pub count : ℕ
  pub cycle : Bool
  pub exceeded : Bool

-- The loop over the parents: the frames of those that are nodes, and the edges to the others.
unfoldable pub node_frames : List EventNode → ℕ → List ℕ → List Frame → List Frame
unfolding is_node
node_frames nodes id [] rest = rest
node_frames nodes id (p ∷ ps) rest =
    let frames = node_frames nodes id ps rest in
    if is_node nodes p then enter p (some id) ∷ frames else frames

unfoldable pub edges_out : List EventNode → ℕ → List ℕ → List DanglingEdge
unfolding is_node
edges_out nodes id [] = []
edges_out nodes id (p ∷ ps) =
    let edges = edges_out nodes id ps in
    if is_node nodes p then edges else edges ++ (record { child = id; parent = p } ∷ [])

abbrev pub or_empty : Option (List ℕ) → List ℕ
or_empty none = []
or_empty (some ps) = ps

-- `while let Some(frame) = stack.pop()`
unfoldable pub sweep : List EventNode → ℕ → ℕ → Marks → List Frame → Sweep → Option Sweep
unfolding parents_of node_frames edges_out
sweep nodes max_events fuel marks [] a = some a
sweep nodes max_events zero marks (f ∷ rest) a = none
sweep nodes max_events (suc fuel) marks (exit id ∷ rest) a =
    sweep nodes max_events fuel (set_mark marks id done) rest a
sweep nodes max_events (suc fuel) marks (enter id child ∷ rest) a = elim (marks id) [
  | done ↦ sweep nodes max_events fuel marks rest a
  | active ↦ sweep nodes max_events fuel marks rest (record a { cycle = true })
  | unseen ↦ elim (leb max_events a.count) [
    | true ↦ some (record a { exceeded = true })
    | false ↦
        let parents = or_empty (parents_of nodes id) in
        sweep nodes max_events fuel (set_mark marks id active)
          (node_frames nodes id parents (exit id ∷ rest))
          (record a {
            count = a.count + 1;
            closed = a.closed ++ (id ∷ []);
            dangling = a.dangling ++ edges_out nodes id parents;
          })
  ]
]

-- The order of `sort_by_key` over the two texts.
abbrev pub edge_le : DanglingEdge → DanglingEdge → Bool
edge_le a b = ltb a.child b.child || a.child == b.child && leb a.parent b.parent

unfoldable pub insert_edge : DanglingEdge → List DanglingEdge → List DanglingEdge
insert_edge a [] = a ∷ []
insert_edge a (b ∷ bs) = let rest = insert_edge a bs in if edge_le a b then a ∷ b ∷ bs else b ∷ rest

unfoldable pub sort_edges : List DanglingEdge → List DanglingEdge
unfolding insert_edge
sort_edges [] = []
sort_edges (a ∷ bs) = insert_edge a (sort_edges bs)

unfoldable pub dedup_edges : List DanglingEdge → List DanglingEdge
dedup_edges [] = []
dedup_edges (a ∷ []) = a ∷ []
dedup_edges (a ∷ b ∷ bs) =
    let rest = dedup_edges (b ∷ bs) in
    if a.child == b.child && a.parent == b.parent then rest else a ∷ rest

-- The parents of all nodes, with repetitions.
unfoldable pub edge_count : List EventNode → ℕ
edge_count [] = 0
edge_count (n ∷ ns) = length n.parents + edge_count ns

abbrev pub sweep_fuel : List EventNode → ℕ → ℕ
sweep_fuel nodes max_events = length (starts_of nodes) + max_events * (edge_count nodes + 1)

abbrev pub nothing_swept : Sweep
nothing_swept = record { closed = []; dangling = []; count = 0; cycle = false; exceeded = false }

abbrev pub report_of : Sweep → ClosureReport
report_of a = record {
  closed = sort_dedup a.closed;
  dangling = dedup_edges (sort_edges a.dangling);
  cycle = a.cycle;
  exceeded = a.exceeded;
}

-- `close_over`; nothing, where the fuel has run out.
unfoldable pub close_over : List EventNode → ClosureLimits → Option ClosureReport
unfolding sweep starts_of edge_count
close_over nodes limits =
    elim (sweep nodes limits.max_events (sweep_fuel nodes limits.max_events) blank
      (start_frames (starts_of nodes)) nothing_swept) [ none ↦ none | some a ↦ some (report_of a) ]

-- The three checks of a report, in the order of the code.
unfoldable pub check_dangling : List DanglingEdge → ClosureResult (Unit {0})
check_dangling [] = ok tt
check_dangling (edge ∷ edges) = err (dangling_parent edge.child edge.parent)

unfoldable pub check_report : ClosureReport → ClosureResult (Unit {0})
unfolding check_dangling
check_report r = do
  refuse r.cycle cycle
  refuse r.exceeded limit_exceeded
  check_dangling r.dangling

-- `close_check`
unfoldable pub close_check : List EventNode → ClosureLimits → Option (ClosureResult ClosureReport)
unfolding close_over check_report
close_check nodes limits = elim (close_over nodes limits) [
  | none ↦ none
  | some report ↦ some (check_report report >> ok report)
]
