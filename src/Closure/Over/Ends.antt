-- ===== src/Closure/Over/Ends.antt =====
-- The fuel of `close_over` (src/closure.rs).
use contextmesh_rs.Common.{
  ℕ, zero, suc, ◌+◌, ◌-◌, ◌*◌, ◌≤◌, ◌<◌, ◌≡◌, ◌≢◌, refl, Bool, true, false, none, List, [], ◌∷◌,
  ◌++◌, arith, leb, Option-cases, inl, inr, length, length-sort_dedup,
}
use contextmesh_rs.Walk.{
  Mark, unseen, active, done, Frame, enter, exit, Marks, set_mark, blank, start_frames,
}
use contextmesh_rs.Closure.{ClosureLimits, EventNode}
use contextmesh_rs.Closure.Over.{
  Sweep, parents_of, starts_of, node_frames, edges_out, or_empty, sweep, nothing_swept, sweep_fuel,
  close_over, edge_count,
}

length-node_frames :
    (nodes : List EventNode) (id : ℕ) (ps : List ℕ) (rest : List Frame)
    → length (node_frames nodes id ps rest) ≤ length ps + length rest
unfolding node_frames
length-node_frames nodes id [] rest = omega arith
length-node_frames nodes id (p ∷ ps) rest = ground (arith, length-node_frames nodes id ps rest)

length-parents_of :
    (nodes : List EventNode) (id : ℕ) → length (or_empty (parents_of nodes id)) ≤ edge_count nodes
unfolding parents_of edge_count
length-parents_of [] id = omega arith
length-parents_of (n ∷ ns) id = ground (arith, length-parents_of ns id, length-sort_dedup n.parents)

step_cost :
    (limit count edges : ℕ)
    → count < limit
    → (limit - (count + 1)) * (edges + 1) + (edges + 1) ≡ (limit - count) * (edges + 1)
step_cost limit count edges h =
    let e : limit - count ≡ limit - (count + 1) + 1 = omega arith in rw e (grind arith)

-- A round costs a frame, and at an event of the limit the frames that it pushes.
sweep_ends :
    (nodes : List EventNode) (max_events fuel : ℕ) (marks : Marks) (stack : List Frame) (a : Sweep)
    → length stack + (max_events - a.count) * (edge_count nodes + 1) ≤ fuel
    → sweep nodes max_events fuel marks stack a ≢ none
unfolding sweep
sweep_ends nodes max_events fuel marks [] a h = λ e. cc
sweep_ends nodes max_events zero marks (f ∷ rest) a h = absurd (omega arith)
sweep_ends nodes max_events (suc fuel) marks (exit id ∷ rest) a h =
    sweep_ends nodes max_events fuel (set_mark marks id done) rest a (omega arith)
sweep_ends nodes max_events (suc fuel) marks (enter id child ∷ rest) a h =
    entered (marks id) (leb max_events a.count) refl refl
      (sweep_ends nodes max_events fuel marks rest a (omega arith))
      (sweep_ends nodes max_events fuel marks rest (record a { cycle = true }) (omega arith))
      (λ room.
        sweep_ends nodes max_events fuel (set_mark marks id active)
          (node_frames nodes id ps (exit id ∷ rest)) next
          (omega (
            arith,
            length-node_frames nodes id ps (exit id ∷ rest),
            length-parents_of nodes id,
            step_cost max_events a.count (edge_count nodes) room,
          )))
  where
    ps : List ℕ
    ps = or_empty (parents_of nodes id)

    next : Sweep
    next = record a {
      count = a.count + 1;
      closed = a.closed ++ (id ∷ []);
      dangling = a.dangling ++ edges_out nodes id ps;
    }

    entered :
        (m : Mark) (full : Bool)
        → marks id ≡ m
        → leb max_events a.count ≡ full
        → sweep nodes max_events fuel marks rest a ≢ none
        → sweep nodes max_events fuel marks rest (record a { cycle = true }) ≢ none
        → (a.count < max_events
            → sweep nodes max_events fuel
                (set_mark marks id active)
                (node_frames nodes id ps (exit id ∷ rest))
                next
              ≢ none)
        → sweep nodes max_events (suc fuel) marks (enter id child ∷ rest) a ≢ none
    entered done full e l again cycles first = rw (e, sweep) again
    entered active full e l again cycles first = rw (e, sweep) cycles
    entered unseen true e l again cycles first = rw (e, l, sweep) (λ k. cc)
    entered unseen false e l again cycles first = rw (e, l, sweep) (first (ground arith))

length-start_frames : (xs : List ℕ) → length (start_frames xs) ≡ length xs
length-start_frames [] = refl
length-start_frames (x ∷ xs) = omega (arith, length-start_frames xs)

whole : (limit edges : ℕ) → (limit - 0) * (edges + 1) ≡ limit * (edges + 1)
whole limit edges = let e : limit - 0 ≡ limit = omega arith in rw e refl

-- `close_over` never runs out of fuel: it gives a report.
pub close_over_ends :
    (nodes : List EventNode) (limits : ClosureLimits) → close_over nodes limits ≢ none
unfolding close_over
close_over_ends nodes limits =
    elim (Option-cases (
      sweep nodes limits.max_events (sweep_fuel nodes limits.max_events) blank
        (start_frames (starts_of nodes)) nothing_swept)) [
          | inl out ↦ absurd (
              sweep_ends nodes limits.max_events (sweep_fuel nodes limits.max_events) blank
                (start_frames (starts_of nodes)) nothing_swept
                (omega (
                  arith,
                  length-start_frames (starts_of nodes),
                  whole limits.max_events (edge_count nodes),
                ))
                out)
          | inr (a, there) ↦ rw (there, close_over) (λ e. cc)
        ]
