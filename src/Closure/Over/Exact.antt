-- ===== src/Closure/Over/Exact.antt =====
-- The identifiers that `close_over` (src/closure.rs) closes, and its fuel.
use mathlib.Core.List.Memᴰ
use contextmesh_rs.Common.{
  ℕ, zero, suc, ◌+◌, ◌≡◌, ◌≢◌, refl, ap, sym, ◌∙◌, subst, ◌↔◌, ◌⊎◌, inl, inr, ⊎_elim, Bool, true,
  false, Option, some, List, [], ◌∷◌, ◌++◌, map, Memᴰ, Memᴰ-cons, Memᴰ-concat, arith, leb, ◌==◌,
  ==_iff, Bool-cases, Option-cases, Memᴰ-sort_dedup, IsAscending, sort_dedup-IsAscending,
}
use contextmesh_rs.Walk.{
  Mark, unseen, active, done, Frame, enter, exit, Marks, set_mark, blank, start_frames,
}
use contextmesh_rs.Closure.{ClosureLimits, EventNode}
use contextmesh_rs.Closure.Over.{
  ClosureReport, Sweep, parents_of, starts_of, is_node, node_frames, edges_out, or_empty, sweep,
  nothing_swept, sweep_fuel, close_over, report_of,
}

module _ (nodes : List EventNode) where
  abbrev pub ids : List ℕ
  ids = map (λ (n : EventNode). n.event) nodes

  -- A frame enters a node, or leaves an event that is marked.
  abbrev IsReady : Marks → Frame → Type 0
  IsReady marks (enter id child) = is_node nodes id ≡ true
  IsReady marks (exit id) = marks id ≢ unseen

  -- A frame of the stack enters `j`.
  abbrev Enters : ℕ → List Frame → Type 0
  Enters j [] = ⊥
  Enters j (enter id child ∷ rest) = (j ≡ id) ⊎ Enters j rest
  Enters j (exit id ∷ rest) = Enters j rest

  abbrev AllReady : Marks → List Frame → Type 0
  AllReady marks [] = Unit
  AllReady marks (f ∷ rest) = IsReady marks f × AllReady marks rest

  marked :
      (marks : Marks) (id j : ℕ) (m : Mark)
      → m ≢ unseen
      → marks j ≢ unseen
      → set_mark marks id m j ≢ unseen
  marked marks id j m h k = elim (Bool-cases (id == j)) [
    | inl same ↦ λ u. h (ground (arith, u))
    | inr other ↦ λ u. k (ground (arith, u))
  ]

  AllReady-set :
      (marks : Marks) (id : ℕ) (m : Mark) (stack : List Frame)
      → m ≢ unseen
      → AllReady marks stack
      → AllReady (set_mark marks id m) stack
  AllReady-set marks id m [] h r = tt
  AllReady-set marks id m (enter j child ∷ rest) h r = (r.0, AllReady-set marks id m rest h r.1)
  AllReady-set marks id m (exit j ∷ rest) h r =
      (marked marks id j m h r.0, AllReady-set marks id m rest h r.1)

  node_frames-AllReady :
      (marks : Marks) (id : ℕ) (ps : List ℕ) (rest : List Frame)
      → AllReady marks rest
      → AllReady marks (node_frames nodes id ps rest)
  unfolding node_frames
  node_frames-AllReady marks id [] rest h = h
  node_frames-AllReady marks id (p ∷ ps) rest h = elim (Bool-cases (is_node nodes p)) [
    | inl node ↦ rw node (node, node_frames-AllReady marks id ps rest h)
    | inr other ↦ rw other (node_frames-AllReady marks id ps rest h)
  ]

  node_frames-Enters :
      (j id : ℕ) (ps : List ℕ) (rest : List Frame)
      → Enters j rest
      → Enters j (node_frames nodes id ps rest)
  unfolding node_frames
  node_frames-Enters j id [] rest h = h
  node_frames-Enters j id (p ∷ ps) rest h = elim (Bool-cases (is_node nodes p)) [
    | inl node ↦ rw node (inr (node_frames-Enters j id ps rest h))
    | inr other ↦ rw other (node_frames-Enters j id ps rest h)
  ]

  -- What the loop keeps: the closed events are the marked ones, all of them nodes, and every node is
  -- marked or still to be entered.
  record IsSweep (marks : Marks) (stack : List Frame) (a : Sweep) : Type 0 where
    met : (j : ℕ) → (marks j ≢ unseen) ↔ Memᴰ j a.closed
    inside : (j : ℕ) → Memᴰ j a.closed → is_node nodes j ≡ true
    ready : AllReady marks stack
    waiting : (j : ℕ) → is_node nodes j ≡ true → (marks j ≢ unseen) ⊎ Enters j stack

  -- What it leaves behind, where the limit was not exceeded.
  IsSwept : Sweep → Type 0
  IsSwept a = a.exceeded ≡ false → (j : ℕ) → Memᴰ j a.closed ↔ (is_node nodes j ≡ true)

  -- A mark of an event that is marked already changes nothing of this.
  met_again :
      (marks : Marks) (id j : ℕ) (m : Mark)
      → m ≢ unseen
      → marks id ≢ unseen
      → (set_mark marks id m j ≢ unseen) ↔ (marks j ≢ unseen)
  met_again marks id j m h s = (
    λ k. elim (Bool-cases (id == j)) [
      | inl same ↦ λ u. s (ap marks ((==_iff id j).0 same) ∙ u)
      | inr other ↦ λ u. k (ground (arith, u))
    ],
    λ k. marked marks id j m h k,
  )

  exit_keeps :
      (marks : Marks) (id : ℕ) (rest : List Frame) (a : Sweep)
      → IsSweep marks (exit id ∷ rest) a
      → IsSweep (set_mark marks id done) rest a
  exit_keeps marks id rest a p =
      let left : done ≢ unseen = λ e. cc in
      let again = λ (j : ℕ). met_again marks id j done left p.ready.0 in
      record {
        met = λ j. (λ k. (p.met j).0 ((again j).0 k), λ m. (again j).1 ((p.met j).1 m));
        inside = p.inside;
        ready = AllReady-set marks id done rest left p.ready.1;
        waiting = λ j node. ⊎_elim (λ k. inl ((again j).1 k)) inr (p.waiting j node);
      }

  -- An event that is met again is taken off the stack.
  skip_keeps :
      (marks : Marks) (id : ℕ) (child : Option ℕ) (rest : List Frame) (a b : Sweep)
      → b.closed ≡ a.closed
      → marks id ≢ unseen
      → IsSweep marks (enter id child ∷ rest) a
      → IsSweep marks rest b
  skip_keeps marks id child rest a b same s p = record {
    met = λ j. rw same (p.met j);
    inside = λ j. rw same (p.inside j);
    ready = p.ready.1;
    waiting = λ j node.
        ⊎_elim inl (⊎_elim (λ (e : j ≡ id). inl (λ u. s (ap marks (sym e) ∙ u))) inr)
          (p.waiting j node);
  }

  met_first :
      (marks : Marks) (id : ℕ) (a : Sweep) (rest : List Frame)
      → IsSweep marks rest a
      → (j : ℕ) → (set_mark marks id active j ≢ unseen) ↔ Memᴰ j (a.closed ++ (id ∷ []))
  met_first marks id a rest p j = elim (Bool-cases (id == j)) [
    | inl same ↦ (
      λ _. (Memᴰ-concat j id a.closed).1 (inr (sym ((==_iff id j).0 same))),
      λ _ u. ground (arith, u),
    )
    | inr other ↦ (
      λ s. (Memᴰ-concat j id a.closed).1 (inl ((p.met j).0 (λ u. s (ground (arith, u))))),
      λ m u.
          ⊎_elim (λ k. (p.met j).1 k (ground (arith, u))) (λ q. ground (arith, ==_iff id j))
            ((Memᴰ-concat j id a.closed).0 m),
    )
  ]

  first_keeps :
      (marks : Marks) (id : ℕ) (child : Option ℕ) (rest : List Frame) (a b : Sweep) (ps : List ℕ)
      → b.closed ≡ a.closed ++ (id ∷ [])
      → IsSweep marks (enter id child ∷ rest) a
      → IsSweep (set_mark marks id active) (node_frames nodes id ps (exit id ∷ rest)) b
  first_keeps marks id child rest a b ps same p =
      let open_mark : active ≢ unseen = λ e. cc in
      let here : set_mark marks id active id ≢ unseen = λ u. ground (arith, u) in
      record {
        met = λ j. rw same (met_first marks id a (enter id child ∷ rest) p j);
        inside = λ j m.
            ⊎_elim (p.inside j) (λ (e : j ≡ id). rw e p.ready.0)
              ((Memᴰ-concat j id a.closed).0 (subst (Memᴰ j) same m));
        ready =
            node_frames-AllReady (set_mark marks id active) id ps (exit id ∷ rest)
              (here, AllReady-set marks id active rest open_mark p.ready.1);
        waiting = λ j node.
            ⊎_elim (λ k. inl (marked marks id j active open_mark k))
              (⊎_elim (λ (e : j ≡ id). inl (rw e here))
                (λ k. inr (node_frames-Enters j id ps (exit id ∷ rest) k)))
              (p.waiting j node);
      }

  -- The round behind a frame that enters: the loop goes on from some state that keeps all this, or has
  -- ended at the limit.
  GoesOn : ℕ → ℕ → Sweep → Type 0
  GoesOn max_events fuel b =
      ((marks : Marks) × (stack : List Frame) × (a : Sweep) × (sweep nodes max_events fuel marks
            stack a
          ≡ some b)
        × IsSweep marks stack a)
      ⊎ (b.exceeded ≡ true)

  enter_passes :
      (max_events fuel id : ℕ) (child : Option ℕ) (marks : Marks) (rest : List Frame) (a b : Sweep)
      (m : Mark) (full : Bool)
      → marks id ≡ m
      → leb max_events a.count ≡ full
      → sweep nodes max_events (suc fuel) marks (enter id child ∷ rest) a ≡ some b
      → IsSweep marks (enter id child ∷ rest) a
      → GoesOn max_events fuel b
  unfolding sweep GoesOn
  enter_passes max_events fuel id child marks rest a b done full e l h p =
      inl (marks, rest, a, rw (e, sweep) at h, skip_keeps marks id child rest a a refl (λ u. cc) p)
  enter_passes max_events fuel id child marks rest a b active full e l h p =
      let next : Sweep = record a { cycle = true } in
      inl (
        marks,
        rest,
        next,
        rw (e, sweep) at h,
        skip_keeps marks id child rest a next refl (λ u. cc) p,
      )
  enter_passes max_events fuel id child marks rest a b unseen true e l h p =
      let stops : some (record a { exceeded = true }) ≡ some b = rw (e, l, sweep) at h in
      inr (ground (arith, stops))
  enter_passes max_events fuel id child marks rest a b unseen false e l h p =
      let ps = or_empty (parents_of nodes id) in
      let next : Sweep = record a {
        count = a.count + 1;
        closed = a.closed ++ (id ∷ []);
        dangling = a.dangling ++ edges_out nodes id ps;
      } in
      inl (
        set_mark marks id active,
        node_frames nodes id ps (exit id ∷ rest),
        next,
        rw (e, l, sweep) at h,
        first_keeps marks id child rest a next ps refl p,
      )

  sweep-IsSwept :
      (max_events fuel : ℕ) (marks : Marks) (stack : List Frame) (a b : Sweep)
      → sweep nodes max_events fuel marks stack a ≡ some b
      → IsSweep marks stack a
      → IsSwept b
  unfolding sweep IsSwept GoesOn
  sweep-IsSwept max_events fuel marks [] a b h p =
      let same : a ≡ b = cc in
      subst IsSwept same (λ _ j.
        (p.inside j, λ node. ⊎_elim (λ m. (p.met j).0 m) (λ n. absurd n) (p.waiting j node)))
  sweep-IsSwept max_events zero marks (f ∷ rest) a b h p = cc
  sweep-IsSwept max_events (suc fuel) marks (exit id ∷ rest) a b h p =
      sweep-IsSwept max_events fuel (set_mark marks id done) rest a b h
        (exit_keeps marks id rest a p)
  sweep-IsSwept max_events (suc fuel) marks (enter id child ∷ rest) a b h p =
      ⊎_elim
        (λ (marks', stack', a', h', p'). sweep-IsSwept max_events fuel marks' stack' a' b h' p')
        (λ over within. absurd (cc (over, within)))
        (enter_passes max_events fuel id child marks rest a b (marks id) (leb max_events a.count)
          refl refl h p)

  start_frames-Enters : (j : ℕ) (xs : List ℕ) → Memᴰ j xs → Enters j (start_frames xs)
  start_frames-Enters j [] m = absurd (Memᴰ.not-nil m)
  start_frames-Enters j (x ∷ xs) m =
      ⊎_elim inl (λ n. inr (start_frames-Enters j xs n)) ((Memᴰ-cons j x xs).0 m)

  start_frames-AllReady :
      (marks : Marks) (xs : List ℕ)
      → ((j : ℕ) → Memᴰ j xs → is_node nodes j ≡ true)
      → AllReady marks (start_frames xs)
  start_frames-AllReady marks [] h = tt
  start_frames-AllReady marks (x ∷ xs) h =
      (h x (Memᴰ.head refl), start_frames-AllReady marks xs (λ j m. h j (Memᴰ.tail m)))

-- The keys are the identifiers of the nodes.
is_node_iff : (ns : List EventNode) (j : ℕ) → (is_node ns j ≡ true) ↔ Memᴰ j (ids ns)
unfolding is_node parents_of
is_node_iff [] j = (λ h. cc, λ m. absurd (Memᴰ.not-nil m))
is_node_iff (n ∷ ns) j =
    ground (arith, is_node_iff ns j, Memᴰ-cons j n.event (map (λ (n : EventNode). n.event) ns))

starts_of_iff : (ns : List EventNode) (j : ℕ) → Memᴰ j (starts_of ns) ↔ (is_node ns j ≡ true)
unfolding starts_of
starts_of_iff ns j =
    let (there, back) = is_node_iff ns j in
    let (out, into) = Memᴰ-sort_dedup j (map (λ (n : EventNode). n.event) ns) in
    (λ m. back (out m), λ h. into (there h))

start-IsSweep :
    (nodes : List EventNode) → IsSweep nodes blank (start_frames (starts_of nodes)) nothing_swept
start-IsSweep nodes = record {
  met = λ j. (λ k. absurd (k refl), λ m. absurd (Memᴰ.not-nil m));
  inside = λ j m. absurd (Memᴰ.not-nil m);
  ready = start_frames-AllReady nodes blank (starts_of nodes) (λ j. (starts_of_iff nodes j).0);
  waiting = λ j node.
      inr (start_frames-Enters nodes j (starts_of nodes) ((starts_of_iff nodes j).1 node));
}

-- A report that has not met the limit closes exactly the nodes, in ascending order.
pub close_over_exact :
    (nodes : List EventNode) (limits : ClosureLimits) (r : ClosureReport)
    → close_over nodes limits ≡ some r
    → r.exceeded ≡ false
    → IsAscending r.closed × ((j : ℕ) → Memᴰ j r.closed ↔ Memᴰ j (ids nodes))
unfolding close_over IsSwept
close_over_exact nodes limits r h e = elim (Option-cases swept) [
  | inl out ↦ cc (rw (out, close_over) at h)
  | inr (a, there) ↦
      let same : report_of a ≡ r = ground (arith, rw (there, close_over) at h) in
      let within : a.exceeded ≡ false = ground (arith, same) in
      let exact =
        sweep-IsSwept nodes limits.max_events (sweep_fuel nodes limits.max_events) blank
          (start_frames (starts_of nodes)) nothing_swept a there (start-IsSweep nodes) within in
      subst
        (λ (r : ClosureReport).
          IsAscending r.closed × ((j : ℕ) → Memᴰ j r.closed ↔ Memᴰ j (ids nodes)))
        same
        (
          sort_dedup-IsAscending a.closed,
          λ j.
              let (out, into) = Memᴰ-sort_dedup j a.closed in
              let (there, back) = exact j in
              let (key, node) = is_node_iff nodes j in
              (λ m. key (there (out m)), λ m. into (back (node m))),
        )
]
  where
    swept : Option Sweep
    swept =
        sweep nodes limits.max_events (sweep_fuel nodes limits.max_events) blank
          (start_frames (starts_of nodes)) nothing_swept
