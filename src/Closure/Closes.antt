-- ===== src/Closure/Closes.antt =====
-- The loops of `close_selection` (src/closure.rs) over the candidates and over the closed identifiers.
use mathlib.Core.List.Memᴰ
use mathlib.Core.List.{append-nil, append_assoc}
use contextmesh_rs.Common.{
  ℕ, zero, suc, ◌+◌, ◌≤◌, ◌≡◌, refl, ap, sym, ◌∙◌, subst, ◌↔◌, ◌⊎◌, inl, inr, ⊎_elim, true, false,
  not, Option, none, some, List, [], ◌∷◌, ◌++◌, Memᴰ, Memᴰ-cons, Memᴰ-concat, arith, Bytes, ◌==◌,
  ==_iff, Bool-cases, Option-cases, if◌then◌else◌, length, get_elem?, sort_dedup, Memᴰ-sort_dedup,
  IsAscending, sort_dedup-IsAscending, ok, err, >>=-eq-ok, refuse, map_err,
}
use contextmesh_rs.Event.Body.{SignedEvent, Libraries}
use contextmesh_rs.Store.State.{StoreResult, Db}
use contextmesh_rs.Store.Rows.{event}
use contextmesh_rs.Store.Project.{max_usize}
use contextmesh_rs.Walk.Reach.{Reach}
use contextmesh_rs.Selection.Sources.{SourceReference, SourceEvent, from_signed, from_source}
use contextmesh_rs.Compiler.{sum_bytes}
use contextmesh_rs.Closure.{
  ClosureResult, ClosureLimits, EventNode, wrong_context, unverifiable_source,
}
use contextmesh_rs.Closure.Nodes.{node_ids, event_parents}
use contextmesh_rs.Closure.Over.{ClosureReport, close_over, check_report}
use contextmesh_rs.Closure.Over.Exact.{close_over_exact}
use contextmesh_rs.Closure.Select.{
  Covering, Referring, ClosedSelection, narrow, binary_search, is_critical, closed_event,
  cover_event, cover_one, cover, refer_one, refer, close_nodes,
}

Memᴰ-get_elem? : (xs : List ℕ) (i x : ℕ) → get_elem? xs i ≡ some x → Memᴰ x xs
Memᴰ-get_elem? [] i x h = cc
Memᴰ-get_elem? (y ∷ ys) zero x h = let same : y ≡ x = cc in Memᴰ.head (sym same)
Memᴰ-get_elem? (y ∷ ys) (suc i) x h = Memᴰ.tail (Memᴰ-get_elem? ys i x h)

-- What the search finds is there, in whatever order the list is.
pub binary_search-Memᴰ : (xs : List ℕ) (a : ℕ) → binary_search xs a ≡ true → Memᴰ a xs
unfolding binary_search
binary_search-Memᴰ xs a h =
    elim (Option-cases (get_elem? xs (narrow (length xs) xs a 0 (length xs)))) [
      | inl out ↦ cc (rw (out, binary_search) at h)
      | inr (x, there) ↦
          let same : x ≡ a = (==_iff x a).0 (rw (there, binary_search) at h) in
          subst (λ (y : ℕ). Memᴰ y xs) same (Memᴰ-get_elem? xs _ x there)
    ]

module _ (lib : Libraries) (db : Db) (context : ℕ) (policy : List Bytes) where
  -- The store gives the event, in the context, and its kind is critical.
  abbrev pub IsCritical : ℕ → Type 0
  IsCritical id =
      (e : SignedEvent) × (event lib db id ≡ ok (some e))
      × (e.body.context ≡ context)
      × (is_critical policy e.body.kind ≡ true)

  closed_event-eq-ok :
      (id : ℕ) (r : StoreResult (Option SignedEvent)) (e : SignedEvent)
      → closed_event id r ≡ ok e
      → r ≡ ok (some e)
  unfolding closed_event
  closed_event-eq-ok id (ok (some x)) e h = let same : x ≡ e = cc in rw same refl
  closed_event-eq-ok id (ok none) e h = cc
  closed_event-eq-ok id (err x) e h = cc

  cover_one-Memᴰ :
      (id j : ℕ) (c d : Covering)
      → cover_one lib db context policy id c ≡ ok d
      → Memᴰ j d.closed_ids ↔ (Memᴰ j c.closed_ids ⊎ ((j ≡ id) × IsCritical id))
  unfolding cover_one cover_event
  cover_one-Memᴰ id j c d h =
      let (e, there, h₁) = >>=-eq-ok (closed_event id (event lib db id)) _ h in
      let (_, inside, h₂) =
        >>=-eq-ok (refuse (not (e.body.context == context)) (wrong_context id)) _ h₁ in
      let stored : event lib db id ≡ ok (some e) =
        closed_event-eq-ok id (event lib db id) e there in
      let same : e.body.context ≡ context = ground (arith, inside) in
      elim (Bool-cases (is_critical policy e.body.kind)) [
        | inl critical ↦
            let grown : c.closed_ids ++ (id ∷ []) ≡ d.closed_ids =
              ap (λ (r : ClosureResult Covering). elim r [ ok d ↦ d.closed_ids | err x ↦ [] ])
                (rw (critical, cover_event) at h₂) in
            rw (← grown) (
              λ m.
                  ⊎_elim inl (λ (q : j ≡ id). inr (q, (e, stored, same, critical)))
                    ((Memᴰ-concat j id c.closed_ids).0 m),
              λ m. (Memᴰ-concat j id c.closed_ids).1 (⊎_elim inl (λ q. inr (q.0)) m),
            )
        | inr plain ↦
            let kept : c.closed_ids ≡ d.closed_ids =
              ap (λ (r : ClosureResult Covering). elim r [ ok d ↦ d.closed_ids | err x ↦ [] ])
                (rw (plain, cover_event) at h₂) in
            rw (← kept) (
              λ m. inl m,
              λ m.
                  ⊎_elim (λ n. n)
                    (λ (_, (f, there', _, critical)).
                      let one : e ≡ f = cc (stored, there') in
                      let kinds = ap (λ (x : SignedEvent). is_critical policy x.body.kind) one in
                      absurd (cc (plain, critical, kinds)))
                    m,
            )
      ]

  cover-Memᴰ :
      (ids : List ℕ) (j : ℕ) (c d : Covering)
      → cover lib db context policy ids c ≡ ok d
      → Memᴰ j d.closed_ids ↔ (Memᴰ j c.closed_ids ⊎ (Memᴰ j ids × IsCritical j))
  unfolding cover
  cover-Memᴰ [] j c d h =
      let same : c ≡ d = cc in
      subst
        (λ (d : Covering). Memᴰ j d.closed_ids ↔ (Memᴰ j c.closed_ids ⊎ (Memᴰ j [] × IsCritical j)))
        same (inl, ⊎_elim (λ n. n) (λ q. absurd (Memᴰ.not-nil q.0)))
  cover-Memᴰ (id ∷ ids) j c d h = elim (Bool-cases (binary_search c.closed_ids id)) [
    | inl there ↦
        let (next, step, h₁) =
          >>=-eq-ok
            (if binary_search c.closed_ids id then ok c else cover_one lib db context policy id c) _
            h in
        let same : c ≡ next = cc (rw there at step) in
        let (out, into) = cover-Memᴰ ids j next d h₁ in
        let inside : Memᴰ id c.closed_ids = binary_search-Memᴰ c.closed_ids id there in
        (
          λ m.
              ⊎_elim (λ n. inl (subst (λ (c : Covering). Memᴰ j c.closed_ids) (sym same) n))
                (λ (n, critical). inr (Memᴰ.tail n, critical)) (out m),
          ⊎_elim (λ n. into (inl (subst (λ (c : Covering). Memᴰ j c.closed_ids) same n)))
              (λ (n, critical). into (
                ⊎_elim
                  (λ (e : j ≡ id). inl (
                    subst (λ (c : Covering). Memᴰ j c.closed_ids) same
                      (subst (λ (k : ℕ). Memᴰ k c.closed_ids) (sym e) inside)))
                  (λ k. inr (k, critical)) ((Memᴰ-cons j id ids).0 n))),
        )
    | inr fresh ↦
        let (next, step, h₁) =
          >>=-eq-ok
            (if binary_search c.closed_ids id then ok c else cover_one lib db context policy id c) _
            h in
        let (found, finds) = cover_one-Memᴰ id j c next (rw fresh at step) in
        let (out, into) = cover-Memᴰ ids j next d h₁ in
        (
          λ m.
              ⊎_elim
                (λ n.
                  ⊎_elim inl (λ (e, critical). inr (Memᴰ.head e, subst IsCritical (sym e) critical))
                    (found n))
                (λ (n, critical). inr (Memᴰ.tail n, critical)) (out m),
          ⊎_elim (λ n. into (inl (finds (inl n))))
              (λ (n, critical).
                ⊎_elim (λ (e : j ≡ id). into (inl (finds (inr (e, subst IsCritical e critical)))))
                  (λ k. into (inr (k, critical))) ((Memᴰ-cons j id ids).0 n)),
        )
  ]

  -- Each reference is the view of the event that the store gives for its identifier.
  abbrev pub RefersTo : List ℕ → List SourceReference → Type 0
  RefersTo [] [] = Unit
  RefersTo [] (r ∷ rs) = ⊥
  RefersTo (id ∷ ids) [] = ⊥
  RefersTo (id ∷ ids) (r ∷ rs) =
      ((e : SignedEvent) × (s : SourceEvent) × (event lib db id ≡ ok (some e))
        × (from_signed lib e ≡ ok s)
        × (r ≡ from_source s))
      × RefersTo ids rs

  refer_lem :
      (ids : List ℕ) (a b : Referring)
      → refer lib db ids a ≡ ok b
      → (rs : List SourceReference) × (b.references ≡ a.references ++ rs)
        × RefersTo ids rs
        × (b.total_bytes ≡ a.total_bytes + sum_bytes rs)
        × (a.total_bytes ≤ max_usize → b.total_bytes ≤ max_usize)
  unfolding refer refer_one sum_bytes from_source
  refer_lem [] a b h =
      let same : a ≡ b = cc in
      (
        [],
        ap (λ (r : Referring). r.references) (sym same) ∙ sym (append-nil a.references),
        tt,
        ap (λ (r : Referring). r.total_bytes) (sym same) ∙ omega arith,
        λ k. subst (λ (r : Referring). r.total_bytes ≤ max_usize) same k,
      )
  refer_lem (id ∷ ids) a b h =
      let (next, one, rest) = >>=-eq-ok (refer_one lib db id a) _ h in
      let (e, found, h₁) = >>=-eq-ok (closed_event id (event lib db id)) _ one in
      let (s, view, h₂) =
        >>=-eq-ok (map_err (λ _. unverifiable_source id) (from_signed lib e)) _ h₁ in
      let (rs, refs, refers, total, bound) = refer_lem ids next b rest in
      let first : next.references ≡ a.references ++ (from_source s ∷ []) = ground (arith, h₂) in
      (
        from_source s ∷ rs,
        refs
            ∙ (ap (λ (xs : List SourceReference). xs ++ rs) first
                ∙ append_assoc a.references (from_source s ∷ []) rs),
        (
          (e, s, closed_event-eq-ok id (event lib db id) e found, ground (arith, view), refl),
          refers,
        ),
        ground (arith, h₂, total),
        λ _. bound (ground (arith, h₂)),
      )

  -- The closure of a selection with its critical candidates: identifiers in ascending order, exactly
  -- the ancestry and the critical candidates, and for each the reference to its event, with the sum
  -- of their bytes.
  pub record Closes (selected candidates : List ℕ) (c : ClosedSelection) : Type 0 where
    pub ids : List ℕ
    pub ordered : IsAscending ids
    pub exact :
        (j : ℕ)
        → Memᴰ j ids ↔ (
            Reach (event_parents lib db context) (sort_dedup selected) j
            ⊎ (Memᴰ j candidates × IsCritical j))
    pub references : RefersTo ids c.references
    pub total : c.total_bytes ≡ sum_bytes c.references
    pub bound : c.total_bytes ≤ max_usize

  check_report-exceeded : (r : ClosureReport) → check_report r ≡ ok tt → r.exceeded ≡ false
  unfolding check_report
  check_report-exceeded r h = ground arith

  pub close_nodes-Closes :
      (selected candidates : List ℕ) (limits : ClosureLimits) (nodes : List EventNode)
      (report : ClosureReport) (c : ClosedSelection)
      → close_over nodes limits ≡ some report
      → ((j : ℕ)
          → Memᴰ j (node_ids nodes) ↔ Reach (event_parents lib db context) (sort_dedup selected) j)
      → close_nodes lib db context
          (sort_dedup selected)
          (sort_dedup candidates)
          policy
          limits
          report
        ≡ ok c
      → Closes selected candidates c
  unfolding close_nodes
  close_nodes-Closes selected candidates limits nodes report c over reach h =
      let start : Covering = record { closed_ids = report.closed; added_critical = [] } in
      let empty : Referring = record { references = []; total_bytes = 0 } in
      let (u, checked, h₁) = >>=-eq-ok (check_report report) _ h in
      let (d, covers, h₂) =
        >>=-eq-ok (cover lib db context policy (sort_dedup candidates) start) _ h₁ in
      let (r, refers, h₃) = >>=-eq-ok (refer lib db (sort_dedup d.closed_ids) empty) _ h₂ in
      let (_, closed) =
        close_over_exact nodes limits report over (check_report-exceeded report checked) in
      let (rs, refs, each, total, bound) = refer_lem (sort_dedup d.closed_ids) empty r refers in
      let same : c.references ≡ rs = ground (arith, h₃, refs) in
      record {
        ids = sort_dedup d.closed_ids;
        ordered = sort_dedup-IsAscending d.closed_ids;
        exact = λ j.
            let (out, into) = Memᴰ-sort_dedup j d.closed_ids in
            let (found, finds) = cover-Memᴰ (sort_dedup candidates) j start d covers in
            let (asked, asks) = Memᴰ-sort_dedup j candidates in
            let (node, noded) = closed j in
            let (far, near) = reach j in
            (
              λ m.
                  ⊎_elim (λ n. inl (far (node n))) (λ (n, critical). inr (asked n, critical))
                    (found (out m)),
              λ q. into (
                  finds (
                    ⊎_elim (λ n. inl (noded (near n))) (λ (n, critical). inr (asks n, critical))
                      q)),
            );
        references = rw same each;
        total = rw same (ground (arith, h₃, total));
        bound = ground (arith, h₃, bound (omega arith));
      }
