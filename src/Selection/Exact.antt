-- ===== src/Selection/Exact.antt =====
-- What `select_sources` (src/selection.rs) returns: for any selector, and for the baseline selector.
use mathlib.Core.List.Memᴰ
use contextmesh_rs.Common.{
  ℕ, ◌≡◌, ◌≢◌, refl, ap, sym, subst, ◌↔◌, ⊎_elim, false, Option, none, some, List, [], ◌∷◌, Memᴰ,
  arith, Bytes, if◌then◌else◌, ltb, length, is_empty, sort_dedup, Memᴰ-sort_dedup, ok, >>=-eq-ok,
  refuse, map_err,
}
use contextmesh_rs.Event.Json.{Json}
use contextmesh_rs.Event.Body.{Libraries}
use contextmesh_rs.Store.State.{Db}
use contextmesh_rs.Receipt.{TaskRecord, SelectorRecord, task_from_verbatim, new_selector}
use contextmesh_rs.Selection.Sources.{
  SelectionBudget, SelectionMarker, SourceReference, empty_task, invalid_task, too_many_candidates,
  selector_error, no_sources, no_match, max_selection_candidates,
}
use contextmesh_rs.Selection.Baseline.{Selector}
use contextmesh_rs.Selection.Select.{
  Selected, is_blank, load_sources, select_nothing, select_ranked, select_from, select_sources,
}
use contextmesh_rs.Compiler.{
  CompiledContext, compile_context, sum_bytes, WithinBudget, compile_context-WithinBudget,
}

compiled :
    (references : List SourceReference) (budget : SelectionBudget) (c : CompiledContext)
    → compile_context references budget ≡ ok c
    → (c.references ≡ references)
      × (c.total_bytes ≡ sum_bytes references)
      × WithinBudget references budget
compiled references budget c h =
    ⊎_elim
      (λ k.
        let same : record {
          references = references;
          budget = budget;
          total_bytes = sum_bytes references;
        }
            ≡ c =
          cc (k.0) in
        (
          ap (λ (c : CompiledContext). c.references) (sym same),
          ap (λ (c : CompiledContext). c.total_bytes) (sym same),
          k.1,
        ))
      (λ k. absurd (cc (k.0))) (compile_context-WithinBudget references budget)

-- The matrix of the markers, over the candidates and the references.
abbrev pub Marks : Option SelectionMarker → List ℕ → List SourceReference → Type 0
Marks none candidates references = references ≢ []
Marks (some no_sources) candidates references = (candidates ≡ []) × (references ≡ [])
Marks (some no_match) candidates references = (candidates ≢ []) × (references ≡ [])

pub select_nothing_lem :
    (budget : SelectionBudget) (p : SelectorRecord) (r : Selected)
    → select_nothing budget p ≡ ok r
    → (r.context.references ≡ [])
      × (r.context.total_bytes ≡ sum_bytes [])
      × WithinBudget [] budget
      × (r.marker ≡ some no_sources)
unfolding select_nothing
select_nothing_lem budget p r h =
    let (c, k, e) = >>=-eq-ok (compile_context [] budget) _ h in
    let (refs, total, within) = compiled [] budget c k in
    (ground (arith, e, refs), ground (arith, e, total), within, ground (arith, e))

pub select_ranked_lem :
    (budget : SelectionBudget) (p : SelectorRecord) (references : List SourceReference)
    (r : Selected)
    → select_ranked budget p references ≡ ok r
    → (r.context.references ≡ references)
      × (r.context.total_bytes ≡ sum_bytes references)
      × WithinBudget references budget
      × (r.marker ≡ (if is_empty references then some no_match else none))
unfolding select_ranked
select_ranked_lem budget p references r h =
    let (c, k, e) = >>=-eq-ok (compile_context references budget) _ h in
    let (refs, total, within) = compiled references budget c k in
    (ground (arith, e, refs), ground (arith, e, total), within, ground (arith, e))

-- What a result holds to: the budget, the sum of its bytes, and the matrix of the markers.
pub record IsSelected (budget : SelectionBudget) (candidates : List ℕ) (r : Selected) : Type 0 where
  pub within : WithinBudget r.context.references budget
  pub total : r.context.total_bytes ≡ sum_bytes r.context.references
  pub marks : Marks r.marker candidates r.context.references

marks_ranked :
    (m : Option SelectionMarker) (id : ℕ) (ids : List ℕ) (references : List SourceReference)
    → m ≡ (if is_empty references then some no_match else none)
    → Marks m (id ∷ ids) references
marks_ranked m id ids [] h = rw h ((λ e. cc), refl)
marks_ranked m id ids (r ∷ rs) h = rw h (λ e. cc)

select_from-IsSelected :
    (lib : Libraries) (db : Db) (task : TaskRecord) (budget : SelectionBudget) (selector : Selector)
    (p : SelectorRecord) (ids : List ℕ) (r : Selected)
    → select_from lib db task budget selector p ids ≡ ok r
    → IsSelected budget ids r
unfolding select_from
select_from-IsSelected lib db task budget selector p [] r h =
    let (refs, total, within, marker) = select_nothing_lem budget p r h in
    record {
      within = rw refs within;
      total = rw refs total;
      marks = rw (marker, refs) (refl, refl);
    }
select_from-IsSelected lib db task budget selector p (id ∷ ids) r h =
    let (sources, _, h₁) = >>=-eq-ok (load_sources lib db (id ∷ ids)) _ h in
    let (references, _, h₂) = >>=-eq-ok (selector.select task sources) _ h₁ in
    let (refs, total, within, marker) = select_ranked_lem budget p references r h₂ in
    record {
      within = rw refs within;
      total = rw refs total;
      marks = rw refs (marks_ranked r.marker id ids references marker);
    }

pub sort_dedup-nil : (xs : List ℕ) → (sort_dedup xs ≡ []) ↔ (xs ≡ [])
sort_dedup-nil [] = (λ _. refl, λ _. no_members (sort_dedup []) (λ a m. (Memᴰ-sort_dedup a []).0 m))
  where
    no_members : (xs : List ℕ) → ((a : ℕ) → Memᴰ a xs → Memᴰ a []) → xs ≡ []
    no_members [] h = refl
    no_members (x ∷ xs) h = absurd (Memᴰ.not-nil (h x (Memᴰ.head refl)))
sort_dedup-nil (x ∷ xs) = (
  λ e. absurd (Memᴰ.not-nil (subst (Memᴰ x) e ((Memᴰ-sort_dedup x (x ∷ xs)).1 (Memᴰ.head refl)))),
  λ e. cc,
)

Marks-sort_dedup :
    (m : Option SelectionMarker) (candidates : List ℕ) (references : List SourceReference)
    → Marks m (sort_dedup candidates) references
    → Marks m candidates references
Marks-sort_dedup none candidates references h = h
Marks-sort_dedup (some no_sources) candidates references h =
    ((sort_dedup-nil candidates).0 h.0, h.1)
Marks-sort_dedup (some no_match) candidates references h =
    (λ e. h.0 ((sort_dedup-nil candidates).1 e), h.1)

module _ (lib : Libraries) (db : Db) (task_text : Bytes) (structured : Option Json)
    (budget : SelectionBudget) (candidates : List ℕ) where
  -- What the steps before the candidates are loaded have established.
  pub selects_from :
      (selector : Selector) (r : Selected)
      → select_sources lib db task_text structured budget selector candidates ≡ ok r
      → (task : TaskRecord) × (p : SelectorRecord) × (task_from_verbatim lib task_text structured
          ≡ ok task)
        × (select_from lib db task budget selector p (sort_dedup candidates) ≡ ok r)
        × (is_blank task_text ≡ false)
  unfolding select_sources
  selects_from selector r h =
      let (_, text, h₁) = >>=-eq-ok (refuse (is_blank task_text) empty_task) _ h in
      let (task, t, h₂) =
        >>=-eq-ok (map_err (λ _. invalid_task) (task_from_verbatim lib task_text structured)) _
          h₁ in
      let (_, _, h₃) =
        >>=-eq-ok
          (refuse (ltb max_selection_candidates (length (sort_dedup candidates)))
            too_many_candidates)
          _ h₂ in
      let (p, _, h₄) =
        >>=-eq-ok
          (map_err (λ _. selector_error)
            (new_selector selector.identity selector.version selector.config_hash))
          _ h₃ in
      (task, p, ground (arith, t), h₄, ground (arith, text))

  -- Whatever the selector, a selection that succeeds is for a task that is not blank, within the
  -- budget and the ceilings, with the sum of its bytes; its marker says that there are no sources
  -- exactly where there are no candidates, and that there is no match exactly where there are some
  -- and no reference is selected.
  pub select_sources-IsSelected :
      (selector : Selector) (r : Selected)
      → select_sources lib db task_text structured budget selector candidates ≡ ok r
      → (is_blank task_text ≡ false) × IsSelected budget candidates r
  select_sources-IsSelected selector r h =
      let (task, p, _, from, text) = selects_from selector r h in
      let s = select_from-IsSelected lib db task budget selector p (sort_dedup candidates) r from in
      (
        text,
        record {
          within = s.within;
          total = s.total;
          marks = Marks-sort_dedup r.marker candidates r.context.references s.marks;
        },
      )
