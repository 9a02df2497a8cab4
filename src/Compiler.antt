-- ===== src/Compiler.antt =====
-- The context compiler (src/compiler.rs): the references of a selection under a budget. At most 4096
-- payloads are summed, each of at most 2 ^ 20 bytes, so the sum of the code does not overflow.
use contextmesh_rs.Common.{
  ℕ, ◌+◌, ◌≤◌, ◌≡◌, refl, ◌⊎◌, inl, inr, Bool-cases, ◌||◌, List, [], ◌∷◌, arith, ltb, length, ok,
  err, ◌>>◌, refuse,
}
use contextmesh_rs.Selection.Sources.{
  SelectionResult, SelectionBudget, SourceReference, budget_exceeded, max_selected_events,
  max_selected_bytes,
}

pub record CompiledContext : Type 0 where
  pub references : List SourceReference
  pub budget : SelectionBudget
  pub total_bytes : ℕ

-- `.map(SourceReference::payload_bytes).sum()`
unfoldable pub sum_bytes : List SourceReference → ℕ
sum_bytes [] = 0
sum_bytes (r ∷ rs) = r.payload_bytes + sum_bytes rs

-- `CompiledContext::compile`
unfoldable pub compile_context :
    List SourceReference → SelectionBudget → SelectionResult CompiledContext
compile_context references budget = do
  refuse
      (ltb max_selected_events (length references)
        || ltb budget.selected_events (length references))
      budget_exceeded
  let total = sum_bytes references
  refuse (ltb max_selected_bytes total || ltb budget.exported_bytes total) budget_exceeded
  let compiled : CompiledContext = record {
    references = references;
    budget = budget;
    total_bytes = total;
  }
  ok compiled

-- What a budget admits: it and the two ceilings bound the number and the bytes of the references.
abbrev pub WithinBudget : List SourceReference → SelectionBudget → Type 0
WithinBudget references budget =
    (length references ≤ max_selected_events)
    × (length references ≤ budget.selected_events)
    × (sum_bytes references ≤ max_selected_bytes)
    × (sum_bytes references ≤ budget.exported_bytes)

-- A compilation succeeds exactly within the budget and the ceilings, and then returns all references
-- in their order, the budget and the sum of the bytes; outside of them it reports that the budget is
-- exceeded.
pub compile_context-WithinBudget :
    (references : List SourceReference) (budget : SelectionBudget)
    → (compile_context references budget
          ≡ ok (record {
            references = references;
            budget = budget;
            total_bytes = sum_bytes references;
          }))
        × WithinBudget references budget
      ⊎ (compile_context references budget ≡ err budget_exceeded)
        × (WithinBudget references budget → ⊥)
unfolding compile_context
compile_context-WithinBudget references budget =
    elim (Bool-cases (
      ltb max_selected_events (length references)
      || ltb budget.selected_events (length references))) [
        | inl many ↦ inr (rw many refl, ground arith)
        | inr few ↦
            elim (Bool-cases (
              ltb max_selected_bytes (sum_bytes references)
              || ltb budget.exported_bytes (sum_bytes references))) [
                | inl large ↦ inr (rw (few, large) refl, ground arith)
                | inr small ↦ inl (rw (few, small) refl, ground arith)
              ]
      ]
