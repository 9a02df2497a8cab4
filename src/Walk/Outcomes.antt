-- ===== src/Walk/Outcomes.antt =====
-- Outcomes of walks in sequence, with the results of the steps around them.
use contextmesh_rs.Common.{◌≡◌, ◌≢◌, refl, Result, ok, err}
use contextmesh_rs.Walk.{Outcome, finished, failed, out_of_fuel}

module _ {E A : Type 0} where
  unfoldable pub of_result : Result E A → Outcome E A
  of_result (ok a) = finished a
  of_result (err x) = failed x

  pub of_result-finished : (r : Result E A) {a : A} → of_result r ≡ finished a → r ≡ ok a
  unfolding of_result
  of_result-finished (ok a) h = cc
  of_result-finished (err x) h = cc

  pub of_result_ends : (r : Result E A) → of_result r ≢ out_of_fuel
  unfolding of_result
  of_result_ends (ok a) h = cc
  of_result_ends (err x) h = cc

module _ {E A B : Type 0} where
  -- `walk.await?` before the rest.
  unfoldable pub and_then : Outcome E A → (A → Outcome E B) → Outcome E B
  and_then (finished a) rest = rest a
  and_then (failed x) rest = failed x
  and_then out_of_fuel rest = out_of_fuel

  pub and_then-finished :
      (o : Outcome E A) (rest : A → Outcome E B) {b : B}
      → and_then o rest ≡ finished b
      → (a : A) × (o ≡ finished a) × (rest a ≡ finished b)
  unfolding and_then
  and_then-finished (finished a) rest h = (a, refl, h)
  and_then-finished (failed x) rest h = cc
  and_then-finished out_of_fuel rest h = cc

  pub and_then_ends :
      (o : Outcome E A) (rest : A → Outcome E B)
      → o ≢ out_of_fuel
      → ((a : A) → rest a ≢ out_of_fuel)
      → and_then o rest ≢ out_of_fuel
  unfolding and_then
  and_then_ends (finished a) rest ends rests h = rests a h
  and_then_ends (failed x) rest ends rests h = cc
  and_then_ends out_of_fuel rest ends rests h = ends refl
