-- ===== src/Delta.antt =====
-- What a recipient knows and what it lacks (src/delta.rs): `RecipientState::from_closure` and the
-- partition `delta_over`. A binary search in an ascending list is the test of membership.
pub mod Partition
pub mod Head
pub mod Compute
use contextmesh_rs.Common.{
  ℕ, ◌≤◌, ◌≡◌, Bool, true, false, not, ◌&&◌, Option, none, some, List, [], ◌∷◌, ltb, if◌then◌else◌,
  length, contains, sort_dedup, Result, ok, err, ◌>>=◌, ◌>>◌, refuse,
}
use contextmesh_rs.Store.State.{StoreError}

pub data DeltaError : Type 0 where
  unknown_recipient_head wrong_context unverifiable_source : ℕ → DeltaError
  context_mismatch cycle limit_exceeded invalid_state internal : DeltaError
  dangling_parent : (child parent : ℕ) → DeltaError
  store : StoreError → DeltaError

abbrev pub max_delta_events : ℕ
max_delta_events = 100_000

pub record RecipientState : Type 0 where
  pub context : ℕ
  pub head : Option ℕ
  pub closure : List ℕ
  pub total_bytes : ℕ

abbrev pub cold_start : ℕ → RecipientState
cold_start context = record { context = context; head = none; closure = []; total_bytes = 0 }

-- A stated head is not in the closure.
unfoldable pub lacks_head : Option ℕ → List ℕ → Bool
lacks_head none closure = false
lacks_head (some h) closure = not (contains closure h)

-- `RecipientState::from_closure`
unfoldable pub from_closure : ℕ → Option ℕ → List ℕ → ℕ → Result DeltaError RecipientState
unfolding lacks_head
from_closure context head stated total_bytes = do
  let closure = sort_dedup stated
  refuse (ltb max_delta_events (length closure)) limit_exceeded
  refuse (lacks_head head closure) invalid_state
  let state : RecipientState = record {
    context = context;
    head = head;
    closure = closure;
    total_bytes = total_bytes;
  }
  ok state

pub record DeltaReport : Type 0 where
  pub delta : List ℕ
  pub known : List ℕ

-- The loop of `delta_over`, over what is left of the selection.
unfoldable pub partition : List ℕ → List ℕ → DeltaReport
partition closure [] = record { delta = []; known = [] }
partition closure (id ∷ ids) =
    let rest = partition closure ids in
    if contains closure id
    then record { delta = rest.delta; known = id ∷ rest.known }
    else record { delta = id ∷ rest.delta; known = rest.known }

unfoldable pub delta_over : List ℕ → List ℕ → DeltaReport
unfolding partition
delta_over selected closure = partition (sort_dedup closure) (sort_dedup selected)
