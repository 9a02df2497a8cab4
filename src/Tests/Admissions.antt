-- ===== src/Tests/Admissions.antt =====
-- The theorems on admissions, refs and branches at the sample database.
use contextmesh_rs.Common.{
  ℕ, ◌≤◌, ◌≡◌, ◌≢◌, refl, ap, sym, ◌∙◌, subst, ◌⊎◌, inl, inr, ◌↔◌, Bool, true, false, Option, none,
  some, List, [], ◌∷◌, Memᴰ, arith, Bytes, codes, length, Result, ok, err, IsAscending,
}
use contextmesh_rs.Common.Table.{lookup}
use contextmesh_rs.Event.Json
use contextmesh_rs.Event.Json.{
  Json, Contract, validate_json_value, depth_of, NumbersAreSafe, validate_json_value_iff,
}
use contextmesh_rs.Event.Kind.{IsLabel, max_kind_bytes, validate_kind, validate_kind_iff}
use contextmesh_rs.Event.Body.{
  EventBody, SignedEvent, verify, validate, validate_parents, max_parents, create_event,
}
use contextmesh_rs.Event.Wire.{event_json, to_wire, max_raw_wire_bytes}
use contextmesh_rs.Store.State.{
  StoreResult, Db, empty_db, write, acknowledged, lost_after, indeterminate_commit,
}
use contextmesh_rs.Store.Invariant.{Stored, IsConsistent, Extends}
use contextmesh_rs.Store.Invariant.Initial.{IsConsistent-empty}
use contextmesh_rs.Store.Refs.{
  RefMutation, no_move, compare_and_swap, absent, head, apply_ref_mutation, create_branch,
  set_remote_ref,
}
use contextmesh_rs.Store.Refs.Swap.{Expected, ref_at, Moved, apply_ref_mutation-Moved}
use contextmesh_rs.Store.Admit.{
  inserted, admit, provision_context_tx, join_context_tx, authorize_author_tx,
}
use contextmesh_rs.Store.Admit.Atomic.{admit-IsConsistent, admit-Stored}
use contextmesh_rs.Store.Admit.Provision.{Grows, provision-IsConsistent}
use contextmesh_rs.Store.Dag.{create_context, new_genesis}
use contextmesh_rs.Store.Dag.Keeps.{create_context-IsConsistent}
use contextmesh_rs.Store.Admit.Retry.{admit-again}
use contextmesh_rs.Store.Admit.{AdmissionStatus}
use contextmesh_rs.Store.State.{indeterminate_commit}
use contextmesh_rs.Common.{All}
use contextmesh_rs.Event.Wire.RoundTrip.{IsWritable}
use contextmesh_rs.Tests.Events.{genesis-IsWritable}
use contextmesh_rs.Tests.Sample.{noted, genesis-ReadsBack, note-ReadsBack}
use contextmesh_rs.Tests.Toy.{write_json, toy, toy-Documented}
use contextmesh_rs.Tests.Sample.{
  main, provisioned, started, start_main, move_main, admit_genesis, provisioned-IsConsistent,
  started-IsConsistent,
}
use contextmesh_rs.Tests.Events.{payload, genesis, genesis_wire, note}

admit-IsConsistent_example :
    IsConsistent toy (admit toy lost_after note move_main started).1
    × Extends started (admit toy lost_after note move_main started).1
admit-IsConsistent_example =
    admit-IsConsistent toy note note-ReadsBack lost_after move_main started started-IsConsistent

admit-Stored_example :
    Stored toy (admit toy acknowledged genesis start_main provisioned).1 875852 genesis
admit-Stored_example =
    admit-Stored toy genesis genesis-ReadsBack acknowledged start_main provisioned inserted
      provisioned-IsConsistent (ap (λ r. r.0) admit_genesis)

-- The merge of the two events.
abbrev merged : SignedEvent
merged = record {
  event_id = 459209;
  body = record {
    version = 1;
    context = 5;
    parents = 549793 ∷ 875852 ∷ [];
    kind = codes "context.merge";
    author = 2;
    payload = payload;
  };
  signature = 36938;
}

provision-IsConsistent_example :
    Grows toy started (write lost_after (provision_context_tx 6 17 (1 ∷ [])) started).1
    × Grows toy started (write lost_after (join_context_tx 6 17 (1 ∷ [])) started).1
    × Grows toy started (write lost_after (authorize_author_tx 6 4) started).1
provision-IsConsistent_example =
    provision-IsConsistent toy lost_after 6 17 4 (1 ∷ []) started started-IsConsistent

new_genesis_runs : new_genesis toy 0 5 ≡ ok (genesis, genesis_wire)
unfolding new_genesis create_event contextmesh_rs.Event.Body.new_body validate validate_kind
    contextmesh_rs.Event.Kind.starts_lowercase contextmesh_rs.Event.Kind.scan_rest
    contextmesh_rs.Common.out_of_order validate_json_value contextmesh_rs.Tests.Toy.write_json
    contextmesh_rs.Event.Body.body_json contextmesh_rs.Event.Body.sign_body
    contextmesh_rs.Event.Body.derive_event_id contextmesh_rs.Event.Body.canonical_bytes to_wire
    verify contextmesh_rs.Event.Body.verify_parts contextmesh_rs.Tests.Toy.digest
    contextmesh_rs.Event.Body.canonicalize contextmesh_rs.Event.Body.signing_message
    Json.validate_number contextmesh_rs.Event.Kind.scan_label contextmesh_rs.Event.Wire.event_json
    contextmesh_rs.Tests.Toy.write_bytes contextmesh_rs.Tests.Toy.write_number
new_genesis_runs = refl

genesis_fits :
    (g : SignedEvent) (w : Bytes)
    → new_genesis toy 0 5 ≡ ok (g, w)
    → IsWritable toy g × (length w ≤ max_raw_wire_bytes)
unfolding contextmesh_rs.Tests.Toy.write_json contextmesh_rs.Event.Wire.event_json
genesis_fits g w h =
    let is_genesis : genesis ≡ g = ground (arith, h, new_genesis_runs) in
    let same : genesis_wire ≡ w = ground (arith, h, new_genesis_runs) in
    (
      subst (IsWritable toy) is_genesis genesis-IsWritable,
      subst (λ (v : Bytes). length v ≤ max_raw_wire_bytes) same (omega arith),
    )

create_context-IsConsistent_example :
    Grows toy empty_db (create_context toy acknowledged 0 5 main empty_db).1
create_context-IsConsistent_example =
    create_context-IsConsistent toy toy-Documented acknowledged 0 5 main empty_db genesis_fits
      (IsConsistent-empty toy)

-- Both events, with the branch still at the first.
abbrev behind : Db
behind = record noted { local_refs = ((5, main), 875852) ∷ [] }

moved : apply_ref_mutation 549793 move_main behind ≡ ok (false, noted)
unfolding apply_ref_mutation lookup contextmesh_rs.Common.Table.pair_beq
    contextmesh_rs.Common.bytes_eq contextmesh_rs.Store.Refs.set_local_ref
    contextmesh_rs.Store.Refs.check_reference contextmesh_rs.Common.Table.upsert
moved = refl

apply_ref_mutation-Moved_example :
    ((false ≡ true) × (ref_at behind 5 main ≡ some 549793) × (noted ≡ behind))
    ⊎ ((false ≡ false)
        × Expected (head 875852) (ref_at behind 5 main)
        × Moved behind noted 5 main 549793)
apply_ref_mutation-Moved_example =
    apply_ref_mutation-Moved 549793 5 main (head 875852) 549793 behind noted false moved

admit-again_example :
    ((admit toy lost_after genesis start_main provisioned).0 ≡ err indeterminate_commit)
    × ((again : AdmissionStatus) × (admit toy acknowledged genesis start_main
            (admit toy lost_after genesis start_main provisioned).1
          ≡ (ok again, (admit toy lost_after genesis start_main provisioned).1))
        × (again ≢ inserted))
admit-again_example =
    admit-again toy genesis genesis-ReadsBack start_main provisioned inserted
      provisioned-IsConsistent (ap (λ (r : StoreResult AdmissionStatus × Db). r.0) admit_genesis)
