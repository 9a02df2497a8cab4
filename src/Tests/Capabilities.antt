-- ===== src/Tests/Capabilities.antt =====
-- The theorem on the flags of a capability model at a sample handoff.
use contextmesh_rs.Common.{
  ℕ, ◌≡◌, refl, none, some, List, [], ◌∷◌, ◌++◌, codes, length, ok, true, ◌+◌,
}
use contextmesh_rs.Handoff.{Handoff}
use contextmesh_rs.Capability.{
  RecipientCapabilities, ShapedHandoff, mismatch, mismatch_note, shape_handoff, check_omissions,
  verify_handoff,
}
use contextmesh_rs.Capability.Flags.{verify_handoff-shape_handoff}
use contextmesh_rs.Tests.Toy.{toy}
use contextmesh_rs.Tests.Sample.{noted}
use contextmesh_rs.Tests.Events.{genesis}
use contextmesh_rs.Tests.Handoffs.{followed, to_note}

-- A recipient that acts on the first event of a context only.
abbrev model : RecipientCapabilities
model = record {
  recipient = 1;
  version = 1;
  capabilities = record { name = codes "start"; kinds = genesis.body.kind ∷ [] } ∷ [];
}

abbrev shaped : ShapedHandoff
shaped = record {
  handoff = record followed { uncertainty = mismatch_note toy to_note ∷ [] };
  report = record { mismatches = mismatch to_note ∷ []; flagged = true };
}

shape_runs : shape_handoff toy followed model ≡ ok shaped
unfolding shape_handoff contextmesh_rs.Capability.covers contextmesh_rs.Common.any
    contextmesh_rs.Common.bytes_eq contextmesh_rs.Handoff.with_uncertainty
    contextmesh_rs.Closure.Select.dedup_kinds contextmesh_rs.Closure.Select.sort_kinds
    contextmesh_rs.Capability.sort_mismatches
shape_runs = refl

omissions_pass : check_omissions toy noted model followed.omissions 0 ≡ ok 0
unfolding check_omissions
omissions_pass = refl

verify_handoff-shape_handoff_example :
    verify_handoff toy noted shaped.handoff model
    ≡ ok (record {
      valid = true;
      checked = 0 + length followed.delta.references;
      mismatches = shaped.report.mismatches;
    })
verify_handoff-shape_handoff_example =
    verify_handoff-shape_handoff toy model noted followed shaped 0 shape_runs omissions_pass
