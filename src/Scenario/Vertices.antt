-- ===== src/Scenario/Vertices.antt =====
-- core/test_utils.go: what AddVertex makes of the vertices of the scenario tests.
use klef.Prelude.{
  ℤ, ◌≡◌, refl, ap, ◌∙◌, true, false, Option, none, some, List, nat_eq, ◌==◌, nat_beq_iff,
}
use klef.Types.Hash.{Hash, Bytes}
use klef.Types.Vertex.{Vertex}
use klef.Types.Parents.{Malformation, check_malformed, normalize}
use klef.Types.Parents.Canonical.{normalize-canonical}
use klef.Types.Encoding.{calculate_hash}
use klef.Core.Dag.{Dag, add_vertex}
use klef.Core.Dag.Invariant.{known, IsSound}
use klef.Core.Slasher.{add_demerit}
use klef.Scenario.{create_dummy_vertex, create_byzantine_vertex}

module _ (sha256 : Bytes → Hash) (signer : Option (Bytes → Bytes)) (now author round : ℤ)
    (parents : List Hash) where
  -- Normalize reads the parents only.
  abbrev unsorted : Vertex
  unsorted = create_byzantine_vertex sha256 signer now author round parents

  -- Whatever parents it is given, a dummy vertex passes the checks of AddVertex.
  pub create_dummy_vertex-IsSound :
      IsSound sha256 (create_dummy_vertex sha256 signer now author round parents)
  unfolding create_dummy_vertex create_byzantine_vertex calculate_hash normalize
  create_dummy_vertex-IsSound = record { hashed = refl; formed = (normalize-canonical unsorted).0 }

  unsorted-hashed : unsorted.hash ≡ calculate_hash sha256 unsorted
  unfolding create_byzantine_vertex calculate_hash
  unsorted-hashed = refl

  unsorted-parents : unsorted.parents ≡ parents
  unfolding create_byzantine_vertex
  unsorted-parents = refl

  -- A byzantine vertex with malformed parents costs its author the penalty and changes nothing else.
  pub create_byzantine_vertex-add_vertex :
      (current_node_round at : ℤ) (d : Dag) (reason : Malformation)
      → check_malformed parents ≡ some reason
      → known d unsorted.hash ≡ false
      → add_vertex sha256 unsorted current_node_round at d ≡ (
        record d {
          slasher =
              add_demerit unsorted.author d.config.security.malformed_vertex_penalty unsorted reason
                at d.slasher;
        },
        none,
      )
  unfolding add_vertex
  create_byzantine_vertex-add_vertex current_node_round at d reason bad new =
      let right : (unsorted.hash == calculate_hash sha256 unsorted) ≡ true =
        (nat_beq_iff unsorted.hash (calculate_hash sha256 unsorted)).1 unsorted-hashed in
      rw (new, right, ap check_malformed unsorted-parents ∙ bad) refl
