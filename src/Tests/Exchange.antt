-- ===== src/Tests/Exchange.antt =====
-- Two replicas: one asks for a vertex, the other has it.
use klef.Prelude.{ℤ, pos, ◌≡◌, refl, true, some, [], ◌∷◌, ◌++◌, contains, nat_eq, arith}
use klef.Prelude.Map.{lookup}
use klef.Config.{default_config}
use klef.Types.Hash.{Hash}
use klef.Types.Message.{Message, FetchRequest, msg_fetch_req}
use klef.Core.Dag.{Dag, new_dag, add_vertex, known_vertices}
use klef.Core.Dag.Invariant.{known, DagInv}
use klef.Core.Dag.Admission.{add_vertex-DagInv}
use klef.Core.Dag.Progress.{new_dag-DagInv}
use klef.Core.Orphanage.Release.{Complete}
use klef.Replica.{Replica, new_replica, route_message, update_peer_round, pre_validate, passed}
use klef.Replica.Exchange.{fetch_exchange}
use klef.Tests.Data.{toy_hash, genesis, empty_message, empty_dag, fresh_slasher}

abbrev draw : Hash → ℤ → ℤ
draw h n = pos 1

abbrev holding : Dag
holding = (add_vertex toy_hash genesis (pos 0) (pos 5) empty_dag).0

abbrev node : Replica
node = record (new_replica default_config) { dag = empty_dag }

abbrev peer : Replica
peer = record node { dag = holding }

abbrev request : FetchRequest
request = record { missing_hashes = 32 ∷ 68 ∷ [] }

abbrev query : Message
query = record empty_message { kind = msg_fetch_req; fetch_req = some request }

abbrev reply : Message
reply = record empty_message {
  fetch_res = some (record { vertices = known_vertices (32 ∷ 68 ∷ []) holding.vertices });
}

holding-DagInv : DagInv toy_hash holding
holding-DagInv =
    add_vertex-DagInv toy_hash genesis (pos 0) (pos 5) empty_dag
      (new_dag-DagInv toy_hash fresh_slasher default_config)

holding_genesis : lookup 32 holding.vertices ≡ some genesis
unfolding add_vertex new_dag lookup
holding_genesis = refl

query_passes : pre_validate toy_hash (pos 5) query (update_peer_round (pos 2) (pos 1) peer) ≡ passed
unfolding pre_validate update_peer_round new_replica default_config
query_passes = refl

reply_passes : pre_validate toy_hash (pos 5) reply (update_peer_round (pos 2) (pos 1) node) ≡ passed
unfolding pre_validate update_peer_round new_replica default_config add_vertex new_dag lookup
    known_vertices
reply_passes = refl

genesis_ready : Complete (known node.dag) genesis
unfolding contains
genesis_ready p e = absurd (ground (arith, e))

fetch_exchange_example :
    ((route_message toy_hash draw (pos 5) query peer).replies
      ≡ peer.replies
        ++ record { target_id = pos 2; vertices = known_vertices (32 ∷ 68 ∷ []) holding.vertices }
          ∷ [])
    × (known (route_message toy_hash draw (pos 5) reply node).dag 32 ≡ true)
unfolding contains
fetch_exchange_example =
    fetch_exchange toy_hash draw (pos 5) peer node query reply request 32 genesis holding-DagInv
      (new_dag-DagInv toy_hash fresh_slasher default_config) refl refl query_passes refl
      holding_genesis refl refl reply_passes genesis_ready
