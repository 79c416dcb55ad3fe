-- ===== src/Tests/Node.antt =====
-- Runs of a whole replica.
use klef.Prelude.{ℤ, pos, ◌≡◌, refl, not, ◌&&◌, some, List, [], ◌∷◌, contains, nat_eq}
use klef.Prelude.Map.{lookup}
use klef.Config.{default_config}
use klef.Types.Hash.{Hash, Bytes}
use klef.Types.Vertex.{Vertex, qc_global}
use klef.Types.Message.{Message, msg_vertex}
use klef.Core.Pending.{is_pending, new_pending_manager}
use klef.Core.Fetcher.{filter_new_requests}
use klef.Core.Fetcher.Requests.{contains-filter_new_requests}
use klef.Consensus.Quorum.{quorum_size}
use klef.Consensus.Proposer.{propose, build_vertex}
use klef.Replica.{
  Replica, new_replica, route_message, update_peer_round, check_quorum, get_votes_by_round,
  propose_vertex,
}
use klef.Replica.Routing.{route_message_unregistered}
use klef.Replica.Proposal.{Justified, propose_vertex-Justified}
use klef.Tests.Data.{toy_hash, genesis, child, empty_message, vote_for}

abbrev draw : Hash → ℤ → ℤ
draw h n = pos 1

abbrev node : Replica
node = new_replica default_config

abbrev response : Message
response = record empty_message { fetch_res = some (record { vertices = child ∷ genesis ∷ [] }) }

abbrev vertex_message : Message
vertex_message = record empty_message { kind = msg_vertex; vertex = some genesis }

route_message_unregistered_example :
    route_message toy_hash draw (pos 5) vertex_message node ≡ update_peer_round (pos 2) (pos 1) node
route_message_unregistered_example =
    route_message_unregistered toy_hash draw (pos 5) vertex_message node refl

abbrev asked : List Hash
asked = 32 ∷ 68 ∷ []

contains-filter_new_requests_example :
    contains child.hash
      (filter_new_requests draw (pos 5) asked (new_pending_manager default_config)).1
    ≡ (contains child.hash asked
        && not (is_pending child.hash (pos 5) (new_pending_manager default_config)))
contains-filter_new_requests_example =
    contains-filter_new_requests draw (pos 5) asked (new_pending_manager default_config) child.hash

abbrev votes : List Message
votes = vote_for (pos 1) 68 ∷ vote_for (pos 2) 32 ∷ vote_for (pos 3) 68 ∷ []

abbrev voting_node : Replica
voting_node = record node { vote_pool = (pos 0, votes) ∷ [] }

abbrev sign : Bytes → Bytes
sign bytes = 1 ∷ bytes

abbrev proposal : Vertex
proposal = build_vertex toy_hash sign (pos 0) votes (pos 0) qc_global (pos 9)

proposal_sent : (propose_vertex toy_hash sign qc_global (pos 9) voting_node).1 ≡ some proposal
unfolding propose_vertex check_quorum get_votes_by_round lookup quorum_size propose new_replica
    default_config
proposal_sent = refl

propose_vertex-Justified_example : Justified toy_hash sign qc_global (pos 9) voting_node proposal
propose_vertex-Justified_example =
    propose_vertex-Justified toy_hash sign qc_global (pos 9) voting_node proposal proposal_sent
