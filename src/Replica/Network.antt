-- ===== src/Replica/Network.antt =====
-- replica/network.go: what is relayed, in place of the lines that are printed. A payload is left out;
-- Broadcast's order is one order of the map.
use klef.Prelude.{ℤ, List, map}
use klef.Prelude.Map.{keys}
use klef.Types.Message.{MessageType}
use klef.Replica.{Replica}

-- One transmission, as SendTo prints it.
pub record Relay : Type 0 where
  pub id : ℤ
  pub target_id : ℤ
  pub kind : MessageType

unfoldable pub relay : ℤ → MessageType → Replica → Relay
relay target_id kind r = record { id = r.id; target_id = target_id; kind = kind }

unfoldable pub multicast : List ℤ → MessageType → Replica → List Relay
unfolding relay
multicast committee kind r = map (λ peer_id. relay peer_id kind r) committee

-- All registered peers, the inactive ones too.
unfoldable pub broadcast_all : MessageType → Replica → List Relay
unfolding relay
broadcast_all kind r = map (λ peer_id. relay peer_id kind r) (keys r.peers)
