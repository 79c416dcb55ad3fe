-- ===== src/Tests/Data.antt =====
-- Test data: a genesis vertex and its child, under a hash that is the length of the bytes.
use klef.Prelude.{ℤ, pos, none, some, [], ◌∷◌, length}
use klef.Types.Hash.{Hash, Bytes}
use klef.Types.Vertex.{Vertex}
use klef.Types.Message.{Message, msg_fetch_res, msg_vote}
use klef.Config.{default_config}
use klef.Core.Slasher.{Slasher, new_slasher}
use klef.Core.Dag.{Dag, new_dag}

abbrev pub toy_hash : Bytes → Hash
toy_hash bytes = length bytes

abbrev pub genesis : Vertex
genesis = record {
  author = pos 1;
  round = pos 0;
  parents = [];
  parent_qcs = [];
  timestamp = pos 0;
  payload = [];
  signature = [];
  hash = 32;
}

abbrev pub child : Vertex
child = record {
  author = pos 2;
  round = pos 1;
  parents = 32 ∷ [];
  parent_qcs = [];
  timestamp = pos 0;
  payload = [];
  signature = [];
  hash = 68;
}

-- A vertex whose parents are out of order.
abbrev pub unsorted : Vertex
unsorted = record child { parents = 9 ∷ 4 ∷ [] }

abbrev pub fresh_slasher : Slasher
fresh_slasher = new_slasher default_config

abbrev pub empty_dag : Dag
empty_dag = new_dag fresh_slasher default_config

abbrev pub empty_message : Message
empty_message = record {
  from_id = pos 2;
  current_round = pos 1;
  kind = msg_fetch_res;
  signature = [];
  vote = none;
  vertex = none;
  fetch_req = none;
  fetch_res = none;
  evidence = none;
}

abbrev pub vote_for : ℤ → Hash → Message
vote_for id hash = record empty_message {
  from_id = id;
  kind = msg_vote;
  vote = some (record { round = pos 0; vertex_hash = hash; voter_id = id; signature = 7 ∷ [] });
}
