-- ===== src/Core/Validator.antt =====
-- core/validator.go and votepool.go: the constructors. The mutex is left out.
use klef.Prelude.{ℤ, pos, negsuc, List, []}
use klef.Config.{Config}
use klef.Types.Hash.{Bytes}
use klef.Types.Message.{Message}
use klef.Types.Signer.{Signer}
use klef.Consensus.Quorum.{QuorumPolicy, new_quorum_policy}

-- VotePool's map from rounds to votes.
abbrev pub VotePool : Type 0
VotePool = List (ℤ × List Message)

unfoldable pub new_vote_pool : VotePool
new_vote_pool = []

-- The ledger and the slasher are nil here; NewReplica wires them in.
pub record Validator : Type 0 where
  pub id : ℤ
  pub public_key : Bytes
  pub config : Config
  pub signer : Signer
  pub policy : QuorumPolicy
  pub round : ℤ
  pub last_proposed_round : ℤ
  pub vote_pool : VotePool

unfoldable pub new_validator : ℤ → Config → Signer → Validator
unfolding new_quorum_policy new_vote_pool
new_validator id cfg signer = record {
  id = id;
  public_key = signer.get_public_key;
  config = cfg;
  signer = signer;
  policy =
      new_quorum_policy cfg.consensus.total_nodes cfg.consensus.committee_nodes
        cfg.consensus.global_quorum_ratio cfg.consensus.committee_quorum_ratio;
  round = pos 0;
  last_proposed_round = negsuc 0;
  vote_pool = new_vote_pool;
}
