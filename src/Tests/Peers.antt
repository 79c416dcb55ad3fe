-- ===== src/Tests/Peers.antt =====
-- A node's peers, its signer and its message loop on small inputs.
use klef.Prelude.{
  ℤ, pos, negsuc, ◌≡◌, refl, Bool, true, false, some, List, [], ◌∷◌, ◌++◌, int_eq, subst, arith,
}
use mathlib.Core.List.{Perm, perm_append_singleton}
use mathlib.Core.List.Perm
use klef.Prelude.Map.{lookup, Distinct}
use klef.Config.{default_config}
use klef.Types.Hash.{Hash, Bytes}
use klef.Types.Hash.Bytes.{be_bytes}
use klef.Types.Vertex.{Vertex, qc_global}
use klef.Types.Message.{Message}
use klef.Types.Signer.{Signer}
use klef.Consensus.Proposer.{build_vertex, propose}
use klef.Core.Crypto.{KeyPair, ed25519_signer, new_ed25519_signer}
use klef.Core.Crypto.Correct.{propose-verifies}
use klef.Replica.{Replica, new_replica}
use klef.Replica.Peers.{get_random_peers}
use klef.Replica.Peers.Sampling.{IsSample, get_random_peers-IsSample}
use klef.Replica.Lifecycle.{Inbound, arrives, is_closed, run_message_loop}
use klef.Replica.Lifecycle.Invariant.{NodeInv, run_message_loop-NodeInv}
use klef.Scenario.{equal_hashes}
use klef.Scenario.Repeatable.{equal_hashes_refl}
use klef.Tests.Data.{toy_hash, genesis, child, empty_message, vote_for}

abbrev draw : Hash → ℤ → ℤ
draw h n = pos 1

abbrev response : Message
response = record empty_message { fetch_res = some (record { vertices = child ∷ genesis ∷ [] }) }

abbrev inbound : List Inbound
inbound = arrives (pos 5) response ∷ arrives (pos 6) empty_message ∷ is_closed ∷ []

run_message_loop-NodeInv_example :
    NodeInv toy_hash (run_message_loop toy_hash draw inbound (new_replica default_config))
run_message_loop-NodeInv_example = run_message_loop-NodeInv toy_hash draw default_config inbound

-- A shuffle that puts the first last.
abbrev rotate : List ℤ → List ℤ
rotate [] = []
rotate (x ∷ xs) = xs ++ x ∷ []

rotate-Perm : (xs : List ℤ) → Perm (rotate xs) xs
rotate-Perm [] = Perm.refl []
rotate-Perm (x ∷ xs) = perm_append_singleton x xs

abbrev connected : Replica
connected = record (new_replica default_config) {
  peers = (pos 2, true) ∷ (pos 3, false) ∷ (pos 4, true) ∷ (pos 5, true) ∷ [];
}

connected-Distinct : Distinct connected.peers
unfolding lookup
connected-Distinct = (refl, (refl, (refl, (refl, tt))))

get_random_peers-IsSample_example :
    (ps : List ℤ) × (get_random_peers rotate (pos 2) connected ≡ some ps) × IsSample 2 connected ps
get_random_peers-IsSample_example =
    get_random_peers-IsSample rotate rotate-Perm 2 connected connected-Distinct

-- A signature is the key before what is signed.
abbrev pair : KeyPair
pair = record { pub_key = 9 ∷ []; priv_key = 9 ∷ [] }

abbrev sign_with : Bytes → Bytes → Bytes
sign_with key content = key ++ content

abbrev verify_with : Bytes → Bytes → Bytes → Bool
verify_with key content signature = equal_hashes (key ++ content) signature

own_verifies :
    (p : KeyPair)
    → some pair ≡ some p
    → (content : Bytes) → verify_with p.pub_key content (sign_with p.priv_key content) ≡ true
own_verifies p e content =
    let same : pair ≡ p = ground (arith, e) in
    subst (λ (q : KeyPair). verify_with q.pub_key content (sign_with q.priv_key content) ≡ true)
      same (equal_hashes_refl (9 ∷ content))

abbrev signer : Signer
signer = ed25519_signer (some pair) sign_with verify_with pair

abbrev votes : List Message
votes = vote_for (pos 1) 68 ∷ vote_for (pos 2) 32 ∷ vote_for (pos 3) 68 ∷ []

abbrev proposal : Vertex
proposal = build_vertex toy_hash signer.sign (pos 1) votes (pos 0) qc_global (pos 9)

made : new_ed25519_signer (some pair) sign_with verify_with ≡ some signer
unfolding new_ed25519_signer
made = refl

proposed :
    (propose toy_hash signer.sign (pos 1) qc_global (some (votes, pos 0)) (pos 9) (negsuc 0)).1
    ≡ some proposal
unfolding propose
proposed = refl

propose-verifies_example :
    signer.verify (be_bytes 32 proposal.hash) proposal.signature signer.get_public_key ≡ true
propose-verifies_example =
    propose-verifies (some pair) sign_with verify_with own_verifies signer made toy_hash (pos 1)
      qc_global votes (pos 0) (pos 9) (negsuc 0) proposal proposed
