-- ===== src/Replica/Proposal.antt =====
-- replica/consensus.go and consensus/proposer.go: what a replica proposes, from its vote pool and its
-- quorum policy.
use klef.Prelude.{
  ℤ, ◌≤◌, ◌<ℤ◌, ◌≡◌, refl, sym, subst, ap, ◌∙◌, inl, inr, Bool, true, false, Option, none, some,
  List, arith, length, leb, leb→le, Bool-cases, if◌then◌else◌,
}
use klef.Types.Hash.{Hash, Bytes}
use klef.Types.Vertex.{Vertex, QcType}
use klef.Types.Message.{Message}
use klef.Consensus.Quorum.{quorum_size}
use klef.Consensus.Proposer.{propose}
use klef.Consensus.Proposer.Safety.{Proposed, propose-cases, propose-Proposed}
use klef.Replica.{Replica, get_votes_by_round, check_quorum, propose_vertex}

abbrev pub current_votes : Replica → List Message
current_votes r = get_votes_by_round r.round r.vote_pool

module _ (sha256 : Bytes → Hash) (sign : Bytes → Bytes) (qc_type : QcType) (now : ℤ) (r : Replica)
    (v : Vertex) where
  abbrev attempt : Option (List Message × ℤ) → ℤ × Option Vertex
  attempt quorum = propose sha256 sign r.id qc_type quorum now r.last_proposed_round

  -- What stands behind a proposal: enough votes of the current round, which it cites, and a round
  -- that is later than the one noted before and is noted.
  pub record Justified : Type 0 where
    pub enough : quorum_size r.policy qc_type ≤ length (current_votes r)
    pub proposed : Proposed sha256 sign r.id (current_votes r) r.round v
    pub later : r.last_proposed_round <ℤ v.round
    pub noted : (propose_vertex sha256 sign qc_type now r).0.last_proposed_round ≡ v.round

  quorum_of :
      (b : Bool)
      → leb (quorum_size r.policy qc_type) (length (current_votes r)) ≡ b
      → check_quorum qc_type r ≡ (if b then some (current_votes r, r.round) else none)
  unfolding check_quorum
  quorum_of b e = ap (λ x. if x then some (current_votes r, r.round) else none) e

  sent-Justified :
      (q : Option (List Message × ℤ))
      → check_quorum qc_type r ≡ q
      → (attempt q).1 ≡ some v
      → (attempt q).0 ≡ (propose_vertex sha256 sign qc_type now r).0.last_proposed_round
      → q ≡ some (current_votes r, r.round)
      → quorum_size r.policy qc_type ≤ length (current_votes r)
      → Justified
  sent-Justified q e sent same is_votes enough =
      elim (propose-cases sha256 sign r.id qc_type q now r.last_proposed_round) [
        | inl idle ↦ absurd (some-none (sym sent ∙ ap (λ x. x.1) idle))
        | inr (w, done, later) ↦
            let is_v : w ≡ v = some-inj (sym (ap (λ x. x.1) done) ∙ sent) in
            record {
              enough = enough;
              proposed =
                  propose-Proposed sha256 sign r.id qc_type (current_votes r) r.round now
                    r.last_proposed_round v (subst (λ x. (attempt x).1 ≡ some v) is_votes sent);
              later = subst (λ (x : Vertex). r.last_proposed_round <ℤ x.round) is_v later;
              noted = sym same ∙ ap (λ x. x.0) done ∙ ap (λ (x : Vertex). x.round) is_v;
            }
      ]
    where
      some-none : some v ≡ none → ⊥
      some-none h = ground (arith, h)

      some-inj : {w : Vertex} → some w ≡ some v → w ≡ v
      some-inj h = ap (λ o. elim o [ none ↦ v | some x ↦ x ]) h

  -- A call of Propose that no other overlaps broadcasts only when the votes of the replica's current round
  -- reach the quorum; the proposal cites those votes, and its round is later than the one that the
  -- replica had noted, and is noted then.
  pub propose_vertex-Justified : (propose_vertex sha256 sign qc_type now r).1 ≡ some v → Justified
  unfolding propose_vertex
  propose_vertex-Justified sent =
      elim (Bool-cases (leb (quorum_size r.policy qc_type) (length (current_votes r)))) [
        | inl enough ↦
            let q = quorum_of true enough in
            sent-Justified (check_quorum qc_type r) refl sent refl q (leb→le _ _ enough)
        | inr few ↦
            let q = quorum_of false few in
            absurd (nothing (subst (λ x. (attempt x).1 ≡ some v) q sent))
      ]
    where
      nothing : (attempt none).1 ≡ some v → ⊥
      nothing h = ground (arith, h, propose)
