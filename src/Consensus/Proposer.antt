-- ===== src/Consensus/Proposer.antt =====
-- consensus/proposer.go, over the part of the replica that it reads and writes: the round last
-- proposed. CheckQuorum's answer and the clock are arguments; Sign and SHA-256 are parameters. The
-- proposer's mutex is never taken: `propose` is a call that no other overlaps, and the steps of calls
-- that do are the child Overlap.
pub mod Safety
pub mod Overlap
use klef.Prelude.{
  ℤ, pos, Bool, true, false, Option, none, some, List, [], ◌∷◌, leb_ℤ, ltb_ℤ, add64, if◌then◌else◌,
  ◌==◌, nat_eq, int_eq, contains,
}
use klef.Prelude.Map.{insert}
use klef.Types.Hash.{Hash, Bytes, zero_hash, sort_hashes}
use klef.Types.Hash.Bytes.{be_bytes}
use klef.Types.Vertex.{QcType, Qc, Vertex, Vote}
use klef.Types.Message.{Message}
use klef.Types.Encoding.{calculate_hash}

-- Replica.AlreadyProposed and MarkAsProposed, on `lastProposedRound`.
unfoldable pub already_proposed : ℤ → ℤ → Bool
already_proposed round last_proposed_round = leb_ℤ round last_proposed_round

unfoldable pub mark_as_proposed : ℤ → ℤ → ℤ
mark_as_proposed round last_proposed_round =
    if ltb_ℤ last_proposed_round round then round else last_proposed_round

-- The keys of `hashSet`, in the order of the votes; Go's order of iteration is any.
unfoldable pub hash_set : List Hash → List Message → List Hash
unfolding contains
hash_set seen [] = []
hash_set seen (msg ∷ votes) = elim msg.vote [
  | none ↦ hash_set seen votes
  | some vote ↦
      if contains vote.vertex_hash seen
      then hash_set seen votes
      else vote.vertex_hash ∷ hash_set (vote.vertex_hash ∷ seen) votes
]

unfoldable pub extract_hashes_from_votes : List Message → List Hash
unfolding hash_set sort_hashes
extract_hashes_from_votes votes = sort_hashes (hash_set [] votes)

-- The loop of assembleQC, with its two variables.
unfoldable pub collect_votes : List Message → List (ℤ × Bytes) → Hash → List (ℤ × Bytes) × Hash
unfolding insert
collect_votes [] signatures representative_hash = (signatures, representative_hash)
collect_votes (msg ∷ votes) signatures representative_hash = elim msg.vote [
  | none ↦ collect_votes votes signatures representative_hash
  | some vote ↦ collect_votes votes (insert msg.from_id vote.signature signatures) vote.vertex_hash
]

unfoldable pub assemble_qc : ℤ → List Message → ℤ → QcType → Qc
unfolding collect_votes
assemble_qc id votes round qc_type =
    let (signatures, representative_hash) = collect_votes votes [] zero_hash in
    record {
      kind = qc_type;
      vertex_hash = representative_hash;
      round = round;
      proposer_id = id;
      signatures = signatures;
    }

module _ (sha256 : Bytes → Hash) (sign : Bytes → Bytes) where
  -- Steps 3 to 5.
  unfoldable pub build_vertex : ℤ → List Message → ℤ → QcType → ℤ → Vertex
  unfolding assemble_qc extract_hashes_from_votes calculate_hash add64 be_bytes
  build_vertex id votes voted_round qc_type now =
      let vtx : Vertex = record {
        author = id;
        round = add64 voted_round (pos 1);
        parents = extract_hashes_from_votes votes;
        parent_qcs = some (assemble_qc id votes voted_round qc_type) ∷ [];
        timestamp = now;
        payload = [];
        signature = [];
        hash = zero_hash;
      } in
      let hashed = record vtx { hash = calculate_hash sha256 vtx } in
      record hashed { signature = sign (be_bytes 32 hashed.hash) }

  -- Propose, where no other call overlaps: the round last proposed, and the vertex that is broadcast.
  unfoldable pub propose : ℤ → QcType → Option (List Message × ℤ) → ℤ → ℤ → ℤ × Option Vertex
  unfolding already_proposed mark_as_proposed build_vertex add64
  propose id qc_type quorum now last_proposed_round = elim quorum [
    | none ↦ (last_proposed_round, none)
    | some (votes, voted_round) ↦
        let next_round = add64 voted_round (pos 1) in
        if already_proposed next_round last_proposed_round then (last_proposed_round, none) else (
          mark_as_proposed next_round last_proposed_round,
          some (build_vertex id votes voted_round qc_type now),
        )
  ]
