-- ===== src/Consensus/Proposer/Safety.antt =====
-- consensus/proposer.go: which vertices the proposer broadcasts.
use klef.Prelude.{
  ℤ, pos, ◌<ℤ◌, ◌≡◌, refl, subst, ◌⊎◌, inl, inr, true, Option, none, some, List, [], ◌∷◌, arith,
  Bool-cases, Option-cases, add64, leb_ℤ, ltb_ℤ, contains, nat_eq,
}
use klef.Prelude.Sorting.{sort-IsIncreasing, sort-contains}
use klef.Types.Hash.{Hash, Bytes, hash_less, sort_hashes}
use klef.Types.Vertex.{QcType, Vertex}
use klef.Types.Message.{Message}
use klef.Types.Parents.{check_malformed, unique_from}
use klef.Types.Parents.Canonical.{
  check_malformed-eq-none_iff, unique_from-IsDistinct, unique_from-contains,
}
use klef.Types.Encoding.{calculate_hash}
use klef.Core.Dag.Invariant.{IsSound}
use klef.Consensus.Proposer.{
  already_proposed, mark_as_proposed, hash_set, extract_hashes_from_votes, build_vertex, propose,
}

-- The hashes that the votes name, in their order.
unfoldable pub voted_hashes : List Message → List Hash
voted_hashes [] = []
voted_hashes (msg ∷ votes) = elim msg.vote [
  | none ↦ voted_hashes votes
  | some vote ↦ vote.vertex_hash ∷ voted_hashes votes
]

hash_set_lem :
    (seen : List Hash) (votes : List Message)
    → hash_set seen votes ≡ unique_from seen (voted_hashes votes)
unfolding hash_set unique_from voted_hashes
hash_set_lem seen [] = refl
hash_set_lem seen (msg ∷ votes) = elim (Option-cases msg.vote) [
  | inl n ↦ ground (arith, n, hash_set_lem seen votes)
  | inr (vote, e) ↦
      ground (arith, e, hash_set_lem seen votes, hash_set_lem (vote.vertex_hash ∷ seen) votes)
]

-- The parents of a proposal are in canonical order.
extract-formed : (votes : List Message) → check_malformed (extract_hashes_from_votes votes) ≡ none
unfolding extract_hashes_from_votes sort_hashes
extract-formed votes = rw (hash_set_lem [] votes) (
    (check_malformed-eq-none_iff _).1 (
      sort-IsIncreasing (unique_from [] (voted_hashes votes))
        (unique_from-IsDistinct [] (voted_hashes votes))))

extract-contains :
    (h : Hash) (votes : List Message)
    → contains h (extract_hashes_from_votes votes) ≡ contains h (voted_hashes votes)
unfolding extract_hashes_from_votes sort_hashes contains
extract-contains h votes = rw (hash_set_lem [] votes) (
    ground (
      arith,
      sort-contains hash_less h (unique_from [] (voted_hashes votes)),
      unique_from-contains h [] (voted_hashes votes),
    ))

module _ (sha256 : Bytes → Hash) (sign : Bytes → Bytes) (id : ℤ) where
  -- A broadcast vertex has the proposer as author, its own hash, the voted hashes as parents in
  -- canonical order, and the round after the votes' round, so the ledger's checks accept it.
  pub record Proposed (votes : List Message) (voted_round : ℤ) (v : Vertex) : Type 0 where
    pub authored : v.author ≡ id
    pub sound : IsSound sha256 v
    pub cites : (h : Hash) → contains h v.parents ≡ contains h (voted_hashes votes)
    pub next : v.round ≡ add64 voted_round (pos 1)

  build_vertex-Proposed :
      (votes : List Message) (voted_round : ℤ) (qc_type : QcType) (now : ℤ)
      → Proposed votes voted_round (build_vertex sha256 sign id votes voted_round qc_type now)
  unfolding build_vertex calculate_hash
  build_vertex-Proposed votes voted_round qc_type now = record {
    authored = refl;
    sound = record { hashed = refl; formed = extract-formed votes };
    cites = λ h. extract-contains h votes;
    next = refl;
  }

  -- Every vertex that Propose broadcasts passes the checks of AddVertex and cites what was voted for.
  pub propose-Proposed :
      (qc_type : QcType) (votes : List Message) (voted_round now last : ℤ) (v : Vertex)
      → (propose sha256 sign id qc_type (some (votes, voted_round)) now last).1 ≡ some v
      → Proposed votes voted_round v
  unfolding propose
  propose-Proposed qc_type votes voted_round now last v e =
      elim (Bool-cases (already_proposed (add64 voted_round (pos 1)) last)) [
        | inl old ↦ absurd (ground (arith, e, old))
        | inr new ↦
            let sent : build_vertex sha256 sign id votes voted_round qc_type now ≡ v =
              ground (arith, e, new) in
            subst (Proposed votes voted_round) sent
              (build_vertex-Proposed votes voted_round qc_type now)
      ]

  -- A call sends nothing and changes nothing, or sends a vertex of a later round and notes it.
  pub propose-cases :
      (qc_type : QcType) (quorum : Option (List Message × ℤ)) (now last : ℤ)
      → (propose sha256 sign id qc_type quorum now last ≡ (last, none))
        ⊎ ((v : Vertex) × (propose sha256 sign id qc_type quorum now last ≡ (v.round, some v))
            × (last <ℤ v.round))
  unfolding propose already_proposed mark_as_proposed build_vertex
  propose-cases qc_type none now last = inl refl
  propose-cases qc_type (some (votes, voted_round)) now last =
      let round = add64 voted_round (pos 1) in
      elim (Bool-cases (leb_ℤ round last)) [
        | inl old ↦ inl (ground (arith, old))
        | inr new ↦
            let later : ltb_ℤ last round ≡ true = ground (arith, new) in
            inr (
              build_vertex sha256 sign id votes voted_round qc_type now,
              ground (arith, new, later),
              ground (arith, later),
            )
      ]
