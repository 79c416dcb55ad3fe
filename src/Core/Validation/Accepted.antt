-- ===== src/Core/Validation/Accepted.antt =====
-- core/validation/fetch_rules.go: what the validators of FETCH_REQ and FETCH_RES accept.
use klef.Prelude.{
  ℕ, ℤ, pos, ◌<◌, ◌≤ℤ◌, ◌<ℤ◌, ◌+ℤ◌, ◌-ℤ◌, ◌≡◌, ◌↔◌, inl, inr, refl, true, false, none, some, List,
  [], ◌∷◌, arith, length, All, Bool-cases, Option-cases, add64, sub64, IsInt64, wrap64_lem,
  +ℤ_parts, -ℤ_parts, nat_eq, nat_beq_iff, ltb_ℤ,
}
use klef.Types.Hash.{Hash, Bytes}
use klef.Types.Vertex.{Vertex}
use klef.Types.Message.{Message, FetchRequest, FetchResponse}
use klef.Types.Encoding.{calculate_hash}
use klef.Core.Validation.{
  Context, validate_request, validate_round_range, validate_vertex, validate_vertices,
  validate_response, is_over,
}
use klef.Core.Validation.Structure.{WellStructured, validate_structure-eq-none_iff}

-- The size limit that a positive `limit` sets.
abbrev pub WithinLimit : ℤ → ℕ → Type 0
WithinLimit limit size = pos 0 <ℤ limit → pos size ≤ℤ limit

is_over_iff : (limit : ℤ) (n : ℕ) → (is_over limit (pos n) ≡ false) ↔ WithinLimit limit n
is_over_iff limit n = ground arith

pub record AcceptedRequest (limit : ℤ) (msg : Message) : Type 0 where
  pub req : FetchRequest
  pub carried : msg.fetch_req ≡ some req
  pub some_hash : 0 < length req.missing_hashes
  pub within : WithinLimit limit (length req.missing_hashes)

-- A FETCH_REQ is accepted exactly when it asks for at least one hash and no more than the limit.
pub validate_request-eq-none_iff :
    (limit : ℤ) (msg : Message) → (validate_request limit msg ≡ none) ↔ AcceptedRequest limit msg
unfolding validate_request
validate_request-eq-none_iff limit msg = elim (Option-cases msg.fetch_req) [
  | inl n ↦ (λ h. absurd (ground (arith, h, n)), λ a. absurd (ground (arith, a.carried, n)))
  | inr (req, e) ↦ (
    λ h. record {
      req = req;
      carried = e;
      some_hash = ground (arith, h, e);
      within = λ positive. ground (arith, h, e, positive);
    },
    λ a.
        let size = is_over_iff limit (length a.req.missing_hashes) in
        ground (arith, a.carried, a.some_hash, size.1 a.within),
  )
]

-- The rounds that are neither too far ahead nor too old; the past is open until round 50.
pub record InWindow (curr_round round : ℤ) : Type 0 where
  pub not_ahead : round ≤ℤ curr_round +ℤ pos 10
  pub not_old : pos 50 <ℤ curr_round → curr_round -ℤ pos 50 ≤ℤ round

-- A current round that is an `int`, ten below the greatest.
abbrev pub IsRound : ℤ → Type 0
IsRound r = IsInt64 r × IsInt64 (r +ℤ pos 10)

-- The round of a vertex is accepted exactly when it is in the window; the sums with the current round
-- do not leave the 64 bits of an `int`.
pub validate_round_range-eq-none_iff :
    (v : Vertex) (r : ℤ) → IsRound r → (validate_round_range v r ≡ none) ↔ InWindow r v.round
unfolding validate_round_range add64 sub64
validate_round_range-eq-none_iff v r fits =
    let ahead = wrap64_lem (r +ℤ pos 10) fits.1 in
    let parts = +ℤ_parts r (pos 10) in
    let parts' = -ℤ_parts r (pos 50) in
    let behind : pos 50 <ℤ r → IsInt64 (r -ℤ pos 50) =
      λ h. (ground (arith, fits, parts'), ground (arith, fits, parts')) in
    (
      λ h. record {
        not_ahead = ground (arith, h, ahead);
        not_old = λ late. ground (arith, h, ahead, late, wrap64_lem (r -ℤ pos 50) (behind late));
      },
      λ w. elim (Bool-cases (ltb_ℤ (pos 50) r)) [
        | inl late ↦ ground (
          arith,
          ahead,
          late,
          w.not_ahead,
          w.not_old (ground (arith, late)),
          wrap64_lem (r -ℤ pos 50) (behind (ground (arith, late))),
        )
        | inr early ↦ ground (arith, ahead, early, w.not_ahead)
      ],
    )

-- A vertex that the ledger needs and that was asked for is held to the round, the hash and the
-- structure; any other vertex is skipped.
pub data Acceptable (sha256 : Bytes → Hash) (ctx : Context) (v : Vertex) : Type 0 where
  is_known : ctx.is_known_vertex v.hash ≡ true → Acceptable sha256 ctx v
  is_unsolicited : ctx.is_request_pending v.hash ≡ false → Acceptable sha256 ctx v
  is_checked :
      InWindow ctx.current_round v.round
      → v.hash ≡ calculate_hash sha256 v
      → WellStructured v
      → Acceptable sha256 ctx v

module _ (sha256 : Bytes → Hash) (ctx : Context) (fits : IsRound ctx.current_round) where
  validate_vertex-eq-none_iff :
      (v : Vertex) → (validate_vertex sha256 ctx v ≡ none) ↔ Acceptable sha256 ctx v
  unfolding validate_vertex
  validate_vertex-eq-none_iff v =
      let rounds = validate_round_range-eq-none_iff v ctx.current_round fits in
      let structure = validate_structure-eq-none_iff v in
      let hashes = nat_beq_iff v.hash (calculate_hash sha256 v) in
      elim (Bool-cases (ctx.is_known_vertex v.hash)) [
        | inl k ↦ (λ e. is_known k, λ a. ground (arith, k))
        | inr new ↦ elim (Bool-cases (ctx.is_request_pending v.hash)) [
          | inr u ↦ (λ e. is_unsolicited u, λ a. ground (arith, new, u))
          | inl asked ↦ (
            λ e.
                is_checked (rounds.0 (ground (arith, e, new, asked)))
                  (ground (arith, e, new, asked, hashes))
                  (structure.0 (ground (arith, e, new, asked))),
            λ a. elim a [
              | is_known k ↦ absurd (ground (arith, k, new))
              | is_unsolicited u ↦ absurd (ground (arith, u, asked))
              | is_checked w h s ↦ ground (arith, new, asked, rounds.1 w, hashes.1 h, structure.1 s)
            ],
          )
        ]
      ]

  validate_vertices-eq-none_iff :
      (vs : List Vertex) → (validate_vertices sha256 ctx vs ≡ none) ↔ All (Acceptable sha256 ctx) vs
  unfolding validate_vertices
  validate_vertices-eq-none_iff [] = (λ e. tt, λ a. refl)
  validate_vertices-eq-none_iff (v ∷ vs) =
      let first = validate_vertex-eq-none_iff v in
      let rest = validate_vertices-eq-none_iff vs in
      (
        λ e. (first.0 (ground (arith, e)), rest.0 (ground (arith, e))),
        λ a. ground (arith, first.1 a.0, rest.1 a.1),
      )

  pub record AcceptedResponse (limit : ℤ) (msg : Message) : Type 0 where
    pub res : FetchResponse
    pub carried : msg.fetch_res ≡ some res
    pub some_vertex : 0 < length res.vertices
    pub within : WithinLimit limit (length res.vertices)
    pub acceptable : All (Acceptable sha256 ctx) res.vertices

  -- A FETCH_RES is accepted exactly when it has at least one vertex, no more than the limit, and each
  -- is known, or was not asked for, or passes the checks of round, hash and structure.
  pub validate_response-eq-none_iff :
      (limit : ℤ) (msg : Message)
      → (validate_response sha256 limit ctx msg ≡ none) ↔ AcceptedResponse limit msg
  unfolding validate_response
  validate_response-eq-none_iff limit msg = elim (Option-cases msg.fetch_res) [
    | inl n ↦ (λ h. absurd (ground (arith, h, n)), λ a. absurd (ground (arith, a.carried, n)))
    | inr (res, e) ↦ (
      λ h. record {
        res = res;
        carried = e;
        some_vertex = ground (arith, h, e);
        within = λ positive. ground (arith, h, e, positive);
        acceptable = (validate_vertices-eq-none_iff res.vertices).0 (ground (arith, h, e));
      },
      λ a.
          let size = is_over_iff limit (length a.res.vertices) in
          let all = (validate_vertices-eq-none_iff a.res.vertices).1 a.acceptable in
          ground (arith, a.carried, a.some_vertex, size.1 a.within, all),
    )
  ]
