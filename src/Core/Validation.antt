-- ===== src/Core/Validation.antt =====
-- core/validation/fetch_rules.go: what a replica checks of FETCH_REQ and FETCH_RES before it handles
-- them. An error's text is left out; the skipped vertices of a response are only printed.
pub mod Structure
pub mod Accepted
use klef.Prelude.{
  ℤ, pos, ◌≡◌, Bool, true, false, not, ◌&&◌, Option, none, some, List, [], ◌∷◌, length, ltb_ℤ,
  add64, sub64, if◌then◌else◌, ◌==◌, nat_eq, nat_beq, contains,
}
use klef.Types.Hash.{Hash, Bytes}
use klef.Types.Vertex.{Vertex}
use klef.Types.Message.{Message, FetchRequest, FetchResponse}
use klef.Types.Encoding.{calculate_hash}

pub data ValidationError : Type 0 where
  no_fetch_request empty_missing_hashes no_fetch_response empty_response too_many_vertices :
      ValidationError
  too_many_hashes : ℤ → ValidationError
  hash_mismatch too_far_in_future too_old no_parents circular_reference : Hash → ValidationError
  duplicate_parent : Hash → Hash → ValidationError

-- What the validators read of types.ConsensusContext.
pub record Context : Type 0 where
  pub current_round : ℤ
  pub is_known_vertex : Hash → Bool
  pub is_request_pending : Hash → Bool

-- `limit > 0 && len > limit`
abbrev pub is_over : ℤ → ℤ → Bool
is_over limit size = ltb_ℤ (pos 0) limit && ltb_ℤ limit size

-- FetchRequestValidator.Validate; `none` is Go's nil error.
unfoldable pub validate_request : ℤ → Message → Option ValidationError
validate_request max_request_hashes msg = elim msg.fetch_req [
  | none ↦ some no_fetch_request
  | some req ↦ elim req.missing_hashes [
    | [] ↦ some empty_missing_hashes
    | h ∷ hs ↦
        let size = pos (length (h ∷ hs)) in
        if is_over max_request_hashes size then some (too_many_hashes size) else none
  ]
]

unfoldable pub validate_round_range : Vertex → ℤ → Option ValidationError
unfolding add64 sub64
validate_round_range vtx curr_round =
    if ltb_ℤ (add64 curr_round (pos 10)) vtx.round
    then some (too_far_in_future vtx.hash)
    else if ltb_ℤ (pos 50) curr_round && ltb_ℤ vtx.round (sub64 curr_round (pos 50))
    then some (too_old vtx.hash)
    else none

-- The loop over the parents; `parent_set` are the keys of `parentSet`.
unfoldable pub check_parents : Hash → List Hash → List Hash → Option ValidationError
unfolding contains
check_parents hash parent_set [] = none
check_parents hash parent_set (p ∷ ps) =
    let rest = check_parents hash (p ∷ parent_set) ps in
    if p == hash
    then some (circular_reference hash)
    else if contains p parent_set
    then some (duplicate_parent p hash)
    else rest

unfoldable pub validate_structure : Vertex → Option ValidationError
unfolding check_parents
validate_structure vtx =
    if ltb_ℤ (pos 0) vtx.round && nat_beq (length vtx.parents) 0
    then some (no_parents vtx.hash)
    else check_parents vtx.hash [] vtx.parents

-- Tiers 1 to 5 for one vertex; `none` also where the vertex is skipped.
unfoldable pub validate_vertex : (Bytes → Hash) → Context → Vertex → Option ValidationError
unfolding validate_round_range validate_structure calculate_hash
validate_vertex sha256 ctx vtx =
    if ctx.is_known_vertex vtx.hash
    then none
    else if not (ctx.is_request_pending vtx.hash)
    then none
    else elim (validate_round_range vtx ctx.current_round) [
      | some err ↦ some err
      | none ↦
          if not (vtx.hash == calculate_hash sha256 vtx)
          then some (hash_mismatch vtx.hash)
          else validate_structure vtx
    ]

unfoldable pub validate_vertices : (Bytes → Hash) → Context → List Vertex → Option ValidationError
unfolding validate_vertex
validate_vertices sha256 ctx [] = none
validate_vertices sha256 ctx (v ∷ vs) =
    let rest = validate_vertices sha256 ctx vs in
    elim (validate_vertex sha256 ctx v) [ some err ↦ some err | none ↦ rest ]

-- FetchResponseValidator.Validate
unfoldable pub validate_response : (Bytes → Hash) → ℤ → Context → Message → Option ValidationError
unfolding validate_vertices
validate_response sha256 max_vertex_count ctx msg = elim msg.fetch_res [
  | none ↦ some no_fetch_response
  | some res ↦ elim res.vertices [
    | [] ↦ some empty_response
    | v ∷ vs ↦
        if is_over max_vertex_count (pos (length (v ∷ vs)))
        then some too_many_vertices
        else validate_vertices sha256 ctx (v ∷ vs)
  ]
]
