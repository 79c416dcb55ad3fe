-- ===== src/Types/Message.antt =====
-- pkg/types/message.go: the message envelope, its payloads, and evidence of a violation.
pub mod Violation
use Prim.Native.String.{String}
use klef.Prelude.{
  ℤ, Bool, true, false, not, ◌&&◌, Option, none, some, List, if◌then◌else◌, ◌==◌, nat_eq, int_eq,
  is_some,
}
use klef.Types.Hash.{Hash, Bytes}
use klef.Types.Vertex.{Vertex, Vote}
use klef.Types.Parents.{Malformation, check_malformed}

-- A `uint8`; `other` is a value beyond the constants.
pub data MessageType : Type 0 where
  msg_vertex msg_vote msg_fetch_req msg_fetch_res msg_evidence msg_invalid_payload : MessageType
  other : MessageType

unfoldable pub message_type_string : MessageType → String
message_type_string msg_vertex = "VERTEX"
message_type_string msg_vote = "VOTE"
message_type_string msg_fetch_req = "FETCH_REQ"
message_type_string msg_fetch_res = "FETCH_RES"
message_type_string msg_evidence = "EVIDENCE"
message_type_string msg_invalid_payload = "INVALID_PAYLOAD"
message_type_string other = "UNKNOWN"

unfoldable pub type_beq : MessageType → MessageType → Bool
type_beq msg_vertex msg_vertex = true
type_beq msg_vote msg_vote = true
type_beq msg_fetch_req msg_fetch_req = true
type_beq msg_fetch_res msg_fetch_res = true
type_beq msg_evidence msg_evidence = true
type_beq msg_invalid_payload msg_invalid_payload = true
type_beq a b = false

-- The reasons that the program writes into evidence, and text received from a peer.
pub data Description : Type 0 where
  malformed : Malformation → Description
  equivocation : Description
  reported : String → Description

pub record FetchRequest : Type 0 where
  pub missing_hashes : List Hash

-- The entries are pointers that are not nil.
pub record FetchResponse : Type 0 where
  pub vertices : List Vertex

pub record Evidence : Type 0 where
  pub target_id : ℤ
  pub kind : MessageType
  pub proof1 : Option Vertex
  pub proof2 : Option Vertex
  pub reporter_id : ℤ
  pub timestamp : ℤ
  pub description : Description

pub record Message : Type 0 where
  pub from_id : ℤ
  pub current_round : ℤ
  pub kind : MessageType
  pub signature : Bytes
  pub vote : Option Vote
  pub vertex : Option Vertex
  pub fetch_req : Option FetchRequest
  pub fetch_res : Option FetchResponse
  pub evidence : Option Evidence

-- Case 2 of IsValid: a single malformed payload.
unfoldable pub payload_violation : Evidence → Vertex → Bool
unfolding type_beq check_malformed
payload_violation e p1 =
    if type_beq e.kind msg_invalid_payload then is_some (check_malformed p1.parents) else false

unfoldable pub is_valid_pair : Evidence → Vertex → Vertex → Bool
unfolding payload_violation
is_valid_pair e p1 p2 =
    if not (p1.author == p2.author)
    then false
    else if p1.round == p2.round && not (p1.hash == p2.hash)
    then true
    else payload_violation e p1

unfoldable pub is_valid : Evidence → Bool
unfolding is_valid_pair
is_valid e = elim e.proof1 [
  | none ↦ false
  | some p1 ↦
      if not (p1.author == e.target_id)
      then false
      else elim e.proof2 [ none ↦ payload_violation e p1 | some p2 ↦ is_valid_pair e p1 p2 ]
]
