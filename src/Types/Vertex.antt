-- ===== src/Types/Vertex.antt =====
-- The records of pkg/types/vertex.go and vote.go. Go's `int` is an integer of 64 bits.
use klef.Prelude.{ℤ, Option, List}
use klef.Types.Hash.{Hash, Bytes}

pub data QcType : Type 0 where
  qc_global qc_committee : QcType

-- `signatures` is Go's `map[int]Signature`.
pub record Qc : Type 0 where
  pub kind : QcType
  pub vertex_hash : Hash
  pub round : ℤ
  pub proposer_id : ℤ
  pub signatures : List (ℤ × Bytes)

-- An entry of `parent_qcs` may be a nil pointer.
pub record Vertex : Type 0 where
  pub author : ℤ
  pub round : ℤ
  pub parents : List Hash
  pub parent_qcs : List (Option Qc)
  pub timestamp : ℤ
  pub payload : List Bytes
  pub signature : Bytes
  pub hash : Hash

pub record Vote : Type 0 where
  pub round : ℤ
  pub vertex_hash : Hash
  pub voter_id : ℤ
  pub signature : Bytes
