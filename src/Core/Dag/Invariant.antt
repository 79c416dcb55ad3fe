-- ===== src/Core/Dag/Invariant.antt =====
-- The ledger's invariant: it is closed under parents, its index agrees with its vertices, and the
-- orphan buffer's invariant holds relative to it.
use klef.Prelude.{ℤ, ◌≡◌, Bool, false, Option, none, some, contains, ◌==◌, nat_eq, int_eq}
use klef.Prelude.Map.{lookup, has, Distinct}
use klef.Prelude.Sorting.{IsDistinct, IsIncreasing}
use klef.Types.Hash.{Hash, Bytes}
use klef.Types.Vertex.{Vertex}
use klef.Types.Parents.{check_malformed}
use klef.Types.Encoding.{calculate_hash}
use klef.Core.Orphanage.Invariant.{Inv}
use klef.Core.Orphanage.Release.{Complete}
use klef.Core.Dag.{Dag, round_hashes}

abbrev pub known : Dag → Hash → Bool
known d h = has h d.vertices

-- What AddVertex checks of a vertex by itself.
pub record IsSound (sha256 : Bytes → Hash) (v : Vertex) : Type 0 where
  pub hashed : v.hash ≡ calculate_hash sha256 v
  pub formed : check_malformed v.parents ≡ none

-- Whether the vertex found for a hash is of the round.
abbrev pub of_round : ℤ → Option Vertex → Bool
of_round r none = false
of_round r (some v) = v.round == r

-- The invariant between two rounds of the insertion loop.
pub record LoopInv (sha256 : Bytes → Hash) (d : Dag) : Type 0 where
  pub distinct : Distinct d.vertices
  pub keyed : (h : Hash) (v : Vertex) → lookup h d.vertices ≡ some v → v.hash ≡ h
  pub closed : (h : Hash) (v : Vertex) → lookup h d.vertices ≡ some v → Complete (known d) v
  pub sound : (h : Hash) (v : Vertex) → lookup h d.vertices ≡ some v → IsSound sha256 v
  pub sound_orphans :
      (h : Hash) (v : Vertex) → lookup h d.buffer.orphans ≡ some v → IsSound sha256 v
  pub buffered : Inv (known d) d.buffer
  pub indexed :
      (r : ℤ) (h : Hash)
      → contains h (round_hashes r d.round_index) ≡ of_round r (lookup h d.vertices)
  pub once : (r : ℤ) → IsDistinct (round_hashes r d.round_index)

-- Between two calls the lists of the index are also in order.
pub record DagInv (sha256 : Bytes → Hash) (d : Dag) : Type 0 where
  pub base : LoopInv sha256 d
  pub sorted : (r : ℤ) → IsIncreasing (round_hashes r d.round_index)
