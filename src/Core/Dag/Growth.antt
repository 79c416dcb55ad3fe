-- ===== src/Core/Dag/Growth.antt =====
-- core/dag.go: which vertices stay in the ledger.
use klef.Prelude.{
  ℤ, ◌≡◌, inl, inr, true, not, ◌&&◌, some, List, arith, length, contains, ltb, ◌==◌, nat_eq,
  nat_beq_iff, Bool-cases, Option-cases,
}
use klef.Prelude.Map.{lookup, has}
use klef.Types.Hash.{Hash, Bytes}
use klef.Types.Vertex.{Vertex}
use klef.Types.Parents.{check_malformed}
use klef.Types.Encoding.{calculate_hash}
use klef.Core.Dag.{Dag, get_missing_hashes, add_vertex_locked, add_vertex}
use klef.Core.Dag.Invariant.{known, IsSound, DagInv}
use klef.Core.Dag.Insertion.{process_insertion-Inserted}
use klef.Core.Dag.Admission.{nothing_missing, select-contains}

-- What d holds, d' holds too.
abbrev pub Grows : Dag → Dag → Type 0
Grows d d' = (h : Hash) (u : Vertex) → lookup h d.vertices ≡ some u → lookup h d'.vertices ≡ some u

locked-Grows :
    (sha256 : Bytes → Hash) (v : Vertex) (round : ℤ) (d : Dag)
    → IsSound sha256 v
    → DagInv sha256 d
    → Grows d (add_vertex_locked v round d).0
unfolding add_vertex_locked
locked-Grows sha256 v round d s i = elim (Bool-cases (has v.hash d.vertices)) [
  | inl old ↦ rw old (λ h u e. e)
  | inr new ↦ elim (Bool-cases (ltb 0 (length (get_missing_hashes v.parents d)))) [
    | inl lacks ↦ rw (new, lacks) (λ h u e. e)
    | inr none_lacks ↦
        rw (new, none_lacks)
          (process_insertion-Inserted sha256 v d i (nothing_missing v d (ground arith)) s).old
  ]
]

-- Whatever vertex a peer sends, a ledger with its invariant still finds each vertex it held.
pub add_vertex-Grows :
    (sha256 : Bytes → Hash) (v : Vertex) (round now : ℤ) (d : Dag)
    → DagInv sha256 d
    → Grows d (add_vertex sha256 v round now d).0
unfolding add_vertex
add_vertex-Grows sha256 v round now d i = elim (Bool-cases (has v.hash d.vertices)) [
  | inl old ↦ rw old (λ h u e. e)
  | inr new ↦ elim (Bool-cases (v.hash == calculate_hash sha256 v)) [
    | inr wrong ↦ rw (new, wrong) (λ h u e. e)
    | inl right ↦ elim (Option-cases (check_malformed v.parents)) [
      | inr (reason, bad) ↦ rw (new, right, bad) (λ h u e. e)
      | inl formed ↦
          rw (new, right, formed)
            (locked-Grows sha256 v round d
              (record {
                hashed = (nat_beq_iff v.hash (calculate_hash sha256 v)).0 right;
                formed = formed;
              })
              i)
    ]
  ]
]

pub Grows-known : (d d' : Dag) (h : Hash) → Grows d d' → known d h ≡ true → known d' h ≡ true
unfolding has
Grows-known d d' h grows k = elim (Option-cases (lookup h d.vertices)) [
  | inl e ↦ absurd (ground (arith, k, e))
  | inr (u, e) ↦ ground (arith, grows h u e)
]

pub contains-get_missing_hashes :
    (hashes : List Hash) (d : Dag) (h : Hash)
    → contains h (get_missing_hashes hashes d) ≡ (contains h hashes && not (known d h))
unfolding get_missing_hashes
contains-get_missing_hashes hashes d h = select-contains (λ k. not (has k d.vertices)) h hashes
