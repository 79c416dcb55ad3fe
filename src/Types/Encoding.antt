-- ===== src/Types/Encoding.antt =====
-- CalculateHash of pkg/types/vertex.go: the byte stream of a vertex, and its hash. SHA-256 is the
-- parameter `sha256`.
pub mod Codes
pub mod Certificates
pub mod Injective
use klef.Prelude.{
  ℕ, ℤ, pos, pos_part, neg_part, ◌+◌, ◌-◌, ◌%◌, ◌^◌, Option, none, some, List, [], ◌∷◌, ◌++◌,
  length, ltb_ℤ, or_zero, int_eq,
}
use klef.Prelude.Map.{lookup, keys}
use klef.Prelude.Sorting.{sort}
use klef.Types.Hash.{Hash, Bytes}
use klef.Types.Hash.Bytes.{be_bytes}
use klef.Types.Vertex.{QcType, qc_global, qc_committee, Qc, Vertex}

-- `binary.Write(buf, binary.BigEndian, intN(z))` with `w` bytes: the two's complement, cut to `w` bytes.
unfoldable pub int_bytes : ℕ → ℤ → Bytes
unfolding be_bytes
int_bytes w z = be_bytes w ((pos_part z % 256 ^ w + 256 ^ w - neg_part z % 256 ^ w) % 256 ^ w)

-- An `int32` length.
unfoldable pub length_bytes {ℓ} : {A : Type ℓ} → List A → Bytes
unfolding int_bytes
length_bytes xs = int_bytes 4 (pos (length xs))

-- A hash with its length, which is always 32.
unfoldable pub hash_bytes : Hash → Bytes
unfolding int_bytes
hash_bytes h = int_bytes 4 (pos 32) ++ be_bytes 32 h

unfoldable pub blob_bytes : Bytes → Bytes
unfolding length_bytes
blob_bytes b = length_bytes b ++ b

unfoldable pub concat_map {ℓ} : {A : Type ℓ} → (A → Bytes) → List A → Bytes
concat_map f [] = []
concat_map f (x ∷ xs) = f x ++ concat_map f xs

abbrev pub qc_type_value : QcType → ℤ
qc_type_value qc_global = pos 0
qc_type_value qc_committee = pos 1

-- One signer of a certificate, read from the map by its id.
unfoldable pub signature_bytes : List (ℤ × Bytes) → ℤ → Bytes
unfolding int_bytes blob_bytes lookup
signature_bytes signatures id = int_bytes 4 id ++ blob_bytes (or_zero (lookup id signatures) [])

-- The signers in increasing order.
unfoldable pub sorted_ids : List (ℤ × Bytes) → List ℤ
unfolding sort
sorted_ids signatures = sort ltb_ℤ (keys signatures)

-- A nil certificate writes nothing.
unfoldable pub qc_bytes : Option Qc → Bytes
unfolding int_bytes hash_bytes length_bytes concat_map signature_bytes sorted_ids
qc_bytes none = []
qc_bytes (some qc) =
    int_bytes 1 (qc_type_value qc.kind)
    ++ (int_bytes 8 qc.round
        ++ (int_bytes 4 qc.proposer_id
            ++ (hash_bytes qc.vertex_hash
                ++ (length_bytes qc.signatures
                    ++ concat_map (signature_bytes qc.signatures) (sorted_ids qc.signatures)))))

unfoldable pub vertex_bytes : Vertex → Bytes
unfolding int_bytes length_bytes concat_map hash_bytes qc_bytes blob_bytes
vertex_bytes v =
    int_bytes 4 v.author
    ++ (int_bytes 8 v.round
        ++ (length_bytes v.parents
            ++ (concat_map hash_bytes v.parents
                ++ (length_bytes v.parent_qcs
                    ++ (concat_map qc_bytes v.parent_qcs
                        ++ (int_bytes 8 v.timestamp
                            ++ (length_bytes v.payload ++ concat_map blob_bytes v.payload)))))))

unfoldable pub calculate_hash : (Bytes → Hash) → Vertex → Hash
unfolding vertex_bytes
calculate_hash sha256 v = sha256 (vertex_bytes v)
