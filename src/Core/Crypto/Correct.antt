-- ===== src/Core/Crypto/Correct.antt =====
-- core/crypto_ed25519.go against the contract of types.Signer.
use klef.Prelude.{
  ℤ, ◌≡◌, subst, arith, Bool, true, Option, some, List, inl, inr, Bool-cases, add64, pos,
  Option-cases,
}
use klef.Types.Hash.{Hash, Bytes}
use klef.Types.Hash.Bytes.{be_bytes}
use klef.Types.Vertex.{Vertex, QcType}
use klef.Types.Message.{Message}
use klef.Types.Signer.{Signer, IsCorrect}
use klef.Consensus.Proposer.{propose, build_vertex, already_proposed}
use klef.Core.Crypto.{KeyPair, ed25519_signer, new_ed25519_signer}

-- The signature of a vertex that is broadcast passes the check of any correct signer.
propose-signed :
    (signer : Signer)
    → IsCorrect signer
    → (sha256 : Bytes → Hash) (id : ℤ) (qc_type : QcType) (votes : List Message)
      (voted_round now last : ℤ) (v : Vertex)
    → (propose sha256 signer.sign id qc_type (some (votes, voted_round)) now last).1 ≡ some v
    → signer.verify (be_bytes 32 v.hash) v.signature signer.get_public_key ≡ true
unfolding propose build_vertex
propose-signed signer correct sha256 id qc_type votes voted_round now last v e =
    elim (Bool-cases (already_proposed (add64 voted_round (pos 1)) last)) [
      | inl old ↦ absurd (ground (arith, e, old))
      | inr new ↦
          let made = build_vertex sha256 signer.sign id votes voted_round qc_type now in
          let same : made ≡ v = ground (arith, e, new) in
          subst
            (λ (x : Vertex).
              signer.verify (be_bytes 32 x.hash) x.signature signer.get_public_key ≡ true)
            same (correct (be_bytes 32 made.hash))
    ]

module _ (generate_key : Option KeyPair) (sign_with : Bytes → Bytes → Bytes)
    (verify_with : Bytes → Bytes → Bytes → Bool)
    (own_verifies : (pair : KeyPair)
      → generate_key ≡ some pair
      → (content : Bytes)
      → verify_with pair.pub_key content (sign_with pair.priv_key content) ≡ true) where
  new_ed25519_signer-IsCorrect :
      (s : Signer) → new_ed25519_signer generate_key sign_with verify_with ≡ some s → IsCorrect s
  unfolding new_ed25519_signer ed25519_signer
  new_ed25519_signer-IsCorrect s made = elim (Option-cases generate_key) [
    | inl failed ↦ absurd (ground (arith, made, failed))
    | inr (pair, e) ↦
        let same : ed25519_signer generate_key sign_with verify_with pair ≡ s =
          ground (arith, made, e) in
        subst IsCorrect same (own_verifies pair e)
  ]

  -- A vertex that a node broadcasts verifies under the public key of its Ed25519 signer, over the bytes
  -- of the vertex's hash, if the library accepts the signatures of the key pair that it generated.
  pub propose-verifies :
      (s : Signer)
      → new_ed25519_signer generate_key sign_with verify_with ≡ some s
      → (sha256 : Bytes → Hash) (id : ℤ) (qc_type : QcType) (votes : List Message)
        (voted_round now last : ℤ) (v : Vertex)
      → (propose sha256 s.sign id qc_type (some (votes, voted_round)) now last).1 ≡ some v
      → s.verify (be_bytes 32 v.hash) v.signature s.get_public_key ≡ true
  propose-verifies s made = propose-signed s (new_ed25519_signer-IsCorrect s made)
