-- ===== src/Core/Crypto.antt =====
-- core/crypto_ed25519.go over the standard library's ed25519, whose GenerateKey, Sign and Verify are
-- parameters.
pub mod Correct
use klef.Prelude.{Bool, Option, none, some}
use klef.Types.Hash.{Bytes}
use klef.Types.Signer.{Signer}

-- A key pair as GenerateKey makes it; `none` is its error.
pub record KeyPair : Type 0 where
  pub pub_key : Bytes
  pub priv_key : Bytes

module _ (generate_key : Option KeyPair) (sign_with : Bytes → Bytes → Bytes)
    (verify_with : Bytes → Bytes → Bytes → Bool) where
  -- The methods of an Ed25519Signer with this pair.
  unfoldable pub ed25519_signer : KeyPair → Signer
  ed25519_signer pair = record {
    sign = λ content. sign_with pair.priv_key content;
    get_public_key = pair.pub_key;
    verify = λ content sig key. verify_with key content sig;
  }

  unfoldable pub new_ed25519_signer : Option Signer
  unfolding ed25519_signer
  new_ed25519_signer = elim generate_key [ none ↦ none | some pair ↦ some (ed25519_signer pair) ]
