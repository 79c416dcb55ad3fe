-- ===== src/Types/Signer.antt =====
-- The interface types.Signer of pkg/types/crypto.go: its operations, and the law that its users rely on.
use klef.Prelude.{◌≡◌, Bool, true}
use klef.Types.Hash.{Bytes}

pub record Signer : Type 0 where
  pub sign : Bytes → Bytes
  pub get_public_key : Bytes
  pub verify : Bytes → Bytes → Bytes → Bool

-- A signer's own signatures pass its check under its own key.
abbrev pub IsCorrect : Signer → Type 0
IsCorrect s = (content : Bytes) → s.verify content (s.sign content) s.get_public_key ≡ true
