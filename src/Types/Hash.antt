-- ===== src/Types/Hash.antt =====
-- pkg/types/hash.go and crypto.go. A Hash is the number that its 32 bytes write, most significant
-- byte first; `Compare` on the bytes is then the order of the numbers (child `Bytes`).
pub mod Bytes
use klef.Prelude.{ℕ, ◌≡◌, Bool, List, [], ◌∷◌, ltb, refl}
use klef.Prelude.Sorting.{sort}

abbrev pub Hash : Type 0
Hash = ℕ

-- A slice of bytes.
abbrev pub Bytes : Type 0
Bytes = List ℕ

-- `Hash{}`
abbrev pub zero_hash : Hash
zero_hash = 0

-- `h.Compare(other) < 0`
abbrev pub hash_less : Hash → Hash → Bool
hash_less = ltb

unfoldable pub sort_hashes : List Hash → List Hash
unfolding sort
sort_hashes hashes = sort hash_less hashes

sort_hashes_run : sort_hashes (3 ∷ 1 ∷ 2 ∷ []) ≡ 1 ∷ 2 ∷ 3 ∷ []
unfolding sort_hashes
sort_hashes_run = refl
