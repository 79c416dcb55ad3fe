-- ===== src/Prelude/Float.antt =====
-- Go's float64 where the program uses it: finite values that are not negative, as a mantissa over a
-- power of two, with the product rounded to 53 bits, ties to even.
use Prim.Native.Nat.{ℕ, zero, suc, ◌+◌, ◌*◌, ◌/◌, ◌%◌, ◌^◌}
use mathlib.Core.Bool.{Bool, true, false}
use klef.Prelude.Tests.{ltb, nat_beq, if◌then◌else◌}

-- mantissa / 2 ^ scale
pub record Float64 : Type 0 where
  pub mantissa : ℕ
  pub scale : ℕ

-- q rounded to a multiple of 2, given the bits that were cut: up when they are more than half, and to
-- even when they are half.
abbrev round_up : ℕ → ℕ → ℕ → Bool
round_up q rest unit =
    if ltb unit (2 * rest)
    then true
    else if nat_beq unit (2 * rest)
    then nat_beq (q % 2) 1
    else false

-- An integer cut to its 53 leading bits; `s` bits are cut.
unfoldable pub round_bits : ℕ → ℕ → ℕ
round_bits s p =
    let q = p / 2 ^ s in if round_up q (p % 2 ^ s) (2 ^ s) then (q + 1) * 2 ^ s else q * 2 ^ s

-- The number of bits beyond 53, with fuel for each.
unfoldable pub excess : ℕ → ℕ → ℕ
excess zero p = 0
excess (suc f) p = let more = suc (excess f (p / 2)) in if ltb p (2 ^ 53) then 0 else more

unfoldable pub round53 : ℕ → ℕ
unfolding round_bits excess
round53 p = round_bits (excess 64 p) p

-- `int(math.Floor(float64(n) * r))` for 0 ≤ n < 2 ^ 53, where float64(n) is exact.
unfoldable pub floor_mul : ℕ → Float64 → ℕ
unfolding round53
floor_mul n r = round53 (n * r.mantissa) / 2 ^ r.scale
