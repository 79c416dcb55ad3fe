-- ===== src/Consensus/Quorum/Rounding.antt =====
-- consensus/quorumpolicy.go: the rounding of the float64 product of a ratio and a node count.
use native.Mathlib.Nat.{
  mul-le-mul_left, mul-le-mul_right, le-div_iff_mul-le, one-le-pow, pow-le-pow_right, mul_assoc,
  lt-mul-div-succ, lt_of_mul-lt-mul_left,
}
use native.Mathlib.Omega.{pow_step}
use klef.Prelude.{
  ℕ, zero, suc, ◌+◌, ◌*◌, ◌/◌, ◌^◌, ◌≤◌, ◌<◌, ◌≡◌, refl, sym, ◌∙◌, ap, ◌⊎◌, inl, inr, Bool, true,
  false, arith, ltb, leb, if◌then◌else◌, Bool-cases,
}
use klef.Prelude.Float.{Float64, round_bits, excess, round53, floor_mul}

if-ge : (b : Bool) (q u : ℕ) → q * u ≤ (if b then (q + 1) * u else q * u)
if-ge true q u = mul-le-mul_right u (omega arith)
if-ge false q u = omega arith

-- A multiple of the cut that is below stays below.
round_bits-keeps : (c s p : ℕ) → c * 2 ^ s ≤ p → c * 2 ^ s ≤ round_bits s p
unfolding round_bits
round_bits-keeps c s p below =
    let whole : c ≤ p / 2 ^ s = (le-div_iff_mul-le (one-le-pow s 2 (omega arith))).1 below in
    omega (arith, mul-le-mul_right (2 ^ s) whole, if-ge _ (p / 2 ^ s) (2 ^ s))

excess-cases :
    (f p : ℕ) → (excess f p ≡ 0) ⊎ ((e : ℕ) × (excess f p ≡ suc e) × (2 ^ 53 * 2 ^ e ≤ p))
unfolding excess
excess-cases zero p = inl refl
excess-cases (suc f) p = elim (Bool-cases (ltb p (2 ^ 53))) [
  | inl small ↦ inl (ground (arith, small))
  | inr big ↦ elim (excess-cases f (p / 2)) [
    | inl e0 ↦ inr (0, ground (arith, big, e0), ground (arith, big))
    | inr (e, q, le) ↦ inr (suc e, ground (arith, big, q), omega (arith, le, pow_step 2 e))
  ]
]

-- A power is a multiple of each lower one.
multiple : (s t : ℕ) → s ≤ t → (k : ℕ) × (2 ^ t ≡ k * 2 ^ s)
multiple s zero le = (1, rw (s-zero s le) (omega arith))
  where
    s-zero : (n : ℕ) → n ≤ 0 → n ≡ 0
    s-zero n h = omega arith
multiple s (suc t) le = elim (Bool-cases (leb s t)) [
  | inl low ↦
      let (k, split) = multiple s t (ground (arith, low)) in
      (2 * k, pow_step 2 t ∙ ap (λ x. 2 * x) split ∙ sym (mul_assoc 2 k (2 ^ s)))
  | inr top ↦ let same : s ≡ suc t = ground (arith, top) in (1, rw same (omega arith))
]

round53-ge : (a t p : ℕ) → a < 2 ^ 53 → a * 2 ^ t ≤ p → a * 2 ^ t ≤ round53 p
unfolding round53
round53-ge a t p small below = elim (excess-cases 64 p) [
  | inl e0 ↦ rw e0 (omega (arith, below, round_bits-keeps p 0 p (omega arith)))
  | inr (e, q, le) ↦ elim (Bool-cases (leb t e)) [
    | inl low ↦
        let bits : 2 ^ t ≤ 2 ^ e = pow-le-pow_right (omega arith) (ground (arith, low)) in
        rw q (
          omega (
            arith,
            mul-le-mul_right (2 ^ t) (small),
            bits,
            pow_step 2 e,
            round_bits-keeps (2 ^ 52) (suc e) p (omega (arith, le, pow_step 2 e)),
          ))
    | inr high ↦
        let (k, split) = multiple (suc e) t (ground (arith, high)) in
        let same : a * k * 2 ^ suc e ≡ a * 2 ^ t =
          mul_assoc a k (2 ^ suc e) ∙ ap (λ x. a * x) (sym split) in
        rw q (omega (arith, same, round_bits-keeps (a * k) (suc e) p (omega (arith, same, below))))
  ]
]

-- A ratio of at least one half.
abbrev pub IsHalf : Float64 → Type 0
IsHalf r = 2 ^ r.scale ≤ 2 * r.mantissa

-- One more than the rounded product with such a ratio is more than half.
pub floor_mul-half : (n : ℕ) (r : Float64) → n < 2 ^ 53 → IsHalf r → n < 2 * (floor_mul n r + 1)
unfolding floor_mul
floor_mul-half n r small half =
    let product = round53 (n * r.mantissa) in
    let over : product < 2 ^ r.scale * (product / 2 ^ r.scale + 1) =
      lt-mul-div-succ product (one-le-pow r.scale 2 (omega arith)) in
    lt_of_mul-lt-mul_left (2 ^ r.scale) (omega (arith, over, kept r.scale half))
  where
    kept : (s : ℕ) → 2 ^ s ≤ 2 * r.mantissa → n * 2 ^ s ≤ 2 * round53 (n * r.mantissa)
    kept zero h =
        let le : 2 ^ 0 ≤ r.mantissa = omega (arith, h) in
        omega (arith, round53-ge n 0 (n * r.mantissa) small (mul-le-mul_left n le))
    kept (suc s) h =
        let le : 2 ^ s ≤ r.mantissa = omega (arith, h, pow_step 2 s) in
        omega (
          arith,
          round53-ge n s (n * r.mantissa) small (mul-le-mul_left n le),
          ap (λ x. n * x) (pow_step 2 s),
        )
