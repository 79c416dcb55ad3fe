-- ===== src/Types/Hash/Bytes.antt =====
-- Fixed-width big-endian bytes: `bytes.Compare`, `encoding/binary` at one width, and the number that
-- bytes write.
use Prim.Native.Nat.{compare, Ordering}
use mathlib.Core.List.{append_assoc}
use native.Mathlib.Nat.{pow-suc, mul-le-mul_right}
use klef.Prelude.{
  ℕ, zero, suc, ◌+◌, ◌*◌, ◌/◌, ◌%◌, ◌^◌, ◌<◌, ◌≡◌, refl, sym, ◌∙◌, List, [], ◌∷◌, ◌++◌, arith,
  length, All,
}

-- `bytes.Compare`
unfoldable pub bytes_compare : List ℕ → List ℕ → Ordering
bytes_compare [] [] = Ordering.eq
bytes_compare [] (y ∷ ys) = Ordering.lt
bytes_compare (x ∷ xs) [] = Ordering.gt
bytes_compare (x ∷ xs) (y ∷ ys) = elim (compare x y) [
  | Ordering.lt ↦ Ordering.lt
  | Ordering.eq ↦ bytes_compare xs ys
  | Ordering.gt ↦ Ordering.gt
]

-- The number that bytes write, most significant first.
unfoldable pub big_endian : List ℕ → ℕ
big_endian [] = 0
big_endian (x ∷ xs) = x * 256 ^ length xs + big_endian xs

big_endian-lt : (xs : List ℕ) → All (λ b. b < 256) xs → big_endian xs < 256 ^ length xs
unfolding big_endian
big_endian-lt [] h = omega arith
big_endian-lt (x ∷ xs) h =
    let rest = big_endian-lt xs h.1 in
    let top = mul-le-mul_right (256 ^ length xs) h.0 in omega (arith, pow-suc 256 (length xs))

compare_step :
    (x y p a b : ℕ)
    → a < p
    → b < p
    → compare (x * p + a) (y * p + b) ≡ elim (compare x y) [
      | Ordering.lt ↦ Ordering.lt
      | Ordering.eq ↦ compare a b
      | Ordering.gt ↦ Ordering.gt
    ]
compare_step x y p a b ha hb =
    ground (arith, mul-le-mul_right {m = suc x} {n = y} p, mul-le-mul_right {m = suc y} {n = x} p)

-- On byte strings of one length, the order of the bytes is the order of the numbers they write.
pub bytes_compare-big_endian :
    (xs ys : List ℕ)
    → length xs ≡ length ys
    → All (λ b. b < 256) xs
    → All (λ b. b < 256) ys
    → bytes_compare xs ys ≡ compare (big_endian xs) (big_endian ys)
unfolding bytes_compare big_endian
bytes_compare-big_endian [] [] e hx hy = refl
bytes_compare-big_endian (x ∷ xs) (y ∷ ys) e hx hy =
    let widths : length xs ≡ length ys = omega arith in
    let bound : big_endian xs < 256 ^ length ys = rw (← widths) (big_endian-lt xs hx.1) in
    rw
      (
        widths,
        compare_step x y (256 ^ length ys) (big_endian xs) (big_endian ys) bound
            (big_endian-lt ys hy.1),
      )
      (ground (arith, bytes_compare-big_endian xs ys widths hx.1 hy.1))
bytes_compare-big_endian [] (y ∷ ys) e hx hy = absurd (omega arith)
bytes_compare-big_endian (x ∷ xs) [] e hx hy = absurd (omega arith)

-- The low `w` bytes of a number, most significant first.
unfoldable pub be_bytes : ℕ → ℕ → List ℕ
be_bytes zero n = []
be_bytes (suc w) n = be_bytes w (n / 256) ++ (n % 256) ∷ []

-- Numbers that fit are read back from their bytes, whatever follows.
pub be_bytes_inj :
    (w n m : ℕ) (r s : List ℕ)
    → n < 256 ^ w
    → m < 256 ^ w
    → be_bytes w n ++ r ≡ be_bytes w m ++ s
    → (n ≡ m) × (r ≡ s)
unfolding be_bytes
be_bytes_inj zero n m r s hn hm e = (omega arith, e)
be_bytes_inj (suc w) n m r s hn hm e =
    let p = pow-suc 256 w in
    let regroup =
      sym (append_assoc (be_bytes w (n / 256)) ((n % 256) ∷ []) r)
      ∙ e
      ∙ append_assoc (be_bytes w (m / 256)) ((m % 256) ∷ []) s in
    let (high, tails) =
      be_bytes_inj w (n / 256) (m / 256) ((n % 256) ∷ r) ((m % 256) ∷ s) (omega arith) (omega arith)
        regroup in
    let low : n % 256 ≡ m % 256 = cc in (omega arith, cc)
