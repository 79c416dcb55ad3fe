-- ===== src/Types/Encoding/Codes.antt =====
-- encoding/binary as CalculateHash of pkg/types/vertex.go uses it: writers and what they can write.
use mathlib.Core.List.{append_assoc}
use native.Mathlib.Nat.{mod-eq_of_lt, add-mod_right, mod-lt}
use klef.Prelude.{
  ℕ, ℤ, pos, negsuc, suc, pos_part, neg_part, ◌+◌, ◌-◌, ◌*◌, ◌%◌, ◌^◌, ◌≤◌, ◌<◌, ◌≡◌, refl, sym, ap,
  ◌∙◌, List, [], ◌∷◌, ◌++◌, arith, length, All,
}
use klef.Types.Hash.{Bytes}
use klef.Types.Hash.Bytes.{be_bytes, be_bytes_inj}
use klef.Types.Encoding.{int_bytes, length_bytes, hash_bytes, blob_bytes, concat_map}

-- The output for a value that fits determines the value and where the output ends.
abbrev pub IsCode : {A : Type 0} → (A → Type 0) → (A → Bytes) → Type 0
IsCode {A} P f = (a b : A) (r s : Bytes) → P a → P b → f a ++ r ≡ f b ++ s → (a ≡ b) × (r ≡ s)

-- An integer of `w` bytes.
abbrev pub IntFits : ℕ → ℤ → Type 0
IntFits w z = (2 * pos_part z < 256 ^ w) × (2 * neg_part z ≤ 256 ^ w)

residue-pos : (n m : ℕ) → n < m → (n % m + m - 0 % m) % m ≡ n
residue-pos n m small =
    let plain : n % m ≡ n = mod-eq_of_lt small in
    let none : 0 % m ≡ 0 = mod-eq_of_lt (omega (arith, small)) in
    let sum : n % m + m - 0 % m ≡ n + m = omega (arith, plain, none) in
    ap (λ x. x % m) sum ∙ add-mod_right n m ∙ plain

residue-neg : (n m : ℕ) → 0 < n → n < m → (0 % m + m - n % m) % m ≡ m - n
residue-neg n m some small =
    let plain : n % m ≡ n = mod-eq_of_lt small in
    let none : 0 % m ≡ 0 = mod-eq_of_lt (omega (arith, small)) in
    let rest : 0 % m + m - n % m ≡ m - n = omega (arith, plain, none) in
    ap (λ x. x % m) rest ∙ mod-eq_of_lt (omega (arith, some, small))

abbrev residue : ℕ → ℤ → ℕ
residue m z = (pos_part z % m + m - neg_part z % m) % m

residue_inj :
    (m : ℕ) (x y : ℤ)
    → (2 * pos_part x < m) × (2 * neg_part x ≤ m)
    → (2 * pos_part y < m) × (2 * neg_part y ≤ m)
    → residue m x ≡ residue m y
    → x ≡ y
residue_inj m (pos a) (pos b) hx hy e =
    ap pos (sym (residue-pos a m (omega (arith, hx))) ∙ e ∙ residue-pos b m (omega (arith, hy)))
residue_inj m (negsuc a) (negsuc b) hx hy e =
    let l = residue-neg (suc a) m (omega arith) (omega (arith, hx)) in
    let r = residue-neg (suc b) m (omega arith) (omega (arith, hy)) in
    ap negsuc (omega (arith, l, r, e, hx, hy))
residue_inj m (pos a) (negsuc b) hx hy e =
    let l = residue-pos a m (omega (arith, hx)) in
    let r = residue-neg (suc b) m (omega arith) (omega (arith, hy)) in
    absurd (omega (arith, l, r, e, hx, hy))
residue_inj m (negsuc a) (pos b) hx hy e =
    let l = residue-neg (suc a) m (omega arith) (omega (arith, hx)) in
    let r = residue-pos b m (omega (arith, hy)) in absurd (omega (arith, l, r, e, hx, hy))

pub int_bytes-IsCode : (w : ℕ) → IsCode (IntFits w) (int_bytes w)
unfolding int_bytes
int_bytes-IsCode w x y r s hx hy e =
    let m = 256 ^ w in
    let some : 0 < m = omega (arith, hx) in
    let (same, rest) =
      be_bytes_inj w (residue m x) (residue m y) r s (mod-lt _ some) (mod-lt _ some) e in
    (residue_inj m x y hx hy same, rest)

module _ {A B : Type 0} where
  -- Two writers one after the other.
  abbrev pub pair_bytes : (A → Bytes) → (B → Bytes) → A × B → Bytes
  pair_bytes f g p = f p.0 ++ g p.1

  pub pair_bytes-IsCode :
      (P : A → Type 0) (Q : B → Type 0) (f : A → Bytes) (g : B → Bytes)
      → IsCode P f
      → IsCode Q g
      → IsCode (λ (p : A × B). P p.0 × Q p.1) (pair_bytes f g)
  pair_bytes-IsCode P Q f g cf cg p q r s hp hq e =
      let regroup = sym (append_assoc (f p.0) (g p.1) r) ∙ e ∙ append_assoc (f q.0) (g q.1) s in
      let (first, rest) = cf p.0 q.0 (g p.1 ++ r) (g q.1 ++ s) hp.0 hq.0 regroup in
      let (second, tails) = cg p.1 q.1 r s hp.1 hq.1 rest in (cc, tails)

-- A list after its length.
abbrev pub list_bytes : {A : Type 0} → (A → Bytes) → List A → Bytes
list_bytes f xs = length_bytes xs ++ concat_map f xs

abbrev pub ListFits : {A : Type 0} → (A → Type 0) → List A → Type 0
ListFits P xs = (length xs < 2 ^ 31) × All P xs

module _ {A : Type 0} (P : A → Type 0) (f : A → Bytes) (c : IsCode P f) where
  concat_map_inj :
      (xs ys : List A) (r s : Bytes)
      → length xs ≡ length ys
      → All P xs
      → All P ys
      → concat_map f xs ++ r ≡ concat_map f ys ++ s
      → (xs ≡ ys) × (r ≡ s)
  unfolding concat_map
  concat_map_inj [] [] r s l hx hy e = (refl, e)
  concat_map_inj [] (y ∷ ys) r s l hx hy e = absurd (omega (arith, l))
  concat_map_inj (x ∷ xs) [] r s l hx hy e = absurd (omega (arith, l))
  concat_map_inj (x ∷ xs) (y ∷ ys) r s l hx hy e =
      let regroup =
        sym (append_assoc (f x) (concat_map f xs) r) ∙ e ∙ append_assoc (f y) (concat_map f ys) s in
      let (first, rest) = c x y _ _ hx.0 hy.0 regroup in
      let (others, tails) = concat_map_inj xs ys r s (omega (arith, l)) hx.1 hy.1 rest in
      (cc, tails)

  pub list_bytes-IsCode : IsCode (ListFits P) (list_bytes f)
  unfolding length_bytes
  list_bytes-IsCode xs ys r s hx hy e =
      let regroup =
        sym (append_assoc (length_bytes xs) (concat_map f xs) r)
        ∙ e
        ∙ append_assoc (length_bytes ys) (concat_map f ys) s in
      let (same, rest) =
        int_bytes-IsCode 4 (pos (length xs)) (pos (length ys)) _ _ (omega (arith, hx), omega arith)
          (omega (arith, hy), omega arith) regroup in
      concat_map_inj xs ys r s (ap pos_part same) hx.1 hy.1 rest

pub hash_bytes-IsCode : IsCode (λ h. h < 256 ^ 32) hash_bytes
unfolding hash_bytes
hash_bytes-IsCode h k r s hh hk e =
    let regroup =
      sym (append_assoc (int_bytes 4 (pos 32)) (be_bytes 32 h) r)
      ∙ e
      ∙ append_assoc (int_bytes 4 (pos 32)) (be_bytes 32 k) s in
    let (same, rest) =
      int_bytes-IsCode 4 (pos 32) (pos 32) _ _ (omega arith, omega arith) (omega arith, omega arith)
        regroup in
    be_bytes_inj 32 h k r s hh hk rest

append_inj :
    {A : Type 0} (b c r s : List A) → length b ≡ length c → b ++ r ≡ c ++ s → (b ≡ c) × (r ≡ s)
append_inj [] [] r s l e = (refl, e)
append_inj [] (y ∷ c) r s l e = absurd (omega (arith, l))
append_inj (x ∷ b) [] r s l e = absurd (omega (arith, l))
append_inj (x ∷ b) (y ∷ c) r s l e =
    let (same, rest) = append_inj b c r s (omega (arith, l)) cc in (cc, rest)

pub blob_bytes-IsCode : IsCode (λ b. length b < 2 ^ 31) blob_bytes
unfolding blob_bytes length_bytes
blob_bytes-IsCode b c r s hb hc e =
    let regroup = sym (append_assoc (length_bytes b) b r) ∙ e ∙ append_assoc (length_bytes c) c s in
    let (same, rest) =
      int_bytes-IsCode 4 (pos (length b)) (pos (length c)) _ _ (omega (arith, hb), omega arith)
        (omega (arith, hc), omega arith) regroup in
    append_inj b c r s (ap pos_part same) rest
