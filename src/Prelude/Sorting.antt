-- ===== src/Prelude/Sorting.antt =====
-- Go's `sort` package: an insertion sort by a Boolean `less`, which keeps equal entries in order.
-- `sort.Slice` leaves the order of equal entries open; the program sorts by hashes and rounds.
use Prim.Native.Nat.{ℕ, suc, ◌≤◌, ◌<◌}
use mathlib.Core.Path.{◌≡◌, refl, sym, ◌∙◌}
use mathlib.Core.Logic.{◌⊎◌, ◌≢◌, inl, inr, ∥∥₁_elim}
use mathlib.Core.Bool.{Bool, ◌||◌}
use mathlib.Core.List.{List, [], ◌∷◌, Perm, Permᴰ, is_set}
use mathlib.Core.List.Perm
use native.Mathlib.Omega.{arith}
use native.Mathlib.Nat.{ℕ_set, le_trans}
use klef.Prelude.Tests.{ltb, if◌then◌else◌, Bool-cases}
use klef.Prelude.Lists.{length, All, All-mono, Member}
use klef.Prelude.Equality.{Eq, ◌==◌}
use klef.Prelude.Sets.{contains}

module _ {ℓ} {A : Type ℓ} (less : A → A → Bool) where
  unfoldable pub insert_sorted : A → List A → List A
  insert_sorted x [] = x ∷ []
  insert_sorted x (y ∷ ys) = if less y x then y ∷ insert_sorted x ys else x ∷ y ∷ ys

  unfoldable pub sort : List A → List A
  unfolding insert_sorted
  sort [] = []
  sort (x ∷ xs) = insert_sorted x (sort xs)

  insert_sorted-perm : (x : A) (ys : List A) → Perm (insert_sorted x ys) (x ∷ ys)
  unfolding insert_sorted
  insert_sorted-perm x [] = Perm.refl _
  insert_sorted-perm x (y ∷ ys) = elim (Bool-cases (less y x)) [
    | inl e ↦ rw e (Perm.trans (Perm.cons y (insert_sorted-perm x ys)) (Perm.swap x y ys))
    | inr e ↦ rw e (Perm.refl _)
  ]

  -- Sorting only reorders.
  pub sort-perm : (xs : List A) → Perm (sort xs) xs
  unfolding sort
  sort-perm [] = Perm.refl []
  sort-perm (x ∷ xs) = Perm.trans (insert_sorted-perm x (sort xs)) (Perm.cons x (sort-perm xs))

  insert_sorted-All {κ} :
      (P : A → Type κ) (x : A) (ys : List A) → P x → All P ys → All P (insert_sorted x ys)
  unfolding insert_sorted
  insert_sorted-All P x [] p h = (p, tt)
  insert_sorted-All P x (y ∷ ys) p h = ground (arith, insert_sorted-All P x ys p h.1)

  pub sort-All {κ} : (P : A → Type κ) (xs : List A) → All P xs → All P (sort xs)
  unfolding sort
  sort-All P [] h = tt
  sort-All P (x ∷ xs) h = insert_sorted-All P x (sort xs) h.0 (sort-All P xs h.1)

module _ {ℓ} {A : Type ℓ} (less : A → A → Bool) where
  insert_sorted-length : (x : A) (ys : List A) → length (insert_sorted less x ys) ≡ suc (length ys)
  unfolding insert_sorted
  insert_sorted-length x [] = refl
  insert_sorted-length x (y ∷ ys) = ground (arith, insert_sorted-length x ys)

  pub sort-length : (xs : List A) → length (sort less xs) ≡ length xs
  unfolding sort
  sort-length [] = refl
  sort-length (x ∷ xs) = ground (arith, insert_sorted-length x (sort less xs), sort-length xs)

module _ {A : Type 0} (less : A → A → Bool) where
  insert_sorted-Member :
      (x a : A) (ys : List A) → (x ≡ a) ⊎ Member a ys → Member a (insert_sorted less x ys)
  unfolding insert_sorted
  insert_sorted-Member x a [] m = m
  insert_sorted-Member x a (y ∷ ys) m = elim (Bool-cases (less y x)) [
    | inl e ↦ rw e (elim m [
      | inl here ↦ inr (insert_sorted-Member x a ys (inl here))
      | inr (inl here) ↦ inl here
      | inr (inr there) ↦ inr (insert_sorted-Member x a ys (inr there))
    ])
    | inr e ↦ rw e m
  ]

  pub sort-Member : (a : A) (xs : List A) → Member a xs → Member a (sort less xs)
  unfolding sort
  sort-Member a (x ∷ xs) (inl e) = insert_sorted-Member x a (sort less xs) (inl e)
  sort-Member a (x ∷ xs) (inr m) =
      insert_sorted-Member x a (sort less xs) (inr (sort-Member a xs m))
  sort-Member a [] m = absurd m

module _ {ℓ} {A : Type ℓ} ⦃e : Eq A⦄ (less : A → A → Bool) where
  insert_sorted-contains :
      (a x : A) (ys : List A) → contains a (insert_sorted less x ys) ≡ (x == a || contains a ys)
  unfolding insert_sorted contains
  insert_sorted-contains a x [] = refl
  insert_sorted-contains a x (y ∷ ys) = ground (arith, insert_sorted-contains a x ys)

  pub sort-contains : (a : A) (xs : List A) → contains a (sort less xs) ≡ contains a xs
  unfolding sort contains
  sort-contains a [] = refl
  sort-contains a (x ∷ xs) =
      ground (arith, insert_sorted-contains a x (sort less xs), sort-contains a xs)

-- Each entry is below all that follow.
abbrev pub IsAscending : List ℕ → Type 0
IsAscending [] = Unit
IsAscending (x ∷ xs) = All (λ y. x ≤ y) xs × IsAscending xs

abbrev pub IsIncreasing : List ℕ → Type 0
IsIncreasing [] = Unit
IsIncreasing (x ∷ xs) = All (λ y. x < y) xs × IsIncreasing xs

abbrev pub IsDistinct : List ℕ → Type 0
IsDistinct [] = Unit
IsDistinct (x ∷ xs) = All (λ y. x ≢ y) xs × IsDistinct xs

insert_sorted-IsAscending :
    (x : ℕ) (ys : List ℕ) → IsAscending ys → IsAscending (insert_sorted ltb x ys)
unfolding insert_sorted
insert_sorted-IsAscending x [] h = (tt, tt)
insert_sorted-IsAscending x (y ∷ ys) h = elim (Bool-cases (ltb y x)) [
  | inl e ↦ rw e (
    insert_sorted-All ltb (λ z. y ≤ z) x ys (ground arith) h.0,
    insert_sorted-IsAscending x ys h.1,
  )
  | inr e ↦
      let first : x ≤ y = ground arith in
      rw e ((first, All-mono _ _ ys (λ z p. le_trans first p) h.0), h)
]

pub sort-IsAscending : (xs : List ℕ) → IsAscending (sort ltb xs)
unfolding sort
sort-IsAscending [] = tt
sort-IsAscending (x ∷ xs) = insert_sorted-IsAscending x (sort ltb xs) (sort-IsAscending xs)

insert_sorted-IsDistinct :
    (x : ℕ) (ys : List ℕ)
    → All (λ y. x ≢ y) ys
    → IsDistinct ys
    → IsDistinct (insert_sorted ltb x ys)
unfolding insert_sorted
insert_sorted-IsDistinct x [] d h = (tt, tt)
insert_sorted-IsDistinct x (y ∷ ys) d h = elim (Bool-cases (ltb y x)) [
  | inl e ↦ rw e (
    insert_sorted-All ltb (λ z. y ≢ z) x ys (λ q. d.0 (sym q)) h.0,
    insert_sorted-IsDistinct x ys d.1 h.1,
  )
  | inr e ↦ rw e (d, h)
]

pub sort-IsDistinct : (xs : List ℕ) → IsDistinct xs → IsDistinct (sort ltb xs)
unfolding sort
sort-IsDistinct [] h = tt
sort-IsDistinct (x ∷ xs) h =
    insert_sorted-IsDistinct x (sort ltb xs) (sort-All ltb _ xs h.0) (sort-IsDistinct xs h.1)

All-lt : (x : ℕ) (ys : List ℕ) → All (λ y. x ≤ y) ys → All (λ y. x ≢ y) ys → All (λ y. x < y) ys
All-lt x [] h d = tt
All-lt x (y ∷ ys) h d = (omega arith, All-lt x ys h.1 d.1)

increasing_of : (xs : List ℕ) → IsAscending xs → IsDistinct xs → IsIncreasing xs
increasing_of [] h d = tt
increasing_of (x ∷ xs) h d = (All-lt x xs h.0 d.0, increasing_of xs h.1 d.1)

-- Distinct hashes come out strictly increasing.
pub sort-IsIncreasing : (xs : List ℕ) → IsDistinct xs → IsIncreasing (sort ltb xs)
sort-IsIncreasing xs d = increasing_of _ (sort-IsAscending xs) (sort-IsDistinct xs d)

insert_sorted_comm :
    (x y : ℕ) (zs : List ℕ)
    → insert_sorted ltb x (insert_sorted ltb y zs) ≡ insert_sorted ltb y (insert_sorted ltb x zs)
unfolding insert_sorted
insert_sorted_comm x y [] = ground arith
insert_sorted_comm x y (z ∷ zs) = ground (arith, insert_sorted_comm x y zs)

sort-Permᴰ : {xs ys : List ℕ} → Permᴰ xs ys → sort ltb xs ≡ sort ltb ys
unfolding sort
sort-Permᴰ Permᴰ.nil = refl
sort-Permᴰ (Permᴰ.cons e p) = cc (sort-Permᴰ p)
sort-Permᴰ (Permᴰ.swap {a = a} {b = b} {l = l} e f) = cc (insert_sorted_comm a b (sort ltb l))
sort-Permᴰ (Permᴰ.trans p q) = sort-Permᴰ p ∙ sort-Permᴰ q

-- The sorted list does not depend on the order of the input.
pub sort_unique : (xs ys : List ℕ) → Perm xs ys → sort ltb xs ≡ sort ltb ys
sort_unique xs ys p = ∥∥₁_elim p (is_set ℕ_set _ _) sort-Permᴰ
