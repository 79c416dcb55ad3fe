-- ===== src/Prelude/Sets.antt =====
-- Go's `map[K]struct{}` and `map[K]bool` used as sets: the list of the keys, with their membership.
use Prim.Native.Nat.{ℕ}
use mathlib.Core.Path.{◌≡◌, refl}
use mathlib.Core.Logic.{◌≢◌, inl, inr}
use mathlib.Core.Bool.{Bool, true, false, ◌||◌}
use mathlib.Core.List.{List, [], ◌∷◌, ◌++◌}
use native.Mathlib.Omega.{arith}
use klef.Prelude.Lists.{All, Member}
use klef.Prelude.Equality.{Eq, ◌==◌, nat_eq}

module _ {ℓ} {A : Type ℓ} ⦃e : Eq A⦄ where
  unfoldable pub contains : A → List A → Bool
  contains a [] = false
  contains a (x ∷ xs) = x == a || contains a xs

  pub contains-append :
      (a : A) (xs ys : List A) → contains a (xs ++ ys) ≡ (contains a xs || contains a ys)
  unfolding contains
  contains-append a [] ys = refl
  contains-append a (x ∷ xs) ys = ground (arith, contains-append a xs ys)

module _ {A : Type 0} ⦃e : Eq A⦄ where
  pub Member-of_contains : (a : A) (xs : List A) → contains a xs ≡ true → Member a xs
  unfolding contains
  Member-of_contains a [] h = cc
  Member-of_contains a (x ∷ xs) h = ground (arith, e.agrees x a, Member-of_contains a xs)

  pub contains_of_Member : (a : A) (xs : List A) → Member a xs → contains a xs ≡ true
  unfolding contains
  contains_of_Member a [] m = absurd m
  contains_of_Member a (x ∷ xs) (inl p) = ground (arith, e.agrees x a)
  contains_of_Member a (x ∷ xs) (inr m) = ground (arith, contains_of_Member a xs m)

-- A miss: the key differs from every entry.
pub All-ne_of_not-contains : (a : ℕ) (xs : List ℕ) → contains a xs ≡ false → All (λ x. a ≢ x) xs
unfolding contains
All-ne_of_not-contains a [] h = tt
All-ne_of_not-contains a (x ∷ xs) h = (ground arith, All-ne_of_not-contains a xs (ground arith))

pub not-contains_of_All-ne : (a : ℕ) (xs : List ℕ) → All (λ x. a ≢ x) xs → contains a xs ≡ false
unfolding contains
not-contains_of_All-ne a [] h = refl
not-contains_of_All-ne a (x ∷ xs) h = ground (arith, h.0, not-contains_of_All-ne a xs h.1)
