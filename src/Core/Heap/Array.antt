-- ===== src/Core/Heap/Array.antt =====
-- internal/ds/priority_queue.go: what an exchange of two positions does to the array of the heap.
use klef.Prelude.{
  ℕ, zero, suc, ◌≤◌, ◌<◌, ◌≡◌, refl, ap, ◌∙◌, subst, inl, inr, Bool, none, some, List, [], ◌∷◌,
  ◌++◌, arith, length, take, nat_beq, if◌then◌else◌, Option-cases,
}
use mathlib.Core.List.{Perm}
use mathlib.Core.List.Perm
use klef.Core.Heap.{get_elem?, set_at, swap, less_at}

-- The position that an exchange of i and j reads for k.
abbrev pub exchanged : ℕ → ℕ → ℕ → ℕ
exchanged i j k = if nat_beq k i then j else if nat_beq k j then i else k

module _ {A : Type 0} where
  pub get_elem?-some : (xs : List A) (i : ℕ) → i < length xs → (x : A) × (get_elem? xs i ≡ some x)
  get_elem?-some [] i h = absurd (omega (arith, h))
  get_elem?-some (x ∷ xs) zero h = (x, refl)
  get_elem?-some (x ∷ xs) (suc i) h = get_elem?-some xs i (omega (arith, h))

  pub get_elem?-lt : (xs : List A) (i : ℕ) (x : A) → get_elem? xs i ≡ some x → i < length xs
  get_elem?-lt [] i x e = absurd (ground (arith, e))
  get_elem?-lt (y ∷ xs) zero x e = omega arith
  get_elem?-lt (y ∷ xs) (suc i) x e = omega (arith, get_elem?-lt xs i x e)

  pub get_elem?-none : (xs : List A) (i : ℕ) → length xs ≤ i → get_elem? xs i ≡ none
  get_elem?-none [] i h = refl
  get_elem?-none (x ∷ xs) zero h = absurd (omega (arith, h))
  get_elem?-none (x ∷ xs) (suc i) h = get_elem?-none xs i (omega (arith, h))

  pub get_elem?-take :
      (n : ℕ) (xs : List A) (i : ℕ) → i < n → get_elem? (take n xs) i ≡ get_elem? xs i
  get_elem?-take zero xs i h = absurd (omega (arith, h))
  get_elem?-take (suc n) [] i h = refl
  get_elem?-take (suc n) (x ∷ xs) zero h = refl
  get_elem?-take (suc n) (x ∷ xs) (suc i) h = get_elem?-take n xs i (omega (arith, h))

  pub get_elem?-append :
      (xs ys : List A) (i : ℕ) → i < length xs → get_elem? (xs ++ ys) i ≡ get_elem? xs i
  get_elem?-append [] ys i h = absurd (omega (arith, h))
  get_elem?-append (x ∷ xs) ys zero h = refl
  get_elem?-append (x ∷ xs) ys (suc i) h = get_elem?-append xs ys i (omega (arith, h))

  pub length-take : (n : ℕ) (xs : List A) → n ≤ length xs → length (take n xs) ≡ n
  length-take zero xs h = refl
  length-take (suc n) [] h = absurd (omega (arith, h))
  length-take (suc n) (x ∷ xs) h = ap suc (length-take n xs (omega (arith, h)))

  pub take-last :
      (n : ℕ) (xs : List A) (x : A)
      → length xs ≡ suc n
      → get_elem? xs n ≡ some x
      → xs ≡ take n xs ++ x ∷ []
  take-last n [] x h e = absurd (omega (arith, h))
  take-last zero (y ∷ []) x h e = ground (arith, e)
  take-last zero (y ∷ z ∷ xs) x h e = absurd (omega (arith, h))
  take-last (suc n) (y ∷ xs) x h e = ap (λ zs. y ∷ zs) (take-last n xs x (omega (arith, h)) e)

  length-set_at : (i : ℕ) (y : A) (xs : List A) → length (set_at i y xs) ≡ length xs
  length-set_at i y [] = refl
  length-set_at zero y (x ∷ xs) = refl
  length-set_at (suc i) y (x ∷ xs) = ap suc (length-set_at i y xs)

  get_elem?-set_at :
      (i : ℕ) (y : A) (xs : List A) (k : ℕ)
      → i < length xs
      → get_elem? (set_at i y xs) k ≡ (if nat_beq k i then some y else get_elem? xs k)
  get_elem?-set_at i y [] k h = absurd (omega (arith, h))
  get_elem?-set_at zero y (x ∷ xs) zero h = ground arith
  get_elem?-set_at zero y (x ∷ xs) (suc k) h = ground arith
  get_elem?-set_at (suc i) y (x ∷ xs) zero h = ground arith
  get_elem?-set_at (suc i) y (x ∷ xs) (suc k) h =
      ground (arith, get_elem?-set_at i y xs k (omega (arith, h)))

  swap-set_at :
      (i j : ℕ) (x y : A) (pq : List A)
      → get_elem? pq i ≡ some x
      → get_elem? pq j ≡ some y
      → swap i j pq ≡ set_at j x (set_at i y pq)
  unfolding swap
  swap-set_at i j x y pq ei ej = ground (arith, ei, ej)

  pub length-swap : (i j : ℕ) (pq : List A) → length (swap i j pq) ≡ length pq
  unfolding swap
  length-swap i j pq = elim (Option-cases (get_elem? pq i)) [
    | inl e ↦ rw (e, swap) refl
    | inr (x, e) ↦ elim (Option-cases (get_elem? pq j)) [
      | inl f ↦ rw (e, swap) (rw f refl)
      | inr (y, f) ↦ rw (e, swap) (rw f (length-set_at j x (set_at i y pq) ∙ length-set_at i y pq))
    ]
  ]

  pub get_elem?-swap :
      (i j : ℕ) (pq : List A) (k : ℕ)
      → i < length pq
      → j < length pq
      → get_elem? (swap i j pq) k ≡ get_elem? pq (exchanged i j k)
  get_elem?-swap i j pq k hi hj =
      let (x, ei) = get_elem?-some pq i hi in
      let (y, ej) = get_elem?-some pq j hj in
      ap (λ xs. get_elem? xs k) (swap-set_at i j x y pq ei ej)
      ∙ ground (
        arith,
        ei,
        ej,
        length-set_at i y pq,
        get_elem?-set_at j x (set_at i y pq) k (omega (arith, hj, length-set_at i y pq)),
        get_elem?-set_at i y pq k hi,
      )

  set_at-perm :
      (i : ℕ) (x y : A) (xs : List A) → get_elem? xs i ≡ some x → Perm (y ∷ xs) (x ∷ set_at i y xs)
  set_at-perm i x y [] e = absurd (ground (arith, e))
  set_at-perm zero x y (z ∷ xs) e =
      let same : z ≡ x = ground (arith, e) in
      subst (λ v. Perm (y ∷ z ∷ xs) (v ∷ y ∷ xs)) same (Perm.swap z y xs)
  set_at-perm (suc i) x y (z ∷ xs) e =
      Perm.trans (Perm.swap z y xs)
        (Perm.trans (Perm.cons z (set_at-perm i x y xs e)) (Perm.swap x z (set_at i y xs)))

  set_at-get :
      (i j : ℕ) (x y : A) (pq : List A)
      → get_elem? pq i ≡ some x
      → get_elem? pq j ≡ some y
      → get_elem? (set_at i y pq) j ≡ some y
  set_at-get i j x y pq e f =
      ground (arith, e, f, get_elem?-set_at i y pq j (get_elem?-lt pq i x e))

  -- An exchange only reorders.
  pub swap-perm : (i j : ℕ) (pq : List A) → Perm (swap i j pq) pq
  unfolding swap
  swap-perm i j pq = elim (Option-cases (get_elem? pq i)) [
    | inl e ↦ rw (e, swap) (Perm.refl pq)
    | inr (x, e) ↦ elim (Option-cases (get_elem? pq j)) [
      | inl f ↦ rw (e, swap) (rw f (Perm.refl pq))
      | inr (y, f) ↦
          let into = set_at-perm i x y pq e in
          let back = set_at-perm j y x (set_at i y pq) (set_at-get i j x y pq e f) in
          rw (e, swap) (rw f (Perm.symm (Perm.cons_inv (Perm.trans into back))))
    ]
  ]

module _ {A : Type 0} (less : A → A → Bool) where
  pub less_at-cong :
      (pq qs : List A) (a b c d : ℕ)
      → get_elem? pq a ≡ get_elem? qs c
      → get_elem? pq b ≡ get_elem? qs d
      → less_at less pq a b ≡ less_at less qs c d
  unfolding less_at
  less_at-cong pq qs a b c d e f = ground (arith, e, f)
