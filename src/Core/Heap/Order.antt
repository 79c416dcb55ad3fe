-- ===== src/Core/Heap/Order.antt =====
-- internal/ds/priority_queue.go and container/heap: heap order on the positions of the array.
use klef.Prelude.{
  ℕ, zero, suc, ◌-◌, ◌/◌, ◌<◌, ◌≡◌, ◌≢◌, nat_beq, ap, ◌∙◌, ◌⊎◌, inl, inr, Bool, true, false, List,
  arith, length, Option-cases, Bool-cases,
}
use klef.Core.Heap.{get_elem?, less_at, swap}
use klef.Core.Heap.Array.{get_elem?-some, get_elem?-swap, less_at-cong, exchanged}

-- A strict order whose incomparable elements form classes, as a comparison of keys is one.
pub record IsStrictOrder {A : Type 0} (less : A → A → Bool) : Type 0 where
  pub asymmetric : (a b : A) → less a b ≡ true → less b a ≡ false
  pub not_less_trans : (a b c : A) → less a b ≡ false → less b c ≡ false → less a c ≡ false

-- The parent's position, as container/heap computes it.
abbrev pub parent : ℕ → ℕ
parent k = (k - 1) / 2

pub exchanged-left : (i j k : ℕ) → k ≡ i → exchanged i j k ≡ j
exchanged-left i j k e = ground arith

pub exchanged-right : (i j k : ℕ) → k ≡ j → exchanged i j k ≡ i
exchanged-right i j k e = ground arith

pub exchanged-other : (i j k : ℕ) → k ≢ i → k ≢ j → exchanged i j k ≡ k
exchanged-other i j k e f = ground arith

pub nat-cases : (a b : ℕ) → (a ≡ b) ⊎ (a ≢ b)
nat-cases a b = elim (Bool-cases (nat_beq a b)) [
  | inl e ↦ inl (ground (arith, e))
  | inr e ↦ inr (ground (arith, e))
]

module _ {A : Type 0} (less : A → A → Bool) where
  -- No entry of the array is before its parent.
  abbrev pub IsHeap : List A → Type 0
  IsHeap pq = (k : ℕ) → 0 < k → k < length pq → less_at less pq k (parent k) ≡ false

  pub less_at-swap :
      (i j : ℕ) (pq : List A) (a b : ℕ)
      → i < length pq
      → j < length pq
      → less_at less (swap i j pq) a b ≡ less_at less pq (exchanged i j a) (exchanged i j b)
  less_at-swap i j pq a b hi hj =
      less_at-cong less (swap i j pq) pq a b (exchanged i j a) (exchanged i j b)
        (get_elem?-swap i j pq a hi hj) (get_elem?-swap i j pq b hi hj)

  pub less_at-moved :
      (i j : ℕ) (pq : List A) (a b c d : ℕ)
      → i < length pq
      → j < length pq
      → exchanged i j a ≡ c
      → exchanged i j b ≡ d
      → less_at less pq c d ≡ false
      → less_at less (swap i j pq) a b ≡ false
  less_at-moved i j pq a b c d hi hj e f h =
      less_at-swap i j pq a b hi hj
      ∙ ap (λ x. less_at less pq x (exchanged i j b)) e
      ∙ ap (λ x. less_at less pq c x) f
      ∙ h

module _ {A : Type 0} (less : A → A → Bool) (o : IsStrictOrder less) where
  pub less_at-asymmetric :
      (pq : List A) (a b : ℕ) → less_at less pq a b ≡ true → less_at less pq b a ≡ false
  unfolding less_at
  less_at-asymmetric pq a b h = elim (Option-cases (get_elem? pq a)) [
    | inl e ↦ absurd (ground (arith, e, h))
    | inr (x, e) ↦ elim (Option-cases (get_elem? pq b)) [
      | inl f ↦ absurd (ground (arith, e, f, h))
      | inr (y, f) ↦ ground (arith, e, f, h, o.asymmetric x y (ground (arith, e, f, h)))
    ]
  ]

  pub less_at_trans :
      (pq : List A) (a b c : ℕ)
      → b < length pq
      → less_at less pq a b ≡ false
      → less_at less pq b c ≡ false
      → less_at less pq a c ≡ false
  unfolding less_at
  less_at_trans pq a b c hb h k =
      let (y, f) = get_elem?-some pq b hb in
      elim (Option-cases (get_elem? pq a)) [
        | inl e ↦ ground (arith, e)
        | inr (x, e) ↦ elim (Option-cases (get_elem? pq c)) [
          | inl g ↦ ground (arith, e, g)
          | inr (z, g) ↦
              let xy : less x y ≡ false = ground (arith, e, f, h) in
              let yz : less y z ≡ false = ground (arith, f, g, k) in
              ground (arith, e, g, o.not_less_trans x y z xy yz)
        ]
      ]

  less_at-itself : (pq : List A) (a : ℕ) → less_at less pq a a ≡ false
  less_at-itself pq a = elim (Bool-cases (less_at less pq a a)) [
    | inl e ↦ less_at-asymmetric pq a a e
    | inr e ↦ e
  ]

  -- Every entry of a heap comes after the root or beside it.
  pub IsHeap-root :
      (fuel : ℕ) (pq : List A) (k : ℕ)
      → IsHeap less pq
      → k < fuel
      → k < length pq
      → less_at less pq k 0 ≡ false
  IsHeap-root zero pq k h small inside = absurd (omega (arith, small))
  IsHeap-root (suc fuel) pq zero h small inside = less_at-itself pq 0
  IsHeap-root (suc fuel) pq (suc k) h small inside =
      less_at_trans pq (suc k) (parent (suc k)) 0 (omega (arith, inside))
        (h (suc k) (omega arith) inside)
        (IsHeap-root fuel pq (parent (suc k)) h (omega (arith, small)) (omega (arith, inside)))
