-- ===== src/Core/Heap/Up.antt =====
-- container/heap's up: heap order after an entry was put at a position.
use klef.Prelude.{
  ℕ, zero, suc, ◌<◌, ◌≡◌, ◌≢◌, refl, sym, ap, inl, inr, Bool, true, false, not, ◌||◌, List, arith,
  length, nat_beq, Bool-cases, subst,
}
use mathlib.Core.List.{Perm}
use mathlib.Core.List.Perm
use klef.Core.Heap.{less_at, swap, up}
use klef.Core.Heap.Array.{length-swap, swap-perm}
use klef.Core.Heap.Order.{
  IsStrictOrder, IsHeap, parent, nat-cases, exchanged-left, exchanged-right, exchanged-other,
  less_at-moved, less_at-asymmetric, less_at_trans,
}

module _ {A : Type 0} (less : A → A → Bool) where
  -- Heap order but for the entry at j, whose children come after its parent.
  pub record IsHeapBut (j : ℕ) (pq : List A) : Type 0 where
    pub others : (k : ℕ) → 0 < k → k < length pq → k ≢ j → less_at less pq k (parent k) ≡ false
    pub children :
        (k : ℕ)
        → 0 < k
        → k < length pq
        → parent k ≡ j
        → 0 < j
        → less_at less pq k (parent j) ≡ false

  pub up-length : (fuel j : ℕ) (pq : List A) → length (up less fuel j pq) ≡ length pq
  unfolding up
  up-length zero j pq = refl
  up-length (suc fuel) j pq =
      ground (arith, up-length fuel (parent j) (swap (parent j) j pq), length-swap (parent j) j pq)

  pub up-perm : (fuel j : ℕ) (pq : List A) → Perm (up less fuel j pq) pq
  unfolding up
  up-perm zero j pq = Perm.refl pq
  up-perm (suc fuel) j pq =
      elim (Bool-cases (nat_beq (parent j) j || not (less_at less pq j (parent j)))) [
        | inl e ↦ rw e (Perm.refl pq)
        | inr e ↦ rw e (
            Perm.trans (up-perm fuel (parent j) (swap (parent j) j pq)) (swap-perm (parent j) j pq))
      ]

module _ {A : Type 0} (less : A → A → Bool) (o : IsStrictOrder less) where
  module _ (j : ℕ) (pq : List A) (h : IsHeapBut less j pq) (positive : 0 < j)
      (inside : j < length pq) (before : less_at less pq j (parent j) ≡ true) where
    after : less_at less pq (parent j) j ≡ false
    after = less_at-asymmetric less o pq j (parent j) before

    step-others :
        (k : ℕ)
        → 0 < k
        → k < length pq
        → k ≢ parent j
        → less_at less (swap (parent j) j pq) k (parent k) ≡ false
    step-others k pk hk other =
        let i = parent j in
        let moved = less_at-moved less i j pq k (parent k) in
        let hi : i < length pq = omega (arith, inside) in
        elim (nat-cases k j) [
          | inl e ↦
              moved i j hi inside (exchanged-right i j k e)
                (exchanged-left i j (parent k) (ap parent e)) after
          | inr e ↦ elim (nat-cases (parent k) i) [
            | inl p ↦
                moved k j hi inside (exchanged-other i j k other e)
                  (exchanged-left i j (parent k) p)
                  (less_at_trans less o pq k i j hi
                    (subst (λ x. less_at less pq k x ≡ false) p (h.others k pk hk e)) after)
            | inr p ↦ elim (nat-cases (parent k) j) [
              | inl q ↦
                  moved k i hi inside (exchanged-other i j k other e)
                    (exchanged-right i j (parent k) q) (h.children k pk hk q positive)
              | inr q ↦
                  moved k (parent k) hi inside (exchanged-other i j k other e)
                    (exchanged-other i j (parent k) p q) (h.others k pk hk e)
            ]
          ]
        ]

    step-children :
        (k : ℕ)
        → 0 < k
        → k < length pq
        → parent k ≡ parent j
        → 0 < parent j
        → less_at less (swap (parent j) j pq) k (parent (parent j)) ≡ false
    step-children k pk hk child deep =
        let i = parent j in
        let hi : i < length pq = omega (arith, inside) in
        let up_two = exchanged-other i j (parent i) (omega (arith, deep)) (omega (arith, deep)) in
        let grand : less_at less pq i (parent i) ≡ false =
          h.others i deep hi (omega (arith, deep)) in
        let moved = less_at-moved less i j pq k (parent i) in
        elim (nat-cases k j) [
          | inl e ↦ moved i (parent i) hi inside (exchanged-right i j k e) up_two grand
          | inr e ↦
              moved k (parent i) hi inside (exchanged-other i j k (omega (arith, child, deep)) e)
                up_two
                (less_at_trans less o pq k i (parent i) hi
                  (subst (λ x. less_at less pq k x ≡ false) child (h.others k pk hk e)) grand)
        ]

    step-IsHeapBut : IsHeapBut less (parent j) (swap (parent j) j pq)
    step-IsHeapBut = record {
      others = λ k p q. step-others k p (omega (arith, q, length-swap (parent j) j pq));
      children = λ k p q. step-children k p (omega (arith, q, length-swap (parent j) j pq));
    }

  stop-IsHeap :
      (j : ℕ) (pq : List A)
      → IsHeapBut less j pq
      → (0 < j → less_at less pq j (parent j) ≡ false)
      → IsHeap less pq
  stop-IsHeap j pq h stop k pk hk = elim (nat-cases k j) [
    | inl e ↦
        subst (λ x. less_at less pq x (parent x) ≡ false) (sym e) (stop (omega (arith, pk, e)))
    | inr e ↦ h.others k pk hk e
  ]

  -- More fuel than the position lets the entry rise until the array is a heap.
  pub up-IsHeap :
      (fuel j : ℕ) (pq : List A)
      → j < fuel
      → j < length pq
      → IsHeapBut less j pq
      → IsHeap less (up less fuel j pq)
  unfolding up
  up-IsHeap zero j pq enough inside h = absurd (omega (arith, enough))
  up-IsHeap (suc fuel) j pq enough inside h = elim (nat-cases j 0) [
    | inl e ↦
        let root : nat_beq (parent j) j ≡ true = ground (arith, e) in
        rw root (stop-IsHeap j pq h (λ p. absurd (omega (arith, p, e))))
    | inr e ↦
        let above : nat_beq (parent j) j ≡ false = ground (arith, e) in
        elim (Bool-cases (less_at less pq j (parent j))) [
          | inr b ↦ rw above (rw b (stop-IsHeap j pq h (λ p. b)))
          | inl b ↦
              let rest =
                up-IsHeap fuel (parent j) (swap (parent j) j pq) (omega (arith, enough, e))
                  (omega (arith, inside, length-swap (parent j) j pq))
                  (step-IsHeapBut j pq h (omega (arith, e)) inside b) in
              rw above (rw b rest)
        ]
  ]
