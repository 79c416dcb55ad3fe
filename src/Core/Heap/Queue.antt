-- ===== src/Core/Heap/Queue.antt =====
-- internal/ds/priority_queue.go with heap.Push and heap.Pop: an abstract priority queue, the heap as
-- the multiset of its entries with one of the least in front.
use klef.Prelude.{
  ℕ, suc, ◌+◌, ◌-◌, ◌<◌, ◌≡◌, refl, sym, ap, ◌∙◌, Bool, false, some, List, [], ◌∷◌, ◌++◌, arith,
  length, take, subst, All, length-append,
}
use mathlib.Core.List.{Perm, perm_append_singleton}
use mathlib.Core.List.Perm
use klef.Core.Heap.{get_elem?, less_at, swap, down, push, pop}
use klef.Core.Heap.Array.{
  length-swap, swap-perm, get_elem?-swap, get_elem?-append, get_elem?-take, length-take, take-last,
  less_at-cong,
}
use klef.Core.Heap.Order.{
  IsStrictOrder, IsHeap, IsHeap-root, parent, exchanged-other, exchanged-right, less_at-moved,
}
use klef.Core.Heap.Up.{IsHeapBut, up-IsHeap, up-perm}
use klef.Core.Heap.Down.{IsHeapBelow, down-IsHeapTo, down-perm, down-beyond, down-length}

one_more : (k : ℕ) → 1 + k ≡ suc k
one_more k = omega arith

module _ {A : Type 0} (less : A → A → Bool) where
  pub IsHeap-empty : IsHeap less []
  IsHeap-empty k p h = absurd (omega (arith, h))

  pub push-perm : (x : A) (pq : List A) → Perm (push less x pq) (x ∷ pq)
  unfolding push
  push-perm x pq =
      Perm.trans (up-perm less (suc (length pq)) (length pq) (pq ++ x ∷ []))
        (perm_append_singleton x pq)

  appended-IsHeapBut :
      (x : A) (pq : List A) → IsHeap less pq → IsHeapBut less (length pq) (pq ++ x ∷ [])
  appended-IsHeapBut x pq h = record {
    others = λ k pk hk other.
        let inside : k < length pq = omega (arith, hk, other, length-append pq (x ∷ [])) in
        less_at-cong less (pq ++ x ∷ []) pq k (parent k) k (parent k)
          (get_elem?-append pq (x ∷ []) k inside)
          (get_elem?-append pq (x ∷ []) (parent k) (omega (arith, inside)))
        ∙ h k pk inside;
    children = λ k pk hk e p. absurd (omega (arith, pk, hk, e, length-append pq (x ∷ [])));
  }

  -- What is left of a heap whose root changed places with its last entry.
  popped-IsHeapBelow :
      (n : ℕ) (pq : List A)
      → length pq ≡ suc n
      → IsHeap less pq
      → IsHeapBelow less 0 n (swap 0 n pq)
  popped-IsHeapBelow n pq e h = record {
    others = λ k pk hk other.
        less_at-moved less 0 n pq k (parent k) k (parent k) (omega (arith, e)) (omega (arith, e))
          (exchanged-other 0 n k (omega (arith, pk)) (omega (arith, hk)))
          (exchanged-other 0 n (parent k) other (omega (arith, hk)))
          (h k pk (omega (arith, hk, e)));
    children = λ k pk hk p q. absurd (omega (arith, q));
  }

  pop-take :
      (x : A) (xs : List A)
      → pop less (x ∷ xs)
        ≡ take (length xs) (down less (suc (length xs)) 0 (length xs) (swap 0 (length xs) (x ∷ xs)))
  unfolding pop
  pop-take x xs =
      let last : suc (length xs) - 1 ≡ length xs = omega arith in
      ap (λ m. take m (down less (suc (length xs)) 0 m (swap 0 m (x ∷ xs)))) last

  pub pop-length : (x : A) (xs : List A) → length (pop less (x ∷ xs)) ≡ length xs
  pop-length x xs =
      let n = length xs in
      let exchanged = swap 0 n (x ∷ xs) in
      let sunk = down less (suc n) 0 n exchanged in
      let size : length sunk ≡ suc n =
        down-length less (suc n) 0 n exchanged ∙ length-swap 0 n (x ∷ xs) in
      ap length (pop-take x xs) ∙ length-take n sunk (omega (arith, size))

  pub pop-perm : (x : A) (xs : List A) → Perm (pop less (x ∷ xs)) xs
  pop-perm x xs =
      let n = length xs in
      let pq = x ∷ xs in
      let exchanged = swap 0 n pq in
      let sunk = down less (suc n) 0 n exchanged in
      let here =
        down-beyond less (suc n) 0 n exchanged n (omega (arith, length-swap 0 n pq)) (omega arith)
        ∙ get_elem?-swap 0 n pq n (omega arith) (omega arith)
        ∙ ap (λ k. get_elem? pq k) (exchanged-right 0 n n refl) in
      let whole =
        take-last n sunk x (down-length less (suc n) 0 n exchanged ∙ length-swap 0 n pq) here in
      let same : Perm sunk pq =
        Perm.trans (down-perm less (suc n) 0 n exchanged) (swap-perm 0 n pq) in
      let split : Perm (take n sunk ++ x ∷ []) pq = subst (λ l. Perm l pq) whole same in
      subst (λ l. Perm l xs) (sym (pop-take x xs))
        (Perm.cons_inv (Perm.trans (Perm.symm (perm_append_singleton x (take n sunk))) split))

  module _ (o : IsStrictOrder less) where
    pub push-IsHeap : (x : A) (pq : List A) → IsHeap less pq → IsHeap less (push less x pq)
    unfolding push
    push-IsHeap x pq h =
        up-IsHeap less o (suc (length pq)) (length pq) (pq ++ x ∷ []) (omega arith)
          (omega (arith, length-append pq (x ∷ []))) (appended-IsHeapBut x pq h)

    taken-IsHeap :
        (x : A) (xs : List A)
        → IsHeap less (x ∷ xs)
        → IsHeap less (
            take
              (length xs)
              (down less (suc (length xs)) 0 (length xs) (swap 0 (length xs) (x ∷ xs))))
    taken-IsHeap x xs h k pk hk =
        let n = length xs in
        let exchanged = swap 0 n (x ∷ xs) in
        let sunk = down less (suc n) 0 n exchanged in
        let size : length sunk ≡ suc n =
          down-length less (suc n) 0 n exchanged ∙ length-swap 0 n (x ∷ xs) in
        let small = length-take n sunk (omega (arith, size)) in
        let inside : k < n = omega (arith, hk, small) in
        let sorted =
          down-IsHeapTo less o (suc n) 0 n exchanged (omega arith)
            (omega (arith, length-swap 0 n (x ∷ xs))) (popped-IsHeapBelow n (x ∷ xs) refl h) in
        less_at-cong less (take n sunk) sunk k (parent k) k (parent k)
          (get_elem?-take n sunk k inside)
          (get_elem?-take n sunk (parent k) (omega (arith, inside)))
        ∙ sorted k pk inside

    pub pop-IsHeap : (x : A) (xs : List A) → IsHeap less (x ∷ xs) → IsHeap less (pop less (x ∷ xs))
    pop-IsHeap x xs h = subst (IsHeap less) (sym (pop-take x xs)) (taken-IsHeap x xs h)

    least_at :
        (x : A) (xs ys : List A) (m : ℕ)
        → ((k : ℕ) → k < length ys → less_at less (x ∷ xs) (m + k) 0 ≡ false)
        → ((k : ℕ) → get_elem? (x ∷ xs) (m + k) ≡ get_elem? ys k)
        → All (λ y. less y x ≡ false) ys
    unfolding less_at
    least_at x xs [] m h same = tt
    least_at x xs (y ∷ ys) m h same =
        let first : get_elem? (x ∷ xs) m ≡ some y =
          ap (λ i. get_elem? (x ∷ xs) i) (omega arith) ∙ same 0 in
        let root : less_at less (x ∷ xs) m 0 ≡ false =
          ap (λ i. less_at less (x ∷ xs) i 0) (omega arith) ∙ h 0 (omega arith) in
        (
          ground (arith, first, root),
          least_at x xs ys (suc m)
              (λ k p.
                ap (λ i. less_at less (x ∷ xs) i 0) (omega arith) ∙ h (suc k) (omega (arith, p)))
              (λ k. ap (λ i. get_elem? (x ∷ xs) i) (omega arith) ∙ same (suc k)),
        )

    -- The root of a heap is not after any other entry.
    pub IsHeap-least : (x : A) (xs : List A) → IsHeap less (x ∷ xs) → All (λ y. less y x ≡ false) xs
    IsHeap-least x xs h =
        least_at x xs xs 1
          (λ k p.
            ap (λ i. less_at less (x ∷ xs) i 0) (one_more k)
            ∙ IsHeap-root less o (suc (suc k)) (x ∷ xs) (suc k) h (omega arith) (omega (arith, p)))
          (λ k. ap (λ i. get_elem? (x ∷ xs) i) (one_more k))

    -- heap.Pop takes a first entry: of a heap it leaves a heap of exactly the other entries, and the
    -- entry that was in front comes after none of them.
    pub pop_lem :
        (x : A) (xs : List A)
        → IsHeap less (x ∷ xs)
        → IsHeap less (pop less (x ∷ xs))
          × Perm (pop less (x ∷ xs)) xs
          × All (λ y. less y x ≡ false) xs
    pop_lem x xs h = (pop-IsHeap x xs h, pop-perm x xs, IsHeap-least x xs h)
