-- ===== src/Core/Heap/Down.antt =====
-- container/heap's down: heap order among the first entries after the root was replaced.
use klef.Prelude.{
  ℕ, zero, suc, ◌+◌, ◌-◌, ◌*◌, ◌/◌, ◌≤◌, ◌<◌, ◌≡◌, ◌≢◌, refl, sym, ap, ◌∙◌, inl, inr, Bool, true,
  false, List, arith, length, ltb, Bool-cases, subst, if◌then◌else◌,
}
use mathlib.Core.List.{Perm}
use mathlib.Core.List.Perm
use klef.Core.Heap.{get_elem?, less_at, swap, down}
use klef.Core.Heap.Array.{length-swap, swap-perm, get_elem?-swap}
use klef.Core.Heap.Order.{
  IsStrictOrder, parent, nat-cases, exchanged-left, exchanged-right, exchanged-other, less_at-moved,
  less_at-asymmetric, less_at_trans,
}

module _ {A : Type 0} (less : A → A → Bool) where
  -- The child that down compares with the entry at i.
  abbrev pub lesser_child : ℕ → ℕ → List A → ℕ
  lesser_child i n pq =
      if ltb (2 * i + 1 + 1) n
      then (if less_at less pq (2 * i + 1 + 1) (2 * i + 1) then 2 * i + 1 + 1 else 2 * i + 1)
      else 2 * i + 1

  -- Heap order among the first n entries.
  abbrev pub IsHeapTo : ℕ → List A → Type 0
  IsHeapTo n pq = (k : ℕ) → 0 < k → k < n → less_at less pq k (parent k) ≡ false

  -- The same but below the entry at i, whose children come after its parent.
  pub record IsHeapBelow (i n : ℕ) (pq : List A) : Type 0 where
    pub others : (k : ℕ) → 0 < k → k < n → parent k ≢ i → less_at less pq k (parent k) ≡ false
    pub children :
        (k : ℕ) → 0 < k → k < n → parent k ≡ i → 0 < i → less_at less pq k (parent i) ≡ false

  lesser_child-parent :
      (i n : ℕ) (pq : List A)
      → 2 * i + 1 < n
      → (0 < lesser_child i n pq)
        × (parent (lesser_child i n pq) ≡ i)
        × (lesser_child i n pq < n)
        × (i < lesser_child i n pq)
  lesser_child-parent i n pq h =
      let right : (2 * i + 1 + 1 - 1) / 2 ≡ i = omega arith in
      let left : (2 * i + 1 - 1) / 2 ≡ i = omega arith in
      elim (Bool-cases (ltb (2 * i + 1 + 1) n)) [
        | inl e ↦ elim (Bool-cases (less_at less pq (2 * i + 1 + 1) (2 * i + 1))) [
          | inl f ↦ rw e (rw f (omega arith, right, ground (arith, e), omega arith))
          | inr f ↦ rw e (rw f (omega arith, left, h, omega arith))
        ]
        | inr e ↦ rw e (omega arith, left, h, omega arith)
      ]

  pub down-length : (fuel i n : ℕ) (pq : List A) → length (down less fuel i n pq) ≡ length pq
  unfolding down
  down-length zero i n pq = refl
  down-length (suc fuel) i n pq =
      let j = lesser_child i n pq in
      ground (arith, down-length fuel j n (swap i j pq), length-swap i j pq)

  pub down-perm : (fuel i n : ℕ) (pq : List A) → Perm (down less fuel i n pq) pq
  unfolding down
  down-perm zero i n pq = Perm.refl pq
  down-perm (suc fuel) i n pq =
      let j = lesser_child i n pq in
      elim (Bool-cases (ltb (2 * i + 1) n)) [
        | inr e ↦ rw e (Perm.refl pq)
        | inl e ↦ elim (Bool-cases (less_at less pq j i)) [
          | inr f ↦ rw e (rw f (Perm.refl pq))
          | inl f ↦ rw e (rw f (Perm.trans (down-perm fuel j n (swap i j pq)) (swap-perm i j pq)))
        ]
      ]

  -- The entries from n on stay in place.
  pub down-beyond :
      (fuel i n : ℕ) (pq : List A) (k : ℕ)
      → n ≤ length pq
      → n ≤ k
      → get_elem? (down less fuel i n pq) k ≡ get_elem? pq k
  unfolding down
  down-beyond zero i n pq k inside beyond = refl
  down-beyond (suc fuel) i n pq k inside beyond =
      let j = lesser_child i n pq in
      elim (Bool-cases (ltb (2 * i + 1) n)) [
        | inr e ↦ rw e refl
        | inl e ↦
            let l : 2 * i + 1 < n = ground (arith, e) in
            let c = lesser_child-parent i n pq l in
            elim (Bool-cases (less_at less pq j i)) [
              | inr f ↦ rw e (rw f refl)
              | inl f ↦
                  let rest =
                    down-beyond fuel j n (swap i j pq) k (omega (arith, inside, length-swap i j pq))
                      beyond in
                  let moved =
                    get_elem?-swap i j pq k (omega (arith, inside, l)) (omega (arith, inside, c)) in
                  let place =
                    exchanged-other i j k (omega (arith, beyond, l)) (omega (arith, beyond, c)) in
                  rw e (rw f (rest ∙ moved ∙ ap (λ x. get_elem? pq x) place))
            ]
      ]

module _ {A : Type 0} (less : A → A → Bool) (o : IsStrictOrder less) where
  -- No child of i is before the lesser one.
  lesser_child-least :
      (i n : ℕ) (pq : List A) (k : ℕ)
      → 0 < k
      → k < n
      → parent k ≡ i
      → k ≢ lesser_child less i n pq
      → less_at less pq k (lesser_child less i n pq) ≡ false
  lesser_child-least i n pq k pk hk child other = elim (Bool-cases (ltb (2 * i + 1 + 1) n)) [
    | inl e ↦ elim (Bool-cases (less_at less pq (2 * i + 1 + 1) (2 * i + 1))) [
      | inl f ↦
          let here : k ≡ 2 * i + 1 = ground (arith, e, f, other, child, pk, hk) in
          rw (e, lesser_child)
            (rw f (
              subst (λ x. less_at less pq x (2 * i + 1 + 1) ≡ false) (sym here)
                (less_at-asymmetric less o pq (2 * i + 1 + 1) (2 * i + 1) f)))
      | inr f ↦
          let here : k ≡ 2 * i + 1 + 1 = ground (arith, e, f, other, child, pk, hk) in
          rw (e, lesser_child)
            (rw f (subst (λ x. less_at less pq x (2 * i + 1) ≡ false) (sym here) f))
    ]
    | inr e ↦ absurd (ground (arith, e, other, child, pk, hk))
  ]

  module _ (i j n : ℕ) (pq : List A) (h : IsHeapBelow less i n pq) (inside : n ≤ length pq)
      (hj : j < n) (below : parent j ≡ i) (deep : i < j) (before : less_at less pq j i ≡ true)
      (least : (k : ℕ) → 0 < k → k < n → parent k ≡ i → k ≢ j → less_at less pq k j ≡ false) where
    down_step-others :
        (k : ℕ) → 0 < k → k < n → parent k ≢ j → less_at less (swap i j pq) k (parent k) ≡ false
    down_step-others k pk hk other =
        let hi : i < length pq = omega (arith, deep, hj, inside) in
        let hk_j : j < length pq = omega (arith, hj, inside) in
        let moved = λ (c : ℕ) (d : ℕ). less_at-moved less i j pq k (parent k) c d hi hk_j in
        elim (nat-cases k i) [
          | inl e ↦
              let up_two : parent k ≡ parent i = ap parent e in
              let far : parent i ≢ i = omega (arith, pk, e) in
              let kept =
                exchanged-other i j (parent k) (omega (arith, pk, e))
                  (omega (arith, pk, e, deep)) in
              moved j (parent i) (exchanged-left i j k e) (kept ∙ up_two)
                (h.children j (omega (arith, deep)) hj below (omega (arith, pk, e)))
          | inr e ↦ elim (nat-cases k j) [
            | inl f ↦
                moved i j (exchanged-right i j k f)
                  (exchanged-left i j (parent k) (ap parent f ∙ below))
                  (less_at-asymmetric less o pq j i before)
            | inr f ↦ elim (nat-cases (parent k) i) [
              | inl p ↦
                  moved k j (exchanged-other i j k e f) (exchanged-left i j (parent k) p)
                    (least k pk hk p f)
              | inr p ↦
                  moved k (parent k) (exchanged-other i j k e f)
                    (exchanged-other i j (parent k) p other) (h.others k pk hk p)
            ]
          ]
        ]

    down_step-IsHeapBelow : IsHeapBelow less j n (swap i j pq)
    down_step-IsHeapBelow = record {
      others = down_step-others;
      children = λ k pk hk child q.
          less_at-moved less i j pq k (parent j) k j (omega (arith, deep, hj, inside))
            (omega (arith, hj, inside))
            (exchanged-other i j k (omega (arith, child, deep)) (omega (arith, child, deep)))
            (exchanged-left i j (parent j) below)
            (subst (λ x. less_at less pq k x ≡ false) child
              (h.others k pk hk (omega (arith, child, deep))));
    }

  down_stop-IsHeapTo :
      (i n : ℕ) (pq : List A)
      → IsHeapBelow less i n pq
      → ((k : ℕ) → 0 < k → k < n → parent k ≡ i → less_at less pq k i ≡ false)
      → IsHeapTo less n pq
  down_stop-IsHeapTo i n pq h stop k pk hk = elim (nat-cases (parent k) i) [
    | inl e ↦ subst (λ x. less_at less pq k x ≡ false) (sym e) (stop k pk hk e)
    | inr e ↦ h.others k pk hk e
  ]

  -- Fuel for the entries below lets the entry sink until the first n entries are a heap.
  pub down-IsHeapTo :
      (fuel i n : ℕ) (pq : List A)
      → n ≤ fuel + i
      → n ≤ length pq
      → IsHeapBelow less i n pq
      → IsHeapTo less n (down less fuel i n pq)
  unfolding down
  down-IsHeapTo zero i n pq enough inside h =
      down_stop-IsHeapTo i n pq h (λ k p q e. absurd (omega (arith, p, q, e, enough)))
  down-IsHeapTo (suc fuel) i n pq enough inside h =
      let j = lesser_child less i n pq in
      elim (Bool-cases (ltb (2 * i + 1) n)) [
        | inr e ↦
            let far : n ≤ 2 * i + 1 = ground (arith, e) in
            rw e (down_stop-IsHeapTo i n pq h (λ k p q f. absurd (omega (arith, p, q, f, far))))
        | inl e ↦
            let c = lesser_child-parent less i n pq (ground (arith, e)) in
            let least = lesser_child-least i n pq in
            elim (Bool-cases (less_at less pq j i)) [
              | inr f ↦
                  let stop : (k : ℕ) → 0 < k → k < n → parent k ≡ i → less_at less pq k i ≡ false =
                    λ k p q g. elim (nat-cases k j) [
                      | inl s ↦ subst (λ x. less_at less pq x i ≡ false) (sym s) f
                      | inr s ↦
                          less_at_trans less o pq k j i (omega (arith, c, inside)) (least k p q g s)
                            f
                    ] in
                  rw e (rw f (down_stop-IsHeapTo i n pq h stop))
              | inl f ↦
                  let below = down_step-IsHeapBelow i j n pq h inside c.2 c.1 c.3 f least in
                  let rest =
                    down-IsHeapTo fuel j n (swap i j pq) (omega (arith, enough, c))
                      (omega (arith, inside, length-swap i j pq)) below in
                  rw e (rw f rest)
            ]
      ]
