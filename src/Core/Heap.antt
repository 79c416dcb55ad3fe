-- ===== src/Core/Heap.antt =====
-- internal/ds/priority_queue.go under the functions of Go's container/heap that the program calls:
-- the heap is an array, here a list. `less` is HeapItem.Less. The positions that SetIndex notes are
-- never read and are left out.
pub mod Array
pub mod Order
pub mod Up
pub mod Down
pub mod Queue
use klef.Prelude.{
  ℕ, zero, suc, ◌+◌, ◌-◌, ◌*◌, ◌/◌, Bool, false, not, ◌||◌, Option, none, some, List, [], ◌∷◌, ◌++◌,
  length, ltb, nat_beq, take, if◌then◌else◌,
}

module _ {ℓ} {A : Type ℓ} where
  abbrev pub get_elem? : List A → ℕ → Option A
  get_elem? [] i = none
  get_elem? (x ∷ xs) zero = some x
  get_elem? (x ∷ xs) (suc i) = get_elem? xs i

  abbrev pub set_at : ℕ → A → List A → List A
  set_at i y [] = []
  set_at zero y (x ∷ xs) = y ∷ xs
  set_at (suc i) y (x ∷ xs) = x ∷ set_at i y xs

  -- PriorityQueue.Swap
  unfoldable pub swap : ℕ → ℕ → List A → List A
  swap i j pq = elim (get_elem? pq i) [
    | none ↦ pq
    | some x ↦ elim (get_elem? pq j) [ none ↦ pq | some y ↦ set_at j x (set_at i y pq) ]
  ]

module _ {ℓ} {A : Type ℓ} (less : A → A → Bool) where
  -- PriorityQueue.Less
  unfoldable pub less_at : List A → ℕ → ℕ → Bool
  less_at pq i j = elim (get_elem? pq i) [
    | none ↦ false
    | some x ↦ elim (get_elem? pq j) [ none ↦ false | some y ↦ less x y ]
  ]

  -- heap.up, with fuel; the index at least halves.
  unfoldable pub up : ℕ → ℕ → List A → List A
  unfolding less_at swap
  up zero j pq = pq
  up (suc fuel) j pq =
      let i = (j - 1) / 2 in
      let rest = up fuel i (swap i j pq) in if nat_beq i j || not (less_at pq j i) then pq else rest

  -- heap.down within the first n entries, with fuel; the index at least doubles.
  unfoldable pub down : ℕ → ℕ → ℕ → List A → List A
  unfolding less_at swap
  down zero i n pq = pq
  down (suc fuel) i n pq =
      let left = 2 * i + 1 in
      let right = left + 1 in
      let j = if ltb right n then (if less_at pq right left then right else left) else left in
      let rest = down fuel j n (swap i j pq) in
      if not (ltb left n) then pq else if not (less_at pq j i) then pq else rest

  -- heap.Push, with PriorityQueue.Push.
  unfoldable pub push : A → List A → List A
  unfolding up
  push x pq = up (suc (length pq)) (length pq) (pq ++ x ∷ [])

  -- heap.Pop, with PriorityQueue.Pop; the popped item is not used.
  unfoldable pub pop : List A → List A
  unfolding down swap
  pop pq = let n = length pq - 1 in take n (down (length pq) 0 n (swap 0 n pq))
