-- ===== src/Types/Parents/Canonical.antt =====
-- pkg/types/vertex.go: CheckMalformed and Normalize against the increasing order of parents.
use klef.Prelude.{
  ℕ, suc, leb, ltb, false, ◌≤◌, ◌<◌, ◌≡◌, refl, ◌↔◌, inl, inr, not, ◌&&◌, none, List, [], ◌∷◌,
  arith, length, All-mono, Bool-cases, ◌==◌, nat_eq, contains,
}
use klef.Prelude.Sets.{All-ne_of_not-contains}
use klef.Prelude.Sorting.{IsIncreasing, IsDistinct, sort-IsIncreasing, sort-contains, sort-length}
use klef.Types.Hash.{Hash}
use klef.Types.Vertex.{Vertex}
use klef.Types.Parents.{
  check_malformed, unique_from, deduplicate_and_sort, normalize, has_duplicate_from, has_duplicate,
}

increasing_of_check : (ps : List Hash) → check_malformed ps ≡ none → IsIncreasing ps
unfolding check_malformed
increasing_of_check [] h = tt
increasing_of_check (p ∷ []) h = (tt, tt)
increasing_of_check (p ∷ q ∷ rest) h =
    let ih = increasing_of_check (q ∷ rest) (ground arith) in
    let first : p < q = ground arith in ((first, All-mono _ _ rest (λ x l. omega arith) ih.0), ih)

check_of_increasing : (ps : List Hash) → IsIncreasing ps → check_malformed ps ≡ none
unfolding check_malformed
check_of_increasing [] h = refl
check_of_increasing (p ∷ []) h = refl
check_of_increasing (p ∷ q ∷ rest) h = ground (arith, check_of_increasing (q ∷ rest) h.1)

-- CheckMalformed accepts a list of parents exactly when it is strictly increasing.
pub check_malformed-eq-none_iff : (ps : List Hash) → (check_malformed ps ≡ none) ↔ IsIncreasing ps
check_malformed-eq-none_iff ps = (increasing_of_check ps, check_of_increasing ps)

IsDistinct-of_increasing : (ps : List ℕ) → IsIncreasing ps → IsDistinct ps
IsDistinct-of_increasing [] h = tt
IsDistinct-of_increasing (p ∷ ps) h =
    (All-mono _ _ ps (λ x l. omega arith) h.0, IsDistinct-of_increasing ps h.1)

-- So accepted parents are distinct.
pub check_malformed-IsDistinct : (ps : List Hash) → check_malformed ps ≡ none → IsDistinct ps
check_malformed-IsDistinct ps h = IsDistinct-of_increasing ps (increasing_of_check ps h)

pub unique_from-contains :
    (a : Hash) (seen xs : List Hash)
    → contains a (unique_from seen xs) ≡ (contains a xs && not (contains a seen))
unfolding unique_from contains
unique_from-contains a seen [] = refl
unique_from-contains a seen (x ∷ xs) =
    ground (arith, unique_from-contains a seen xs, unique_from-contains a (x ∷ seen) xs)

pub unique_from-IsDistinct : (seen xs : List Hash) → IsDistinct (unique_from seen xs)
unfolding unique_from
unique_from-IsDistinct seen [] = tt
unique_from-IsDistinct seen (x ∷ xs) = elim (Bool-cases (contains x seen)) [
  | inl e ↦ rw e (unique_from-IsDistinct seen xs)
  | inr e ↦ rw e (
    All-ne_of_not-contains x _ (ground (arith, unique_from-contains x (x ∷ seen) xs)),
    unique_from-IsDistinct (x ∷ seen) xs,
  )
]

length-unique_from-le : (seen xs : List Hash) → length (unique_from seen xs) ≤ length xs
unfolding unique_from
length-unique_from-le seen [] = omega arith
length-unique_from-le seen (x ∷ xs) =
    ground (arith, length-unique_from-le seen xs, length-unique_from-le (x ∷ seen) xs)

has_duplicate_from-length :
    (seen xs : List Hash)
    → has_duplicate_from seen xs ≡ not (length (unique_from seen xs) == length xs)
unfolding unique_from has_duplicate_from
has_duplicate_from-length seen [] = refl
has_duplicate_from-length seen (x ∷ xs) =
    ground (arith, length-unique_from-le seen xs, has_duplicate_from-length (x ∷ seen) xs)

-- HasDuplicate finds a duplicate exactly when Normalize would remove one.
pub has_duplicate-normalize : (v : Vertex) → (normalize v).1 ≡ has_duplicate v.parents
unfolding normalize has_duplicate
has_duplicate-normalize v = small v.parents
  where
    small :
        (ps : List Hash)
        → not (length (deduplicate_and_sort ps) == length ps) ≡ has_duplicate_from [] ps
    small [] = refl
    small (p ∷ []) = refl
    small (p ∷ q ∷ ps) = ground (
      arith,
      has_duplicate_from-length [] (p ∷ q ∷ ps),
      sort-length ltb (unique_from [] (p ∷ q ∷ ps)),
    )

deduplicate_and_sort-IsIncreasing : (ps : List Hash) → IsIncreasing (deduplicate_and_sort ps)
unfolding deduplicate_and_sort
deduplicate_and_sort-IsIncreasing [] = tt
deduplicate_and_sort-IsIncreasing (p ∷ []) = (tt, tt)
deduplicate_and_sort-IsIncreasing (p ∷ q ∷ ps) =
    let long : leb (suc (suc (length ps))) 1 ≡ false = ground arith in
    rw long
      (sort-IsIncreasing (unique_from [] (p ∷ q ∷ ps)) (unique_from-IsDistinct [] (p ∷ q ∷ ps)))

deduplicate_and_sort-contains :
    (a : Hash) (ps : List Hash) → contains a (deduplicate_and_sort ps) ≡ contains a ps
unfolding deduplicate_and_sort
deduplicate_and_sort-contains a [] = refl
deduplicate_and_sort-contains a (p ∷ []) = refl
deduplicate_and_sort-contains a (p ∷ q ∷ ps) = ground (
  arith,
  sort-contains ltb a (unique_from [] (p ∷ q ∷ ps)),
  unique_from-contains a [] (p ∷ q ∷ ps),
)

-- Whatever the parents were, a normalized vertex passes CheckMalformed and has the same parents.
pub normalize-canonical :
    (v : Vertex)
    → (check_malformed (normalize v).0.parents ≡ none)
      × ((a : Hash) → contains a (normalize v).0.parents ≡ contains a v.parents)
unfolding normalize
normalize-canonical v = (
  check_of_increasing _ (deduplicate_and_sort-IsIncreasing v.parents),
  λ a. deduplicate_and_sort-contains a v.parents,
)
