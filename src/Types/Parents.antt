-- ===== src/Types/Parents.antt =====
-- The canonical order of parents in pkg/types/vertex.go: Normalize, deduplicateAndSort,
-- CheckMalformed, HasDuplicate and SortVertices.
pub mod Canonical
use klef.Prelude.{
  ℕ, suc, ◌≡◌, Bool, true, false, not, Option, none, some, List, [], ◌∷◌, ◌++◌, ltb, leb, length,
  if◌then◌else◌, ◌==◌, nat_eq, contains,
}
use klef.Prelude.Sorting.{sort}
use klef.Types.Hash.{Hash, sort_hashes, hash_less}
use klef.Types.Vertex.{Vertex}

-- Why CheckMalformed refuses a list of parents, in place of its text.
pub data Malformation : Type 0 where
  duplicate_parent : Hash → Malformation
  unsorted_parents : Hash → Hash → Malformation

-- The loop over neighbours; `none` is Go's `false, ""`.
unfoldable pub check_malformed : List Hash → Option Malformation
check_malformed [] = none
check_malformed (p ∷ []) = none
check_malformed (p ∷ q ∷ rest) =
    let later = check_malformed (q ∷ rest) in
    if p == q
    then some (duplicate_parent p)
    else if hash_less q p
    then some (unsorted_parents p q)
    else later

-- The pass with `seen`, whose keys are the hashes kept so far.
unfoldable pub unique_from : List Hash → List Hash → List Hash
unfolding contains
unique_from seen [] = []
unique_from seen (h ∷ rest) =
    if contains h seen then unique_from seen rest else h ∷ unique_from (h ∷ seen) rest

unfoldable pub deduplicate_and_sort : List Hash → List Hash
unfolding unique_from sort_hashes
deduplicate_and_sort input =
    if leb (length input) 1 then input else sort_hashes (unique_from [] input)

-- The vertex with its parents in canonical order, and whether a duplicate was removed.
unfoldable pub normalize : Vertex → Vertex × Bool
unfolding deduplicate_and_sort
normalize v =
    let parents = deduplicate_and_sort v.parents in
    (record v { parents = parents }, not (length parents == length v.parents))

has_duplicate_from : List Hash → List Hash → Bool
unfolding contains
has_duplicate_from encountered [] = false
has_duplicate_from encountered (h ∷ rest) =
    if contains h encountered then true else has_duplicate_from (h ∷ encountered) rest

unfoldable pub has_duplicate : List Hash → Bool
unfolding has_duplicate_from
has_duplicate elements = has_duplicate_from [] elements

unfoldable pub sort_vertices : List Vertex → List Vertex
unfolding sort
sort_vertices vtxs = sort (λ v w. hash_less v.hash w.hash) vtxs
