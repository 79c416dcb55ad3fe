-- ===== src/Scenario/Picks.antt =====
-- core/test_utils.go: when the loop of generateComplexDAG that picks parents ends.
use klef.Prelude.{
  ℕ, suc, ◌≤◌, ◌<◌, ◌≡◌, refl, ap, ◌⊎◌, inl, inr, true, false, some, List, [], ◌∷◌, map, arith,
  length, All, All-both, All-mono, contains, nat_eq, nat_beq_iff, ◌==◌, Bool-cases, ltb,
  if◌then◌else◌, subst,
}
use klef.Prelude.Sets.{contains-append}
use klef.Prelude.Sorting.{IsDistinct}
use klef.Types.Hash.{Hash}
use klef.Types.Vertex.{Vertex}
use klef.Core.Heap.{get_elem?}
use klef.Core.Heap.Array.{get_elem?-some, get_elem?-lt}
use klef.Scenario.Generator.{pick, pick_parents, num_parents}

-- A list without one occurrence of a number.
unfoldable drop_one : ℕ → List ℕ → List ℕ
drop_one x [] = []
drop_one x (y ∷ ys) = if y == x then ys else y ∷ drop_one x ys

length-drop_one :
    (x : ℕ) (ys : List ℕ) → contains x ys ≡ true → length ys ≡ suc (length (drop_one x ys))
unfolding drop_one contains
length-drop_one x [] e = absurd (ground (arith, e))
length-drop_one x (y ∷ ys) e = ground (arith, e, length-drop_one x ys)

contains-drop_one :
    (x a : ℕ) (ys : List ℕ) → (x == a) ≡ false → contains a (drop_one x ys) ≡ contains a ys
unfolding drop_one contains
contains-drop_one x a [] ne = refl
contains-drop_one x a (y ∷ ys) ne =
    ground (arith, ne, contains-drop_one x a ys, nat_beq_iff y x, nat_beq_iff y a)

-- Distinct numbers of a list are no more than its entries.
distinct_fits :
    (xs ys : List ℕ) → IsDistinct xs → All (λ a. contains a ys ≡ true) xs → length xs ≤ length ys
distinct_fits [] ys d a = omega arith
distinct_fits (x ∷ xs) ys d a =
    let rest = distinct_fits xs (drop_one x ys) d.1 (
      All-mono _ _ xs (λ b e. ground (arith, e.0, e.1, nat_beq_iff x b, contains-drop_one x b ys))
        (All-both _ _ xs d.0 a.1)) in
    omega (arith, rest, length-drop_one x ys a.0)

All-hashes :
    (P : Hash → Type 0) (vertices : List Vertex)
    → ((k : ℕ) (u : Vertex) → get_elem? vertices k ≡ some u → P u.hash)
    → All P (map (λ v. v.hash) vertices)
All-hashes P [] f = tt
All-hashes P (v ∷ vertices) f = (f 0 v refl, All-hashes P vertices (λ k. f (suc k)))

length-hashes : (vertices : List Vertex) → length (map (λ v. v.hash) vertices) ≡ length vertices
length-hashes [] = refl
length-hashes (v ∷ vertices) = ap suc (length-hashes vertices)

pick-contains :
    (p : Vertex) (parents : List Hash) (h : Hash)
    → contains h parents ≡ true
    → contains h (pick p parents) ≡ true
unfolding pick contains
pick-contains p parents h e = ground (arith, e, contains-append h parents (p.hash ∷ []))

pick-picked : (p : Vertex) (parents : List Hash) → contains p.hash (pick p parents) ≡ true
unfolding pick contains
pick-picked p parents =
    ground (arith, contains-append p.hash parents (p.hash ∷ []), nat_beq_iff p.hash p.hash)

module _ (vertices : List Vertex) (wanted : ℕ) where
  -- The picks have ended too early: `found` is what they gave.
  record Short (picks : List ℕ) (parents : List Hash) : Type 0 where
    found : List Hash
    few : length found < wanted
    keeps : (h : Hash) → contains h parents ≡ true → contains h found ≡ true
    drawn :
        (k : ℕ) (u : Vertex)
        → contains k picks ≡ true
        → get_elem? vertices k ≡ some u
        → contains u.hash found ≡ true

  picks_end :
      (picks : List ℕ) (parents : List Hash)
      → ((k : ℕ) → contains k picks ≡ true → k < length vertices)
      → ((found : List Hash) × (pick_parents wanted vertices picks parents ≡ some found))
        ⊎ Short picks parents
  unfolding pick_parents contains
  picks_end [] parents inside = elim (Bool-cases (ltb (length parents) wanted)) [
    | inr enough ↦ inl (parents, ground (arith, enough))
    | inl few ↦ inr (record {
      found = parents;
      few = ground (arith, few);
      keeps = λ h e. e;
      drawn = λ k u e. absurd (ground (arith, e));
    })
  ]
  picks_end (k ∷ picks) parents inside = elim (Bool-cases (ltb (length parents) wanted)) [
    | inr enough ↦ inl (parents, ground (arith, enough))
    | inl few ↦
        let (p, at) = get_elem?-some vertices k (inside k (ground (arith, nat_beq_iff k k))) in
        elim (picks_end picks (pick p parents) (λ j e. inside j (ground (arith, e)))) [
          | inl (found, e) ↦ inl (found, ground (arith, few, at, e))
          | inr s ↦ inr (record {
            found = s.found;
            few = s.few;
            keeps = λ h e. s.keeps h (pick-contains p parents h e);
            drawn = λ j u e found. elim (Bool-cases (k == j)) [
              | inr other ↦ s.drawn j u (ground (arith, e, other)) found
              | inl same ↦
                  let here : get_elem? vertices j ≡ some p =
                    subst (λ x. get_elem? vertices x ≡ some p) ((nat_beq_iff k j).0 same) at in
                  let is_p : p ≡ u = ground (arith, here, found) in
                  subst (λ (x : Vertex). contains x.hash s.found ≡ true) is_p
                    (s.keeps p.hash (pick-picked p parents))
            ];
          })
        ]
  ]

-- When no two of the earlier vertices have one hash, and each of them is among the picks, which are all
-- in range, the loop finds its parents.
pub pick_parents-returns :
    (vertices : List Vertex) (extra : ℕ) (picks : List ℕ)
    → IsDistinct (map (λ v. v.hash) vertices)
    → ((k : ℕ) → contains k picks ≡ true → k < length vertices)
    → ((k : ℕ) → k < length vertices → contains k picks ≡ true)
    → (found : List Hash) × (pick_parents (num_parents extra vertices) vertices picks []
        ≡ some found)
unfolding num_parents
pick_parents-returns vertices extra picks d inside all =
    elim (picks_end vertices (num_parents extra vertices) picks [] inside) [
      | inl r ↦ r
      | inr s ↦
          let every =
            All-hashes (λ h. contains h s.found ≡ true) vertices
              (λ k u e. s.drawn k u (all k (get_elem?-lt vertices k u e)) e) in
          let fits = distinct_fits (map (λ v. v.hash) vertices) s.found d every in
          absurd (ground (arith, s.few, fits, length-hashes vertices))
    ]
