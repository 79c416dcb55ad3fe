-- ===== src/Scenario/Delivered.antt =====
-- core/scenario_test.go, TestRandomizedDeliveryConvergence over core/test_utils.go: the vertices of
-- generateComplexDAG, delivered to two ledgers.
use klef.Prelude.{
  ℕ, ℤ, zero, suc, pos, ◌≤ℤ◌, ◌≡◌, ◌↔◌, refl, sym, ap, ◌∙◌, subst, inl, inr, true, some, List, [],
  ◌∷◌, ◌++◌, arith, length, Member, Member-append, Member-append_left, Member-append_right, All,
  All-append, contains, nat_eq, nat_beq_iff, Bool-cases, ltb, ◌==◌, Option-cases, split_if,
}
use klef.Prelude.Sorting.{sort-contains}
use klef.Types.Hash.{Hash, Bytes, sort_hashes}
use klef.Types.Vertex.{Vertex}
use klef.Types.Parents.{normalize}
use klef.Types.Parents.Canonical.{normalize-canonical}
use klef.Types.Encoding.{calculate_hash}
use klef.Config.{Config}
use klef.Core.Heap.{get_elem?}
use klef.Core.Slasher.{Slasher}
use klef.Core.Dag.{new_dag}
use klef.Core.Dag.Invariant.{known, IsSound}
use klef.Core.Dag.Collision.{NoCollision, same_sent-NoCollision}
use klef.Core.Dag.Convergence.{Delivery, deliver, sent, Grounded, grounded}
use klef.Core.Dag.Deliveries.{known-deliver, Grounded-mono}
use klef.Scenario.{compare_dag_full}
use klef.Scenario.Repeatable.{compare_dag_full-deliver}
use klef.Scenario.Generator.{
  Draw, pick, pick_parents, num_parents, finish, genesis_draft, vertex_draft, generate_from,
  generate_complex_dag,
}

get_elem?-Member :
    {A : Type 0} (xs : List A) (k : ℕ) (x : A) → get_elem? xs k ≡ some x → Member x xs
get_elem?-Member [] k x e = absurd (ground (arith, e))
get_elem?-Member (y ∷ xs) zero x e = inl (ground (arith, e))
get_elem?-Member (y ∷ xs) (suc k) x e = inr (get_elem?-Member xs k x e)

All-contained :
    (P : Hash → Type 0) (hs : List Hash) (h : Hash) → All P hs → contains h hs ≡ true → P h
unfolding contains
All-contained P [] h a e = absurd (ground (arith, e))
All-contained P (x ∷ hs) h a e = elim (Bool-cases (x == h)) [
  | inl same ↦ subst P ((nat_beq_iff x h).0 same) a.0
  | inr other ↦ All-contained P hs h a.1 (ground (arith, e, other))
]

-- The parents that are picked are hashes of the vertices to pick from.
module _ (P : Hash → Type 0) (vertices : List Vertex)
    (each : (u : Vertex) → Member u vertices → P u.hash) (wanted : ℕ) where
  All-pick : (p : Vertex) (parents : List Hash) → P p.hash → All P parents → All P (pick p parents)
  unfolding pick
  All-pick p parents h a =
      split_if (All P) (contains p.hash parents) parents (parents ++ p.hash ∷ []) (λ e. a)
        (λ e. All-append P parents (p.hash ∷ []) a (h, tt))

  All-pick_parents :
      (picks : List ℕ) (parents found : List Hash)
      → All P parents
      → pick_parents wanted vertices picks parents ≡ some found
      → All P found
  unfolding pick_parents
  All-pick_parents [] parents found a e = elim (Bool-cases (ltb (length parents) wanted)) [
    | inl few ↦ absurd (ground (arith, e, few))
    | inr enough ↦ subst (All P) (ground (arith, e, enough)) a
  ]
  All-pick_parents (k ∷ picks) parents found a e = elim (Bool-cases (ltb (length parents) wanted)) [
    | inr enough ↦ subst (All P) (ground (arith, e, enough)) a
    | inl few ↦ elim (Option-cases (get_elem? vertices k)) [
      | inl out ↦ absurd (ground (arith, e, few, out))
      | inr (p, at) ↦
          All-pick_parents picks (pick p parents) found
            (All-pick p parents (each p (get_elem?-Member vertices k p at)) a)
            (ground (arith, e, few, at))
    ]
  ]

module _ (sha256 : Bytes → Hash) where
  finish-IsSound : (v : Vertex) → IsSound sha256 (finish sha256 v)
  unfolding finish calculate_hash normalize
  finish-IsSound v = record { hashed = refl; formed = (normalize-canonical v).0 }

  finish-contains :
      (v : Vertex) (p : Hash) → contains p (finish sha256 v).parents ≡ contains p v.parents
  unfolding finish
  finish-contains v p = (normalize-canonical v).1 p

  draft-contains :
      (i : ℕ) (now : ℤ) (parents : List Hash) (p : Hash)
      → contains p (finish sha256 (vertex_draft i now parents)).parents ≡ contains p parents
  unfolding vertex_draft sort_hashes
  draft-contains i now parents p =
      finish-contains (vertex_draft i now parents) p ∙ sort-contains ltb p parents

  -- Each vertex is grounded in the list.
  abbrev IsRooted : List Vertex → Type 0
  IsRooted vertices = (u : Vertex) → Member u vertices → Grounded sha256 vertices u.hash

  genesis-IsRooted : (now : ℤ) → IsRooted (finish sha256 (genesis_draft now) ∷ [])
  unfolding contains
  genesis-IsRooted now u (inr m) = absurd m
  genesis-IsRooted now u (inl e) =
      grounded (finish sha256 (genesis_draft now)) (ap (λ (x : Vertex). x.hash) e) (inl refl)
        (finish-IsSound (genesis_draft now))
        (λ p c. absurd (ground (arith, c, finish-contains (genesis_draft now) p)))

  -- A vertex whose parents are grounded in the list goes behind it.
  append-IsRooted :
      (vertices : List Vertex) (v : Vertex)
      → IsRooted vertices
      → IsSound sha256 v
      → ((p : Hash) → contains p v.parents ≡ true → Grounded sha256 vertices p)
      → IsRooted (vertices ++ v ∷ [])
  append-IsRooted vertices v rooted s ps u m =
      let wider =
        Grounded-mono sha256 vertices (vertices ++ v ∷ []) (Member-append_left vertices (v ∷ [])) in
      elim (Member-append vertices (v ∷ []) u m) [
        | inl old ↦ wider u.hash (rooted u old)
        | inr (inl e) ↦
            grounded v (ap (λ (x : Vertex). x.hash) e)
              (Member-append_right vertices (v ∷ []) v (inl refl)) s (λ p c. wider p (ps p c))
        | inr (inr n) ↦ absurd n
      ]

  generate_from-IsRooted :
      (i : ℕ) (draws : List Draw) (vertices generated : List Vertex)
      → IsRooted vertices
      → generate_from sha256 i draws vertices ≡ some generated
      → IsRooted generated
  unfolding generate_from
  generate_from-IsRooted i [] vertices generated rooted e =
      subst IsRooted (ground (arith, e)) rooted
  generate_from-IsRooted i (x ∷ draws) vertices generated rooted e =
      let wanted = num_parents x.extra vertices in
      elim (Option-cases (pick_parents wanted vertices x.picks [])) [
        | inl few ↦ absurd (ground (arith, e, few))
        | inr (parents, found) ↦
            let picked =
              All-pick_parents (Grounded sha256 vertices) vertices rooted wanted x.picks [] parents
                tt found in
            let v = finish sha256 (vertex_draft i x.now parents) in
            generate_from-IsRooted (suc i) draws (vertices ++ v ∷ []) generated
              (append-IsRooted vertices v rooted (finish-IsSound (vertex_draft i x.now parents))
                (λ p c.
                  All-contained (Grounded sha256 vertices) parents p picked
                    (sym (draft-contains i x.now parents p) ∙ c)))
              (rw (found, generate_from) at e)
      ]

  generate_complex_dag-IsRooted :
      (now : ℤ) (draws : List Draw) (vertices : List Vertex)
      → generate_complex_dag sha256 now draws ≡ some vertices
      → IsRooted vertices
  unfolding generate_complex_dag
  generate_complex_dag-IsRooted now draws vertices e =
      generate_from-IsRooted 1 draws (finish sha256 (genesis_draft now) ∷ []) vertices
        (genesis-IsRooted now) e

-- Whatever the random generator gives: when one node gets the vertices of generateComplexDAG in the
-- order in which they were made, and another gets them in any order, each at least once, then
-- compareDAGFull finds the two ledgers equal, and every vertex has gone into each of them. The buffers
-- have room for the deliveries, SHA-256 does not collide on the vertices' bytes, and their author,
-- round and parents fit their widths.
pub randomized_delivery :
    (sha256 : Bytes → Hash) (slasher : Slasher) (cfg : Config) (now : ℤ) (draws : List Draw)
    (xs ys : List Delivery)
    → generate_complex_dag sha256 now draws ≡ some (sent xs)
    → ((u : Vertex) → Member u (sent xs) ↔ Member u (sent ys))
    → pos (length xs) ≤ℤ cfg.dag.orphan_capacity
    → pos (length ys) ≤ℤ cfg.dag.orphan_capacity
    → NoCollision sha256 (sent xs)
    → (compare_dag_full
          (deliver sha256 xs (new_dag slasher cfg))
          (deliver sha256 ys (new_dag slasher cfg))
        ≡ true)
      × ((u : Vertex)
          → Member u (sent xs)
          → (known (deliver sha256 xs (new_dag slasher cfg)) u.hash ≡ true)
            × (known (deliver sha256 ys (new_dag slasher cfg)) u.hash ≡ true))
randomized_delivery sha256 slasher cfg now draws xs ys made same room room' n =
    let n' = same_sent-NoCollision sha256 (sent xs) (sent ys) (λ u. (same u).1) n in
    let rooted = generate_complex_dag-IsRooted sha256 now draws (sent xs) made in
    (
      compare_dag_full-deliver sha256 slasher cfg xs ys room room' n n' same,
      λ u m. (
        (known-deliver sha256 slasher cfg xs room n u.hash).1 (rooted u m),
        (known-deliver sha256 slasher cfg ys room' n' u.hash).1
            (Grounded-mono sha256 (sent xs) (sent ys) (λ w. (same w).0) u.hash (rooted u m)),
      ),
    )
