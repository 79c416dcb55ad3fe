-- ===== src/Tests/Generated.antt =====
-- core/test_utils.go: two vertices of generateComplexDAG, delivered in both orders.
use klef.Prelude.{pos, ◌≡◌, ◌↔◌, refl, inl, inr, true, some, List, [], ◌∷◌, arith, Member, contains}
use klef.Prelude.Sorting.{sort}
use klef.Types.Hash.{sort_hashes}
use klef.Types.Hash.Bytes.{be_bytes}
use klef.Types.Vertex.{Vertex}
use klef.Types.Parents.{normalize, deduplicate_and_sort}
use klef.Types.Encoding.{
  calculate_hash, vertex_bytes, int_bytes, length_bytes, concat_map, hash_bytes, blob_bytes,
}
use klef.Types.Encoding.Injective.{HeadFits}
use klef.Config.{default_config}
use klef.Core.Dag.Invariant.{known}
use klef.Core.Dag.Convergence.{Delivery, deliver, sent}
use klef.Scenario.{compare_dag_full}
use klef.Scenario.Generator.{
  Draw, tx_data, decimal, num_parents, pick, pick_parents, finish, genesis_draft, vertex_draft,
  generate_from, generate_complex_dag,
}
use klef.Scenario.Delivered.{randomized_delivery}
use klef.Tests.Data.{toy_hash, fresh_slasher, empty_dag}
use klef.Tests.Ledger.{pair-NoCollision}

abbrev draws : List Draw
draws = record { extra = 2; picks = 0 ∷ []; now = pos 5 } ∷ []

abbrev first : Vertex
first = finish toy_hash (genesis_draft (pos 3))

abbrev second : Vertex
second = finish toy_hash (vertex_draft 1 (pos 5) (32 ∷ []))

abbrev delivery : Vertex → Delivery
delivery v = record { vertex = v; round = pos 10; now = pos 5 }

abbrev in_order : List Delivery
in_order = delivery first ∷ delivery second ∷ []

abbrev shuffled : List Delivery
shuffled = delivery second ∷ delivery first ∷ delivery second ∷ []

made : generate_complex_dag toy_hash (pos 3) draws ≡ some (sent in_order)
unfolding generate_complex_dag generate_from finish vertex_draft num_parents pick_parents pick
    contains normalize calculate_hash vertex_bytes int_bytes length_bytes concat_map be_bytes
made = refl

second_hash : second.hash ≡ 81
unfolding finish vertex_draft normalize calculate_hash vertex_bytes int_bytes length_bytes
    concat_map be_bytes tx_data decimal hash_bytes blob_bytes deduplicate_and_sort sort_hashes sort
second_hash = refl

first-second_differ : calculate_hash toy_hash first ≡ calculate_hash toy_hash second → ⊥
unfolding finish vertex_draft normalize calculate_hash vertex_bytes int_bytes length_bytes
    concat_map be_bytes tx_data decimal hash_bytes blob_bytes deduplicate_and_sort sort_hashes sort
first-second_differ e = omega (arith, e)

first-HeadFits : HeadFits first
unfolding finish normalize deduplicate_and_sort
first-HeadFits = record {
  author = (omega arith, omega arith);
  round = (omega arith, omega arith);
  parents = (omega arith, tt);
}

second-HeadFits : HeadFits second
unfolding finish vertex_draft normalize deduplicate_and_sort sort_hashes sort
second-HeadFits = record {
  author = (omega arith, omega arith);
  round = (omega arith, omega arith);
  parents = (omega arith, (omega arith, tt));
}

same_vertices : (u : Vertex) → Member u (sent in_order) ↔ Member u (sent shuffled)
same_vertices u = (to, from)
  where
    to : Member u (sent in_order) → Member u (sent shuffled)
    to (inl e) = inr (inl e)
    to (inr (inl e)) = inl e
    to (inr (inr m)) = absurd m

    from : Member u (sent shuffled) → Member u (sent in_order)
    from (inl e) = inr (inl e)
    from (inr (inl e)) = inl e
    from (inr (inr (inl e))) = inr (inl e)
    from (inr (inr (inr m))) = absurd m

randomized_delivery_example :
    (compare_dag_full (deliver toy_hash in_order empty_dag) (deliver toy_hash shuffled empty_dag)
      ≡ true)
    × ((u : Vertex)
        → Member u (sent in_order)
        → (known (deliver toy_hash in_order empty_dag) u.hash ≡ true)
          × (known (deliver toy_hash shuffled empty_dag) u.hash ≡ true))
unfolding default_config
randomized_delivery_example =
    randomized_delivery toy_hash fresh_slasher default_config (pos 3) draws in_order shuffled made
      same_vertices (omega arith) (omega arith)
      (pair-NoCollision first second first-second_differ first-HeadFits second-HeadFits)
