-- ===== src/Tests/Ledger.antt =====
-- Runs of the ledger.
use klef.Prelude.{
  ℕ, Bool, pos, ◌≡◌, ◌↔◌, refl, sym, ◌∙◌, ap, subst, inl, inr, true, List, [], ◌∷◌, arith, Member,
  contains, nat_eq,
}
use klef.Config.{default_config}
use klef.Types.Vertex.{Vertex}
use klef.Types.Parents.{check_malformed}
use klef.Types.Encoding.{calculate_hash, vertex_bytes, int_bytes, length_bytes, concat_map}
use klef.Types.Hash.Bytes.{be_bytes}
use klef.Core.Orphanage.{new_orphanage}
use klef.Core.Dag.{Work, new_dag, process_insertion, add_vertex, insert_loop, get_tips}
use klef.Core.Dag.Invariant.{known, IsSound, DagInv}
use klef.Core.Dag.Convergence.{Delivery, deliver, sent, Grounded}
use klef.Core.Dag.Collision.{NoCollision, same_sent-NoCollision}
use klef.Types.Encoding.Injective.{HeadFits}
use klef.Core.Dag.Progress.{new_dag-DagInv}
use klef.Core.Dag.Deliveries.{known-deliver, deliver-DagInv}
use klef.Core.Dag.Admission.{add_vertex-DagInv}
use klef.Core.Dag.Insertion.{Inserted, process_insertion-Inserted}
use klef.Core.Dag.Growth.{Grows, add_vertex-Grows}
use klef.Scenario.{compare_dag_full}
use klef.Scenario.Repeatable.{compare_dag_full-deliver}
use klef.Core.Dag.Tips.{IsTip, Member-get_tips}
use klef.Core.Dag.Commit.{Good, insert_loop-Good}
use klef.Tests.Encoding.{genesis-HeadFits, child-HeadFits}
use klef.Tests.Data.{toy_hash, genesis, child, fresh_slasher, empty_dag}

abbrev delivery : Vertex → Delivery
delivery v = record { vertex = v; round = pos 0; now = pos 5 }

abbrev child_first : List Delivery
child_first = delivery child ∷ delivery genesis ∷ []

abbrev genesis_first : List Delivery
genesis_first = delivery genesis ∷ delivery child ∷ delivery genesis ∷ []

genesis-IsSound : IsSound toy_hash genesis
unfolding calculate_hash vertex_bytes int_bytes length_bytes concat_map be_bytes check_malformed
genesis-IsSound = record { hashed = refl; formed = refl }

genesis-child_differ : calculate_hash toy_hash genesis ≡ calculate_hash toy_hash child → ⊥
unfolding calculate_hash vertex_bytes int_bytes length_bytes concat_map be_bytes
genesis-child_differ e = omega (arith, e)

-- Two vertices that are hashed apart.
module _ (v w : Vertex) (apart : calculate_hash toy_hash v ≡ calculate_hash toy_hash w → ⊥)
    (v_fits : HeadFits v) (w_fits : HeadFits w) where
  pair-collision_free :
      (x y : Vertex)
      → Member x (v ∷ w ∷ [])
      → Member y (v ∷ w ∷ [])
      → calculate_hash toy_hash x ≡ calculate_hash toy_hash y
      → vertex_bytes x ≡ vertex_bytes y
  pair-collision_free x y (inl e) (inl f) h = ap vertex_bytes (sym e ∙ f)
  pair-collision_free x y (inr (inl e)) (inr (inl f)) h = ap vertex_bytes (sym e ∙ f)
  pair-collision_free x y (inl e) (inr (inl f)) h =
      absurd (apart (ap (calculate_hash toy_hash) e ∙ h ∙ sym (ap (calculate_hash toy_hash) f)))
  pair-collision_free x y (inr (inl e)) (inl f) h =
      absurd (apart (ap (calculate_hash toy_hash) f ∙ sym h ∙ sym (ap (calculate_hash toy_hash) e)))
  pair-collision_free x y (inl e) (inr (inr n)) h = absurd n
  pair-collision_free x y (inr (inl e)) (inr (inr n)) h = absurd n
  pair-collision_free x y (inr (inr m)) n h = absurd m

  pair-fits : (x : Vertex) → Member x (v ∷ w ∷ []) → HeadFits x
  pair-fits x (inl e) = subst HeadFits e v_fits
  pair-fits x (inr (inl e)) = subst HeadFits e w_fits
  pair-fits x (inr (inr m)) = absurd m

  pub pair-NoCollision : NoCollision toy_hash (v ∷ w ∷ [])
  pair-NoCollision = record { collision_free = pair-collision_free; fits = pair-fits }

child_first-NoCollision : NoCollision toy_hash (sent child_first)
child_first-NoCollision =
    pair-NoCollision child genesis (λ e. genesis-child_differ (sym e)) child-HeadFits
      genesis-HeadFits

same_vertices : (u : Vertex) → Member u (sent genesis_first) ↔ Member u (sent child_first)
same_vertices u = (to, from)
  where
    to : Member u (sent genesis_first) → Member u (sent child_first)
    to (inl e) = inr (inl e)
    to (inr (inl e)) = inl e
    to (inr (inr (inl e))) = inr (inl e)
    to (inr (inr (inr m))) = absurd m

    from : Member u (sent child_first) → Member u (sent genesis_first)
    from (inl e) = inr (inl e)
    from (inr (inl e)) = inl e
    from (inr (inr m)) = absurd m

genesis_first-NoCollision : NoCollision toy_hash (sent genesis_first)
genesis_first-NoCollision =
    same_sent-NoCollision toy_hash (sent child_first) (sent genesis_first)
      (λ u. (same_vertices u).0) child_first-NoCollision

known-deliver_example :
    (known (deliver toy_hash child_first empty_dag) 68 ≡ true)
    ↔ Grounded toy_hash (sent child_first) 68
unfolding default_config
known-deliver_example =
    known-deliver toy_hash fresh_slasher default_config child_first (omega arith)
      child_first-NoCollision 68

compare_dag_full-deliver_example :
    compare_dag_full
      (deliver toy_hash genesis_first empty_dag)
      (deliver toy_hash child_first empty_dag)
    ≡ true
unfolding default_config
compare_dag_full-deliver_example =
    compare_dag_full-deliver toy_hash fresh_slasher default_config genesis_first child_first
      (omega arith) (omega arith) genesis_first-NoCollision child_first-NoCollision same_vertices

add_vertex-Grows_example :
    Grows
      (deliver toy_hash genesis_first empty_dag)
      (add_vertex toy_hash child (pos 0) (pos 9) (deliver toy_hash genesis_first empty_dag)).0
add_vertex-Grows_example =
    add_vertex-Grows toy_hash child (pos 0) (pos 9) (deliver toy_hash genesis_first empty_dag)
      (deliver-DagInv toy_hash fresh_slasher default_config genesis_first)

add_vertex-DagInv_example :
    DagInv toy_hash
      (add_vertex toy_hash genesis
        (pos 0)
        (pos 5)
        (deliver toy_hash (delivery child ∷ []) empty_dag)).0
add_vertex-DagInv_example =
    add_vertex-DagInv toy_hash genesis (pos 0) (pos 5)
      (deliver toy_hash (delivery child ∷ []) empty_dag)
      (deliver-DagInv toy_hash fresh_slasher default_config (delivery child ∷ []))

genesis_ready : (f : ℕ → Bool) (p : ℕ) → contains p [] ≡ true → f p ≡ true
unfolding contains
genesis_ready f p e = absurd (ground (arith, e))

process_insertion-Inserted_example :
    Inserted toy_hash genesis
      (deliver toy_hash (delivery child ∷ []) empty_dag)
      (process_insertion genesis (deliver toy_hash (delivery child ∷ []) empty_dag))
process_insertion-Inserted_example =
    process_insertion-Inserted toy_hash genesis (deliver toy_hash (delivery child ∷ []) empty_dag)
      (deliver-DagInv toy_hash fresh_slasher default_config (delivery child ∷ []))
      (genesis_ready (known (deliver toy_hash (delivery child ∷ []) empty_dag))) genesis-IsSound

abbrev start : Work
start = record { worklist = genesis ∷ []; affected = []; dag = empty_dag }

start-Good : Good toy_hash start
start-Good = record {
  inv = (new_dag-DagInv toy_hash fresh_slasher default_config).base;
  todo = ((genesis_ready (known empty_dag), genesis-IsSound), tt);
}

insert_loop-Good_example :
    Good toy_hash (insert_loop 3 start) × ((insert_loop 3 start).worklist ≡ [])
unfolding new_dag new_orphanage
insert_loop-Good_example = insert_loop-Good toy_hash 3 start start-Good (omega arith)

Member-get_tips_example :
    Member child (get_tips (deliver toy_hash child_first empty_dag))
    ↔ IsTip (deliver toy_hash child_first empty_dag) child
Member-get_tips_example =
    Member-get_tips toy_hash (deliver toy_hash child_first empty_dag) child
      (deliver-DagInv toy_hash fresh_slasher default_config child_first)
