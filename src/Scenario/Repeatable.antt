-- ===== src/Scenario/Repeatable.antt =====
-- core/dag.go under the comparison of core/test_utils.go: two series of deliveries.
use klef.Prelude.{
  pos, suc, ◌≤ℤ◌, ◌≡◌, ◌↔◌, refl, sym, ap, ◌∙◌, subst, inl, inr, true, none, some, List, [], ◌∷◌,
  arith, length, Member, ◌==◌, nat_eq, int_eq, nat_beq_iff, int_beq_iff, Bool-cases, Option-cases,
}
use klef.Prelude.Map.{lookup, has, delete, Distinct, lookup-delete, delete-Distinct, delete_absent}
use klef.Types.Hash.{Hash, Bytes}
use klef.Types.Vertex.{Vertex}
use klef.Types.Encoding.Injective.{vertex_bytes-head}
use klef.Config.{Config}
use klef.Core.Slasher.{Slasher}
use klef.Core.Dag.{Dag, new_dag, dag_size, get_vertex}
use klef.Core.Dag.Invariant.{known}
use klef.Core.Dag.Collision.{NoCollision}
use klef.Core.Dag.Convergence.{Delivery, deliver, sent, Progress}
use klef.Core.Dag.Deliveries.{after, delivered-Progress, deliver-converges}
use klef.Scenario.{equal_hashes, matches, compare_vertices, compare_dag_full}

pub equal_hashes_refl : (xs : List Hash) → equal_hashes xs xs ≡ true
equal_hashes_refl [] = refl
equal_hashes_refl (x ∷ xs) = ground (arith, nat_beq_iff x x, equal_hashes_refl xs)

matches-same :
    (v w : Vertex) → v.parents ≡ w.parents → v.round ≡ w.round → matches v (some w) ≡ true
matches-same v w e f =
    let parents : equal_hashes v.parents w.parents ≡ true =
      subst (λ l. equal_hashes v.parents l ≡ true) e (equal_hashes_refl v.parents) in
    let round : (v.round == w.round) ≡ true = (int_beq_iff v.round w.round).1 f in
    ground (arith, parents, round)

module _ {V : Type 0} where
  length-delete :
      (k : Hash) (m : List (Hash × V))
      → Distinct m
      → has k m ≡ true
      → length m ≡ suc (length (delete k m))
  unfolding has lookup delete
  length-delete k [] d h = absurd (ground (arith, h))
  length-delete k ((j, v) ∷ m) d h = elim (Bool-cases (j == k)) [
    | inl e ↦
        let same : j ≡ k = (nat_beq_iff j k).0 e in
        let gone : lookup k m ≡ none = subst (λ x. lookup x m ≡ none) same d.0 in
        ground (arith, e, ap length (delete_absent k m gone))
    | inr e ↦ ground (arith, e, length-delete k m d.1 (ground (arith, h, e)))
  ]

  -- Maps with the same keys have the same size.
  same_size :
      (m n : List (Hash × V))
      → Distinct m
      → Distinct n
      → ((h : Hash) → has h m ≡ has h n)
      → length m ≡ length n
  unfolding has lookup
  same_size [] [] dm dn same = refl
  same_size [] ((j, v) ∷ n) dm dn same = absurd (ground (arith, same j, nat_beq_iff j j))
  same_size ((k, v) ∷ m) n dm dn same =
      let there : has k n ≡ true = ground (arith, same k, nat_beq_iff k k) in
      let rest =
        same_size m (delete k n) dm.1 (delete-Distinct k n dn)
          (λ h. ground (arith, same h, dm.0, nat_beq_iff k h, lookup-delete k h n)) in
      omega (arith, rest, length-delete k n dn there)

compare_vertices-all :
    (m : List (Hash × Vertex)) (b : Dag)
    → Distinct m
    → ((h : Hash) (v : Vertex) → lookup h m ≡ some v → matches v (get_vertex h b) ≡ true)
    → compare_vertices m b ≡ true
unfolding compare_vertices lookup
compare_vertices-all [] b d f = refl
compare_vertices-all ((k, v) ∷ m) b d f =
    let first : matches v (get_vertex k b) ≡ true = f k v (ground (arith, nat_beq_iff k k)) in
    let rest = compare_vertices-all m b d.1 (λ h w e. elim (Bool-cases (k == h)) [
      | inr other ↦ f h w (ground (arith, other, e))
      | inl same ↦
          let gone : lookup h m ≡ none =
            subst (λ x. lookup x m ≡ none) ((nat_beq_iff k h).0 same) d.0 in
          absurd (ground (arith, gone, e))
    ]) in
    ground (arith, first, rest)

-- Vertices of one hash in the two ledgers agree in parents and round.
module _ (sha256 : Bytes → Hash) (vs ws got got' : List Vertex) (a b : Dag)
    (p : Progress sha256 vs got a) (q : Progress sha256 ws got' b) (n : NoCollision sha256 vs)
    (same : (u : Vertex) → Member u vs ↔ Member u ws)
    (keys : (h : Hash) → known a h ≡ known b h) where
  stored-matches :
      (h : Hash) (v : Vertex) → lookup h a.vertices ≡ some v → matches v (get_vertex h b) ≡ true
  unfolding get_vertex has
  stored-matches h v e = elim (Option-cases (lookup h b.vertices)) [
    | inl missing ↦ absurd (ground (arith, e, missing, keys h))
    | inr (w, f) ↦
        let sent_v = p.stored h v e in
        let sent_w = (same w).1 (q.stored h w f) in
        let hashes =
          sym (p.inv.base.sound h v e).hashed
          ∙ p.inv.base.keyed h v e
          ∙ sym (q.inv.base.keyed h w f)
          ∙ (q.inv.base.sound h w f).hashed in
        let (author, round, parents) =
          vertex_bytes-head v w (n.fits v sent_v) (n.fits w sent_w)
            (n.collision_free v w sent_v sent_w hashes) in
        ap (matches v) f ∙ matches-same v w parents round
  ]

  equal_ledgers : compare_dag_full a b ≡ true
  unfolding compare_dag_full dag_size
  equal_ledgers =
      let size = same_size a.vertices b.vertices p.inv.base.distinct q.inv.base.distinct keys in
      ground (
        arith,
        size,
        compare_vertices-all a.vertices b p.inv.base.distinct stored-matches,
        nat_beq_iff (length a.vertices) (length b.vertices),
      )

-- Two series of deliveries of the same vertices, in different orders and with different repetitions,
-- give ledgers that compareDAGFull finds equal, in size, parents and rounds, if the buffer has room for
-- each series and SHA-256 does not collide on the bytes of their vertices, in which author, round and
-- parents fit their widths.
pub compare_dag_full-deliver :
    (sha256 : Bytes → Hash) (slasher : Slasher) (cfg : Config) (xs ys : List Delivery)
    → pos (length xs) ≤ℤ cfg.dag.orphan_capacity
    → pos (length ys) ≤ℤ cfg.dag.orphan_capacity
    → NoCollision sha256 (sent xs)
    → NoCollision sha256 (sent ys)
    → ((u : Vertex) → Member u (sent xs) ↔ Member u (sent ys))
    → compare_dag_full
        (deliver sha256 xs (new_dag slasher cfg))
        (deliver sha256 ys (new_dag slasher cfg))
      ≡ true
compare_dag_full-deliver sha256 slasher cfg xs ys room room' n n' same =
    equal_ledgers sha256 (sent xs) (sent ys) (after [] xs) (after [] ys)
      (deliver sha256 xs (new_dag slasher cfg)) (deliver sha256 ys (new_dag slasher cfg))
      (delivered-Progress sha256 slasher cfg xs room)
      (delivered-Progress sha256 slasher cfg ys room') n same
      (deliver-converges sha256 slasher cfg xs ys room room' n n' same)
