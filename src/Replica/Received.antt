-- ===== src/Replica/Received.antt =====
-- replica/router.go and core/dag.go: what the vertices of a FETCH_RES do to the ledger.
use klef.Prelude.{
  ℤ, ◌≡◌, refl, sym, ap, ◌∙◌, subst, inl, inr, arith, Bool, true, false, not, Option, none, some,
  List, [], ◌∷◌, is_some, split_if, select, Member, Bool-cases, contains, nat_eq, ◌==◌, nat_beq_iff,
  length, ltb, ◌<◌,
}
use klef.Prelude.Map.{lookup, has}
use klef.Types.Hash.{Hash, Bytes}
use klef.Types.Vertex.{Vertex}
use klef.Types.Encoding.{calculate_hash}
use klef.Core.Dag.{
  Dag, get_vertex, get_missing_hashes, add_vertex, add_vertex_locked, known_vertices,
}
use klef.Core.Dag.Invariant.{known, IsSound, DagInv}
use klef.Core.Dag.Insertion.{process_insertion-Inserted}
use klef.Core.Dag.Growth.{Grows, Grows-known, add_vertex-Grows}
use klef.Core.Orphanage.Release.{Complete}
use klef.Core.Pending.{remove}
use klef.Replica.{Replica, insert_vertex, offer, receive_vertex, receive_all}
use klef.Replica.Routing.{begin_sync-dag, receive_vertex-DagInv}

module _ (v : Vertex) where
  found_first :
      (o : Option Vertex) (rest : List Vertex)
      → o ≡ some v
      → Member v (elim o [ none ↦ rest | some w ↦ w ∷ rest ])
  found_first none rest e = absurd (ground (arith, e))
  found_first (some w) rest e = inl (ground (arith, e))

  found_later :
      (o : Option Vertex) (rest : List Vertex)
      → Member v rest
      → Member v (elim o [ none ↦ rest | some w ↦ w ∷ rest ])
  found_later none rest m = m
  found_later (some w) rest m = inr m

  -- A reply holds each vertex that was asked for and is there.
  pub Member-known_vertices :
      (hashes : List Hash) (m : List (Hash × Vertex)) (h : Hash)
      → contains h hashes ≡ true
      → lookup h m ≡ some v
      → Member v (known_vertices hashes m)
  unfolding contains known_vertices
  Member-known_vertices [] m h asked found = absurd (ground (arith, asked))
  Member-known_vertices (k ∷ hashes) m h asked found = elim (Bool-cases (k == h)) [
    | inl e ↦
        let same : k ≡ h = (nat_beq_iff k h).0 e in
        found_first (lookup k m) (known_vertices hashes m) (ap (λ x. lookup x m) same ∙ found)
    | inr e ↦
        found_later (lookup k m) (known_vertices hashes m)
          (Member-known_vertices hashes m h (ground (arith, asked, e)) found)
  ]

select-empty :
    (p : Hash → Bool) (xs : List Hash)
    → ((a : Hash) → contains a xs ≡ true → p a ≡ false)
    → length (select p xs) ≡ 0
unfolding select contains
select-empty p [] f = refl
select-empty p (x ∷ xs) f =
    let first : p x ≡ false = f x (ground (arith, nat_beq_iff x x)) in
    ground (arith, first, select-empty p xs (λ a c. f a (ground (arith, c))))

locked-known :
    (sha256 : Bytes → Hash) (v : Vertex) (round : ℤ) (d : Dag)
    → DagInv sha256 d
    → IsSound sha256 v
    → Complete (known d) v
    → known (add_vertex_locked v round d).0 v.hash ≡ true
unfolding add_vertex_locked get_missing_hashes
locked-known sha256 v round d i s ready =
    let none_lacks =
      select-empty (λ h. not (has h d.vertices)) v.parents (λ p c. ground (arith, ready p c)) in
    elim (Bool-cases (has v.hash d.vertices)) [
      | inl old ↦ rw old old
      | inr new ↦
          let all : ltb 0 (length (get_missing_hashes v.parents d)) ≡ false =
            ground (arith, none_lacks) in
          rw (new, all) (process_insertion-Inserted sha256 v d i ready s).present
    ]

-- A sound vertex whose parents are there goes in at once.
add_vertex-known :
    (sha256 : Bytes → Hash) (v : Vertex) (round now : ℤ) (d : Dag)
    → DagInv sha256 d
    → IsSound sha256 v
    → Complete (known d) v
    → known (add_vertex sha256 v round now d).0 v.hash ≡ true
unfolding add_vertex
add_vertex-known sha256 v round now d i s ready = elim (Bool-cases (has v.hash d.vertices)) [
  | inl old ↦ rw old old
  | inr new ↦
      let right : (v.hash == calculate_hash sha256 v) ≡ true =
        (nat_beq_iff v.hash (calculate_hash sha256 v)).1 s.hashed in
      rw (new, right, s.formed) (locked-known sha256 v round d i s ready)
]

pub Member-length : (v : Vertex) (vs : List Vertex) → Member v vs → 0 < length vs
Member-length v [] m = absurd m
Member-length v (w ∷ vs) m = omega arith

module _ (sha256 : Bytes → Hash) (int63n : Hash → ℤ → ℤ) (now : ℤ) where
  offer-dag : (v : Vertex) (r : Replica) → (offer sha256 int63n now v r).dag ≡ r.dag
  unfolding offer
  offer-dag v r = split_if (λ (x : Replica). x.dag ≡ r.dag) _ _ r (λ e. refl) (λ e. refl)

  insert_vertex-dag :
      (v : Vertex) (r : Replica)
      → (insert_vertex sha256 int63n now v r).dag ≡ (add_vertex sha256 v r.round now r.dag).0
  unfolding insert_vertex
  insert_vertex-dag v r = begin_sync-dag sha256 int63n now _ _

  -- A vertex of a response is skipped if it is there, and else goes through AddVertex.
  receive_vertex-cases :
      (P : Dag → Type 0) (v : Vertex) (r : Replica)
      → (known r.dag v.hash ≡ true → P r.dag)
      → P (add_vertex sha256 v r.round now r.dag).0
      → P (receive_vertex sha256 int63n now v r).dag
  unfolding receive_vertex get_vertex
  receive_vertex-cases P v r old new =
      let removed = record r { pending_mgr = remove v.hash r.pending_mgr } in
      let inserted = insert_vertex sha256 int63n now v removed in
      split_if (λ (x : Replica). P x.dag) (is_some (lookup v.hash r.dag.vertices)) r
        (offer sha256 int63n now v inserted) old
        (λ e. subst P (sym (offer-dag v inserted ∙ insert_vertex-dag v removed)) new)

  receive_vertex-Grows :
      (v : Vertex) (r : Replica)
      → DagInv sha256 r.dag
      → Grows r.dag (receive_vertex sha256 int63n now v r).dag
  receive_vertex-Grows v r i =
      receive_vertex-cases (Grows r.dag) v r (λ e h u f. f)
        (add_vertex-Grows sha256 v r.round now r.dag i)

  receive_all-Grows :
      (vs : List Vertex) (r : Replica)
      → DagInv sha256 r.dag
      → Grows r.dag (receive_all sha256 int63n now vs r).dag
  unfolding receive_all
  receive_all-Grows [] r i h u e = e
  receive_all-Grows (v ∷ vs) r i h u e =
      receive_all-Grows vs (receive_vertex sha256 int63n now v r)
        (receive_vertex-DagInv sha256 int63n now v r i) h u (receive_vertex-Grows v r i h u e)

  -- A sound vertex of the response whose parents are there is in the ledger at the end.
  pub receive_all-known :
      (vs : List Vertex) (v : Vertex) (r : Replica)
      → DagInv sha256 r.dag
      → IsSound sha256 v
      → Complete (known r.dag) v
      → Member v vs
      → known (receive_all sha256 int63n now vs r).dag v.hash ≡ true
  unfolding receive_all
  receive_all-known [] v r i s ready m = absurd m
  receive_all-known (w ∷ vs) v r i s ready m =
      let r' = receive_vertex sha256 int63n now w r in
      let i' = receive_vertex-DagInv sha256 int63n now w r i in
      elim m [
        | inl e ↦
            let here : known r'.dag w.hash ≡ true =
              receive_vertex-cases (λ d. known d w.hash ≡ true) w r (λ k. k)
                (add_vertex-known sha256 w r.round now r.dag i (subst (IsSound sha256) (sym e) s)
                  (subst (Complete (known r.dag)) (sym e) ready)) in
            subst (λ (x : Vertex). known (receive_all sha256 int63n now vs r').dag x.hash ≡ true) e
              (Grows-known r'.dag (receive_all sha256 int63n now vs r').dag w.hash
                (receive_all-Grows vs r' i') here)
        | inr there ↦
            receive_all-known vs v r' i' s
              (λ p c. Grows-known r.dag r'.dag p (receive_vertex-Grows w r i) (ready p c)) there
      ]
