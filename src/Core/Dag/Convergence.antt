-- ===== src/Core/Dag/Convergence.antt =====
-- core/dag.go: one delivery, against a specification that knows no order: the hashes that the delivered
-- vertices ground.
use klef.Prelude.{
  ℤ, pos, ◌≤◌, ◌<◌, ◌≤ℤ◌, ◌≡◌, refl, sym, subst, ap, ◌⊎◌, inl, inr, true, false, some, List, [],
  ◌∷◌, map, arith, length, Member, contains, nat_eq, ltb, Bool-cases, Option-cases,
}
use klef.Prelude.Map.{lookup, has}
use klef.Types.Hash.{Hash, Bytes}
use klef.Types.Vertex.{Vertex}
use klef.Core.Orphanage.{add_orphan, is_full}
use klef.Core.Orphanage.Occurrences.{pending, pending_pos}
use klef.Core.Orphanage.Contents.{
  add_orphan-source, add_orphan-room, length-add_orphan-le, add_orphan-capacity,
}
use klef.Core.Dag.{Dag, get_missing_hashes, process_insertion, add_vertex_locked, add_vertex}
use klef.Core.Dag.Invariant.{known, IsSound, LoopInv, DagInv}
use klef.Core.Dag.Trace.{IsOrphan}
use klef.Core.Dag.Insertion.{Inserted, process_insertion-Inserted, process_insertion_closed}
use klef.Core.Dag.Admission.{add_vertex_locked-DagInv, nothing_missing}
use klef.Core.Orphanage.Release.{Complete}

-- One call of AddVertex: the vertex, the local round and the time.
pub record Delivery : Type 0 where
  pub vertex : Vertex
  pub round : ℤ
  pub now : ℤ

unfoldable pub deliver : (Bytes → Hash) → List Delivery → Dag → Dag
deliver sha256 [] d = d
deliver sha256 (x ∷ xs) d = deliver sha256 xs (add_vertex sha256 x.vertex x.round x.now d).0

abbrev pub sent : List Delivery → List Vertex
sent = map (λ x. x.vertex)

-- A hash is grounded when a sound vertex of it was sent and all its parents are grounded.
pub data Grounded (sha256 : Bytes → Hash) (vs : List Vertex) : Hash → Type 0 where
  grounded :
      {h : Hash} (v : Vertex)
      → v.hash ≡ h
      → Member v vs
      → IsSound sha256 v
      → ((p : Hash) → contains p v.parents ≡ true → Grounded sha256 vs p)
      → Grounded sha256 vs h

-- The invariant over the deliveries; `got` are the vertices delivered so far.
pub record Progress (sha256 : Bytes → Hash) (vs got : List Vertex) (d : Dag) : Type 0 where
  pub inv : DagInv sha256 d
  pub only : (h : Hash) → known d h ≡ true → Grounded sha256 vs h
  pub from : (h : Hash) (u : Vertex) → IsOrphan h u d → Member u vs
  pub stored : (h : Hash) (u : Vertex) → lookup h d.vertices ≡ some u → Member u vs
  pub kept :
      (u : Vertex)
      → Member u got
      → IsSound sha256 u
      → (known d u.hash ≡ true) ⊎ (has u.hash d.buffer.orphans ≡ true)
  pub few : length d.buffer.lost_parent_count ≤ length got
  pub room : pos (length vs) ≤ℤ d.buffer.capacity

-- An orphan misses a parent that it names.
pub IsOrphan-misses :
    (sha256 : Bytes → Hash) (d : Dag) (h : Hash) (u : Vertex)
    → LoopInv sha256 d
    → IsOrphan h u d
    → (p : Hash) × (contains p u.parents ≡ true) × (known d p ≡ false)
unfolding has
IsOrphan-misses sha256 d h u i o =
    let b = i.buffered in
    elim (Option-cases (lookup h d.buffer.lost_parent_count)) [
      | inl e ↦ absurd (ground (arith, e, o, b.synced h))
      | inr (n, e) ↦
          let waits : 0 < pending h d.buffer.lost_parents =
            ground (arith, e, b.counted h, b.positive h n e) in
          let (p, occurs) = pending_pos h d.buffer.lost_parents b.distinct_lost waits in
          (p, b.cited h u p o occurs, b.unknown p h occurs)
    ]

module _ (sha256 : Bytes → Hash) (vs got : List Vertex) (v : Vertex) (round : ℤ) (d : Dag)
    (g : Progress sha256 vs got d) (sending : Member v vs) (left : length got < length vs)
    (s : IsSound sha256 v) where
  abbrev missing : List Hash
  missing = get_missing_hashes v.parents d

  not_full : is_full d.buffer ≡ false
  unfolding is_full
  not_full = ground (arith, g.few, g.room)

  Grounded-of :
      (u : Vertex)
      → (u ≡ v) ⊎ IsOrphan u.hash u d
      → ((p : Hash) → contains p u.parents ≡ true → Grounded sha256 vs p)
      → Grounded sha256 vs u.hash
  Grounded-of u (inl e) ps =
      grounded u refl (subst (λ x. Member x vs) (sym e) sending) (subst (IsSound sha256) (sym e) s)
        ps
  Grounded-of u (inr o) ps =
      grounded u refl (g.from u.hash u o) (g.inv.base.sound_orphans u.hash u o) ps

  waits_kept :
      (u : Vertex)
      → Member u (v ∷ got)
      → IsSound sha256 u
      → (known d u.hash ≡ true) ⊎ (has u.hash (add_orphan v missing d.buffer).orphans ≡ true)
  unfolding has
  waits_kept u (inl e) su = inr (
      ground (
        arith,
        ap (λ (x : Vertex). x.hash) e,
        g.inv.base.buffered.synced v.hash,
        add_orphan-room v missing d.buffer u.hash not_full,
      ))
  waits_kept u (inr m) su = elim (g.kept u m su) [
    | inl k ↦ inl k
    | inr o ↦ inr (ground (arith, o, add_orphan-room v missing d.buffer u.hash not_full))
  ]

  -- The vertex waits.
  waits-Progress :
      (d' : Dag)
      → DagInv sha256 d'
      → d' ≡ record d { buffer = add_orphan v missing d.buffer }
      → Progress sha256 vs (v ∷ got) d'
  waits-Progress d' inv e = rw e (record {
    inv = rw e at inv;
    only = g.only;
    from = λ h u o. elim (add_orphan-source v missing d.buffer h u o) [
      | inl same ↦ subst (λ x. Member x vs) (sym same) sending
      | inr there ↦ g.from h u there
    ];
    stored = g.stored;
    kept = waits_kept;
    few = omega (arith, length-add_orphan-le v missing d.buffer not_full, g.few);
    room = rw (add_orphan-capacity v missing d.buffer) g.room;
  })

  module _ (ins : Inserted sha256 v d (process_insertion v d)) (ready : Complete (known d) v) where
    next : Dag
    next = process_insertion v d

    stays :
        (u : Vertex)
        → (known d u.hash ≡ true) ⊎ (has u.hash d.buffer.orphans ≡ true)
        → (known next u.hash ≡ true) ⊎ (has u.hash next.buffer.orphans ≡ true)
    unfolding next has
    stays u (inl k) = elim (Option-cases (lookup u.hash d.vertices)) [
      | inl e ↦ absurd (ground (arith, k, e))
      | inr (w, e) ↦ inl (ground (arith, ins.old u.hash w e))
    ]
    stays u (inr o) = elim (Option-cases (lookup u.hash d.buffer.orphans)) [
      | inl e ↦ absurd (ground (arith, o, e))
      | inr (w, e) ↦ elim (ins.none_lost u.hash w e) [
        | inl still ↦ inr (ground (arith, still))
        | inr went ↦
            let same : w.hash ≡ u.hash = g.inv.base.buffered.keyed u.hash w e in
            inl (rw same at went)
      ]
    ]

    -- The vertex goes in.
    goes_in-Progress : Progress sha256 vs (v ∷ got) next
    unfolding next
    goes_in-Progress = record {
      inv = ins.inv;
      only =
          process_insertion_closed sha256 v d g.inv ready s (Grounded sha256 vs) Grounded-of g.only;
      from = λ h u o. g.from h u (ins.fewer h u o);
      stored = λ h u e. elim (ins.source h u e) [
        | inl old ↦ g.stored h u old
        | inr (inl same) ↦ subst (λ x. Member x vs) (sym same) sending
        | inr (inr waited) ↦ g.from h u waited
      ];
      kept = λ u m su. elim m [
        | inl e ↦ inl (subst (λ (x : Vertex). known next x.hash ≡ true) e ins.present)
        | inr old ↦ stays u (g.kept u old su)
      ];
      few = omega (arith, ins.bounded, g.few);
      room = rw ins.same_capacity g.room;
    }

  pub locked-Progress : Progress sha256 vs (v ∷ got) (add_vertex_locked v round d).0
  unfolding add_vertex_locked next
  locked-Progress = elim (Bool-cases (has v.hash d.vertices)) [
    | inl old ↦ rw old (record {
      inv = g.inv;
      only = g.only;
      from = g.from;
      stored = g.stored;
      kept = λ u m su. elim m [
        | inl e ↦ inl (subst (λ (x : Vertex). known d x.hash ≡ true) e old)
        | inr there ↦ g.kept u there su
      ];
      few = omega (arith, g.few);
      room = g.room;
    })
    | inr new ↦ elim (Bool-cases (ltb 0 (length missing))) [
      | inl lacks ↦
          rw (new, lacks)
            (waits-Progress _
              (rw (new, lacks, add_vertex_locked) at
                (add_vertex_locked-DagInv sha256 v round d s g.inv))
              refl)
      | inr none_lacks ↦
          let ready = nothing_missing v d (ground arith) in
          rw (new, none_lacks)
            (goes_in-Progress (process_insertion-Inserted sha256 v d g.inv ready s) ready)
    ]
  ]
