-- ===== src/Core/Orphanage/Release.antt =====
-- core/orphanage.go: OnParentArrival as a whole, under the buffer's invariant.
use klef.Prelude.{
  ◌+◌, ◌<◌, ◌≡◌, refl, ◌⊎◌, inl, inr, Bool, true, ◌||◌, none, some, List, [], arith, length, All,
  All-mono, All-both, All-member, contains, ◌==◌, nat_eq, Option-cases, Bool-cases, Member,
}
use klef.Prelude.Map.{lookup, delete, has, lookup-delete, delete-Distinct}
use klef.Prelude.Sorting.{sort-All, sort-Member, sort-length}
use klef.Types.Hash.{Hash, hash_less}
use klef.Types.Vertex.{Vertex}
use klef.Types.Parents.{sort_vertices}
use klef.Core.Orphanage.{Orphanage, waiting, settle_all, on_parent_arrival}
use klef.Core.Orphanage.Occurrences.{
  occ, pending, occ-sort_vertices, pending-delete, waiting-delete, occ-le-pending, All-occ,
}
use klef.Core.Orphanage.Invariant.{Inv}
use klef.Core.Orphanage.Arrival.{count_of, Settled, settle_all-Settled}

-- A vertex whose parents are all known.
abbrev pub Complete : (Hash → Bool) → Vertex → Type 0
Complete known v = (p : Hash) → contains p v.parents ≡ true → known p ≡ true

pub record Released (known : Hash → Bool) (b : Orphanage) (r : Orphanage × List Vertex)
    : Type 0 where
  pub inv : Inv known r.0
  pub room : r.0.capacity ≡ b.capacity
  pub ready : All (λ w. (lookup w.hash b.orphans ≡ some w) × Complete known w) r.1
  pub sizes : length r.1 + length r.0.lost_parent_count ≡ length b.lost_parent_count
  pub fewer : (c : Hash) (w : Vertex) → lookup c r.0.orphans ≡ some w → lookup c b.orphans ≡ some w
  pub none_lost :
      (c : Hash) (w : Vertex)
      → lookup c b.orphans ≡ some w
      → (lookup c r.0.orphans ≡ some w) ⊎ Member w r.1

module _ (known known' : Hash → Bool) (p : Hash) (b : Orphanage) (i : Inv known b)
    (grows : (h : Hash) → known' h ≡ (p == h || known h)) where
  -- Nobody waits for the parent that came: only the set of known hashes changes.
  unlisted : lookup p b.lost_parents ≡ none → Released known' b (b, [])
  unfolding occ
  unlisted e = record {
    inv = record {
      distinct_lost = i.distinct_lost;
      distinct_count = i.distinct_count;
      distinct_orphans = i.distinct_orphans;
      synced = i.synced;
      counted = i.counted;
      positive = i.positive;
      keyed = i.keyed;
      single = i.single;
      held = i.held;
      cited = i.cited;
      covered = λ c v q f o. ground (arith, i.covered c v q f o, grows q);
      unknown = λ q c o. ground (arith, e, i.unknown q c o, grows q);
    };
    room = refl;
    ready = tt;
    sizes = omega arith;
    fewer = λ c w f. f;
    none_lost = λ c w f. inl f;
  }

  module _ (children : List Vertex) (e : lookup p b.lost_parents ≡ some children) where
    abbrev sorted : List Vertex
    sorted = sort_vertices children

    abbrev run : Orphanage × List Vertex
    run = settle_all sorted b

    settled : Settled sorted b run
    settled = settle_all-Settled sorted b

    after : Orphanage
    after = record run.0 { lost_parents = delete p run.0.lost_parents }

    same_lost : run.0.lost_parents ≡ b.lost_parents
    same_lost = settled.lost

    counts : (c : Hash) → count_of run.0 c ≡ pending c (delete p b.lost_parents)
    counts c = ground (
      arith,
      e,
      settled.counts c,
      i.counted c,
      occ-sort_vertices c children,
      pending-delete c p b.lost_parents i.distinct_lost,
    )

    held_children : All (λ w. lookup w.hash b.orphans ≡ some w) sorted
    unfolding sort_vertices
    held_children = sort-All (λ v w. hash_less v.hash w.hash) _ children (rw e at (i.held p))

    -- A vertex that still waits for another parent is still an orphan.
    stays :
        (w : Vertex)
        → lookup w.hash b.orphans ≡ some w
        → 0 < pending w.hash (delete p b.lost_parents)
        → lookup w.hash run.0.orphans ≡ some w
    unfolding has
    stays w f o = elim (Option-cases (lookup w.hash run.0.orphans)) [
      | inl gone ↦ absurd (ground (arith, gone, counts w.hash, settled.synced i.synced w.hash))
      | inr (u, same) ↦ ground (arith, same, f, settled.fewer w.hash u same)
    ]

    still_held :
        (q : Hash)
        → All (λ w. lookup w.hash run.0.orphans ≡ some w) (waiting q (delete p b.lost_parents))
    still_held q = elim (Bool-cases (p == q)) [
      | inl here ↦ rw (lookup-delete p q b.lost_parents, here) tt
      | inr other ↦
          rw (lookup-delete p q b.lost_parents, other)
            (All-mono _ _ (waiting q b.lost_parents)
              (λ w h. stays w h.0 (
                ground (
                  arith,
                  other,
                  h.1,
                  waiting-delete w.hash p q b.lost_parents,
                  occ-le-pending w.hash q (delete p b.lost_parents),
                )))
              (All-both _ _ (waiting q b.lost_parents) (i.held q)
                (All-occ (waiting q b.lost_parents))))
    ]

    listed-Inv : Inv known' after
    unfolding after
    listed-Inv = rw same_lost (record {
      distinct_lost = delete-Distinct p b.lost_parents i.distinct_lost;
      distinct_count = (settled.distinct i.distinct_count i.distinct_orphans).0;
      distinct_orphans = (settled.distinct i.distinct_count i.distinct_orphans).1;
      synced = settled.synced i.synced;
      counted = counts;
      positive = settled.positive i.positive;
      keyed = λ c v f. i.keyed c v (settled.fewer c v f);
      single = λ q c. ground (arith, i.single q c, waiting-delete c p q b.lost_parents);
      held = still_held;
      cited = λ c v q f o.
          ground (arith, i.cited c v q (settled.fewer c v f), waiting-delete c p q b.lost_parents);
      covered = λ c v q f o. ground (
        arith,
        i.covered c v q (settled.fewer c v f) o,
        grows q,
        waiting-delete c p q b.lost_parents,
      );
      unknown =
          λ q c o. ground (arith, i.unknown q c, grows q, waiting-delete c p q b.lost_parents);
    })

    Complete-of_none :
        (w : Vertex)
        → lookup w.hash b.orphans ≡ some w
        → count_of run.0 w.hash ≡ 0
        → Complete known' w
    Complete-of_none w f none_left q cites = ground (
      arith,
      counts w.hash,
      i.covered w.hash w q f cites,
      grows q,
      waiting-delete w.hash p q b.lost_parents,
      occ-le-pending w.hash q (delete p b.lost_parents),
    )

    listed : Released known' b (after, sort_vertices run.1)
    unfolding after sort_vertices
    listed = record {
      inv = listed-Inv;
      room = settled.room;
      ready = sort-All _ _ run.1 (
          All-mono _ _ run.1
            (λ w r.
              let f = All-member _ sorted w held_children r.0 in (f, Complete-of_none w f r.1))
            settled.ready);
      sizes = omega (arith, sort-length _ run.1, settled.sizes i.distinct_count i.distinct_orphans);
      fewer = settled.fewer;
      none_lost = λ c w f.
          elim (settled.none_lost
            (All-mono _ _ sorted (λ u h x g. ground (arith, h, g)) held_children) c w f) [
              | inl kept ↦ inl kept
              | inr m ↦ inr (sort-Member _ w run.1 m)
            ];
    }

  -- From a buffer with its invariant for the hashes known before the parent, OnParentArrival releases
  -- only orphans for which nothing is missing any more, loses no other orphan, and keeps the invariant
  -- for the known hashes with the parent.
  pub on_parent_arrival-Released : Released known' b (on_parent_arrival p b)
  unfolding on_parent_arrival after
  on_parent_arrival-Released = elim (Option-cases (lookup p b.lost_parents)) [
    | inl e ↦ rw (e, on_parent_arrival) (unlisted e)
    | inr (children, e) ↦ rw (e, on_parent_arrival) (listed children e)
  ]
