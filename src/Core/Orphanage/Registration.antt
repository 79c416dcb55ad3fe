-- ===== src/Core/Orphanage/Registration.antt =====
-- core/orphanage.go: AddOrphan and the eviction under the invariant of the buffer.
use klef.Prelude.{
  ◌≤◌, ◌≡◌, inl, inr, Bool, true, false, none, some, List, [], ◌∷◌, arith, length, All-mono,
  contains, ◌==◌, nat_eq, Option-cases, Bool-cases, All, if◌then◌else◌, nat_beq_iff,
}
use klef.Prelude.Map.{
  lookup, has, Distinct, lookup-insert, lookup-delete, insert-Distinct, delete-Distinct, insert,
}
use klef.Types.Hash.{Hash}
use klef.Types.Vertex.{Vertex}
use klef.Core.Orphanage.{
  Orphanage, waiting, register, remove_orphan, add_orphan, find_victim, is_full, unlink_all, link,
}
use klef.Core.Orphanage.Occurrences.{
  Lost, occ, pending, occ-le-pending, count-contains, count, pending_zero,
}
use klef.Core.Orphanage.Links.{
  pending-link, waiting-link, link-Distinct, unlink_all-Distinct, pending-unlink_all_ne,
  waiting-unlink_all, All-waiting-link, All-waiting-unlink_all, All-ne_of_occ,
}
use klef.Core.Orphanage.Invariant.{Inv, Misses}

module _ (known : Hash → Bool) (v : Vertex) (missing : List Hash) (b : Orphanage)
    (m : Misses known v missing) (i : Inv known b)
    (fresh : has v.hash b.lost_parent_count ≡ false) where
  no_count : lookup v.hash b.lost_parent_count ≡ none
  unfolding has
  no_count = ground arith

  nothing_pending : pending v.hash b.lost_parents ≡ 0
  nothing_pending = ground (arith, no_count, i.counted v.hash)

  not_waiting : (p : Hash) → occ v.hash (waiting p b.lost_parents) ≡ 0
  not_waiting p = omega (arith, nothing_pending, occ-le-pending v.hash p b.lost_parents)

  -- The new orphan waits for each missing parent once, and nobody waits differently.
  waits_linked :
      (p c : Hash)
      → occ c (waiting p (link v missing b.lost_parents)) ≡ (
          if v.hash == c
          then (if contains p missing then 1 else 0)
          else occ c (waiting p b.lost_parents))
  waits_linked p c = ground (
    arith,
    not_waiting p,
    nat_beq_iff v.hash c,
    waiting-link c p v missing b.lost_parents,
    count-contains p missing m.each_once,
  )

  counts_now :
      (c : Hash)
      → lookup c (insert v.hash (length missing) b.lost_parent_count)
        ≡ (if v.hash == c then some (length missing) else lookup c b.lost_parent_count)
  counts_now c = lookup-insert v.hash c (length missing) b.lost_parent_count

  orphans_now :
      (c : Hash)
      → lookup c (insert v.hash v b.orphans) ≡ (if v.hash == c then some v else lookup c b.orphans)
  orphans_now c = lookup-insert v.hash c v b.orphans

  still_held :
      (p : Hash)
      → All
          (λ w. lookup w.hash (insert v.hash v b.orphans) ≡ some w)
          (waiting p (link v missing b.lost_parents))
  still_held =
      All-waiting-link _ v missing b.lost_parents
        (ground (arith, orphans_now v.hash, nat_beq_iff v.hash v.hash))
        (λ p.
          All-mono _ _ (waiting p b.lost_parents)
            (λ w e. ground (arith, e.0, e.1, orphans_now w.hash, nat_beq_iff v.hash w.hash))
            (All-ne_of_occ _ v.hash (waiting p b.lost_parents) (not_waiting p) (i.held p)))

  pub register-Inv : Inv known (register v missing b)
  unfolding register has
  register-Inv = record {
    distinct_lost = link-Distinct v missing b.lost_parents i.distinct_lost;
    distinct_count = insert-Distinct v.hash (length missing) b.lost_parent_count i.distinct_count;
    distinct_orphans = insert-Distinct v.hash v b.orphans i.distinct_orphans;
    synced = λ c. ground (arith, i.synced c, counts_now c, orphans_now c);
    counted = λ c. ground (
      arith,
      i.counted c,
      nothing_pending,
      counts_now c,
      pending-link c v missing b.lost_parents,
    );
    positive = λ c n e. ground (arith, i.positive c n, m.some_missing, counts_now c);
    keyed = λ c w e. ground (arith, i.keyed c w, orphans_now c);
    single = λ p c. ground (arith, i.single p c, waits_linked p c);
    held = still_held;
    cited = λ c w p e h. ground (arith, i.cited c w p, m.among p, orphans_now c, waits_linked p c);
    covered =
        λ c w p e h. ground (arith, i.covered c w p, m.complete p, orphans_now c, waits_linked p c);
    unknown = λ p c h. ground (arith, i.unknown p c, m.not_known p, waits_linked p c);
  }

module _ (known : Hash → Bool) (h : Hash) (v : Vertex) (b : Orphanage) (i : Inv known b)
    (found : lookup h b.orphans ≡ some v) where
  abbrev unlinked : Lost
  unlinked = unlink_all h v.parents b.lost_parents

  count_of_cited : (p : Hash) (ps : List Hash) → contains p ps ≡ true → 1 ≤ count p ps
  unfolding contains count
  count_of_cited p [] e = cc
  count_of_cited p (q ∷ ps) e = ground (arith, count_of_cited p ps)

  -- Nobody waits for the child any more.
  gone : (p : Hash) → occ h (waiting p unlinked) ≡ 0
  gone p = ground (
    arith,
    waiting-unlink_all h h v.parents p b.lost_parents,
    i.single p h,
    i.cited h v p found,
    count_of_cited p v.parents,
  )

  kept :
      (p c : Hash)
      → (h == c) ≡ false
      → occ c (waiting p unlinked) ≡ occ c (waiting p b.lost_parents)
  kept p c ne = ground (arith, waiting-unlink_all c h v.parents p b.lost_parents)

  apart : Distinct unlinked
  apart = unlink_all-Distinct h v.parents b.lost_parents i.distinct_lost

  pub remove_orphan_found-Inv : Inv known (remove_orphan h b)
  unfolding remove_orphan has
  remove_orphan_found-Inv =
      rw (found, remove_orphan)
        (record {
          distinct_lost = apart;
          distinct_count = delete-Distinct h b.lost_parent_count i.distinct_count;
          distinct_orphans = delete-Distinct h b.orphans i.distinct_orphans;
          synced = λ c. ground (
            arith,
            i.synced c,
            lookup-delete h c b.lost_parent_count,
            lookup-delete h c b.orphans,
          );
          counted = λ c. ground (
            arith,
            i.counted c,
            lookup-delete h c b.lost_parent_count,
            pending_zero h unlinked apart gone,
            pending-unlink_all_ne c h v.parents b.lost_parents i.distinct_lost,
          );
          positive = λ c n e. ground (arith, i.positive c n, lookup-delete h c b.lost_parent_count);
          keyed = λ c w e. ground (arith, i.keyed c w, lookup-delete h c b.orphans);
          single = λ p c. ground (arith, i.single p c, gone p, kept p c);
          held = λ p.
              All-mono _ _ (waiting p unlinked)
                (λ w e. ground (arith, e.0, e.1, lookup-delete h w.hash b.orphans))
                (All-ne_of_occ _ h (waiting p unlinked) (gone p)
                  (All-waiting-unlink_all _ h v.parents b.lost_parents i.held p));
          cited = λ c w p e o.
              ground (arith, i.cited c w p, gone p, kept p c, lookup-delete h c b.orphans);
          covered = λ c w p e o.
              ground (arith, i.covered c w p, gone p, kept p c, lookup-delete h c b.orphans);
          unknown = λ p c o. ground (arith, i.unknown p c, gone p, kept p c);
        })

pub remove_orphan-Inv :
    (known : Hash → Bool) (h : Hash) (b : Orphanage) → Inv known b → Inv known (remove_orphan h b)
unfolding remove_orphan
remove_orphan-Inv known h b i = elim (Option-cases (lookup h b.orphans)) [
  | inl e ↦ rw (e, remove_orphan) i
  | inr (v, e) ↦ remove_orphan_found-Inv known h v b i e
]

-- Eviction adds no count.
pub remove_orphan-has :
    (h c : Hash) (b : Orphanage)
    → has c b.lost_parent_count ≡ false
    → has c (remove_orphan h b).lost_parent_count ≡ false
unfolding remove_orphan has
remove_orphan-has h c b e = elim (Option-cases (lookup h b.orphans)) [
  | inl o ↦ rw (o, remove_orphan) e
  | inr (v, o) ↦ rw (o, remove_orphan) (ground (arith, e, lookup-delete h c b.lost_parent_count))
]

-- Given the missing parents of the vertex, AddOrphan keeps the buffer's invariant on every branch:
-- duplicate, rejected, evicting and plain.
pub add_orphan-Inv :
    (known : Hash → Bool) (v : Vertex) (missing : List Hash) (b : Orphanage)
    → Misses known v missing
    → Inv known b
    → Inv known (add_orphan v missing b)
unfolding add_orphan
add_orphan-Inv known v missing b m i = elim (Bool-cases (has v.hash b.lost_parent_count)) [
  | inl e ↦ rw e i
  | inr e ↦
      let plain = register-Inv known v missing b m i e in
      let victim = find_victim b v.hash (length missing) in
      let evicting =
        register-Inv known v missing (remove_orphan victim b) m (remove_orphan-Inv known victim b i)
          (remove_orphan-has victim v.hash b e) in
      elim (Bool-cases (is_full b)) [
        | inl full ↦ elim (Bool-cases (victim == v.hash)) [
          | inl self ↦ rw (e, full, self) i
          | inr chosen ↦ rw (e, full, chosen) evicting
        ]
        | inr room ↦ rw (e, room) plain
      ]
]
