-- ===== src/Core/Dag/Commit.antt =====
-- core/dag.go: one round of processInsertionLocked.
use klef.Prelude.{
  ℕ, ℤ, zero, suc, ◌+◌, ◌≤◌, ◌<◌, ◌≡◌, refl, ap, subst, ◌⊎◌, inl, inr, false, ◌||◌, none, List, [],
  ◌∷◌, ◌++◌, arith, length, length-append, All, All-mono, All-append, contains, ◌==◌, nat_eq,
  int_eq, int_beq_iff, Bool-cases,
}
use klef.Prelude.Sets.{contains-append}
use klef.Prelude.Map.{lookup, has, lookup-insert, insert-Distinct}
use klef.Prelude.Sorting.{IsDistinct, sort-All, sort-length}
use klef.Types.Hash.{Hash, Bytes, hash_less}
use klef.Types.Vertex.{Vertex}
use klef.Types.Parents.{sort_vertices}
use klef.Core.Orphanage.{on_parent_arrival}
use klef.Core.Orphanage.Release.{Complete, Released, on_parent_arrival-Released}
use klef.Core.Dag.{Dag, Work, round_hashes, commit, insert_step, insert_loop}
use klef.Core.Dag.Invariant.{known, IsSound, of_round, LoopInv}

-- A vertex that may be committed.
abbrev pub IsReady : (Bytes → Hash) → Dag → Vertex → Type 0
IsReady sha256 d v = Complete (known d) v × IsSound sha256 v

pub record Good (sha256 : Bytes → Hash) (w : Work) : Type 0 where
  pub inv : LoopInv sha256 w.dag
  pub todo : All (IsReady sha256 w.dag) w.worklist

abbrev pub measure : Work → ℕ
measure w = length w.worklist + length w.dag.buffer.lost_parent_count

IsDistinct-concat :
    (h : Hash) (hs : List Hash) → contains h hs ≡ false → IsDistinct hs → IsDistinct (hs ++ h ∷ [])
unfolding contains
IsDistinct-concat h [] f d = (tt, tt)
IsDistinct-concat h (x ∷ hs) f d =
    (All-append _ hs (h ∷ []) d.0 (ground arith, tt), IsDistinct-concat h hs (ground arith) d.1)

module _ (sha256 : Bytes → Hash) (v : Vertex) (rest : List Vertex) (w : Work) (g : Good sha256 w)
    (shape : w.worklist ≡ v ∷ rest) (fresh : has v.hash w.dag.vertices ≡ false) where
  abbrev pub d : Dag
  d = w.dag

  abbrev pub d' : Dag
  d' = (commit v rest w).dag

  ready : IsReady sha256 d v
  ready = (rw shape at g.todo).0

  others : All (IsReady sha256 d) rest
  others = (rw shape at g.todo).1

  grows : (h : Hash) → known d' h ≡ (v.hash == h || known d h)
  unfolding commit has
  grows h = ground (arith, lookup-insert v.hash h v d.vertices)

  pub released : Released (known d') d.buffer (on_parent_arrival v.hash d.buffer)
  released = on_parent_arrival-Released (known d) (known d') v.hash d.buffer g.inv.buffered grows

  Complete-grows : (u : Vertex) → Complete (known d) u → Complete (known d') u
  Complete-grows u c p cites = ground (arith, grows p, c p cites)

  absent : lookup v.hash d.vertices ≡ none
  unfolding has
  absent = ground arith

  new_indexed :
      (r : ℤ) (h : Hash)
      → contains h (round_hashes r d'.round_index) ≡ of_round r (lookup h d'.vertices)
  unfolding commit contains
  new_indexed r h =
      let hs = round_hashes v.round d.round_index ++ v.hash ∷ [] in
      ground (
        arith,
        int_beq_iff v.round r,
        absent,
        g.inv.indexed r h,
        contains-append h (round_hashes v.round d.round_index) (v.hash ∷ []),
        lookup-insert v.hash h v d.vertices,
        lookup-insert v.round r hs d.round_index,
      )

  once_more : IsDistinct (round_hashes v.round d.round_index ++ v.hash ∷ [])
  once_more =
      IsDistinct-concat v.hash (round_hashes v.round d.round_index)
        (ground (arith, g.inv.indexed v.round v.hash, absent)) (g.inv.once v.round)

  commit-LoopInv : LoopInv sha256 d'
  unfolding commit
  commit-LoopInv = record {
    distinct = insert-Distinct v.hash v d.vertices g.inv.distinct;
    keyed = λ h u e. ground (arith, g.inv.keyed h u, lookup-insert v.hash h v d.vertices);
    closed = λ h u e. elim (Bool-cases (v.hash == h)) [
      | inl same ↦
          let e' : v ≡ u = ground (arith, same, lookup-insert v.hash h v d.vertices) in
          subst (Complete (known d')) e' (Complete-grows v ready.0)
      | inr other ↦
          Complete-grows u
            (g.inv.closed h u (ground (arith, other, lookup-insert v.hash h v d.vertices)))
    ];
    sound = λ h u e. elim (Bool-cases (v.hash == h)) [
      | inl same ↦
          let e' : v ≡ u = ground (arith, same, lookup-insert v.hash h v d.vertices) in
          subst (IsSound sha256) e' ready.1
      | inr other ↦ g.inv.sound h u (ground (arith, other, lookup-insert v.hash h v d.vertices))
    ];
    sound_orphans = λ h u e. g.inv.sound_orphans h u (released.fewer h u e);
    buffered = released.inv;
    indexed = new_indexed;
    once = λ r. ground (
      arith,
      g.inv.once r,
      lookup-insert v.round r (round_hashes v.round d.round_index ++ v.hash ∷ []) d.round_index,
      once_more,
    );
  }

  commit-todo : All (IsReady sha256 d') (commit v rest w).worklist
  unfolding commit sort_vertices
  commit-todo =
      All-append _ rest (sort_vertices (on_parent_arrival v.hash d.buffer).1)
        (All-mono _ _ rest (λ u r. (Complete-grows u r.0, r.1)) others)
        (sort-All _ _ (on_parent_arrival v.hash d.buffer).1 (
          All-mono _ _ (on_parent_arrival v.hash d.buffer).1
            (λ u r. (r.1, g.inv.sound_orphans u.hash u r.0)) released.ready))

  commit-Good : Good sha256 (commit v rest w)
  commit-Good = record { inv = commit-LoopInv; todo = commit-todo }

  commit-measure : suc (measure (commit v rest w)) ≡ measure w
  unfolding commit sort_vertices
  commit-measure = omega (
    arith,
    ap length shape,
    released.sizes,
    length-append rest (sort_vertices (on_parent_arrival v.hash d.buffer).1),
    sort-length (λ a b. hash_less a.hash b.hash) (on_parent_arrival v.hash d.buffer).1,
  )

pub insert_step-Good :
    (sha256 : Bytes → Hash) (v : Vertex) (rest : List Vertex) (w : Work)
    → Good sha256 w
    → w.worklist ≡ v ∷ rest
    → Good sha256 (insert_step v rest w) × (suc (measure (insert_step v rest w)) ≡ measure w)
unfolding insert_step
insert_step-Good sha256 v rest w g shape = elim (Bool-cases (has v.hash w.dag.vertices)) [
  | inl old ↦
      rw old (record { inv = g.inv; todo = (rw shape at g.todo).1 }, omega (arith, ap length shape))
  | inr new ↦
      rw new (commit-Good sha256 v rest w g shape new, commit-measure sha256 v rest w g shape new)
]

pub List-cases :
    (vs : List Vertex) → (vs ≡ []) ⊎ ((v : Vertex) × (rest : List Vertex) × (vs ≡ v ∷ rest))
List-cases [] = inl refl
List-cases (v ∷ rest) = inr (v, rest, refl)

-- With fuel above the measure, the insertion loop empties its worklist, and the invariant of the
-- loop holds at its end if it held at its start.
pub insert_loop-Good :
    (sha256 : Bytes → Hash) (fuel : ℕ) (w : Work)
    → Good sha256 w
    → measure w < fuel
    → Good sha256 (insert_loop fuel w) × ((insert_loop fuel w).worklist ≡ [])
unfolding insert_loop
insert_loop-Good sha256 zero w g f = absurd (omega arith)
insert_loop-Good sha256 (suc fuel) w g f = elim (List-cases w.worklist) [
  | inl e ↦ rw (e, insert_loop) (g, e)
  | inr (v, rest, e) ↦
      let s = insert_step-Good sha256 v rest w g e in
      rw (e, insert_loop)
        (insert_loop-Good sha256 fuel (insert_step v rest w) s.0 (omega (arith, s.1)))
]

pub insert_loop-measure :
    (sha256 : Bytes → Hash) (fuel : ℕ) (w : Work)
    → Good sha256 w
    → measure (insert_loop fuel w) ≤ measure w
unfolding insert_loop
insert_loop-measure sha256 zero w g = omega arith
insert_loop-measure sha256 (suc fuel) w g = elim (List-cases w.worklist) [
  | inl e ↦ rw (e, insert_loop) (omega (arith, ap length e))
  | inr (v, rest, e) ↦
      let s = insert_step-Good sha256 v rest w g e in
      rw (e, insert_loop)
        (omega
          (arith, ap length e, s.1, insert_loop-measure sha256 fuel (insert_step v rest w) s.0))
]
