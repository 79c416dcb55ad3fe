-- ===== src/Core/Dag/Trace.antt =====
-- core/dag.go: where the vertices come from that the insertion loop adds, and where orphans go.
use klef.Prelude.{
  ℕ, ℤ, zero, suc, ◌≡◌, refl, sym, subst, ap, ◌∙◌, ◌⊎◌, inl, inr, true, false, ◌||◌, some, List, [],
  ◌∷◌, ◌++◌, arith, All, All-mono, All-append, Member, Member-append_left, Member-append_right,
  contains, ◌==◌, nat_eq, int_eq, int_beq_iff, Bool-cases, nat_beq_iff,
}
use klef.Prelude.Map.{lookup, has, lookup-insert, insert}
use klef.Prelude.Sorting.{sort-All, sort-Member}
use klef.Types.Hash.{Hash, Bytes}
use klef.Types.Vertex.{Vertex}
use klef.Types.Parents.{sort_vertices}
use klef.Core.Orphanage.{Orphanage, on_parent_arrival}
use klef.Core.Orphanage.Release.{Released}
use klef.Core.Dag.{Dag, Work, round_hashes, commit, insert_step, insert_loop}
use klef.Core.Dag.Invariant.{known}
use klef.Core.Dag.Commit.{Good, insert_step-Good, released, List-cases}

abbrev pub IsOrphan : Hash → Vertex → Dag → Type 0
IsOrphan h u d = lookup h d.buffer.orphans ≡ some u

-- `d₀` and `v₀` are the ledger and the vertex that processInsertionLocked began with.
pub record Trace (d₀ : Dag) (v₀ : Vertex) (w : Work) : Type 0 where
  pub old :
      (h : Hash) (u : Vertex) → lookup h d₀.vertices ≡ some u → lookup h w.dag.vertices ≡ some u
  pub source :
      (h : Hash) (u : Vertex)
      → lookup h w.dag.vertices ≡ some u
      → (lookup h d₀.vertices ≡ some u) ⊎ (u ≡ v₀) ⊎ IsOrphan h u d₀
  pub work_source : All (λ u. (u ≡ v₀) ⊎ IsOrphan u.hash u d₀) w.worklist
  pub first : Member v₀ w.worklist ⊎ (known w.dag v₀.hash ≡ true)
  pub fewer : (h : Hash) (u : Vertex) → IsOrphan h u w.dag → IsOrphan h u d₀
  pub none_lost :
      (h : Hash) (u : Vertex)
      → IsOrphan h u d₀
      → IsOrphan h u w.dag ⊎ Member u w.worklist ⊎ (known w.dag u.hash ≡ true)
  pub same_slasher : w.dag.slasher ≡ d₀.slasher
  pub same_config : w.dag.config ≡ d₀.config
  pub same_capacity : w.dag.buffer.capacity ≡ d₀.buffer.capacity
  pub other_rounds :
      (r : ℤ)
      → contains r w.affected ≡ false
      → round_hashes r w.dag.round_index ≡ round_hashes r d₀.round_index

pub Trace-start :
    (d : Dag) (v : Vertex) → Trace d v (record { worklist = v ∷ []; affected = []; dag = d })
Trace-start d v = record {
  old = λ h u e. e;
  source = λ h u e. inl e;
  work_source = (inl refl, tt);
  first = inl (inl refl);
  fewer = λ h u e. e;
  none_lost = λ h u e. inl e;
  same_slasher = refl;
  same_config = refl;
  same_capacity = refl;
  other_rounds = λ r e. refl;
}

module _ (sha256 : Bytes → Hash) (d₀ : Dag) (v₀ v : Vertex) (rest : List Vertex) (w : Work)
    (g : Good sha256 w) (t : Trace d₀ v₀ w) (shape : w.worklist ≡ v ∷ rest) where
  abbrev d : Dag
  d = w.dag

  pub head_source : (v ≡ v₀) ⊎ IsOrphan v.hash v d₀
  head_source = (rw shape at t.work_source).0

  -- The head of the worklist is in the ledger already, and is passed over.
  skip-Trace : has v.hash d.vertices ≡ true → Trace d₀ v₀ (record w { worklist = rest })
  skip-Trace old = record {
    old = t.old;
    source = t.source;
    work_source = (rw shape at t.work_source).1;
    first = elim t.first [
      | inl m ↦ elim (rw shape at m) [
        | inl here ↦ inr (subst (λ (u : Vertex). known d u.hash ≡ true) here old)
        | inr later ↦ inl later
      ]
      | inr k ↦ inr k
    ];
    fewer = t.fewer;
    none_lost = λ h u e. elim (t.none_lost h u e) [
      | inl o ↦ inl o
      | inr (inl m) ↦ elim (rw shape at m) [
        | inl here ↦ inr (inr (subst (λ (x : Vertex). known d x.hash ≡ true) here old))
        | inr later ↦ inr (inl later)
      ]
      | inr (inr k) ↦ inr (inr k)
    ];
    same_slasher = t.same_slasher;
    same_config = t.same_config;
    same_capacity = t.same_capacity;
    other_rounds = t.other_rounds;
  }

  module _ (fresh : has v.hash d.vertices ≡ false) where
    abbrev arrival : Orphanage × List Vertex
    arrival = on_parent_arrival v.hash d.buffer

    out : Released (known (commit v rest w).dag) d.buffer arrival
    out = released sha256 v rest w g shape fresh

    pub grows : (h : Hash) → known (commit v rest w).dag h ≡ (v.hash == h || known d h)
    unfolding commit has
    grows h = ground (arith, lookup-insert v.hash h v d.vertices)

    -- A member of the worklist is still there, or is the vertex that went in.
    moved :
        (u : Vertex)
        → Member u w.worklist
        → Member u (commit v rest w).worklist ⊎ (known (commit v rest w).dag u.hash ≡ true)
    unfolding commit
    moved u m = elim (rw shape at m) [
      | inl here ↦ inr (ground (arith, grows u.hash, ap (λ (x : Vertex). x.hash) here))
      | inr later ↦ inl (Member-append_left rest (sort_vertices arrival.1) u later)
    ]

    not_here : (h : Hash) (u : Vertex) → lookup h d₀.vertices ≡ some u → (v.hash == h) ≡ false
    unfolding has
    not_here h u e = ground (arith, fresh, t.old h u e, nat_beq_iff v.hash h)

    key : {h : Hash} → (v.hash == h) ≡ true → v.hash ≡ h
    key {h} e = ground arith

    same_round :
        (r : ℤ)
        → contains r (commit v rest w).affected ≡ false
        → (contains r w.affected ≡ false) × ((v.round == r) ≡ false)
    unfolding commit contains
    same_round r e = ground (arith, int_beq_iff v.round r)

    source_now :
        (h : Hash) (u : Vertex)
        → lookup h (insert v.hash v d.vertices) ≡ some u
        → (lookup h d₀.vertices ≡ some u) ⊎ ((u ≡ v₀) ⊎ IsOrphan h u d₀)
    source_now h u e = elim (Bool-cases (v.hash == h)) [
      | inl here ↦
          let same : v ≡ u = ground (arith, here, lookup-insert v.hash h v d.vertices) in
          elim head_source [
            | inl first ↦ inr (inl (sym same ∙ first))
            | inr o ↦ inr (
                inr (
                  subst (λ (x : Vertex). IsOrphan h x d₀) same
                    (subst (λ k. IsOrphan k v d₀) (key here) o)))
          ]
      | inr other ↦ t.source h u (ground (arith, other, lookup-insert v.hash h v d.vertices))
    ]

    commit-Trace : Trace d₀ v₀ (commit v rest w)
    unfolding commit
    commit-Trace = record {
      old =
          λ h u e. ground (arith, t.old h u e, not_here h u e, lookup-insert v.hash h v d.vertices);
      source = source_now;
      work_source = All-append _ rest (sort_vertices arrival.1) (rw shape at t.work_source).1 (
          sort-All _ _ arrival.1
            (All-mono _ _ arrival.1 (λ u r. inr (t.fewer u.hash u r.0)) out.ready));
      first = elim t.first [ inl m ↦ moved v₀ m | inr k ↦ inr (ground (arith, k, grows v₀.hash)) ];
      fewer = λ h u e. t.fewer h u (out.fewer h u e);
      none_lost = λ h u e. elim (t.none_lost h u e) [
        | inl o ↦ elim (out.none_lost h u o) [
          | inl kept ↦ inl kept
          | inr m ↦ inr (
              inl (
                Member-append_right rest (sort_vertices arrival.1) u (sort-Member _ u arrival.1 m)))
        ]
        | inr (inl m) ↦ inr (moved u m)
        | inr (inr k) ↦ inr (inr (ground (arith, k, grows u.hash)))
      ];
      same_slasher = t.same_slasher;
      same_config = t.same_config;
      same_capacity = out.room ∙ t.same_capacity;
      other_rounds = λ r e.
          let hs = round_hashes v.round d.round_index ++ v.hash ∷ [] in
          ground (
            arith,
            t.other_rounds r,
            int_beq_iff v.round r,
            lookup-insert v.round r hs d.round_index,
            same_round r e,
          );
    }

pub insert_step-Trace :
    (sha256 : Bytes → Hash) (d₀ : Dag) (v₀ v : Vertex) (rest : List Vertex) (w : Work)
    → Good sha256 w
    → Trace d₀ v₀ w
    → w.worklist ≡ v ∷ rest
    → Trace d₀ v₀ (insert_step v rest w)
unfolding insert_step
insert_step-Trace sha256 d₀ v₀ v rest w g t shape = elim (Bool-cases (has v.hash w.dag.vertices)) [
  | inl old ↦ rw old (skip-Trace sha256 d₀ v₀ v rest w g t shape old)
  | inr new ↦ rw new (commit-Trace sha256 d₀ v₀ v rest w g t shape new)
]

pub insert_loop-Trace :
    (sha256 : Bytes → Hash) (d₀ : Dag) (v₀ : Vertex) (fuel : ℕ) (w : Work)
    → Good sha256 w
    → Trace d₀ v₀ w
    → Trace d₀ v₀ (insert_loop fuel w)
unfolding insert_loop
insert_loop-Trace sha256 d₀ v₀ zero w g t = t
insert_loop-Trace sha256 d₀ v₀ (suc fuel) w g t = elim (List-cases w.worklist) [
  | inl e ↦ rw (e, insert_loop) t
  | inr (v, rest, e) ↦
      rw (e, insert_loop)
        (insert_loop-Trace sha256 d₀ v₀ fuel (insert_step v rest w)
          (insert_step-Good sha256 v rest w g e).0 (insert_step-Trace sha256 d₀ v₀ v rest w g t e))
]
