-- ===== src/Core/Dag/Progress.antt =====
-- One call of AddVertex, and the ledger before any: the invariant over a series of deliveries.
use klef.Prelude.{
  ℤ, ◌<◌, ◌≡◌, refl, sym, subst, inl, inr, true, List, [], ◌∷◌, arith, length, Member, contains,
  ◌==◌, nat_eq, Bool-cases, Option-cases, nat_beq_iff,
}
use klef.Prelude.Map.{lookup, has}
use klef.Types.Hash.{Hash, Bytes}
use klef.Types.Vertex.{Vertex}
use klef.Types.Parents.{check_malformed}
use klef.Types.Encoding.{calculate_hash}
use klef.Config.{Config}
use klef.Core.Slasher.{Slasher}
use klef.Core.Orphanage.{new_orphanage}
use klef.Core.Orphanage.Invariant.{new_orphanage-Inv}
use klef.Core.Dag.{Dag, new_dag, add_vertex}
use klef.Core.Dag.Invariant.{known, IsSound, DagInv}
use klef.Core.Dag.Admission.{add_vertex-DagInv}
use klef.Core.Dag.Convergence.{Delivery, deliver, Progress, locked-Progress}

pub new_dag-DagInv :
    (sha256 : Bytes → Hash) (slasher : Slasher) (cfg : Config) → DagInv sha256 (new_dag slasher cfg)
unfolding new_dag lookup new_orphanage contains
new_dag-DagInv sha256 slasher cfg = record {
  base = record {
    distinct = tt;
    keyed = λ h v e. absurd (ground (arith, e));
    closed = λ h v e. absurd (ground (arith, e));
    sound = λ h v e. absurd (ground (arith, e));
    sound_orphans = λ h v e. absurd (ground (arith, e));
    buffered = new_orphanage-Inv _ cfg.dag.orphan_capacity;
    indexed = λ r h. refl;
    once = λ r. tt;
  };
  sorted = λ r. tt;
}

-- The same ledger, for a vertex that its own checks refuse or that is there already.
module _ (sha256 : Bytes → Hash) (vs got : List Vertex) (v : Vertex) (d : Dag)
    (g : Progress sha256 vs got d) (settled : IsSound sha256 v → known d v.hash ≡ true) where
  unchanged-Progress :
      (s : Slasher)
      → DagInv sha256 (record d { slasher = s })
      → Progress sha256 vs (v ∷ got) (record d { slasher = s })
  unchanged-Progress s inv = record {
    inv = inv;
    only = g.only;
    from = g.from;
    stored = g.stored;
    kept = λ u m su. elim m [
      | inl e ↦ inl (
          subst (λ (x : Vertex). known d x.hash ≡ true) e
            (settled (subst (IsSound sha256) (sym e) su)))
      | inr there ↦ g.kept u there su
    ];
    few = omega (arith, g.few);
    room = g.room;
  }

pub add_vertex-Progress :
    (sha256 : Bytes → Hash) (vs got : List Vertex) (v : Vertex) (round now : ℤ) (d : Dag)
    → Progress sha256 vs got d
    → Member v vs
    → length got < length vs
    → Progress sha256 vs (v ∷ got) (add_vertex sha256 v round now d).0
unfolding add_vertex
add_vertex-Progress sha256 vs got v round now d g sending left =
    elim (Bool-cases (has v.hash d.vertices)) [
      | inl old ↦ rw old (unchanged-Progress sha256 vs got v d g (λ s. old) d.slasher g.inv)
      | inr new ↦ elim (Bool-cases (v.hash == calculate_hash sha256 v)) [
        | inr wrong ↦
            rw (new, wrong)
              (unchanged-Progress sha256 vs got v d g
                (λ s.
                  absurd
                    (ground (arith, wrong, s.hashed, nat_beq_iff v.hash (calculate_hash sha256 v))))
                d.slasher g.inv)
        | inl right ↦ elim (Option-cases (check_malformed v.parents)) [
          | inr (reason, bad) ↦
              rw (new, right, bad)
                (unchanged-Progress sha256 vs got v d g
                  (λ s. absurd (ground (arith, bad, s.formed))) _
                  (rw (new, right, bad, add_vertex) at
                    (add_vertex-DagInv sha256 v round now d g.inv)))
          | inl formed ↦
              rw (new, right, formed)
                (locked-Progress sha256 vs got v round d g sending left (record {
                  hashed = (nat_beq_iff v.hash (calculate_hash sha256 v)).0 right;
                  formed = formed;
                }))
        ]
      ]
    ]

pub deliver_keeps-DagInv :
    (sha256 : Bytes → Hash) (xs : List Delivery) (d : Dag)
    → DagInv sha256 d
    → DagInv sha256 (deliver sha256 xs d)
unfolding deliver
deliver_keeps-DagInv sha256 [] d i = i
deliver_keeps-DagInv sha256 (x ∷ xs) d i =
    deliver_keeps-DagInv sha256 xs _ (add_vertex-DagInv sha256 x.vertex x.round x.now d i)
