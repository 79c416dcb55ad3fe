-- ===== src/Core/Dag/Closure.antt =====
-- What the insertion loop of core/dag.go commits, for a property that vertices inherit from their
-- parents.
use klef.Prelude.{
  ℕ, zero, suc, ◌≡◌, subst, ◌⊎◌, inl, inr, true, List, ◌∷◌, arith, contains, ◌==◌, nat_eq, int_eq,
  Bool-cases, nat_beq_iff,
}
use klef.Prelude.Map.{has}
use klef.Types.Hash.{Hash, Bytes}
use klef.Types.Vertex.{Vertex}
use klef.Core.Dag.{Dag, Work, insert_step, insert_loop}
use klef.Core.Dag.Invariant.{known}
use klef.Core.Dag.Commit.{Good, insert_step-Good, List-cases}
use klef.Core.Dag.Trace.{IsOrphan, Trace, grows, head_source, insert_step-Trace}

insert_step_closed :
    (sha256 : Bytes → Hash) (d₀ : Dag) (v₀ v : Vertex) (rest : List Vertex) (w : Work)
    → Good sha256 w
    → Trace d₀ v₀ w
    → w.worklist ≡ v ∷ rest
    → (P : Hash → Type 0)
    → ((u : Vertex)
        → (u ≡ v₀) ⊎ IsOrphan u.hash u d₀
        → ((p : Hash) → contains p u.parents ≡ true → P p)
        → P u.hash)
    → ((h : Hash) → known w.dag h ≡ true → P h)
    → (h : Hash) → known (insert_step v rest w).dag h ≡ true
    → P h
unfolding insert_step
insert_step_closed sha256 d₀ v₀ v rest w g t e P inherit all h k =
    elim (Bool-cases (has v.hash w.dag.vertices)) [
      | inl old ↦ all h (rw old at k)
      | inr new ↦
          let after = grows sha256 d₀ v₀ v rest w g t e new h in
          elim (Bool-cases (v.hash == h)) [
            | inl same ↦ subst P ((nat_beq_iff v.hash h).0 same) (
                inherit v (head_source sha256 d₀ v₀ v rest w g t e)
                  (λ p cites. all p ((rw e at g.todo).0.0 p cites)))
            | inr other ↦ all h (ground (arith, after, other, rw new at k))
          ]
    ]

-- A property of hashes that each admissible vertex inherits from its parents holds of all that the
-- loop commits.
pub insert_loop_closed :
    (sha256 : Bytes → Hash) (d₀ : Dag) (v₀ : Vertex) (P : Hash → Type 0)
    → ((u : Vertex)
        → (u ≡ v₀) ⊎ IsOrphan u.hash u d₀
        → ((p : Hash) → contains p u.parents ≡ true → P p)
        → P u.hash)
    → (fuel : ℕ) (w : Work) → Good sha256 w
    → Trace d₀ v₀ w
    → ((h : Hash) → known w.dag h ≡ true → P h)
    → (h : Hash) → known (insert_loop fuel w).dag h ≡ true
    → P h
unfolding insert_loop
insert_loop_closed sha256 d₀ v₀ P inherit zero w g t all = all
insert_loop_closed sha256 d₀ v₀ P inherit (suc fuel) w g t all = elim (List-cases w.worklist) [
  | inl e ↦ rw (e, insert_loop) all
  | inr (v, rest, e) ↦
      rw (e, insert_loop)
        (insert_loop_closed sha256 d₀ v₀ P inherit fuel (insert_step v rest w)
          (insert_step-Good sha256 v rest w g e).0 (insert_step-Trace sha256 d₀ v₀ v rest w g t e)
          (insert_step_closed sha256 d₀ v₀ v rest w g t e P inherit all))
]
