-- ===== src/Core/Dag/Tips.antt =====
-- core/dag.go: GetTips.
use klef.Prelude.{
  ◌≡◌, ◌↔◌, refl, sym, subst, ap, ◌∙◌, inl, inr, Bool, true, false, some, List, [], ◌∷◌, arith,
  Member, contains, ◌==◌, nat_eq, nat_beq_iff, Bool-cases,
}
use klef.Prelude.Map.{lookup, values, Distinct}
use klef.Prelude.Sets.{contains-append}
use klef.Types.Hash.{Hash, Bytes}
use klef.Types.Vertex.{Vertex}
use klef.Core.Dag.{Dag, all_parents, tips_of, get_tips}
use klef.Core.Dag.Invariant.{DagInv}

-- An entry of a map with distinct keys is what a lookup finds.
lookup_entry :
    (m : List (Hash × Vertex)) (h : Hash) (v : Vertex)
    → Distinct m
    → Member (h, v) m
    → lookup h m ≡ some v
unfolding lookup
lookup_entry [] h v d e = absurd e
lookup_entry ((k, w) ∷ m) h v d (inl e) =
    ground
      (arith, nat_beq_iff k h, ap (λ (x : Hash × Vertex). x.0) e, ap (λ (x : Hash × Vertex). x.1) e)
lookup_entry ((k, w) ∷ m) h v d (inr e) =
    ground (arith, d.0, nat_beq_iff k h, lookup_entry m h v d.1 e)

entry_lookup :
    (m : List (Hash × Vertex)) (h : Hash) (v : Vertex) → lookup h m ≡ some v → Member (h, v) m
unfolding lookup
entry_lookup [] h v e = absurd (ground (arith, e))
entry_lookup ((k, w) ∷ m) h v e = elim (Bool-cases (k == h)) [
  | inl same ↦
      let is_v : w ≡ v = ground (arith, e, same) in
      inl (ap (λ x. (x, w)) ((nat_beq_iff k h).0 same) ∙ ap (λ x. (h, x)) is_v)
  | inr next ↦ inr (entry_lookup m h v (ground (arith, e, next)))
]

Member-tips_of :
    (f : Hash → Bool) (m : List (Hash × Vertex)) (v : Vertex)
    → Member v (tips_of f m) ↔ ((h : Hash) × Member (h, v) m × (f h ≡ false))
unfolding tips_of
Member-tips_of f [] v = (λ e. absurd e, λ (h, e, _). absurd e)
Member-tips_of f ((k, w) ∷ m) v =
    let rest = Member-tips_of f m v in
    elim (Bool-cases (f k)) [
      | inl parent ↦ (
        λ e. let t = rest.0 (rw parent at e) in (t.0, inr t.1, t.2),
        λ t. rw parent (elim t.1 [
          | inl e ↦ absurd (ground (arith, parent, t.2, ap (λ (x : Hash × Vertex). x.0) e))
          | inr e ↦ rest.1 (t.0, e, t.2)
        ]),
      )
      | inr tip ↦ (
        λ e. elim (rw tip at e) [
          | inl s ↦ (k, inl (ap (λ x. (k, x)) s), tip)
          | inr s ↦ let t = rest.0 s in (t.0, inr t.1, t.2)
        ],
        λ t. rw tip (elim t.1 [
          | inl e ↦ inl (ap (λ (x : Hash × Vertex). x.1) e)
          | inr e ↦ inr (rest.1 (t.0, e, t.2))
        ]),
      )
    ]

-- A hash is among the parents exactly when some entry names it.
all_parents_named :
    (m : List (Hash × Vertex)) (h k : Hash) (u : Vertex)
    → Member (k, u) m
    → contains h u.parents ≡ true
    → contains h (all_parents (values m)) ≡ true
unfolding all_parents
all_parents_named [] h k u e c = absurd e
all_parents_named ((j, w) ∷ m) h k u (inl e) c =
    let named : contains h w.parents ≡ true =
      ap (λ (x : Hash × Vertex). contains h x.1.parents) e ∙ c in
    ground (arith, contains-append h w.parents (all_parents (values m)), named)
all_parents_named ((j, w) ∷ m) h k u (inr e) c =
    ground
      (arith, contains-append h w.parents (all_parents (values m)), all_parents_named m h k u e c)

all_parents_from :
    (m : List (Hash × Vertex)) (h : Hash)
    → contains h (all_parents (values m)) ≡ true
    → (k : Hash) × (u : Vertex) × Member (k, u) m × (contains h u.parents ≡ true)
unfolding all_parents contains
all_parents_from [] h c = absurd (ground (arith, c))
all_parents_from ((j, w) ∷ m) h c = elim (Bool-cases (contains h w.parents)) [
  | inl here ↦ (j, w, inl refl, here)
  | inr there ↦
      let (k, u, e, named) =
        all_parents_from m h
          (ground (arith, c, there, contains-append h w.parents (all_parents (values m)))) in
      (k, u, inr e, named)
]

-- The vertex is in the ledger, and no vertex there names it as a parent.
pub record IsTip (d : Dag) (v : Vertex) : Type 0 where
  pub present : lookup v.hash d.vertices ≡ some v
  pub childless :
      (h : Hash) (u : Vertex) → lookup h d.vertices ≡ some u → contains v.hash u.parents ≡ false

-- In a ledger with its invariant, GetTips gives exactly the vertices that no vertex there names as a
-- parent.
pub Member-get_tips :
    (sha256 : Bytes → Hash) (d : Dag) (v : Vertex)
    → DagInv sha256 d
    → Member v (get_tips d) ↔ IsTip d v
unfolding get_tips
Member-get_tips sha256 d v i =
    let named : Hash → Bool = λ h. contains h (all_parents (values d.vertices)) in
    let tips = Member-tips_of named d.vertices v in
    (
      λ e.
          let (h, entry, free) = tips.0 e in
          let found = lookup_entry d.vertices h v i.base.distinct entry in
          let key = i.base.keyed h v found in
          record {
            present = subst (λ x. lookup x d.vertices ≡ some v) (sym key) found;
            childless = λ k u at. elim (Bool-cases (contains v.hash u.parents)) [
              | inr out ↦ out
              | inl in_ ↦ absurd (
                  ground (
                    arith,
                    free,
                    key,
                    all_parents_named d.vertices v.hash k u (entry_lookup d.vertices k u at) in_,
                  ))
            ];
          },
      λ t. tips.1 (
        v.hash,
        entry_lookup d.vertices v.hash v t.present,
        elim (Bool-cases (named v.hash)) [
          | inr free ↦ free
          | inl taken ↦
              let (k, u, e, c) = all_parents_from d.vertices v.hash taken in
              absurd
                (ground (arith, c, t.childless k u (lookup_entry d.vertices k u i.base.distinct e)))
        ],
      ),
    )
