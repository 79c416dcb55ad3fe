-- ===== src/Core/Validation/Structure.antt =====
-- core/validation/fetch_rules.go: what the structure check of a vertex accepts.
use klef.Prelude.{
  pos, ◌<◌, ◌<ℤ◌, ◌≡◌, ◌≢◌, ◌↔◌, inl, inr, refl, false, none, List, [], ◌∷◌, arith, length, All,
  All-mono, All-both, All-intro, Bool-cases, contains, nat_eq, ltb_ℤ,
}
use klef.Prelude.Sorting.{IsDistinct}
use klef.Types.Hash.{Hash}
use klef.Types.Vertex.{Vertex}
use klef.Core.Validation.{check_parents, validate_structure}

record WellParented (h : Hash) (seen parents : List Hash) : Type 0 where
  each_once : IsDistinct parents
  not_itself : contains h parents ≡ false
  unseen : All (λ p. contains p seen ≡ false) parents

unseen_iff :
    (p : Hash) (seen ps : List Hash)
    → All (λ q. contains q (p ∷ seen) ≡ false) ps
      ↔ (All (λ q. p ≢ q) ps × All (λ q. contains q seen ≡ false) ps)
unfolding contains
unseen_iff p seen ps = (
  λ a. (All-mono _ _ ps (λ q e. ground (arith, e)) a, All-mono _ _ ps (λ q e. ground (arith, e)) a),
  λ b. All-mono _ _ ps (λ q e. ground (arith, e.0, e.1)) (All-both _ _ ps b.0 b.1),
)

check_parents-eq-none_iff :
    (h : Hash) (seen parents : List Hash)
    → (check_parents h seen parents ≡ none) ↔ WellParented h seen parents
unfolding check_parents contains
check_parents-eq-none_iff h seen [] =
    (λ e. record { each_once = tt; not_itself = refl; unseen = tt }, λ w. refl)
check_parents-eq-none_iff h seen (p ∷ ps) =
    let rest = check_parents-eq-none_iff h (p ∷ seen) ps in
    (
      λ e.
          let ok = rest.0 (ground (arith, e)) in
          let split = (unseen_iff p seen ps).0 ok.unseen in
          record {
            each_once = (split.0, ok.each_once);
            not_itself = ground (arith, e, ok.not_itself);
            unseen = (ground (arith, e), split.1);
          },
      λ w.
          let later = rest.1 (record {
            each_once = w.each_once.1;
            not_itself = ground (arith, w.not_itself);
            unseen = (unseen_iff p seen ps).1 (w.each_once.0, w.unseen.1);
          }) in
          ground (arith, later, w.not_itself, w.unseen.0),
    )

-- What a vertex must look like by itself: parents, unless it is of the genesis round, that are
-- distinct and not the vertex.
pub record WellStructured (v : Vertex) : Type 0 where
  pub some_parent : pos 0 <ℤ v.round → 0 < length v.parents
  pub each_once : IsDistinct v.parents
  pub not_itself : contains v.hash v.parents ≡ false

pub validate_structure-eq-none_iff : (v : Vertex) → (validate_structure v ≡ none) ↔ WellStructured v
unfolding validate_structure contains
validate_structure-eq-none_iff v =
    let parents = check_parents-eq-none_iff v.hash [] v.parents in
    (
      λ e.
          let ok = parents.0 (ground (arith, e)) in
          record {
            some_parent = λ later. ground (arith, e, later);
            each_once = ok.each_once;
            not_itself = ok.not_itself;
          },
      λ w.
          let ok = parents.1 (record {
            each_once = w.each_once;
            not_itself = w.not_itself;
            unseen = All-intro _ v.parents (λ p m. refl);
          }) in
          elim (Bool-cases (ltb_ℤ (pos 0) v.round)) [
            | inl later ↦ ground (arith, ok, w.some_parent (ground (arith, later)))
            | inr genesis ↦ ground (arith, ok, genesis)
          ],
    )
