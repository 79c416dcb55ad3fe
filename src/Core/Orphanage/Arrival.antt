-- ===== src/Core/Orphanage/Arrival.antt =====
-- core/orphanage.go: what OnParentArrival does for each child that waits.
use klef.Prelude.{
  ℕ, ◌+◌, ◌-◌, ◌<◌, ◌≡◌, refl, sym, ◌∙◌, ◌⊎◌, inl, inr, some, List, [], ◌∷◌, arith, length,
  length-append, All, All-mono, All-append, or_zero, ◌==◌, nat_eq, Option-cases, Bool-cases, leb,
  Member, Member-append_left, Member-append_right, none, true, false,
}
use klef.Prelude.Map.{
  lookup, has, Distinct, lookup-insert, lookup-delete, insert-Distinct, delete-Distinct,
  length-delete, length-insert,
}
use klef.Types.Hash.{Hash}
use klef.Types.Vertex.{Vertex}
use klef.Core.Orphanage.{Orphanage, settle, settle_all}
use klef.Core.Orphanage.Occurrences.{occ}

abbrev pub count_of : Orphanage → Hash → ℕ
count_of b c = or_zero (lookup c b.lost_parent_count) 0

-- What a round, or a run of rounds over the children, does to the buffer.
pub record Settled (children : List Vertex) (b : Orphanage) (r : Orphanage × List Vertex)
    : Type 0 where
  pub lost : r.0.lost_parents ≡ b.lost_parents
  pub room : r.0.capacity ≡ b.capacity
  pub counts : (c : Hash) → count_of r.0 c ≡ count_of b c - occ c children
  pub positive :
      ((c : Hash) (n : ℕ) → lookup c b.lost_parent_count ≡ some n → 0 < n)
      → (c : Hash) (n : ℕ) → lookup c r.0.lost_parent_count ≡ some n
      → 0 < n
  pub synced :
      ((c : Hash) → has c b.lost_parent_count ≡ has c b.orphans)
      → (c : Hash) → has c r.0.lost_parent_count ≡ has c r.0.orphans
  pub distinct :
      Distinct b.lost_parent_count
      → Distinct b.orphans
      → Distinct r.0.lost_parent_count × Distinct r.0.orphans
  pub fewer : (c : Hash) (w : Vertex) → lookup c r.0.orphans ≡ some w → lookup c b.orphans ≡ some w
  pub ready : All (λ w. Member w children × (count_of r.0 w.hash ≡ 0)) r.1
  pub sizes :
      Distinct b.lost_parent_count
      → Distinct b.orphans
      → length r.1 + length r.0.lost_parent_count ≡ length b.lost_parent_count
  pub none_lost :
      All (λ w. (u : Vertex) → lookup w.hash b.orphans ≡ some u → u ≡ w) children
      → (c : Hash) (w : Vertex) → lookup c b.orphans ≡ some w
      → (lookup c r.0.orphans ≡ some w) ⊎ Member w r.1

module _ (v : Vertex) (b : Orphanage) where
  settle_absent-Settled : lookup v.hash b.lost_parent_count ≡ none → Settled (v ∷ []) b (settle v b)
  unfolding settle occ has
  settle_absent-Settled e =
      rw (e, settle)
        (record {
          lost = refl;
          room = refl;
          counts = λ c. ground (arith, e);
          positive = λ h. h;
          synced = λ h. h;
          distinct = λ p q. (p, q);
          fewer = λ c w h. h;
          ready = tt;
          sizes = λ d _. omega arith;
          none_lost = λ h c w f. inl f;
        })

  module _ (n : ℕ) (e : lookup v.hash b.lost_parent_count ≡ some n) where
    -- The last missing parent has come.
    settle_last-Settled : leb (n - 1) 0 ≡ true → Settled (v ∷ []) b (settle v b)
    unfolding settle occ has
    settle_last-Settled last =
        rw (e, settle, last)
          (record {
            lost = refl;
            room = refl;
            counts = λ c. ground (arith, e, last, lookup-delete v.hash c b.lost_parent_count);
            positive = λ h c m f. ground (arith, h c m, lookup-delete v.hash c b.lost_parent_count);
            synced = λ h c. ground (
              arith,
              h c,
              lookup-delete v.hash c b.lost_parent_count,
              lookup-delete v.hash c b.orphans,
            );
            distinct = λ p q. (delete-Distinct v.hash _ p, delete-Distinct v.hash _ q);
            fewer = λ c w f. ground (arith, lookup-delete v.hash c b.orphans);
            ready =
                ((inl refl, ground (arith, lookup-delete v.hash v.hash b.lost_parent_count)), tt);
            sizes = λ d _. ground (arith, e, length-delete v.hash b.lost_parent_count d);
            none_lost = λ h c w f. elim (Bool-cases (v.hash == c)) [
              | inl same ↦ inr (inl (sym (h.0 w (ground arith))))
              | inr differ ↦ inl (ground (arith, lookup-delete v.hash c b.orphans))
            ];
          })

    settle_more-Settled : leb (n - 1) 0 ≡ false → Settled (v ∷ []) b (settle v b)
    unfolding settle occ has
    settle_more-Settled more =
        rw (e, settle, more)
          (record {
            lost = refl;
            room = refl;
            counts = λ c. ground (arith, e, lookup-insert v.hash c (n - 1) b.lost_parent_count);
            positive = λ h c m f.
                ground (arith, h c m, more, lookup-insert v.hash c (n - 1) b.lost_parent_count);
            synced =
                λ h c. ground (arith, e, h c, lookup-insert v.hash c (n - 1) b.lost_parent_count);
            distinct = λ p q. (insert-Distinct v.hash (n - 1) _ p, q);
            fewer = λ c w h. h;
            ready = tt;
            sizes = λ d _. ground (arith, e, length-insert v.hash (n - 1) b.lost_parent_count);
            none_lost = λ h c w f. inl f;
          })

  settle-Settled : Settled (v ∷ []) b (settle v b)
  settle-Settled = elim (Option-cases (lookup v.hash b.lost_parent_count)) [
    | inl e ↦ settle_absent-Settled e
    | inr (n, e) ↦ elim (Bool-cases (leb (n - 1) 0)) [
      | inl last ↦ settle_last-Settled n e last
      | inr more ↦ settle_more-Settled n e more
    ]
  ]

pub settle_all-Settled : (vs : List Vertex) (b : Orphanage) → Settled vs b (settle_all vs b)
unfolding settle_all occ
settle_all-Settled [] b = record {
  lost = refl;
  room = refl;
  counts = λ c. omega arith;
  positive = λ h. h;
  synced = λ h. h;
  distinct = λ p q. (p, q);
  fewer = λ c w h. h;
  ready = tt;
  sizes = λ d _. omega arith;
  none_lost = λ h c w f. inl f;
}
settle_all-Settled (v ∷ vs) b =
    let one = settle-Settled v b in
    let b' = (settle v b).0 in
    let rest = settle_all-Settled vs b' in
    record {
      lost = rest.lost ∙ one.lost;
      room = rest.room ∙ one.room;
      counts = λ c. omega (arith, one.counts c, rest.counts c);
      positive = λ h. rest.positive (one.positive h);
      synced = λ h. rest.synced (one.synced h);
      distinct = λ p q. let d = one.distinct p q in rest.distinct d.0 d.1;
      fewer = λ c w h. one.fewer c w (rest.fewer c w h);
      ready =
          All-append _ (settle v b).1 (settle_all vs b').1
            (All-mono _ _ (settle v b).1
              (λ w r. (
                elim r.0 [ inl e ↦ inl e | inr e ↦ absurd e ],
                omega (arith, r.1, rest.counts w.hash),
              ))
              one.ready)
            (All-mono _ _ (settle_all vs b').1 (λ w r. (inr r.0, r.1)) rest.ready);
      sizes = λ d q. omega (
        arith,
        one.sizes d q,
        rest.sizes (one.distinct d q).0 (one.distinct d q).1,
        length-append (settle v b).1 (settle_all vs b').1,
      );
      none_lost = λ h c w f. elim (one.none_lost (h.0, tt) c w f) [
        | inl kept ↦
            elim (rest.none_lost (All-mono _ _ vs (λ u k x e. k x (one.fewer u.hash x e)) h.1) c w
              kept) [
                | inl still ↦ inl still
                | inr m ↦ inr (Member-append_right (settle v b).1 (settle_all vs b').1 w m)
              ]
        | inr m ↦ inr (Member-append_left (settle v b).1 (settle_all vs b').1 w m)
      ];
    }
