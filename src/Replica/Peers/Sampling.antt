-- ===== src/Replica/Peers/Sampling.antt =====
-- replica/peers.go: which peers a sample holds.
use klef.Prelude.{
  ℕ, ℤ, pos, zero, suc, ◌≤◌, ◌<◌, ◌≡◌, refl, sym, ap, ◌∙◌, subst, inl, inr, Bool, or_zero, true,
  false, none, some, List, [], ◌∷◌, arith, length, length-empty, take, nat_beq, ltb, if◌then◌else◌,
  split_if, int_eq, ◌==◌, int_beq_iff, Bool-cases,
}
use mathlib.Core.Logic.{∥∥₁_elim}
use native.Mathlib.Nat.{ℕ_set}
use mathlib.Core.HLevel.{⊥_prop}
use mathlib.Core.Bool.{Bool-set}
use mathlib.Core.List.{
  Mem, Mem-prop, Perm, Permᴰ, Pairwise, Nodup, Nodup-cons, mem-cons_self, mem-cons_of_mem,
  eq-or-mem_of_mem-cons, not-mem-nil,
}
use mathlib.Core.List.Perm
use klef.Core.Heap.Array.{length-take}
use klef.Prelude.Map.{lookup, Distinct}
use klef.Replica.{Replica, active_of, get_active_peer_ids}
use klef.Replica.Peers.{get_random_peers, shuffle_and_pick}

module _ (x : ℤ) where
  absent : (peers : List (ℤ × Bool)) → lookup x peers ≡ none → Mem x (active_of peers) → ⊥
  unfolding active_of lookup
  absent [] e m = not-mem-nil m
  absent ((k, active) ∷ peers) e m = elim (Bool-cases (k == x)) [
    | inl same ↦ ground (arith, e, same)
    | inr other ↦
        let gone : lookup x peers ≡ none = ground (arith, e, other) in
        elim (Bool-cases active) [
          | inl on ↦
              let m' =
                subst (λ b. Mem x (if b then k ∷ active_of peers else active_of peers)) on m in
              ∥∥₁_elim (eq-or-mem_of_mem-cons m') ⊥_prop (elim [
                | inl here ↦ ground (arith, here, other, int_beq_iff k x)
                | inr there ↦ absent peers gone there
              ])
          | inr off ↦
              absent peers gone
                (subst (λ b. Mem x (if b then k ∷ active_of peers else active_of peers)) off m)
        ]
  ]

  -- `r.peers[x]` is true for the ids that getActivePeerIDs gives.
  active_of-active :
      (peers : List (ℤ × Bool))
      → Distinct peers
      → Mem x (active_of peers)
      → or_zero (lookup x peers) false ≡ true
  unfolding active_of lookup
  active_of-active [] d m = absurd (not-mem-nil m)
  active_of-active ((k, active) ∷ peers) d m = elim (Bool-cases active) [
    | inr off ↦
        let m' : Mem x (active_of peers) =
          subst (λ b. Mem x (if b then k ∷ active_of peers else active_of peers)) off m in
        elim (Bool-cases (k == x)) [
          | inr other ↦ ground (arith, other, active_of-active peers d.1 m')
          | inl same ↦
              absurd (
                absent peers (subst (λ y. lookup y peers ≡ none) ((int_beq_iff k x).0 same) d.0) m')
        ]
    | inl on ↦
        let m' : Mem x (k ∷ active_of peers) =
          subst (λ b. Mem x (if b then k ∷ active_of peers else active_of peers)) on m in
        elim (Bool-cases (k == x)) [
          | inl same ↦ ground (arith, same, on)
          | inr other ↦ ∥∥₁_elim (eq-or-mem_of_mem-cons m') (Bool-set _ _) (elim [
            | inl here ↦ ground (arith, here, other, int_beq_iff k x)
            | inr there ↦ ground (arith, other, active_of-active peers d.1 there)
          ])
        ]
  ]

active_of-Nodup : (peers : List (ℤ × Bool)) → Distinct peers → Nodup (active_of peers)
unfolding active_of
active_of-Nodup [] d = Pairwise.nil
active_of-Nodup ((k, active) ∷ peers) d =
    split_if Nodup active (k ∷ active_of peers) (active_of peers)
      (λ on. Nodup-cons.1 (λ m. absent k peers d.0 m, active_of-Nodup peers d.1))
      (λ off. active_of-Nodup peers d.1)

Mem-take : (n : ℕ) (xs : List ℤ) (x : ℤ) → Mem x (take n xs) → Mem x xs
Mem-take zero xs x m = absurd (not-mem-nil m)
Mem-take (suc n) [] x m = absurd (not-mem-nil m)
Mem-take (suc n) (y ∷ xs) x m = ∥∥₁_elim (eq-or-mem_of_mem-cons m) Mem-prop (elim [
  | inl here ↦ subst (λ z. Mem z (y ∷ xs)) (sym here) mem-cons_self
  | inr there ↦ mem-cons_of_mem y (Mem-take n xs x there)
])

Nodup-take : (n : ℕ) (xs : List ℤ) → Nodup xs → Nodup (take n xs)
Nodup-take zero xs d = Pairwise.nil
Nodup-take (suc n) [] d = Pairwise.nil
Nodup-take (suc n) (y ∷ xs) d =
    let (first, rest) = Nodup-cons.0 d in
    Nodup-cons.1 (λ m. first (Mem-take n xs y m), Nodup-take n xs rest)

length-perm : {xs ys : List ℤ} → Permᴰ xs ys → length xs ≡ length ys
length-perm Permᴰ.nil = refl
length-perm (Permᴰ.cons e p) = ap suc (length-perm p)
length-perm (Permᴰ.swap e f) = refl
length-perm (Permᴰ.trans p q) = length-perm p ∙ length-perm q

-- What a sample of at most n peers is.
pub record IsSample (n : ℕ) (r : Replica) (ps : List ℤ) : Type 0 where
  pub size :
      length ps
      ≡ (if ltb n (length (get_active_peer_ids r)) then n else length (get_active_peer_ids r))
  pub no_repeat : Nodup ps
  pub active : (x : ℤ) → Mem x ps → or_zero (lookup x r.peers) false ≡ true

module _ (shuffle : List ℤ → List ℤ) (shuffles : (xs : List ℤ) → Perm (shuffle xs) xs) where
  all-IsSample :
      (n : ℕ) (r : Replica)
      → Distinct r.peers
      → length (get_active_peer_ids r) ≤ n
      → IsSample n r (get_active_peer_ids r)
  unfolding get_active_peer_ids
  all-IsSample n r d few = record {
    size = ground (arith, few);
    no_repeat = active_of-Nodup r.peers d;
    active = λ x m. active_of-active x r.peers d m;
  }

  picked-IsSample :
      (n : ℕ) (r : Replica)
      → Distinct r.peers
      → n < length (get_active_peer_ids r)
      → IsSample n r (take n (shuffle (get_active_peer_ids r)))
  unfolding get_active_peer_ids
  picked-IsSample n r d many =
      let all = active_of r.peers in
      let same_length : length (shuffle all) ≡ length all =
        ∥∥₁_elim (shuffles all) (ℕ_set _ _) length-perm in
      let size = length-take n (shuffle all) (omega (arith, many, same_length)) in
      record {
        size = ground (arith, size, many);
        no_repeat =
            Nodup-take n (shuffle all)
              (Perm.nodup (Perm.symm (shuffles all)) (active_of-Nodup r.peers d));
        active = λ x m.
            active_of-active x r.peers d
              ((Perm.mem_iff (shuffles all)).0 (Mem-take n (shuffle all) x m));
      }

  -- A sample of n peers holds n active peers, or all where there are fewer, and none twice, if the
  -- generator's shuffle only reorders and no peer stands twice in the map.
  pub get_random_peers-IsSample :
      (n : ℕ) (r : Replica)
      → Distinct r.peers
      → (ps : List ℤ) × (get_random_peers shuffle (pos n) r ≡ some ps) × IsSample n r ps
  unfolding get_random_peers shuffle_and_pick
  get_random_peers-IsSample n r d =
      let all = get_active_peer_ids r in
      elim (Bool-cases (ltb n (length all))) [
        | inl many ↦ (
          take n (shuffle all),
          ground (arith, many),
          picked-IsSample n r d (ground (arith, many)),
        )
        | inr few ↦ elim (Bool-cases (nat_beq (length all) 0)) [
          | inl none_active ↦
              let empty : all ≡ [] = length-empty all (ground (arith, none_active)) in
              (
                all,
                ground (arith, few, none_active, empty),
                all-IsSample n r d (ground (arith, few)),
              )
          | inr some_active ↦
              (all, ground (arith, few, some_active), all-IsSample n r d (ground (arith, few)))
        ]
      ]
