-- ===== src/Core/Orphanage/Victim.antt =====
-- core/orphanage.go: findVictim and the map's order of iteration.
use mathlib.Core.List.{Perm, Permᴰ}
use mathlib.Core.Logic.{∥∥₁_elim}
use native.Mathlib.Nat.{ℕ_set}
use mathlib.Core.Path.{subst₂, ap₂}
use klef.Prelude.{
  ℕ, ◌≤◌, ◌<◌, ◌≡◌, refl, sym, subst, ◌∙◌, ◌⊎◌, inl, inr, List, [], ◌∷◌, arith, if◌then◌else◌, ltb,
  ◌==◌, nat_eq, Member,
}
use klef.Types.Hash.{Hash, hash_less}
use klef.Core.Orphanage.{Orphanage, victim_loop, find_victim}

-- `(h, k)` is at most as bad a choice as `(v, n)`: fewer missing parents, or as many and no larger hash.
abbrev pub AtMost : Hash → ℕ → Hash → ℕ → Type 0
AtMost h k v n = (k < n) ⊎ ((k ≡ n) × (h ≤ v))

-- The victim is the candidate or an entry, and no candidate or entry is worse.
pub record IsVictim (m : List (Hash × ℕ)) (candidate : Hash) (missing : ℕ) (v : Hash) : Type 0 where
  pub most : ℕ
  pub chosen : ((v ≡ candidate) × (most ≡ missing)) ⊎ Member (v, most) m
  pub over_candidate : AtMost candidate missing v most
  pub over_entries : (h : Hash) (k : ℕ) → Member (h, k) m → AtMost h k v most

-- One round's victim and its count, as in `victim_loop`.
abbrev worse : Hash → ℕ → Hash → ℕ → Hash
worse h k v n = if ltb n k then h else if k == n then if hash_less v h then h else v else v

abbrev most_of : ℕ → ℕ → ℕ
most_of k n = if ltb n k then k else n

round_over :
    (h : Hash) (k : ℕ) (v : Hash) (n : ℕ)
    → AtMost v n (worse h k v n) (most_of k n) × AtMost h k (worse h k v n) (most_of k n)
round_over h k v n = (ground arith, ground arith)

round_chosen :
    (h : Hash) (k : ℕ) (v : Hash) (n : ℕ)
    → ((worse h k v n ≡ v) × (most_of k n ≡ n)) ⊎ ((h ≡ worse h k v n) × (k ≡ most_of k n))
round_chosen h k v n = ground arith

AtMost-trans :
    (h : Hash) (k : ℕ) (v : Hash) (n : ℕ) (w : Hash) (m : ℕ)
    → AtMost h k v n
    → AtMost v n w m
    → AtMost h k w m
AtMost-trans h k v n w m p q = ground arith

victim_loop-IsVictim :
    (m : List (Hash × ℕ)) (candidate : Hash) (missing : ℕ)
    → IsVictim m candidate missing (victim_loop m candidate missing)
unfolding victim_loop
victim_loop-IsVictim [] candidate missing = record {
  most = missing;
  chosen = inl (refl, refl);
  over_candidate = inr (refl, omega arith);
  over_entries = λ h k e. absurd e;
}
victim_loop-IsVictim ((h, k) ∷ rest) candidate missing =
    let r = victim_loop-IsVictim rest (worse h k candidate missing) (most_of k missing) in
    let o = round_over h k candidate missing in
    record {
      most = r.most;
      chosen = elim r.chosen [
        | inl (p, q) ↦ elim (round_chosen h k candidate missing) [
          | inl (p', q') ↦ inl (p ∙ p', q ∙ q')
          | inr (p', q') ↦ inr (inl (λ i. ((p' ∙ sym p) i, (q' ∙ sym q) i)))
        ]
        | inr later ↦ inr (inr later)
      ];
      over_candidate = AtMost-trans candidate missing _ _ _ _ o.0 r.over_candidate;
      over_entries = λ j n e. elim e [
        | inl here ↦
            let top = AtMost-trans h k _ _ _ _ o.1 r.over_candidate in
            subst
              (λ (t : Hash × ℕ).
                AtMost t.0 t.1 (victim_loop rest (worse h k candidate missing) (most_of k missing))
                  r.most)
              here top
        | inr later ↦ r.over_entries j n later
      ];
    }

-- FindVictim picks an entry, or the candidate, with the most missing parents, and among those the
-- one with the largest hash.
pub find_victim-IsVictim :
    (b : Orphanage) (candidate : Hash) (missing : ℕ)
    → IsVictim b.lost_parent_count candidate missing (find_victim b candidate missing)
unfolding find_victim
find_victim-IsVictim b candidate missing =
    victim_loop-IsVictim b.lost_parent_count candidate missing

worse_comm :
    (h : Hash) (k : ℕ) (j : Hash) (l : ℕ) (v : Hash) (n : ℕ)
    → worse j l (worse h k v n) (most_of k n) ≡ worse h k (worse j l v n) (most_of l n)
worse_comm h k j l v n = ground arith

most_of_comm : (k l n : ℕ) → most_of l (most_of k n) ≡ most_of k (most_of l n)
most_of_comm k l n = ground arith

victim_loop-Permᴰ :
    {m m' : List (Hash × ℕ)} (v : Hash) (n : ℕ)
    → Permᴰ m m'
    → victim_loop m v n ≡ victim_loop m' v n
unfolding victim_loop
victim_loop-Permᴰ v n Permᴰ.nil = refl
victim_loop-Permᴰ v n (Permᴰ.cons {a = a} {b = b} {l₁ = m} {l₂ = m'} e p) =
    subst (λ (t : Hash × ℕ). victim_loop (a ∷ m) v n ≡ victim_loop (t ∷ m') v n) e
      (victim_loop-Permᴰ (worse a.0 a.1 v n) (most_of a.1 n) p)
victim_loop-Permᴰ v n (Permᴰ.swap {a = a} {b = b} {l = m} e f) =
    subst₂ (λ (s t : Hash × ℕ). victim_loop (a ∷ b ∷ m) v n ≡ victim_loop (t ∷ s ∷ m) v n) e f
      (ap₂ (victim_loop m) (worse_comm a.0 a.1 b.0 b.1 v n) (most_of_comm a.1 b.1 n))
victim_loop-Permᴰ v n (Permᴰ.trans p q) = victim_loop-Permᴰ v n p ∙ victim_loop-Permᴰ v n q

-- Two maps with the same entries give the same victim, in whatever order they are iterated.
pub victim_loop-perm :
    (m m' : List (Hash × ℕ)) (v : Hash) (n : ℕ) → Perm m m' → victim_loop m v n ≡ victim_loop m' v n
victim_loop-perm m m' v n p = ∥∥₁_elim p (ℕ_set _ _) (victim_loop-Permᴰ v n)
