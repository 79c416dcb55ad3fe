-- ===== src/Consensus/Quorum/Intersection.antt =====
-- consensus/quorumpolicy.go: the signers that two certificates share.
use native.Mathlib.Nat.{le_refl}
use klef.Prelude.{
  ℕ, ℤ, ◌+◌, ◌*◌, ◌^◌, ◌≤◌, ◌<◌, ◌≡◌, refl, inl, inr, Bool, true, false, ◌&&◌, List, [], ◌∷◌, arith,
  length, if◌then◌else◌, Bool-cases, contains, ◌==◌, int_eq, int_beq_iff,
}
use klef.Prelude.Map.{lookup, has, delete, Distinct, lookup-delete, delete-Distinct, length-delete}
use klef.Prelude.Float.{Float64}
use klef.Types.Hash.{Bytes}
use klef.Types.Vertex.{QcType, qc_global, qc_committee, Qc}
use klef.Consensus.Quorum.{QuorumPolicy, stricter, size_of, calc, quorum_size, is_quorum}
use klef.Consensus.Quorum.Rounding.{IsHalf, floor_mul-half}

abbrev Signers : Type 0
Signers = List (ℤ × Bytes)

-- The signers are among the nodes.
abbrev pub Among : List ℤ → List (ℤ × Bytes) → Type 0
Among nodes m = (a : ℤ) → has a m ≡ true → contains a nodes ≡ true

has-delete : (k a : ℤ) (m : Signers) → has a (delete k m) ≡ (if k == a then false else has a m)
unfolding has
has-delete k a m = ground (arith, lookup-delete k a m)

delete-Among :
    (u : ℤ) (nodes : List ℤ) (m : Signers) → Among (u ∷ nodes) m → Among nodes (delete u m)
unfolding contains
delete-Among u nodes m among a h = ground (arith, h, has-delete u a m, among a)

empty_of_Among : (m : Signers) → Among [] m → m ≡ []
unfolding has lookup contains
empty_of_Among [] among = refl
empty_of_Among ((k, s) ∷ m) among = absurd (ground (arith, among k, int_beq_iff k k))

-- Two sets of signers that together outnumber the nodes share one.
share :
    (nodes : List ℤ) (m m' : Signers)
    → Distinct m
    → Distinct m'
    → Among nodes m
    → Among nodes m'
    → length nodes < length m + length m'
    → (a : ℤ) × (has a m ≡ true) × (has a m' ≡ true)
share [] m m' d d' among among' many =
    absurd (ground (arith, many, empty_of_Among m among, empty_of_Among m' among'))
share (u ∷ nodes) m m' d d' among among' many = elim (Bool-cases (has u m && has u m')) [
  | inl both ↦ (u, ground (arith, both), ground (arith, both))
  | inr one ↦
      let (a, x, y) =
        share nodes (delete u m) (delete u m') (delete-Distinct u m d) (delete-Distinct u m' d')
          (delete-Among u nodes m among) (delete-Among u nodes m' among')
          (ground (arith, one, many, length-delete u m d, length-delete u m' d')) in
      (a, ground (arith, x, has-delete u a m), ground (arith, y, has-delete u a m'))
]

abbrev ratio_of : QuorumPolicy → QcType → Float64
ratio_of p qc_global = p.global_ratio
ratio_of p qc_committee = p.committee_ratio

-- The sizes of membership that count: the new one, and during a transition the old one too.
pub data Counts (p : QuorumPolicy) : QcType → ℕ → Type 0 where
  new_total : Counts p qc_global p.new_total_n
  new_committee : Counts p qc_committee p.new_committee_n
  old_total : p.is_transitioning ≡ true → Counts p qc_global p.old_total_n
  old_committee : p.is_transitioning ≡ true → Counts p qc_committee p.old_committee_n

le-stricter : (a b : ℕ) → (a ≤ stricter a b) × (b ≤ stricter a b)
unfolding stricter
le-stricter a b = (ground arith, ground arith)

calc-le-size_of : (b : Bool) (o n : ℕ) (r : Float64) → calc n r ≤ size_of b o n r
unfolding size_of
calc-le-size_of true o n r = (le-stricter (calc o r) (calc n r)).1
calc-le-size_of false o n r = le_refl (calc n r)

calc_old-le-size_of : (o n : ℕ) (r : Float64) → calc o r ≤ size_of true o n r
unfolding size_of
calc_old-le-size_of o n r = (le-stricter (calc o r) (calc n r)).0

calc-le-quorum_size :
    (p : QuorumPolicy) (kind : QcType) (n : ℕ)
    → Counts p kind n
    → calc n (ratio_of p kind) ≤ quorum_size p kind
unfolding quorum_size
calc-le-quorum_size p kind n new_total =
    calc-le-size_of p.is_transitioning p.old_total_n n p.global_ratio
calc-le-quorum_size p kind n new_committee =
    calc-le-size_of p.is_transitioning p.old_committee_n n p.committee_ratio
calc-le-quorum_size p kind n (old_total moving) =
    rw moving (calc_old-le-size_of n p.new_total_n p.global_ratio)
calc-le-quorum_size p kind n (old_committee moving) =
    rw moving (calc_old-le-size_of n p.new_committee_n p.committee_ratio)

module _ (p : QuorumPolicy) (kind : QcType) (half : IsHalf (ratio_of p kind)) where
  -- A quorum is a majority of each membership that counts.
  pub quorum_size-majority : (n : ℕ) → n < 2 ^ 53 → Counts p kind n → n < 2 * quorum_size p kind
  unfolding calc
  quorum_size-majority n small counts =
      omega
        (arith, floor_mul-half n (ratio_of p kind) small half, calc-le-quorum_size p kind n counts)

  -- At a ratio of at least one half, two certificates that IsQuorum accepts, with distinct signers
  -- among the nodes of a membership that counts, share a signer.
  pub is_quorum_intersection :
      (nodes : List ℤ) (q q' : Qc)
      → length nodes < 2 ^ 53
      → Counts p kind (length nodes)
      → q.kind ≡ kind
      → q'.kind ≡ kind
      → Distinct q.signatures
      → Distinct q'.signatures
      → Among nodes q.signatures
      → Among nodes q'.signatures
      → is_quorum p q ≡ true
      → is_quorum p q' ≡ true
      → (a : ℤ) × (has a q.signatures ≡ true) × (has a q'.signatures ≡ true)
  unfolding is_quorum
  is_quorum_intersection nodes q q' small counts k k' d d' among among' enough enough' =
      share nodes q.signatures q'.signatures d d' among among'
        (ground (arith, quorum_size-majority (length nodes) small counts, k, k', enough, enough'))
