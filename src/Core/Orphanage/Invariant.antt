-- ===== src/Core/Orphanage/Invariant.antt =====
-- The buffer's invariant relative to the hashes that the DAG knows: its three maps agree, a count is
-- the number of parents that are missing, and each missing parent lists the child.
use klef.Prelude.{
  ℕ, ℤ, ◌≤◌, ◌<◌, ◌≡◌, refl, ◌⊎◌, Bool, true, false, some, List, arith, length, All, or_zero,
  contains, nat_eq,
}
use klef.Prelude.Map.{lookup, has, Distinct}
use klef.Prelude.Sorting.{IsDistinct}
use klef.Types.Hash.{Hash}
use klef.Types.Vertex.{Vertex}
use klef.Core.Orphanage.{Orphanage, waiting, new_orphanage}
use klef.Core.Orphanage.Occurrences.{occ, pending}

pub record Inv (known : Hash → Bool) (b : Orphanage) : Type 0 where
  pub distinct_lost : Distinct b.lost_parents
  pub distinct_count : Distinct b.lost_parent_count
  pub distinct_orphans : Distinct b.orphans
  pub synced : (c : Hash) → has c b.lost_parent_count ≡ has c b.orphans
  pub counted : (c : Hash) → or_zero (lookup c b.lost_parent_count) 0 ≡ pending c b.lost_parents
  pub positive : (c : Hash) (n : ℕ) → lookup c b.lost_parent_count ≡ some n → 0 < n
  pub keyed : (c : Hash) (v : Vertex) → lookup c b.orphans ≡ some v → v.hash ≡ c
  pub single : (p c : Hash) → occ c (waiting p b.lost_parents) ≤ 1
  pub held : (p : Hash) → All (λ w. lookup w.hash b.orphans ≡ some w) (waiting p b.lost_parents)
  pub cited :
      (c : Hash) (v : Vertex) (p : Hash)
      → lookup c b.orphans ≡ some v
      → 0 < occ c (waiting p b.lost_parents)
      → contains p v.parents ≡ true
  pub covered :
      (c : Hash) (v : Vertex) (p : Hash)
      → lookup c b.orphans ≡ some v
      → contains p v.parents ≡ true
      → (known p ≡ true) ⊎ (0 < occ c (waiting p b.lost_parents))
  pub unknown : (p c : Hash) → 0 < occ c (waiting p b.lost_parents) → known p ≡ false

pub new_orphanage-Inv : (known : Hash → Bool) (limit : ℤ) → Inv known (new_orphanage limit)
unfolding new_orphanage lookup has pending occ
new_orphanage-Inv known limit = record {
  distinct_lost = tt;
  distinct_count = tt;
  distinct_orphans = tt;
  synced = λ c. refl;
  counted = λ c. refl;
  positive = λ c n e. cc;
  keyed = λ c v e. cc;
  single = λ p c. omega arith;
  held = λ p. tt;
  cited = λ c v p e h. cc;
  covered = λ c v p e h. cc;
  unknown = λ p c h. absurd (omega arith);
}

-- What AddVertex finds out about the missing parents before it calls AddOrphan.
pub record Misses (known : Hash → Bool) (v : Vertex) (missing : List Hash) : Type 0 where
  pub some_missing : 0 < length missing
  pub each_once : IsDistinct missing
  pub not_known : (p : Hash) → contains p missing ≡ true → known p ≡ false
  pub among : (p : Hash) → contains p missing ≡ true → contains p v.parents ≡ true
  pub complete :
      (p : Hash) → contains p v.parents ≡ true → (known p ≡ true) ⊎ (contains p missing ≡ true)
