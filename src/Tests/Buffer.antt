-- ===== src/Tests/Buffer.antt =====
-- Runs of the orphan buffer and of the order of parents and hashes.
use mathlib.Core.List.{Permᴰ}
use klef.Prelude.{
  ℕ, Bool, pos, ◌≡◌, ◌↔◌, refl, inl, inr, false, ◌||◌, none, List, [], ◌∷◌, arith, ◌==◌, nat_eq,
  contains,
}
use klef.Prelude.Sorting.{IsIncreasing}
use klef.Types.Hash.{Hash}
use klef.Types.Parents.{check_malformed, normalize}
use klef.Types.Parents.Canonical.{check_malformed-eq-none_iff, normalize-canonical}
use klef.Core.Orphanage.{
  Orphanage, new_orphanage, add_orphan, on_parent_arrival, find_victim, victim_loop,
}
use klef.Core.Orphanage.Invariant.{Inv, Misses, new_orphanage-Inv}
use klef.Core.Orphanage.Registration.{add_orphan-Inv}
use klef.Core.Orphanage.Capacity.{IsBounded, add_orphan-IsBounded}
use klef.Core.Orphanage.Victim.{IsVictim, find_victim-IsVictim, victim_loop-perm}
use klef.Core.Orphanage.Release.{Released, on_parent_arrival-Released}
use klef.Tests.Data.{child, unsorted}

abbrev nothing : Hash → Bool
nothing h = false

abbrev only_genesis : Hash → Bool
only_genesis h = 32 == h || nothing h

abbrev empty_buffer : Orphanage
empty_buffer = new_orphanage (pos 1)

abbrev one_orphan : Orphanage
one_orphan = add_orphan child (32 ∷ []) empty_buffer

child-Misses : Misses nothing child (32 ∷ [])
child-Misses = record {
  some_missing = omega arith;
  each_once = (tt, tt);
  not_known = λ p e. refl;
  among = λ p e. e;
  complete = λ p e. inr e;
}

add_orphan-Inv_example : Inv nothing (add_orphan child (32 ∷ []) empty_buffer)
add_orphan-Inv_example =
    add_orphan-Inv nothing child (32 ∷ []) empty_buffer child-Misses
      (new_orphanage-Inv nothing (pos 1))

add_orphan-IsBounded_example : IsBounded (add_orphan child (32 ∷ []) empty_buffer)
unfolding new_orphanage
add_orphan-IsBounded_example =
    add_orphan-IsBounded nothing child (32 ∷ []) empty_buffer (new_orphanage-Inv nothing (pos 1))
      (inl refl)

one_orphan-Inv : Inv nothing one_orphan
one_orphan-Inv =
    add_orphan-Inv nothing child (32 ∷ []) empty_buffer child-Misses
      (new_orphanage-Inv nothing (pos 1))

on_parent_arrival-Released_example :
    Released only_genesis one_orphan (on_parent_arrival 32 one_orphan)
on_parent_arrival-Released_example =
    on_parent_arrival-Released nothing only_genesis 32 one_orphan one_orphan-Inv (λ h. refl)

find_victim-IsVictim_example :
    IsVictim one_orphan.lost_parent_count 40 2 (find_victim one_orphan 40 2)
find_victim-IsVictim_example = find_victim-IsVictim one_orphan 40 2

abbrev counts : List (Hash × ℕ)
counts = (5, 1) ∷ (9, 2) ∷ []

abbrev counts' : List (Hash × ℕ)
counts' = (9, 2) ∷ (5, 1) ∷ []

victim_loop-perm_example : victim_loop counts 40 1 ≡ victim_loop counts' 40 1
victim_loop-perm_example = victim_loop-perm counts counts' 40 1 ∣ Permᴰ.swap refl refl ∣₁

check_malformed-eq-none_iff_example :
    (check_malformed (4 ∷ 9 ∷ []) ≡ none) ↔ IsIncreasing (4 ∷ 9 ∷ [])
check_malformed-eq-none_iff_example = check_malformed-eq-none_iff (4 ∷ 9 ∷ [])

normalize-canonical_example :
    (check_malformed (normalize unsorted).0.parents ≡ none)
    × ((a : Hash) → contains a (normalize unsorted).0.parents ≡ contains a (9 ∷ 4 ∷ []))
normalize-canonical_example = normalize-canonical unsorted
