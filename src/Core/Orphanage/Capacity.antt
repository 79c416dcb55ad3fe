-- ===== src/Core/Orphanage/Capacity.antt =====
-- core/orphanage.go: the buffer's size against its capacity.
use klef.Prelude.{
  ℕ, pos, suc, ◌≤ℤ◌, ◌≡◌, refl, ap, ◌⊎◌, inl, inr, Bool, true, false, List, [], ◌∷◌, arith, length,
  ◌==◌, nat_eq, Member, Option-cases,
}
use klef.Prelude.Map.{lookup, has, length-insert, length-delete}
use klef.Types.Hash.{Hash}
use klef.Types.Vertex.{Vertex}
use klef.Core.Orphanage.{Orphanage, find_victim, is_full, remove_orphan, register, add_orphan}
use klef.Core.Orphanage.Invariant.{Inv}
use klef.Core.Orphanage.Registration.{remove_orphan-has}
use klef.Core.Orphanage.Victim.{find_victim-IsVictim}

-- Empty, or no larger than the capacity (which a configuration may set to 0 or below).
abbrev pub IsBounded : Orphanage → Type 0
IsBounded b = (length b.lost_parent_count ≡ 0) ⊎ (pos (length b.lost_parent_count) ≤ℤ b.capacity)

has_of_entry : (h : Hash) (n : ℕ) (m : List (Hash × ℕ)) → Member (h, n) m → has h m ≡ true
unfolding has lookup
has_of_entry h n [] e = absurd e
has_of_entry h n ((j, k) ∷ m) (inl e) =
    let same : j ≡ h = ap (λ (t : Hash × ℕ). t.0) e in ground arith
has_of_entry h n ((j, k) ∷ m) (inr e) = ground (arith, has_of_entry h n m e)

-- A victim that is not the candidate is in the buffer.
victim_held :
    (v : Hash) (missing : ℕ) (b : Orphanage)
    → (find_victim b v missing == v) ≡ false
    → has (find_victim b v missing) b.lost_parent_count ≡ true
victim_held v missing b other =
    let r = find_victim-IsVictim b v missing in
    elim r.chosen [
      | inl (e, _) ↦ absurd (ground (arith, e, other))
      | inr e ↦ has_of_entry (find_victim b v missing) r.most b.lost_parent_count e
    ]

length-remove_orphan :
    (known : Hash → Bool) (h : Hash) (b : Orphanage)
    → Inv known b
    → has h b.lost_parent_count ≡ true
    → suc (length (remove_orphan h b).lost_parent_count) ≡ length b.lost_parent_count
unfolding remove_orphan has
length-remove_orphan known h b i held = elim (Option-cases (lookup h b.orphans)) [
  | inl e ↦ absurd (ground (arith, e, i.synced h))
  | inr (v, e) ↦
      rw (e, remove_orphan) (ground (arith, length-delete h b.lost_parent_count i.distinct_count))
]

remove_orphan-capacity : (h : Hash) (b : Orphanage) → (remove_orphan h b).capacity ≡ b.capacity
unfolding remove_orphan
remove_orphan-capacity h b = ground arith

length-register :
    (v : Vertex) (missing : List Hash) (b : Orphanage)
    → has v.hash b.lost_parent_count ≡ false
    → length (register v missing b).lost_parent_count ≡ suc (length b.lost_parent_count)
unfolding register
length-register v missing b fresh =
    ground (arith, length-insert v.hash (length missing) b.lost_parent_count)

register-capacity :
    (v : Vertex) (missing : List Hash) (b : Orphanage)
    → (register v missing b).capacity ≡ b.capacity
unfolding register
register-capacity v missing b = refl

-- AddOrphan evicts before it registers: a buffer with its invariant that is within its capacity (or
-- empty) stays so.
pub add_orphan-IsBounded :
    (known : Hash → Bool) (v : Vertex) (missing : List Hash) (b : Orphanage)
    → Inv known b
    → IsBounded b
    → IsBounded (add_orphan v missing b)
unfolding add_orphan is_full
add_orphan-IsBounded known v missing b i bounded =
    let victim = find_victim b v.hash (length missing) in
    ground (
      arith,
      victim_held v.hash (length missing) b,
      length-remove_orphan known victim b i,
      remove_orphan-capacity victim b,
      remove_orphan-has victim v.hash b,
      length-register v missing b,
      length-register v missing (remove_orphan victim b),
      register-capacity v missing b,
      register-capacity v missing (remove_orphan victim b),
    )
