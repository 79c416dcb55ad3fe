-- ===== src/Core/Pending/Flight.antt =====
-- core/pending_manager.go: which calls change whether a hash is pending, and for how long.
use klef.Prelude.{
  ℕ, ℤ, zero, suc, ◌≤ℤ◌, ◌≡◌, refl, ◌⊎◌, false, not, some, List, [], ◌∷◌, arith, length, ltb_ℤ,
  if◌then◌else◌, ◌==◌, nat_eq, nat_beq_iff, int_eq, int_beq_iff, inl, inr, Bool-cases, Option-cases,
}
use klef.Prelude.Map.{lookup, delete, lookup-insert, lookup-delete}
use klef.Types.Hash.{Hash}
use klef.Core.Heap.{pop}
use klef.Core.Pending.{
  PendingManager, PendingMeta, PendingItem, window_end, is_pending, next_retry, add, remove,
  is_stale, cleanup_loop, cleanup, expires_before,
}

-- A call of Add succeeds exactly when its hash is not pending. If it succeeds, the hash is pending
-- until the end of the new window, and no call changes that of any other hash.
pub is_pending-add :
    (int63n : ℤ → ℤ) (hash : Hash) (now : ℤ) (pm : PendingManager) (h : Hash) (t : ℤ)
    → ((add int63n hash now pm).1 ≡ not (is_pending hash now pm))
      × (is_pending h t (add int63n hash now pm).0 ≡ (
          if (if hash == h then not (is_pending hash now pm) else false)
          then ltb_ℤ t (window_end int63n hash now pm)
          else is_pending h t pm))
unfolding add is_pending
is_pending-add int63n hash now pm h t =
    let expiry = window_end int63n hash now pm in
    let meta : PendingMeta = record {
      request_time = now;
      expiry_time = expiry;
      retry_count = next_retry (lookup hash pm.pending_requests);
    } in
    elim (Bool-cases (is_pending hash now pm)) [
      | inl busy ↦ (ground (arith, busy), ground (arith, busy))
      | inr free ↦ (
        ground (arith, free),
        ground (arith, free, nat_beq_iff hash h, lookup-insert hash h meta pm.pending_requests),
      )
    ]

-- After Remove the hash is not pending; every other hash is as before.
pub is_pending-remove :
    (hash : Hash) (pm : PendingManager) (h : Hash) (t : ℤ)
    → is_pending h t (remove hash pm) ≡ (if hash == h then false else is_pending h t pm)
unfolding is_pending remove
is_pending-remove hash pm h t = ground (arith, lookup-delete hash h pm.pending_requests)

-- An entry of the queue that is not stale is the map's request.
stale_lem :
    (item : PendingItem) (pm : PendingManager)
    → is_stale item pm ≡ false
    → (meta : PendingMeta) × (lookup item.hash pm.pending_requests ≡ some meta)
      × (meta.expiry_time ≡ item.expiry_time)
unfolding is_stale
stale_lem item pm h = elim (Option-cases (lookup item.hash pm.pending_requests)) [
  | inl n ↦ absurd (ground (arith, h, n))
  | inr (meta, e) ↦ (meta, e, ground (arith, h, e, int_beq_iff meta.expiry_time item.expiry_time))
]

pub queue-cases :
    {A : Type 0} (xs : List A) → (xs ≡ []) ⊎ ((x : A) × (rest : List A) × (xs ≡ x ∷ rest))
queue-cases [] = inl refl
queue-cases (x ∷ rest) = inr (x, rest, refl)

is_pending-cleanup_loop :
    (fuel : ℕ) (now : ℤ) (pm : PendingManager) (h : Hash) (t : ℤ)
    → now ≤ℤ t
    → is_pending h t (cleanup_loop fuel now pm) ≡ is_pending h t pm
unfolding cleanup_loop is_pending
is_pending-cleanup_loop zero now pm h t later = refl
is_pending-cleanup_loop (suc fuel) now pm h t later = elim (queue-cases pm.pending_queue) [
  | inl e ↦ ground (arith, e)
  | inr (item, items, e) ↦
      let popped = record pm { pending_queue = pop expires_before (item ∷ items) } in
      let expired = record popped { pending_requests = delete item.hash pm.pending_requests } in
      elim (Bool-cases (is_stale item pm)) [
        | inl stale ↦ ground (arith, e, stale, is_pending-cleanup_loop fuel now popped h t later)
        | inr fresh ↦
            let (meta, found, same) = stale_lem item pm fresh in
            ground (
              arith,
              e,
              fresh,
              found,
              same,
              later,
              nat_beq_iff item.hash h,
              lookup-delete item.hash h pm.pending_requests,
              is_pending-cleanup_loop fuel now expired h t later,
            )
      ]
]

-- The clean-up at a time changes no answer from then on: it drops expired and stale requests only.
pub is_pending-cleanup :
    (now : ℤ) (pm : PendingManager) (h : Hash) (t : ℤ)
    → now ≤ℤ t
    → is_pending h t (cleanup now pm) ≡ is_pending h t pm
unfolding cleanup
is_pending-cleanup now pm h t later =
    is_pending-cleanup_loop (length pm.pending_queue) now pm h t later
