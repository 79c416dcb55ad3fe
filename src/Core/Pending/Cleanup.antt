-- ===== src/Core/Pending/Cleanup.antt =====
-- core/pending_manager.go: what the loop of cleanup finds.
use klef.Prelude.{
  length-empty, ℕ, ℤ, zero, suc, ◌≤◌, ◌≡◌, refl, sym, ap, inl, inr, true, false, List, [], ◌∷◌,
  arith, length, ltb_ℤ, is_some, nat_eq, int_eq, Bool-cases, Option-cases, some, subst,
}
use mathlib.Core.List.{Mem, not-mem-nil}
use klef.Prelude.Map.{lookup, delete}
use klef.Config.{Config}
use klef.Types.Hash.{Hash}
use klef.Core.Heap.{pop}
use klef.Core.Heap.Queue.{pop-length}
use klef.Core.Pending.{
  PendingManager, PendingMeta, PendingItem, is_pending, add, watch, remove, is_stale, cleanup_loop,
  cleanup, expires_before, new_pending_manager,
}
use klef.Core.Pending.Consistent.{
  IsConsistent, item_of, add-IsConsistent, remove-IsConsistent, watch-IsConsistent,
  new_pending_manager-IsConsistent, stale-IsConsistent, expired-IsConsistent, least-fresh,
}
use klef.Core.Pending.Flight.{queue-cases, is_pending-cleanup}

-- The four ways of a round of the loop.
cleanup_loop-empty :
    (fuel : ℕ) (now : ℤ) (pm : PendingManager)
    → pm.pending_queue ≡ []
    → cleanup_loop fuel now pm ≡ pm
unfolding cleanup_loop
cleanup_loop-empty zero now pm e = refl
cleanup_loop-empty (suc fuel) now pm e = ground (arith, e)

module _ (fuel : ℕ) (now : ℤ) (pm : PendingManager) (item : PendingItem) (items : List PendingItem)
    (e : pm.pending_queue ≡ item ∷ items) where
  abbrev popped_of : PendingManager
  popped_of = record pm { pending_queue = pop expires_before (item ∷ items) }

  abbrev expired_of : PendingManager
  expired_of = record popped_of { pending_requests = delete item.hash pm.pending_requests }

  cleanup_loop-stale :
      is_stale item pm ≡ true → cleanup_loop (suc fuel) now pm ≡ cleanup_loop fuel now popped_of
  unfolding cleanup_loop
  cleanup_loop-stale stale = ground (arith, e, stale)

  cleanup_loop-open :
      is_stale item pm ≡ false
      → ltb_ℤ now item.expiry_time ≡ true
      → cleanup_loop (suc fuel) now pm ≡ pm
  unfolding cleanup_loop
  cleanup_loop-open fresh later = ground (arith, e, fresh, later)

  cleanup_loop-over :
      is_stale item pm ≡ false
      → ltb_ℤ now item.expiry_time ≡ false
      → cleanup_loop (suc fuel) now pm ≡ cleanup_loop fuel now expired_of
  unfolding cleanup_loop
  cleanup_loop-over fresh over = ground (arith, e, fresh, over)

-- Consistent, and no request is over.
abbrev IsClean : ℤ → PendingManager → Type 0
IsClean now pm =
    IsConsistent pm
    × ((h : Hash) (m : PendingMeta)
        → lookup h pm.pending_requests ≡ some m
        → ltb_ℤ now m.expiry_time ≡ true)

empty-IsClean :
    (fuel : ℕ) (now : ℤ) (pm : PendingManager)
    → IsConsistent pm
    → pm.pending_queue ≡ []
    → IsClean now (cleanup_loop fuel now pm)
empty-IsClean fuel now pm c e =
    subst (IsClean now) (sym (cleanup_loop-empty fuel now pm e))
      (c, λ h m found. absurd (not-mem-nil (subst (Mem (item_of h m)) e (c.queued h m found))))

cleanup_loop-IsClean :
    (fuel : ℕ) (now : ℤ) (pm : PendingManager)
    → length pm.pending_queue ≤ fuel
    → IsConsistent pm
    → IsClean now (cleanup_loop fuel now pm)
cleanup_loop-IsClean zero now pm enough c =
    empty-IsClean zero now pm c (length-empty pm.pending_queue enough)
cleanup_loop-IsClean (suc fuel) now pm enough c = elim (queue-cases pm.pending_queue) [
  | inl e ↦ empty-IsClean (suc fuel) now pm c e
  | inr (item, items, e) ↦
      let less : length (pop expires_before (item ∷ items)) ≤ fuel =
        omega (arith, enough, ap length e, pop-length expires_before item items) in
      elim (Bool-cases (is_stale item pm)) [
        | inl stale ↦
            subst (IsClean now) (sym (cleanup_loop-stale fuel now pm item items e stale))
              (cleanup_loop-IsClean fuel now _ less (stale-IsConsistent item items pm c e stale))
        | inr fresh ↦ elim (Bool-cases (ltb_ℤ now item.expiry_time)) [
          | inl later ↦
              subst (IsClean now) (sym (cleanup_loop-open fuel now pm item items e fresh later))
                (c, least-fresh item items pm c e now later)
          | inr over ↦
              subst (IsClean now) (sym (cleanup_loop-over fuel now pm item items e fresh over))
                (cleanup_loop-IsClean fuel now _ less (expired-IsConsistent item items pm c e))
        ]
      ]
]

cleanup-IsClean : (now : ℤ) (pm : PendingManager) → IsConsistent pm → IsClean now (cleanup now pm)
unfolding cleanup
cleanup-IsClean now pm c = cleanup_loop-IsClean (length pm.pending_queue) now pm (omega arith) c

-- The calls that change the state, each with the clock and the generator that it reads.
pub data Call : Type 0 where
  adds : (ℤ → ℤ) → Hash → ℤ → Call
  watches : List Hash → Call
  removes : Hash → Call
  cleans : ℤ → Call

unfoldable pub call : Call → PendingManager → PendingManager
unfolding add watch remove cleanup
call (adds int63n hash now) pm = (add int63n hash now pm).0
call (watches hashes) pm = watch hashes pm
call (removes hash) pm = remove hash pm
call (cleans now) pm = cleanup now pm

unfoldable pub call_all : List Call → PendingManager → PendingManager
unfolding call
call_all [] pm = pm
call_all (c ∷ calls) pm = call_all calls (call c pm)

call-IsConsistent : (c : Call) (pm : PendingManager) → IsConsistent pm → IsConsistent (call c pm)
unfolding call
call-IsConsistent (adds int63n hash now) pm i = add-IsConsistent int63n hash now pm i
call-IsConsistent (watches hashes) pm i = watch-IsConsistent hashes pm i
call-IsConsistent (removes hash) pm i = remove-IsConsistent hash pm i
call-IsConsistent (cleans now) pm i = (cleanup-IsClean now pm i).0

-- Whatever is called, the queue of a manager stays a heap by the expiry times, and every request of
-- the map has its item in the queue.
pub call_all-IsConsistent :
    (calls : List Call) (pm : PendingManager) → IsConsistent pm → IsConsistent (call_all calls pm)
unfolding call_all
call_all-IsConsistent [] pm i = i
call_all-IsConsistent (c ∷ calls) pm i =
    call_all-IsConsistent calls (call c pm) (call-IsConsistent c pm i)

-- After any calls on a new manager, a clean-up leaves in the map exactly the requests that are
-- pending at its time: its loop stops at no request that is over, and drops no other.
pub cleanup-exact :
    (cfg : Config) (calls : List Call) (now : ℤ) (h : Hash)
    → is_some (lookup h (cleanup now (call_all calls (new_pending_manager cfg))).pending_requests)
      ≡ is_pending h now (call_all calls (new_pending_manager cfg))
unfolding is_pending
cleanup-exact cfg calls now h =
    let pm = call_all calls (new_pending_manager cfg) in
    let after = cleanup now pm in
    let clean =
      cleanup-IsClean now pm
        (call_all-IsConsistent calls _ (new_pending_manager-IsConsistent cfg)) in
    let same = is_pending-cleanup now pm h now (omega arith) in
    elim (Option-cases (lookup h after.pending_requests)) [
      | inl missing ↦ ground (arith, missing, same)
      | inr (m, found) ↦ ground (arith, found, same, clean.1 h m found)
    ]
