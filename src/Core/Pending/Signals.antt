-- ===== src/Core/Pending/Signals.antt =====
-- core/pending_manager.go: who is signalled when a hash is removed.
use klef.Prelude.{
  ℕ, ℤ, zero, suc, ◌≡◌, refl, sym, subst, ◌⊎◌, inl, inr, true, List, [], ◌∷◌, ◌++◌, arith, length,
  if◌then◌else◌, ◌==◌, nat_eq, nat_beq_iff, Bool-cases, contains, or_zero,
}
use klef.Prelude.Map.{lookup, insert, delete, lookup-insert, lookup-delete}
use klef.Prelude.Sets.{contains-append}
use klef.Types.Hash.{Hash}
use klef.Core.Heap.{pop}
use klef.Core.Pending.{
  PendingManager, is_pending, add, watch_all, watch, signal_all, remove, cleanup_loop, cleanup,
  expires_before,
}
use klef.Core.Pending.Cleanup.{Call, adds, watches, removes, cleans, call, call_all}
use klef.Core.Pending.Flight.{queue-cases}

signal_all-contains :
    (channels signalled : List ℕ) (ch : ℕ)
    → contains ch (signal_all channels signalled)
      ≡ (if contains ch channels then true else contains ch signalled)
unfolding signal_all contains
signal_all-contains [] signalled ch = refl
signal_all-contains (c ∷ channels) signalled ch = ground (
  arith,
  nat_beq_iff c ch,
  signal_all-contains channels (if contains c signalled then signalled else c ∷ signalled) ch,
)

watch_all-lookup :
    (ch : ℕ) (hashes : List Hash) (watchers : List (Hash × List ℕ)) (h : Hash)
    → (if contains h hashes then true else contains ch (or_zero (lookup h watchers) [])) ≡ true
    → contains ch (or_zero (lookup h (watch_all ch hashes watchers)) []) ≡ true
unfolding watch_all contains
watch_all-lookup ch [] watchers h e = ground (arith, e)
watch_all-lookup ch (k ∷ hashes) watchers h e =
    let more = or_zero (lookup k watchers) [] ++ ch ∷ [] in
    watch_all-lookup ch hashes (insert k more watchers) h (
      ground (
        arith,
        e,
        nat_beq_iff k h,
        nat_beq_iff ch ch,
        lookup-insert k h more watchers,
        contains-append ch (or_zero (lookup k watchers) []) (ch ∷ []),
      ))

watch_all-keeps :
    (ch new : ℕ) (hashes : List Hash) (watchers : List (Hash × List ℕ)) (h : Hash)
    → contains ch (or_zero (lookup h watchers) []) ≡ true
    → contains ch (or_zero (lookup h (watch_all new hashes watchers)) []) ≡ true
unfolding watch_all
watch_all-keeps ch new [] watchers h e = e
watch_all-keeps ch new (k ∷ hashes) watchers h e =
    let more = or_zero (lookup k watchers) [] ++ new ∷ [] in
    watch_all-keeps ch new hashes (insert k more watchers) h (
      ground (
        arith,
        e,
        nat_beq_iff k h,
        lookup-insert k h more watchers,
        contains-append ch (or_zero (lookup k watchers) []) (new ∷ []),
      ))

-- The channels of a manager: who watches what, and which are full.
abbrev channels_of : PendingManager → List (Hash × List ℕ) × List ℕ
channels_of pm = (pm.watchers, pm.signalled)

add-channels_of :
    (int63n : ℤ → ℤ) (hash : Hash) (now : ℤ) (pm : PendingManager)
    → channels_of (add int63n hash now pm).0 ≡ channels_of pm
unfolding add
add-channels_of int63n hash now pm = elim (Bool-cases (is_pending hash now pm)) [
  | inl busy ↦ rw busy refl
  | inr free ↦ rw free refl
]

cleanup_loop-channels_of :
    (fuel : ℕ) (now : ℤ) (pm : PendingManager)
    → channels_of (cleanup_loop fuel now pm) ≡ channels_of pm
unfolding cleanup_loop
cleanup_loop-channels_of zero now pm = refl
cleanup_loop-channels_of (suc fuel) now pm = elim (queue-cases pm.pending_queue) [
  | inl e ↦ ground (arith, e)
  | inr (item, items, e) ↦
      let popped = record pm { pending_queue = pop expires_before (item ∷ items) } in
      let expired = record popped { pending_requests = delete item.hash pm.pending_requests } in
      ground (
        arith,
        e,
        cleanup_loop-channels_of fuel now popped,
        cleanup_loop-channels_of fuel now expired,
      )
]

module _ (ch : ℕ) where
  abbrev IsSignalled : PendingManager → Type 0
  IsSignalled pm = contains ch pm.signalled ≡ true

  -- The channel is registered for the hash, or has its signal.
  abbrev IsServed : Hash → PendingManager → Type 0
  IsServed h pm = (contains ch (or_zero (lookup h pm.watchers) []) ≡ true) ⊎ IsSignalled pm

  remove-IsSignalled : (h : Hash) (pm : PendingManager) → IsServed h pm → IsSignalled (remove h pm)
  unfolding remove
  remove-IsSignalled h pm (inl waits) =
      ground (arith, waits, signal_all-contains (or_zero (lookup h pm.watchers) []) pm.signalled ch)
  remove-IsSignalled h pm (inr done) =
      ground (arith, done, signal_all-contains (or_zero (lookup h pm.watchers) []) pm.signalled ch)

  remove-IsServed : (k h : Hash) (pm : PendingManager) → IsServed h pm → IsServed h (remove k pm)
  unfolding remove
  remove-IsServed k h pm (inr done) = inr (remove-IsSignalled k pm (inr done))
  remove-IsServed k h pm (inl waits) = elim (Bool-cases (k == h)) [
    | inl same ↦
        let is_h : h ≡ k = sym ((nat_beq_iff k h).0 same) in
        inr (
          remove-IsSignalled k pm
            (inl (subst (λ x. contains ch (or_zero (lookup x pm.watchers) []) ≡ true) is_h waits)))
    | inr other ↦ inl (ground (arith, waits, other, lookup-delete k h pm.watchers))
  ]

  call-IsServed :
      (c : Call) (h : Hash) (pm : PendingManager) → IsServed h pm → IsServed h (call c pm)
  unfolding call watch cleanup
  call-IsServed (adds int63n hash now) h pm s =
      subst (λ x. (contains ch (or_zero (lookup h x.0) []) ≡ true) ⊎ (contains ch x.1 ≡ true))
        (sym (add-channels_of int63n hash now pm)) s
  call-IsServed (watches hashes) h pm (inl waits) =
      inl (watch_all-keeps ch pm.next_channel hashes pm.watchers h waits)
  call-IsServed (watches hashes) h pm (inr done) = inr done
  call-IsServed (removes hash) h pm s = remove-IsServed hash h pm s
  call-IsServed (cleans now) h pm s =
      subst (λ x. (contains ch (or_zero (lookup h x.0) []) ≡ true) ⊎ (contains ch x.1 ≡ true))
        (sym (cleanup_loop-channels_of (length pm.pending_queue) now pm)) s

  call_all-IsServed :
      (calls : List Call) (h : Hash) (pm : PendingManager)
      → IsServed h pm
      → IsServed h (call_all calls pm)
  unfolding call_all
  call_all-IsServed [] h pm s = s
  call_all-IsServed (c ∷ calls) h pm s =
      call_all-IsServed calls h (call c pm) (call-IsServed c h pm s)

  call-IsSignalled : (c : Call) (pm : PendingManager) → IsSignalled pm → IsSignalled (call c pm)
  unfolding call watch cleanup
  call-IsSignalled (adds int63n hash now) pm s =
      subst (λ x. contains ch x.1 ≡ true) (sym (add-channels_of int63n hash now pm)) s
  call-IsSignalled (watches hashes) pm s = s
  call-IsSignalled (removes hash) pm s = remove-IsSignalled hash pm (inr s)
  call-IsSignalled (cleans now) pm s =
      subst (λ x. contains ch x.1 ≡ true)
        (sym (cleanup_loop-channels_of (length pm.pending_queue) now pm)) s

  call_all-IsSignalled :
      (calls : List Call) (pm : PendingManager) → IsSignalled pm → IsSignalled (call_all calls pm)
  unfolding call_all
  call_all-IsSignalled [] pm s = s
  call_all-IsSignalled (c ∷ calls) pm s =
      call_all-IsSignalled calls (call c pm) (call-IsSignalled c pm s)

-- A channel that watches several hashes has its signal once one of them is removed, whatever other
-- calls come before and after that, the Watches and Removes of other workers included; only the
-- receive on the channel itself, which is none of these calls, takes the signal away.
pub remove-watch :
    (hashes : List Hash) (h : Hash) (pm : PendingManager) (before after : List Call)
    → contains h hashes ≡ true
    → contains pm.next_channel
        (call_all after (remove h (call_all before (watch hashes pm)))).signalled
      ≡ true
unfolding watch
remove-watch hashes h pm before after watched =
    let ch = pm.next_channel in
    let registered = watch_all-lookup ch hashes pm.watchers h (ground (arith, watched)) in
    let served = call_all-IsServed ch before h (watch hashes pm) (inl registered) in
    call_all-IsSignalled ch after (remove h (call_all before (watch hashes pm)))
      (remove-IsSignalled ch h (call_all before (watch hashes pm)) served)
