-- ===== src/Core/Pending.antt =====
-- core/pending_manager.go. The mutex makes each method one step; the clock is the argument `now`, in
-- nanoseconds, and `int63n` is the random generator's Int63n. A channel of Watch is a number, and
-- `signalled` are the channels whose buffer of one is full.
pub mod Flight
pub mod Backoff
pub mod Consistent
pub mod Cleanup
pub mod SingleFlight
pub mod Signals
use klef.Prelude.{
  ℕ, ℤ, pos, negsuc, zero, suc, ◌+◌, ◌*◌, ◌/◌, ◌^◌, ◌+ℤ◌, Bool, true, false, not, ◌||◌, Option,
  none, some, List, [], ◌∷◌, ◌++◌, length, ltb, ltb_ℤ, leb_ℤ, add64, wrap64, sub_ℕ, or_zero,
  if◌then◌else◌, ◌==◌, int_eq, nat_eq, contains,
}
use klef.Prelude.Map.{lookup, insert, delete}
use klef.Config.{Config, Duration, millisecond}
use klef.Types.Hash.{Hash}
use klef.Core.Heap.{push, pop}

pub record PendingItem : Type 0 where
  pub hash : Hash
  pub request_time : ℤ
  pub expiry_time : ℤ

pub record PendingMeta : Type 0 where
  pub request_time : ℤ
  pub expiry_time : ℤ
  pub retry_count : ℕ

pub record PendingManager : Type 0 where
  pub pending_requests : List (Hash × PendingMeta)
  pub pending_queue : List PendingItem
  pub watchers : List (Hash × List ℕ)
  pub next_channel : ℕ
  pub signalled : List ℕ
  pub cfg : Config

unfoldable pub new_pending_manager : Config → PendingManager
new_pending_manager cfg = record {
  pending_requests = [];
  pending_queue = [];
  watchers = [];
  next_channel = 0;
  signalled = [];
  cfg = cfg;
}

-- PendingItem.Less
abbrev pub expires_before : PendingItem → PendingItem → Bool
expires_before a b = ltb_ℤ a.expiry_time b.expiry_time

unfoldable pub is_pending : Hash → ℤ → PendingManager → Bool
unfolding lookup
is_pending hash now pm = elim (lookup hash pm.pending_requests) [
  | none ↦ false
  | some meta ↦ ltb_ℤ now meta.expiry_time
]

-- The product with a natural number.
abbrev pub times : ℤ → ℕ → ℤ
times (pos a) n = pos (a * n)
times (negsuc a) n = sub_ℕ 0 (suc a * n)

unfoldable pub next_retry : Option PendingMeta → ℕ
next_retry none = 0
next_retry (some meta) =
    let retry_count = meta.retry_count + 1 in if ltb 15 retry_count then 15 else retry_count

-- `if backoff > MaxBackoff { backoff = MaxBackoff }`
unfoldable pub capped : ℤ → ℤ → ℤ
capped longest backoff = if ltb_ℤ longest backoff then longest else backoff

-- `BaseTimeout * time.Duration(1<<retryCount)`, at most MaxBackoff.
unfoldable pub backoff_of : Config → ℕ → Duration
unfolding wrap64 capped
backoff_of cfg retry_count =
    capped cfg.request.max_backoff (wrap64 (times cfg.request.base_timeout (2 ^ retry_count)))

-- Go's division by 5 of a duration of at least 5.
abbrev pub fifth : ℤ → ℤ
fifth (pos a) = pos (a / 5)
fifth (negsuc a) = pos 0

unfoldable pub jitter_of : (ℤ → ℤ) → Duration → Duration
jitter_of int63n backoff = if leb_ℤ (pos 5) backoff then int63n (fifth backoff) else pos 0

-- The expiry time that Add computes for a request that is not pending.
abbrev pub window_end : (ℤ → ℤ) → Hash → ℤ → PendingManager → ℤ
window_end int63n hash now pm =
    let backoff = backoff_of pm.cfg (next_retry (lookup hash pm.pending_requests)) in
    now +ℤ add64 backoff (jitter_of int63n backoff)

unfoldable pub add : (ℤ → ℤ) → Hash → ℤ → PendingManager → PendingManager × Bool
unfolding lookup insert is_pending next_retry backoff_of jitter_of add64 ◌+ℤ◌ push
add int63n hash now pm =
    if is_pending hash now pm
    then (pm, false)
    else (let retry_count = next_retry (lookup hash pm.pending_requests) in
        let expiry = window_end int63n hash now pm in
        let meta : PendingMeta = record {
          request_time = now;
          expiry_time = expiry;
          retry_count = retry_count;
        } in
        let item : PendingItem = record { hash = hash; request_time = now; expiry_time = expiry } in
        (
          record pm {
            pending_requests = insert hash meta pm.pending_requests;
            pending_queue = push expires_before item pm.pending_queue;
          },
          true,
        ))

-- The loop of Watch.
unfoldable pub watch_all : ℕ → List Hash → List (Hash × List ℕ) → List (Hash × List ℕ)
unfolding lookup insert
watch_all ch [] watchers = watchers
watch_all ch (h ∷ hashes) watchers =
    watch_all ch hashes (insert h (or_zero (lookup h watchers) [] ++ ch ∷ []) watchers)

-- The channel that is returned is the one before `next_channel`.
unfoldable pub watch : List Hash → PendingManager → PendingManager
unfolding watch_all
watch hashes pm = record pm {
  watchers = watch_all pm.next_channel hashes pm.watchers;
  next_channel = suc pm.next_channel;
}

-- The sends to the channels; a full one is passed over.
unfoldable pub signal_all : List ℕ → List ℕ → List ℕ
unfolding contains
signal_all [] signalled = signalled
signal_all (ch ∷ channels) signalled =
    signal_all channels (if contains ch signalled then signalled else ch ∷ signalled)

unfoldable pub remove : Hash → PendingManager → PendingManager
unfolding delete lookup signal_all
remove hash pm = record pm {
  pending_requests = delete hash pm.pending_requests;
  watchers = delete hash pm.watchers;
  signalled = signal_all (or_zero (lookup hash pm.watchers) []) pm.signalled;
}

-- Whether an item of the queue no longer stands for the map's request.
unfoldable pub is_stale : PendingItem → PendingManager → Bool
unfolding lookup
is_stale item pm = elim (lookup item.hash pm.pending_requests) [
  | none ↦ true
  | some meta ↦
      not (meta.request_time == item.request_time) || not (meta.expiry_time == item.expiry_time)
]

-- The loop of cleanup, with fuel; each round pops an item.
unfoldable pub cleanup_loop : ℕ → ℤ → PendingManager → PendingManager
unfolding is_stale pop delete
cleanup_loop zero now pm = pm
cleanup_loop (suc fuel) now pm = elim pm.pending_queue [
  | [] ↦ pm
  | item ∷ items ↦
      let popped = record pm { pending_queue = pop expires_before (item ∷ items) } in
      let expired = record popped { pending_requests = delete item.hash pm.pending_requests } in
      let after_stale = cleanup_loop fuel now popped in
      let after_expired = cleanup_loop fuel now expired in
      if is_stale item pm
      then after_stale
      else if ltb_ℤ now item.expiry_time
      then pm
      else after_expired
]

unfoldable pub cleanup : ℤ → PendingManager → PendingManager
unfolding cleanup_loop
cleanup now pm = cleanup_loop (length pm.pending_queue) now pm

-- Go's `/ 4` cuts towards zero.
abbrev pub quarter : ℤ → ℤ
quarter (pos a) = pos (a / 4)
quarter (negsuc a) = sub_ℕ 0 (suc a / 4)

unfoldable pub get_cleanup_interval : PendingManager → Duration
get_cleanup_interval pm =
    let interval = quarter pm.cfg.request.base_timeout in
    let low = pos (100 * millisecond) in
    let high = pos (500 * millisecond) in
    if ltb_ℤ interval low then low else if ltb_ℤ high interval then high else interval
