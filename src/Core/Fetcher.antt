-- ===== src/Core/Fetcher.antt =====
-- core/fetcher.go: what the fetcher decides. The call of StartSync is noted as a request that was
-- started; the goroutine that it starts is the child Worker.
pub mod Requests
pub mod Addressing
pub mod Worker
use klef.Prelude.{
  ℕ, ℤ, pos, suc, ◌*◌, Bool, true, false, not, List, [], ◌∷◌, map, length, select, if◌then◌else◌,
  ◌==◌, int_eq, nat_beq, ltb, Option, none, some,
}
use klef.Config.{Config, Duration, millisecond}
use klef.Types.Hash.{Hash}
use klef.Core.Pending.{PendingManager, add, remove}
use klef.Core.Dag.{SyncRequest}

-- A FETCH_REQ for the hashes, to one peer or to all.
pub data Dispatch : Type 0 where
  send_to : ℤ → List Hash → Dispatch
  broadcast : List Hash → Dispatch

unfoldable pub dispatch_fetch : List ℤ → List Hash → List Dispatch
dispatch_fetch peer_ids hashes =
    if nat_beq (length hashes) 0 then [] else map (λ pid. send_to pid hashes) peer_ids

-- `random_peers` is what GetRandomPeers gives.
unfoldable pub get_filtered_neighbors : (ℤ → List ℤ) → ℤ → ℤ → List ℤ
unfolding select
get_filtered_neighbors random_peers count suspect_id =
    select (λ pid. not (pid == suspect_id)) (random_peers count)

unfoldable pub dispatch_by_step : (ℤ → List ℤ) → Config → ℕ → ℤ → List Hash → List Dispatch
unfolding dispatch_fetch get_filtered_neighbors
dispatch_by_step random_peers cfg step suspect_id hashes =
    if nat_beq step 1
    then dispatch_fetch (suspect_id ∷ []) hashes
    else if nat_beq step 2
    then dispatch_fetch (get_filtered_neighbors random_peers cfg.sync.max_random_peers suspect_id)
        hashes
    else if nat_beq step 3
    then broadcast hashes ∷ []
    else []

unfoldable pub get_step_timeout : Config → ℕ → Duration
get_step_timeout cfg step =
    if nat_beq step 1
    then cfg.sync.step1_timeout
    else if nat_beq step 2
    then cfg.sync.step2_timeout
    else if nat_beq step 3
    then cfg.sync.step3_timeout
    else pos (5000 * millisecond)

-- The hashes whose request is new, and the manager with them added. `int63n` draws for each hash.
unfoldable pub filter_new_requests :
    (Hash → ℤ → ℤ) → ℤ → List Hash → PendingManager → PendingManager × List Hash
unfolding add
filter_new_requests int63n now [] pm = (pm, [])
filter_new_requests int63n now (h ∷ hashes) pm =
    let (pm', added) = add (int63n h) h now pm in
    let (pm'', filtered) = filter_new_requests int63n now hashes pm' in
    (pm'', if added then h ∷ filtered else filtered)

-- StartSync up to the goroutine that it starts, if any.
unfoldable pub start_sync :
    (Hash → ℤ → ℤ) → ℤ → SyncRequest → PendingManager → PendingManager × Option SyncRequest
unfolding filter_new_requests
start_sync int63n now request pm =
    let (pm', filtered) = filter_new_requests int63n now request.missing_hashes pm in
    (
      pm',
      if nat_beq (length filtered) 0
          then none
          else some (record request { missing_hashes = filtered }),
    )

-- handleDAFailure
unfoldable pub handle_da_failure : List Hash → PendingManager → PendingManager
unfolding remove
handle_da_failure [] pm = pm
handle_da_failure (h ∷ hashes) pm = handle_da_failure hashes (remove h pm)
