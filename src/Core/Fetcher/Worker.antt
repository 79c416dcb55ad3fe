-- ===== src/Core/Fetcher/Worker.antt =====
-- core/fetcher.go: the goroutine that StartSync starts for one batch of missing hashes. Its select is
-- a phase of its own, in which the rest of the node goes on.
pub mod Steps
pub mod Termination
pub mod Settled
pub mod Passes
pub mod Escalation
use klef.Prelude.{
  ℕ, ℤ, suc, List, [], length, ltb, leb, nat_beq, if◌then◌else◌, select, not, ◌==◌, nat_eq,
}
use klef.Config.{Config}
use klef.Types.Hash.{Hash}
use klef.Core.Dag.{Dag, get_missing_hashes}
use klef.Core.Pending.{PendingManager, watch}
use klef.Core.Fetcher.{Dispatch, dispatch_by_step, handle_da_failure}

-- Which `return` the goroutine took: no hash missing, the context done, or the end of the body.
pub data Ending : Type 0 where
  resolved stopped gave_up : Ending

-- At the head of the loop with its `step`, in the select of that step, or over.
pub data Phase : Type 0 where
  at_step : ℕ → Phase
  waiting : ℕ → Phase
  ended : Ending → Phase

-- The variables of the goroutine; `channel` is what notifyOnArrival returned last.
pub record Worker : Type 0 where
  pub suspect_id : ℤ
  pub current_missing : List Hash
  pub channel : ℕ
  pub phase : Phase

unfoldable pub start_worker : ℤ → List Hash → Worker
start_worker suspect_id filtered = record {
  suspect_id = suspect_id;
  current_missing = filtered;
  channel = 0;
  phase = at_step 1;
}

-- One pass through the body of the loop, up to its select, for a `step` of at most 3.
unfoldable pub ask :
    (ℤ → List ℤ)
    → ℕ
    → Dag
    → Config
    → PendingManager
    → Worker
    → PendingManager × List Dispatch × Worker
unfolding get_missing_hashes dispatch_by_step watch
ask random_peers step d cfg pm w =
    let missing = get_missing_hashes w.current_missing d in
    if nat_beq (length missing) 0
    then (pm, [], record w { current_missing = missing; phase = ended resolved })
    else (
      watch missing pm,
      dispatch_by_step random_peers cfg step w.suspect_id missing,
      record w { current_missing = missing; channel = pm.next_channel; phase = waiting step },
    )

-- What follows the loop.
unfoldable pub final_verification :
    Dag → PendingManager → Worker → PendingManager × List Dispatch × Worker
unfolding get_missing_hashes handle_da_failure
final_verification d pm w =
    let final_missing = get_missing_hashes w.current_missing d in
    (
      if ltb 0 (length final_missing) then handle_da_failure final_missing pm else pm,
      [],
      record w { phase = ended gave_up },
    )

-- The test `step <= 3`.
unfoldable pub loop_head :
    (ℤ → List ℤ)
    → ℕ
    → Dag
    → Config
    → PendingManager
    → Worker
    → PendingManager × List Dispatch × Worker
unfolding ask final_verification
loop_head random_peers step d cfg pm w =
    if leb step 3 then ask random_peers step d cfg pm w else final_verification d pm w

-- The three cases of the select.
unfoldable pub on_timeout : ℕ → Worker → Worker
on_timeout step w = record w { phase = at_step (suc step) }

unfoldable pub on_arrival : ℕ → Dag → Worker → Worker
unfolding get_missing_hashes
on_arrival step d w =
    let missing = get_missing_hashes w.current_missing d in
    record w {
      current_missing = missing;
      phase = if nat_beq (length missing) 0 then ended resolved else at_step (suc step);
    }

unfoldable pub on_done : Worker → Worker
on_done w = record w { phase = ended stopped }

-- The receive takes the signal out of the channel.
unfoldable pub receive : ℕ → PendingManager → PendingManager
unfolding select
receive channel pm = record pm { signalled = select (λ ch. not (ch == channel)) pm.signalled }
