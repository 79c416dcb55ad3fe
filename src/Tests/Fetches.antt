-- ===== src/Tests/Fetches.antt =====
-- A run of the fetcher's goroutine in which nobody answers.
use klef.Prelude.{
  ℕ, ℤ, pos, ◌≤◌, ◌≡◌, ◌≢◌, refl, true, false, List, [], ◌∷◌, ◌⊎◌, contains, nat_eq, int_eq, All,
  arith, select,
}
use klef.Prelude.Map.{lookup, has}
use klef.Config.{default_config}
use klef.Types.Hash.{Hash}
use klef.Core.Dag.{get_missing_hashes, new_dag}
use klef.Core.Dag.Invariant.{known}
use klef.Core.Dag.Progress.{new_dag-DagInv}
use klef.Core.Pending.{PendingManager, is_pending, new_pending_manager}
use klef.Core.Fetcher.Worker.{
  Ending, ended, stopped, gave_up, loop_head, ask, final_verification, on_timeout, start_worker,
}
use klef.Core.Fetcher.Worker.Steps.{
  System, start, passed, Move, passes, times_out, Run, begins, moves,
}
use klef.Core.Fetcher.Worker.Termination.{run_terminates}
use klef.Core.Fetcher.Addressing.{Asks}
use klef.Core.Fetcher.Worker.Passes.{steps, steps_to}
use klef.Core.Fetcher.Worker.Escalation.{run_escalates}
use klef.Core.Fetcher.Worker.Settled.{run_settles}
use klef.Tests.Data.{toy_hash, empty_dag, fresh_slasher}

abbrev no_requests : PendingManager
no_requests = new_pending_manager default_config

abbrev peers : ℤ → List ℤ
peers count = pos 2 ∷ pos 3 ∷ []

abbrev batch : List Hash
batch = 32 ∷ []

abbrev sent_once : System
sent_once = passed peers default_config 1 (start (pos 2) batch empty_dag no_requests)

abbrev timed_out : ℕ → System → System
timed_out k s = record s { worker = on_timeout k s.worker }

abbrev pass : ℕ → System → System
pass k s = passed peers default_config k s

abbrev last_wait : System
last_wait = timed_out 3 (pass 3 (timed_out 2 (pass 2 (timed_out 1 sent_once))))

run : Run toy_hash default_config (start (pos 2) batch empty_dag no_requests) 6 last_wait
unfolding start start_worker passed loop_head ask on_timeout get_missing_hashes select has lookup
    new_dag
run =
    let p1 = moves begins (passes peers 1 refl) in
    let t1 = moves p1 (times_out 1 refl) in
    let p2 = moves t1 (passes peers 2 refl) in
    let t2 = moves p2 (times_out 2 refl) in
    let p3 = moves t2 (passes peers 3 refl) in moves p3 (times_out 3 refl)

last-Move : Move default_config last_wait (pass 4 last_wait)
unfolding start start_worker passed loop_head ask on_timeout get_missing_hashes select has lookup
    new_dag
last-Move = passes peers 4 refl

last_phase : (pass 4 last_wait).worker.phase ≡ ended gave_up
unfolding start start_worker passed loop_head ask final_verification on_timeout get_missing_hashes
    select has lookup new_dag
last_phase = refl

gave_up≢stopped : gave_up ≢ stopped
gave_up≢stopped e = ground (arith, e)

run_terminates_example :
    (6 ≤ 7)
    × (((e : Ending) × (last_wait.worker.phase ≡ ended e))
        ⊎ ((u : System) × Move default_config last_wait u))
run_terminates_example =
    run_terminates toy_hash default_config (pos 2) batch empty_dag no_requests 6 last_wait run

run_escalates_example :
    ((k : ℕ) × (steps last_wait.rounds ≡ steps_to k) × (k ≤ 4))
    × All
        (λ r.
          Asks (pos 2) r.step r.wanted r.peers r.dispatches
          × ((h : Hash) → contains h r.wanted ≡ true → contains h batch ≡ true)
          × ((h : Hash)
              → contains h batch ≡ true
              → (contains h r.wanted ≡ true) ⊎ (known last_wait.dag h ≡ true)))
        last_wait.rounds
run_escalates_example =
    run_escalates (pos 2) batch toy_hash default_config empty_dag no_requests
      (new_dag-DagInv toy_hash fresh_slasher default_config) 6 last_wait run

run_settles_example :
    (known (pass 4 last_wait).dag 32 ≡ true)
    ⊎ ((now : ℤ) → is_pending 32 now (pass 4 last_wait).pending_mgr ≡ false)
unfolding contains
run_settles_example =
    run_settles toy_hash batch default_config (pos 2) empty_dag no_requests
      (new_dag-DagInv toy_hash fresh_slasher default_config) 6 last_wait (pass 4 last_wait) gave_up
      run last-Move last_phase gave_up≢stopped 32 refl
