-- ===== src/Core/Fetcher/Worker/Steps.antt =====
-- core/fetcher.go: a run of the goroutine, interleaved with the deliveries to the ledger and with the
-- other calls of the pending manager, each of which is one step.
use klef.Prelude.{ℕ, ℤ, suc, ◌≡◌, true, List, [], ◌∷◌, ◌++◌, contains, nat_eq}
use klef.Types.Hash.{Hash, Bytes}
use klef.Types.Vertex.{Vertex}
use klef.Config.{Config}
use klef.Core.Dag.{Dag, add_vertex, get_missing_hashes}
use klef.Core.Pending.{PendingManager}
use klef.Core.Pending.Cleanup.{Call, call}
use klef.Core.Fetcher.{Dispatch}
use klef.Core.Fetcher.Worker.{
  Worker, start_worker, at_step, waiting, loop_head, on_timeout, on_arrival, on_done, receive,
}

-- The log of a pass of the loop: its `step`, the hashes of the batch that it found missing, what
-- GetRandomPeers answers, and what it sent; the verification after the loop is a pass too.
pub record Round : Type 0 where
  pub step : ℕ
  pub wanted : List Hash
  pub peers : List ℤ
  pub dispatches : List Dispatch

-- The worker, what it shares with the node, and what it sent so far.
pub record System : Type 0 where
  pub worker : Worker
  pub dag : Dag
  pub pending_mgr : PendingManager
  pub rounds : List Round

unfoldable pub start : ℤ → List Hash → Dag → PendingManager → System
unfolding start_worker
start suspect_id filtered d pm = record {
  worker = start_worker suspect_id filtered;
  dag = d;
  pending_mgr = pm;
  rounds = [];
}

unfoldable pub passed : (ℤ → List ℤ) → Config → ℕ → System → System
unfolding loop_head
passed random_peers cfg step s =
    let (pm, dispatches, w) = loop_head random_peers step s.dag cfg s.pending_mgr s.worker in
    record {
      worker = w;
      dag = s.dag;
      pending_mgr = pm;
      rounds =
          s.rounds
          ++ record {
            step = step;
            wanted = get_missing_hashes s.worker.current_missing s.dag;
            peers = random_peers cfg.sync.max_random_peers;
            dispatches = dispatches;
          }
            ∷ [];
    }

unfoldable pub notified : ℕ → System → System
unfolding on_arrival receive
notified step s = record s {
  worker = on_arrival step s.dag s.worker;
  pending_mgr = receive s.worker.channel s.pending_mgr;
}

-- A move of the goroutine. The timer and the context may be ready at any time.
pub data Move (cfg : Config) (s : System) : System → Type 0 where
  passes :
      (random_peers : ℤ → List ℤ) (step : ℕ)
      → s.worker.phase ≡ at_step step
      → Move cfg s (passed random_peers cfg step s)
  times_out :
      (step : ℕ)
      → s.worker.phase ≡ waiting step
      → Move cfg s (record s { worker = on_timeout step s.worker })
  is_notified :
      (step : ℕ)
      → s.worker.phase ≡ waiting step
      → contains s.worker.channel s.pending_mgr.signalled ≡ true
      → Move cfg s (notified step s)
  is_stopped :
      (step : ℕ)
      → s.worker.phase ≡ waiting step
      → Move cfg s (record s { worker = on_done s.worker })

-- A step of the node's other goroutines.
pub data Other (sha256 : Bytes → Hash) (s : System) : System → Type 0 where
  delivers :
      (v : Vertex) (round now : ℤ)
      → Other sha256 s (record s { dag = (add_vertex sha256 v round now s.dag).0 })
  calls : (c : Call) → Other sha256 s (record s { pending_mgr = call c s.pending_mgr })

-- A run with the number of the goroutine's moves.
pub data Run (sha256 : Bytes → Hash) (cfg : Config) (s : System) : ℕ → System → Type 0 where
  begins : Run sha256 cfg s 0 s
  moves : {n : ℕ} {t u : System} → Run sha256 cfg s n t → Move cfg t u → Run sha256 cfg s (suc n) u
  goes_on : {n : ℕ} {t u : System} → Run sha256 cfg s n t → Other sha256 t u → Run sha256 cfg s n u
