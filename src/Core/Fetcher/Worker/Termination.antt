-- ===== src/Core/Fetcher/Worker/Termination.antt =====
-- core/fetcher.go: how many moves the goroutine makes.
use klef.Prelude.{
  ℕ, ℤ, ◌+◌, ◌-◌, ◌*◌, ◌≤◌, ◌<◌, ◌≡◌, refl, sym, subst, List, [], arith, ◌⊎◌, inl, inr, leb,
  nat_beq, length, Bool-cases,
}
use klef.Types.Hash.{Hash, Bytes}
use klef.Config.{Config}
use klef.Core.Dag.{Dag, get_missing_hashes}
use klef.Core.Pending.{PendingManager}
use klef.Core.Fetcher.Worker.{
  Phase, Ending, at_step, waiting, ended, start_worker, loop_head, ask, final_verification,
  on_timeout, on_arrival, on_done,
}
use klef.Core.Fetcher.Worker.Steps.{
  System, start, passed, notified, Move, passes, times_out, is_notified, is_stopped, delivers,
  calls, Run, begins, moves, goes_on,
}

-- The moves that a phase still allows at most.
abbrev rest_of : Phase → ℕ
rest_of (at_step k) = 2 * (4 - k) + 1
rest_of (waiting k) = 2 * (4 - k)
rest_of (ended e) = 0

-- The steps of a phase that are still to come are those from its own on.
abbrev InRange : Phase → Type 0
InRange (at_step k) = k ≤ 4
InRange (waiting k) = k ≤ 3
InRange (ended e) = Unit

-- After a pass the phase is the wait of its step, or over.
passed-phase :
    (random_peers : ℤ → List ℤ) (cfg : Config) (k : ℕ) (s : System)
    → k ≤ 4
    → InRange (passed random_peers cfg k s).worker.phase
      × (rest_of (passed random_peers cfg k s).worker.phase < 2 * (4 - k) + 1)
unfolding passed loop_head ask final_verification
passed-phase random_peers cfg k s small = elim (Bool-cases (leb k 3)) [
  | inr over ↦ rw over (tt, omega arith)
  | inl early ↦
      elim (Bool-cases (nat_beq (length (get_missing_hashes s.worker.current_missing s.dag)) 0)) [
        | inl none ↦ rw (early, none) (tt, omega arith)
        | inr some ↦ rw (early, some) (ground (arith, early), omega arith)
      ]
]

fewer :
    (s t : System) (p : Phase)
    → s.worker.phase ≡ p
    → rest_of t.worker.phase < rest_of p
    → rest_of t.worker.phase < rest_of s.worker.phase
fewer s t p e less = subst (λ q. rest_of t.worker.phase < rest_of q) (sym e) less

phase-cases :
    (p : Phase)
    → ((e : Ending) × (p ≡ ended e)) ⊎ ((k : ℕ) × (p ≡ at_step k)) ⊎ ((k : ℕ) × (p ≡ waiting k))
phase-cases (ended e) = inl (e, refl)
phase-cases (at_step k) = inr (inl (k, refl))
phase-cases (waiting k) = inr (inr (k, refl))

enabled :
    (cfg : Config) (t : System)
    → ((e : Ending) × (t.worker.phase ≡ ended e)) ⊎ ((u : System) × Move cfg t u)
enabled cfg t = elim (phase-cases t.worker.phase) [
  | inl over ↦ inl over
  | inr (inl (k, e)) ↦ inr (passed (λ z. []) cfg k t, passes (λ z. []) k e)
  | inr (inr (k, e)) ↦ inr (record t { worker = on_timeout k t.worker }, times_out k e)
]

Move-rest :
    (cfg : Config) (s t : System)
    → Move cfg s t
    → InRange s.worker.phase
    → InRange t.worker.phase × (rest_of t.worker.phase < rest_of s.worker.phase)
unfolding notified on_timeout on_arrival on_done
Move-rest cfg s t (passes random_peers k e) h =
    let small : k ≤ 4 = subst InRange e h in
    let (range, less) = passed-phase random_peers cfg k s small in
    (range, fewer s t (at_step k) e less)
Move-rest cfg s t (times_out k e) h =
    let small : k ≤ 3 = subst InRange e h in
    (omega (arith, small), fewer s t (waiting k) e (omega (arith, small)))
Move-rest cfg s t (is_notified k e signal) h =
    let small : k ≤ 3 = subst InRange e h in
    elim (Bool-cases (nat_beq (length (get_missing_hashes s.worker.current_missing s.dag)) 0)) [
      | inl none ↦ (rw none tt, fewer s t (waiting k) e (rw none (omega (arith, small))))
      | inr some ↦
          (rw some (omega (arith, small)), fewer s t (waiting k) e (rw some (omega (arith, small))))
    ]
Move-rest cfg s t (is_stopped k e) h =
    let small : k ≤ 3 = subst InRange e h in (tt, fewer s t (waiting k) e (omega (arith, small)))

module _ (sha256 : Bytes → Hash) (cfg : Config) (suspect_id : ℤ) (batch : List Hash) (d : Dag)
    (pm : PendingManager) where
  run-rest :
      (n : ℕ) (t : System)
      → Run sha256 cfg (start suspect_id batch d pm) n t
      → InRange t.worker.phase × (n + rest_of t.worker.phase ≤ 7)
  unfolding start start_worker
  run-rest n t begins = (omega arith, omega arith)
  run-rest n t (moves {n = m} {t = s} r m') =
      let (range, few) = run-rest m s r in
      let (range', less) = Move-rest cfg s t m' range in (range', omega (arith, few, less))
  run-rest n t (goes_on {t = s} r (delivers v round now)) = run-rest n s r
  run-rest n t (goes_on {t = s} r (calls c)) = run-rest n s r

  -- Whatever the rest of the node does in between, the goroutine makes at most seven moves; and until
  -- it is over it can move: at the head of its loop at once, in a select when the timer fires.
  pub run_terminates :
      (n : ℕ) (t : System)
      → Run sha256 cfg (start suspect_id batch d pm) n t
      → (n ≤ 7) × (((e : Ending) × (t.worker.phase ≡ ended e)) ⊎ ((u : System) × Move cfg t u))
  run_terminates n t r = (omega (arith, (run-rest n t r).1), enabled cfg t)
