-- ===== src/Core/Fetcher/Worker/Escalation.antt =====
-- core/fetcher.go: whom the goroutine asks, in which order, and for what.
use klef.Prelude.{
  ℕ, ℤ, suc, ◌≤◌, ◌≡◌, refl, ap, ◌∙◌, subst, List, [], ◌∷◌, ◌++◌, arith, true, false, All,
  All-append, All-mono, All-both, contains, nat_eq, ◌⊎◌, inl, inr,
}
use klef.Core.Dag.{add_vertex}
use klef.Core.Dag.Invariant.{known, DagInv}
use klef.Core.Dag.Growth.{Grows-known, add_vertex-Grows}
use klef.Core.Fetcher.Addressing.{Asks}
use klef.Core.Fetcher.Worker.Settled.{Covers, Covered, Covers-get_missing_hashes, run-Covered}
use klef.Types.Hash.{Hash, Bytes}
use klef.Config.{Config}
use klef.Core.Dag.{Dag}
use klef.Core.Pending.{PendingManager}
use klef.Core.Fetcher.Worker.{start_worker, on_timeout, on_arrival, on_done}
use klef.Core.Fetcher.Worker.Steps.{
  System, start, passed, notified, Move, passes, times_out, is_notified, is_stopped, Other,
  delivers, calls, Run, begins, moves, goes_on,
}
use klef.Core.Fetcher.Worker.Passes.{
  steps_to, Behind, Behind-le, Behind-if, steps, steps-append, Escalated, shrinks, loop_head-IsPass,
}

module _ (suspect_id : ℤ) (batch : List Hash) where
  Move-Escalated :
      (cfg : Config) (s t : System)
      → Move cfg s t
      → Escalated suspect_id batch s
      → Escalated suspect_id batch t
  unfolding notified on_timeout on_arrival on_done passed
  Move-Escalated cfg s t (passes random_peers k e) i =
      let n = i.passes_made in
      let (next, early) = subst (Behind n) e i.behind in
      let p =
        loop_head-IsPass suspect_id batch random_peers cfg k s i (omega (arith, next))
          (omega (arith, next, early)) in
      record {
        passes_made = suc n;
        in_order =
            steps-append s.rounds _
            ∙ ap (λ l. l ++ k ∷ []) i.in_order
            ∙ ap (λ x. steps_to n ++ x ∷ []) next;
        behind = subst (λ x. Behind x (passed random_peers cfg k s).worker.phase) next p.now_behind;
        proper =
            All-append _ s.rounds _ i.proper
              ((p.sends, shrinks suspect_id batch s.worker.current_missing s.dag i.within), tt);
        within = p.now_within;
        same_suspect = p.now_suspect;
      }
  Move-Escalated cfg s t (times_out k e) i = record {
    passes_made = i.passes_made;
    in_order = i.in_order;
    behind = Behind-if false i.passes_made k (subst (Behind i.passes_made) e i.behind);
    proper = i.proper;
    within = i.within;
    same_suspect = i.same_suspect;
  }
  Move-Escalated cfg s t (is_notified k e signal) i = record {
    passes_made = i.passes_made;
    in_order = i.in_order;
    behind = Behind-if _ _ _ (subst (Behind i.passes_made) e i.behind);
    proper = i.proper;
    within = shrinks suspect_id batch s.worker.current_missing s.dag i.within;
    same_suspect = i.same_suspect;
  }
  Move-Escalated cfg s t (is_stopped k e) i = record {
    passes_made = i.passes_made;
    in_order = i.in_order;
    behind = Behind-le _ _ i.behind;
    proper = i.proper;
    within = i.within;
    same_suspect = i.same_suspect;
  }

  Other-Escalated :
      (sha256 : Bytes → Hash) (s t : System)
      → Other sha256 s t
      → Escalated suspect_id batch s
      → Escalated suspect_id batch t
  Other-Escalated sha256 s t (delivers v round now) i = record {
    passes_made = i.passes_made;
    in_order = i.in_order;
    behind = i.behind;
    proper = i.proper;
    within = i.within;
    same_suspect = i.same_suspect;
  }
  Other-Escalated sha256 s t (calls c) i = record {
    passes_made = i.passes_made;
    in_order = i.in_order;
    behind = i.behind;
    proper = i.proper;
    within = i.within;
    same_suspect = i.same_suspect;
  }

  start-Escalated :
      (d : Dag) (pm : PendingManager) → Escalated suspect_id batch (start suspect_id batch d pm)
  unfolding start start_worker
  start-Escalated d pm = record {
    passes_made = 0;
    in_order = refl;
    behind = (refl, omega arith);
    proper = tt;
    within = λ h e. e;
    same_suspect = refl;
  }

  run-Escalated :
      (sha256 : Bytes → Hash) (cfg : Config) (d : Dag) (pm : PendingManager) (n : ℕ) (t : System)
      → Run sha256 cfg (start suspect_id batch d pm) n t
      → Escalated suspect_id batch t
  run-Escalated sha256 cfg d pm n t begins = start-Escalated d pm
  run-Escalated sha256 cfg d pm n t (moves {n = m} {t = s} r m') =
      Move-Escalated cfg s t m' (run-Escalated sha256 cfg d pm m s r)
  run-Escalated sha256 cfg d pm n t (goes_on {t = s} r o) =
      Other-Escalated sha256 s t o (run-Escalated sha256 cfg d pm n s r)

  module _ (sha256 : Bytes → Hash) where
    -- Each pass so far wanted every hash of the batch that the ledger still lacks.
    abbrev IsThorough : System → Type 0
    IsThorough s = All (λ r. Covers sha256 batch r.wanted s.dag) s.rounds

    Move-IsThorough :
        (cfg : Config) (s t : System)
        → Move cfg s t
        → Covered sha256 batch s
        → IsThorough s
        → IsThorough t
    unfolding notified on_timeout on_arrival on_done passed
    Move-IsThorough cfg s t (passes random_peers k e) c a =
        All-append _ s.rounds _ a
          (Covers-get_missing_hashes sha256 batch s.worker.current_missing s.dag c.covers, tt)
    Move-IsThorough cfg s t (times_out k e) c a = a
    Move-IsThorough cfg s t (is_notified k e signal) c a = a
    Move-IsThorough cfg s t (is_stopped k e) c a = a

    Other-IsThorough :
        (s t : System) → Other sha256 s t → Covered sha256 batch s → IsThorough s → IsThorough t
    Other-IsThorough s t (delivers v round now) c a =
        All-mono _ _ s.rounds
          (λ r covers h e. elim (covers h e) [
            | inl open_still ↦ inl open_still
            | inr there ↦ inr (
                Grows-known s.dag (add_vertex sha256 v round now s.dag).0 h
                  (add_vertex-Grows sha256 v round now s.dag c.inv) there)
          ])
          a
    Other-IsThorough s t (calls x) c a = a

    module _ (cfg : Config) (d : Dag) (pm : PendingManager) (i : DagInv sha256 d) where
      start-IsThorough : IsThorough (start suspect_id batch d pm)
      unfolding start
      start-IsThorough = tt

      run-IsThorough :
          (n : ℕ) (t : System) → Run sha256 cfg (start suspect_id batch d pm) n t → IsThorough t
      run-IsThorough n t begins = start-IsThorough
      run-IsThorough n t (moves {n = m} {t = s} r m') =
          Move-IsThorough cfg s t m' (run-Covered sha256 batch cfg suspect_id d pm i m s r)
            (run-IsThorough m s r)
      run-IsThorough n t (goes_on {t = s} r o) =
          Other-IsThorough s t o (run-Covered sha256 batch cfg suspect_id d pm i n s r)
            (run-IsThorough n s r)

      -- However a run from a ledger with its invariant goes on in between, the passes of the goroutine
      -- come in the order 1, 2, 3 and the verification, each at most once. A pass that finds hashes
      -- missing sends: in step 1 one request to the suspect, in step 2 a request to each of the random
      -- peers but the suspect and to nobody else, in step 3 one broadcast, and each is for exactly those
      -- hashes. They are hashes of the batch, and all of it that the ledger lacks at the end of the run
      -- is among them. A pass that finds nothing missing, and the verification, send nothing.
      pub run_escalates :
          (n : ℕ) (t : System)
          → Run sha256 cfg (start suspect_id batch d pm) n t
          → ((k : ℕ) × (steps t.rounds ≡ steps_to k) × (k ≤ 4))
            × All
                (λ r.
                  Asks suspect_id r.step r.wanted r.peers r.dispatches
                  × ((h : Hash) → contains h r.wanted ≡ true → contains h batch ≡ true)
                  × ((h : Hash)
                      → contains h batch ≡ true
                      → (contains h r.wanted ≡ true) ⊎ (known t.dag h ≡ true)))
                t.rounds
      run_escalates n t r =
          let e = run-Escalated sha256 cfg d pm n t r in
          (
            (e.passes_made, e.in_order, Behind-le e.passes_made t.worker.phase e.behind),
            All-mono _ _ t.rounds (λ x a. (a.0.0, a.0.1, a.1))
                (All-both _ _ t.rounds e.proper (run-IsThorough n t r)),
          )
