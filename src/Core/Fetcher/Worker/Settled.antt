-- ===== src/Core/Fetcher/Worker/Settled.antt =====
-- core/fetcher.go: what holds of the batch when the goroutine is over.
use klef.Prelude.{
  ℕ, ℤ, ◌≡◌, ◌≢◌, refl, List, [], ◌∷◌, arith, ◌⊎◌, inl, inr, true, false, leb, ltb, nat_beq, length,
  Bool-cases, contains, nat_eq, if◌then◌else◌, split_if,
}
use klef.Types.Hash.{Hash, Bytes}
use klef.Config.{Config}
use klef.Core.Dag.{Dag, get_missing_hashes, add_vertex}
use klef.Core.Dag.Invariant.{known, DagInv}
use klef.Core.Dag.Admission.{add_vertex-DagInv, contains-nil}
use klef.Core.Dag.Growth.{Grows-known, add_vertex-Grows, contains-get_missing_hashes}
use klef.Core.Pending.{PendingManager, is_pending, remove, watch}
use klef.Core.Pending.Flight.{is_pending-remove}
use klef.Core.Fetcher.{Dispatch, handle_da_failure, dispatch_by_step}
use klef.Core.Fetcher.Worker.{
  Ending, waiting, ended, resolved, stopped, Worker, start_worker, loop_head, ask,
  final_verification, on_timeout, on_arrival, on_done,
}
use klef.Core.Fetcher.Worker.Steps.{
  System, start, passed, notified, Move, passes, times_out, is_notified, is_stopped, Other,
  delivers, calls, Run, begins, moves, goes_on,
}

-- Failing releases exactly the hashes that are given up.
is_pending-handle_da_failure :
    (hashes : List Hash) (pm : PendingManager) (h : Hash) (t : ℤ)
    → is_pending h t (handle_da_failure hashes pm)
      ≡ (if contains h hashes then false else is_pending h t pm)
unfolding handle_da_failure contains
is_pending-handle_da_failure [] pm h t = refl
is_pending-handle_da_failure (k ∷ hashes) pm h t =
    ground
      (arith, is_pending-remove k pm h t, is_pending-handle_da_failure hashes (remove k pm) h t)

module _ (sha256 : Bytes → Hash) (batch : List Hash) where
  -- A hash of the batch is in the ledger, or among the hashes still missing.
  abbrev pub Covers : List Hash → Dag → Type 0
  Covers missing d =
      (h : Hash) → contains h batch ≡ true → (contains h missing ≡ true) ⊎ (known d h ≡ true)

  pub record Covered (s : System) : Type 0 where
    pub inv : DagInv sha256 s.dag
    pub covers : Covers s.worker.current_missing s.dag

  pub Covers-get_missing_hashes :
      (missing : List Hash) (d : Dag) → Covers missing d → Covers (get_missing_hashes missing d) d
  Covers-get_missing_hashes missing d c h e = elim (c h e) [
    | inr there ↦ inr there
    | inl open_still ↦ elim (Bool-cases (known d h)) [
      | inl there ↦ inr there
      | inr lacks ↦ inl (ground (arith, open_still, lacks, contains-get_missing_hashes missing d h))
    ]
  ]

  -- With nothing missing the whole batch is there.
  Covers-empty :
      (missing : List Hash) (d : Dag)
      → Covers missing d
      → nat_beq (length missing) 0 ≡ true
      → (h : Hash) → contains h batch ≡ true
      → known d h ≡ true
  Covers-empty missing d c none h e = elim (c h e) [
    | inr there ↦ there
    | inl open_still ↦
        absurd (ground (arith, open_still, contains-nil h missing (ground (arith, none))))
  ]

  -- A hash is in the ledger, or free to be asked for again.
  abbrev IsSettled : Hash → Dag → PendingManager → Type 0
  IsSettled h d pm = (known d h ≡ true) ⊎ ((t : ℤ) → is_pending h t pm ≡ false)

  -- What a pass leaves: the batch is covered, and settled if the pass was the last.
  record IsDone (d : Dag) (o : PendingManager × List Dispatch × Worker) : Type 0 where
    still_covers : Covers o.2.current_missing d
    settles :
        (e : Ending)
        → o.2.phase ≡ ended e
        → (h : Hash) → contains h batch ≡ true
        → IsSettled h d o.0

  waiting≢ended : (k : ℕ) (e : Ending) → waiting k ≢ ended e
  waiting≢ended k e same = ground (arith, same)

  ask-IsDone :
      (random_peers : ℤ → List ℤ) (cfg : Config) (k : ℕ) (s : System)
      → Covered s
      → IsDone s.dag (ask random_peers k s.dag cfg s.pending_mgr s.worker)
  unfolding ask
  ask-IsDone random_peers cfg k s c =
      let missing = get_missing_hashes s.worker.current_missing s.dag in
      let covers = Covers-get_missing_hashes s.worker.current_missing s.dag c.covers in
      let none : Worker = record s.worker { current_missing = missing; phase = ended resolved } in
      let some : Worker = record s.worker {
        current_missing = missing;
        channel = s.pending_mgr.next_channel;
        phase = waiting k;
      } in
      split_if (IsDone s.dag) (nat_beq (length missing) 0) (s.pending_mgr, [], none)
        (
          watch missing s.pending_mgr,
          dispatch_by_step random_peers cfg k s.worker.suspect_id missing,
          some,
        )
        (λ empty. record {
          still_covers = covers;
          settles = λ e same h m. inl (Covers-empty missing s.dag covers empty h m);
        })
        (λ more. record {
          still_covers = covers;
          settles = λ e same. absurd (waiting≢ended k e same);
        })

  final_verification-IsDone :
      (s : System) → Covered s → IsDone s.dag (final_verification s.dag s.pending_mgr s.worker)
  unfolding final_verification
  final_verification-IsDone s c =
      let missing = get_missing_hashes s.worker.current_missing s.dag in
      let covers = Covers-get_missing_hashes s.worker.current_missing s.dag c.covers in
      record {
        still_covers = c.covers;
        settles = λ e same h m. elim (covers h m) [
          | inr there ↦ inl there
          | inl lacks ↦ inr (λ t.
              split_if (λ pm. is_pending h t pm ≡ false) (ltb 0 (length missing))
                (handle_da_failure missing s.pending_mgr) s.pending_mgr
                (λ some.
                  ground (arith, lacks, is_pending-handle_da_failure missing s.pending_mgr h t))
                (λ empty.
                  absurd (ground (arith, lacks, contains-nil h missing (ground (arith, empty))))))
        ];
      }

  loop_head-IsDone :
      (random_peers : ℤ → List ℤ) (cfg : Config) (k : ℕ) (s : System)
      → Covered s
      → IsDone s.dag (loop_head random_peers k s.dag cfg s.pending_mgr s.worker)
  unfolding loop_head
  loop_head-IsDone random_peers cfg k s c =
      split_if (IsDone s.dag) (leb k 3) (ask random_peers k s.dag cfg s.pending_mgr s.worker)
        (final_verification s.dag s.pending_mgr s.worker)
        (λ early. ask-IsDone random_peers cfg k s c) (λ late. final_verification-IsDone s c)

  Move-Covered : (cfg : Config) (s t : System) → Move cfg s t → Covered s → Covered t
  unfolding notified on_timeout on_arrival on_done passed
  Move-Covered cfg s t (passes random_peers k e) c = record {
    inv = c.inv;
    covers = (loop_head-IsDone random_peers cfg k s c).still_covers;
  }
  Move-Covered cfg s t (times_out k e) c = record { inv = c.inv; covers = c.covers }
  Move-Covered cfg s t (is_notified k e signal) c = record {
    inv = c.inv;
    covers = Covers-get_missing_hashes s.worker.current_missing s.dag c.covers;
  }
  Move-Covered cfg s t (is_stopped k e) c = record { inv = c.inv; covers = c.covers }

  Other-Covered : (s t : System) → Other sha256 s t → Covered s → Covered t
  Other-Covered s t (delivers v round now) c = record {
    inv = add_vertex-DagInv sha256 v round now s.dag c.inv;
    covers = λ h e. elim (c.covers h e) [
      | inl open_still ↦ inl open_still
      | inr there ↦ inr (
          Grows-known s.dag (add_vertex sha256 v round now s.dag).0 h
            (add_vertex-Grows sha256 v round now s.dag c.inv) there)
    ];
  }
  Other-Covered s t (calls x) c = record { inv = c.inv; covers = c.covers }

  -- The move that ends the goroutine, unless the context is done.
  Move-settles :
      (cfg : Config) (s t : System) (e : Ending)
      → Move cfg s t
      → Covered s
      → t.worker.phase ≡ ended e
      → e ≢ stopped
      → (h : Hash) → contains h batch ≡ true
      → IsSettled h t.dag t.pending_mgr
  unfolding notified on_timeout on_arrival on_done passed
  Move-settles cfg s t e (passes random_peers k p) c over other =
      (loop_head-IsDone random_peers cfg k s c).settles e over
  Move-settles cfg s t e (times_out k p) c over other = absurd (ground (arith, over))
  Move-settles cfg s t e (is_notified k p signal) c over other =
      let missing = get_missing_hashes s.worker.current_missing s.dag in
      λ h m. elim (Bool-cases (nat_beq (length missing) 0)) [
        | inl empty ↦ inl (
            Covers-empty missing s.dag
              (Covers-get_missing_hashes s.worker.current_missing s.dag c.covers) empty h m)
        | inr more ↦ absurd (ground (arith, over, more))
      ]
  Move-settles cfg s t e (is_stopped k p) c over other = absurd (other (ground (arith, over)))

  module _ (cfg : Config) (suspect_id : ℤ) (d : Dag) (pm : PendingManager)
      (i : DagInv sha256 d) where
    start-Covered : Covered (start suspect_id batch d pm)
    unfolding start start_worker
    start-Covered = record { inv = i; covers = λ h e. inl e }

    pub run-Covered :
        (n : ℕ) (t : System) → Run sha256 cfg (start suspect_id batch d pm) n t → Covered t
    run-Covered n t begins = start-Covered
    run-Covered n t (moves {n = m} {t = s} r m') = Move-Covered cfg s t m' (run-Covered m s r)
    run-Covered n t (goes_on {t = s} r o) = Other-Covered s t o (run-Covered n s r)

    -- However a run goes on in between, the goroutine's last move leaves each hash of its batch either
    -- in the ledger or free to be asked for again, unless it is the context that ends it.
    pub run_settles :
        (n : ℕ) (s t : System) (e : Ending)
        → Run sha256 cfg (start suspect_id batch d pm) n s
        → Move cfg s t
        → t.worker.phase ≡ ended e
        → e ≢ stopped
        → (h : Hash) → contains h batch ≡ true
        → (known t.dag h ≡ true) ⊎ ((now : ℤ) → is_pending h now t.pending_mgr ≡ false)
    run_settles n s t e r m over other = Move-settles cfg s t e m (run-Covered n s r) over other
