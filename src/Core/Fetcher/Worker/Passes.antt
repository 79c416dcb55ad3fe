-- ===== src/Core/Fetcher/Worker/Passes.antt =====
-- core/fetcher.go: what one pass of the goroutine sends, and what it leaves behind.
use klef.Prelude.{
  length-empty, ℕ, ℤ, zero, suc, ◌≤◌, ◌≡◌, refl, sym, ap, subst, List, [], ◌∷◌, ◌++◌, map, arith,
  Bool, true, false, leb, nat_beq, length, All, contains, nat_eq, int_eq, if◌then◌else◌, split_if,
}
use klef.Types.Hash.{Hash}
use klef.Config.{Config}
use klef.Core.Dag.{Dag, get_missing_hashes}
use klef.Core.Dag.Growth.{contains-get_missing_hashes}
use klef.Core.Pending.{PendingManager, watch}
use klef.Core.Fetcher.{Dispatch, dispatch_by_step}
use klef.Core.Fetcher.Addressing.{Asks, nothing_left, verifies, dispatch_by_step-Asks}
use klef.Core.Fetcher.Worker.{
  Phase, at_step, waiting, ended, resolved, Worker, loop_head, ask, final_verification,
}
use klef.Core.Fetcher.Worker.Steps.{Round, System}

-- The steps up to k, in order.
abbrev pub steps_to : ℕ → List ℕ
steps_to zero = []
steps_to (suc k) = steps_to k ++ suc k ∷ []

-- The number of passes that lie behind a phase.
abbrev pub Behind : ℕ → Phase → Type 0
Behind k (at_step j) = (j ≡ suc k) × (k ≤ 3)
Behind k (waiting j) = (j ≡ k) × (k ≤ 3)
Behind k (ended e) = k ≤ 4

pub Behind-le : (k : ℕ) (p : Phase) → Behind k p → k ≤ 4
Behind-le k (at_step j) b = omega (arith, b)
Behind-le k (waiting j) b = omega (arith, b)
Behind-le k (ended e) b = b

pub Behind-if :
    (b : Bool) (n k : ℕ)
    → (k ≡ n) × (n ≤ 3)
    → Behind n (if b then ended resolved else at_step (suc k))
Behind-if true n k e = omega (arith, e)
Behind-if false n k e = (ap suc e.0, e.1)

abbrev pub steps : List Round → List ℕ
steps = map (λ r. r.step)

pub steps-append : (rs : List Round) (r : Round) → steps (rs ++ r ∷ []) ≡ steps rs ++ r.step ∷ []
steps-append [] r = refl
steps-append (q ∷ rs) r = ap (λ l. q.step ∷ l) (steps-append rs r)

module _ (suspect_id : ℤ) (batch : List Hash) where
  -- A pass asks as its step says, and only for hashes of the batch.
  abbrev pub IsProper : Round → Type 0
  IsProper r =
      Asks suspect_id r.step r.wanted r.peers r.dispatches
      × ((h : Hash) → contains h r.wanted ≡ true → contains h batch ≡ true)

  pub record Escalated (s : System) : Type 0 where
    pub passes_made : ℕ
    pub in_order : steps s.rounds ≡ steps_to passes_made
    pub behind : Behind passes_made s.worker.phase
    pub proper : All IsProper s.rounds
    pub within : (h : Hash) → contains h s.worker.current_missing ≡ true → contains h batch ≡ true
    pub same_suspect : s.worker.suspect_id ≡ suspect_id

  pub shrinks :
      (hashes : List Hash) (d : Dag)
      → ((h : Hash) → contains h hashes ≡ true → contains h batch ≡ true)
      → (h : Hash) → contains h (get_missing_hashes hashes d) ≡ true
      → contains h batch ≡ true
  shrinks hashes d f h e = f h (ground (arith, e, contains-get_missing_hashes hashes d h))

  -- What a pass sends and leaves behind.
  pub record IsPass (k : ℕ) (wanted : List Hash) (peers : List ℤ)
      (o : PendingManager × List Dispatch × Worker) : Type 0 where
    pub sends : Asks suspect_id k wanted peers o.1
    pub now_behind : Behind k o.2.phase
    pub now_within : (h : Hash) → contains h o.2.current_missing ≡ true → contains h batch ≡ true
    pub now_suspect : o.2.suspect_id ≡ suspect_id

  module _ (random_peers : ℤ → List ℤ) (cfg : Config) (k : ℕ) (s : System) (i : Escalated s) where
    abbrev missing : List Hash
    missing = get_missing_hashes s.worker.current_missing s.dag

    abbrev peers : List ℤ
    peers = random_peers cfg.sync.max_random_peers

    ask-IsPass :
        1 ≤ k → k ≤ 3 → IsPass k missing peers (ask random_peers k s.dag cfg s.pending_mgr s.worker)
    unfolding ask
    ask-IsPass low few =
        let less = shrinks s.worker.current_missing s.dag i.within in
        let none : Worker = record s.worker { current_missing = missing; phase = ended resolved } in
        let some : Worker = record s.worker {
          current_missing = missing;
          channel = s.pending_mgr.next_channel;
          phase = waiting k;
        } in
        split_if (IsPass k missing peers) (nat_beq (length missing) 0) (s.pending_mgr, [], none)
          (
            watch missing s.pending_mgr,
            dispatch_by_step random_peers cfg k s.worker.suspect_id missing,
            some,
          )
          (λ e. record {
            sends = nothing_left (length-empty missing (ground (arith, e))) refl;
            now_behind = omega (arith, few);
            now_within = less;
            now_suspect = i.same_suspect;
          })
          (λ e. record {
            sends =
                subst
                  (λ x.
                    Asks suspect_id k missing peers (dispatch_by_step random_peers cfg k x missing))
                  (sym i.same_suspect)
                  (dispatch_by_step-Asks random_peers cfg suspect_id missing e k low few);
            now_behind = (refl, few);
            now_within = less;
            now_suspect = i.same_suspect;
          })

    final_verification-IsPass :
        k ≡ 4 → IsPass k missing peers (final_verification s.dag s.pending_mgr s.worker)
    unfolding final_verification
    final_verification-IsPass last = record {
      sends = verifies last refl;
      now_behind = omega (arith, last);
      now_within = i.within;
      now_suspect = i.same_suspect;
    }

    pub loop_head-IsPass :
        1 ≤ k
        → k ≤ 4
        → IsPass k missing peers (loop_head random_peers k s.dag cfg s.pending_mgr s.worker)
    unfolding loop_head
    loop_head-IsPass low few =
        split_if (IsPass k missing peers) (leb k 3)
          (ask random_peers k s.dag cfg s.pending_mgr s.worker)
          (final_verification s.dag s.pending_mgr s.worker)
          (λ early. ask-IsPass low (ground (arith, early)))
          (λ late. final_verification-IsPass (ground (arith, late, few)))
