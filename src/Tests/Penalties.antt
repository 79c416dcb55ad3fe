-- ===== src/Tests/Penalties.antt =====
-- Runs of the slasher and of the pending requests.
use klef.Prelude.{
  ℤ, pos, ◌+ℤ◌, ◌≤ℤ◌, ◌<ℤ◌, ◌+◌, ◌/◌, ◌≡◌, ◌≢◌, ◌≤◌, ◌↔◌, All, refl, true, false, not, none, some,
  List, [], ◌∷◌, arith, add64, ltb_ℤ, if◌then◌else◌, ◌==◌, nat_eq, int_eq, contains,
}
use klef.Prelude.Map.{lookup}
use klef.Config.{default_config}
use klef.Types.Message.{Evidence, msg_invalid_payload, reported, is_valid}
use klef.Types.Message.Violation.{Violation, is_valid-eq-true_iff}
use klef.Types.Parents.{unsorted_parents}
use klef.Types.Hash.{Hash}
use klef.Core.Slasher.{Slasher, new_slasher, get_penalty, is_slashed}
use klef.Core.Slasher.Ledger.{
  Ruling, equivocates, reports, demerits, rule, rule_all, SlasherInv, new_slasher-SlasherInv,
  rule_all-SlasherInv,
}
use klef.Core.Slasher.Penalty.{
  get_penalty-rule, rule-is_slashed, takes_effect, target_of, amount_of,
}
use klef.Core.Pending.{
  PendingManager, PendingMeta, window_end, backoff_of, next_retry, jitter_of, new_pending_manager,
  is_pending, add, remove, watch,
}
use klef.Core.Pending.Cleanup.{Call, adds, watches, removes, cleans, call_all}
use klef.Core.Pending.Flight.{is_pending-add}
use klef.Core.Pending.SingleFlight.{IsWithin, add_single_flight}
use klef.Core.Pending.Signals.{remove-watch}
use klef.Core.Pending.Backoff.{IsTimeout, IsDraw, add-window}
use klef.Tests.Data.{child, genesis, unsorted, fresh_slasher}

abbrev evidence : Evidence
evidence = record {
  target_id = pos 2;
  kind = msg_invalid_payload;
  proof1 = some unsorted;
  proof2 = none;
  reporter_id = pos 3;
  timestamp = pos 8;
  description = reported "bad parents";
}

abbrev demerit : Ruling
demerit = demerits (pos 2) (pos 15) unsorted (unsorted_parents 9 4) (pos 5)

abbrev rulings : List Ruling
rulings = demerit ∷ reports evidence (pos 6) ∷ equivocates genesis child (pos 7) ∷ []

rule_all-SlasherInv_example : SlasherInv (rule_all rulings fresh_slasher)
rule_all-SlasherInv_example =
    rule_all-SlasherInv rulings fresh_slasher (new_slasher-SlasherInv default_config)

get_penalty-rule_example : get_penalty (rule demerit fresh_slasher) (pos 2) ≡ (
    if takes_effect fresh_slasher demerit
    then (if target_of demerit == pos 2
        then add64 (get_penalty fresh_slasher (pos 2)) (amount_of fresh_slasher demerit)
        else get_penalty fresh_slasher (pos 2))
    else get_penalty fresh_slasher (pos 2))
get_penalty-rule_example = get_penalty-rule demerit fresh_slasher (pos 2)

abbrev harsh : Slasher
harsh = record fresh_slasher { penalty_table = (pos 2, pos 100) ∷ [] }

rule-is_slashed_example : is_slashed (rule demerit harsh) (pos 2) ≡ true
unfolding is_slashed get_penalty default_config new_slasher ◌+ℤ◌
rule-is_slashed_example =
    rule-is_slashed demerit harsh (pos 2) (omega arith) (omega arith, omega arith) refl

is_valid-eq-true_iff_example : (is_valid evidence ≡ true) ↔ Violation evidence
is_valid-eq-true_iff_example = is_valid-eq-true_iff evidence

abbrev no_requests : PendingManager
no_requests = new_pending_manager default_config

-- A generator that always draws 1.
abbrev draw : ℤ → ℤ
draw n = pos 1

is_pending-add_example :
    ((add draw 32 (pos 10) no_requests).1 ≡ not (is_pending 32 (pos 10) no_requests))
    × (is_pending 32 (pos 20) (add draw 32 (pos 10) no_requests).0 ≡ (
        if (if genesis.hash == genesis.hash
          then not (is_pending 32 (pos 10) no_requests)
          else false)
        then ltb_ℤ (pos 20) (window_end draw 32 (pos 10) no_requests)
        else is_pending 32 (pos 20) no_requests))
is_pending-add_example = is_pending-add draw 32 (pos 10) no_requests 32 (pos 20)

first_sent : (add draw 32 (pos 10) no_requests).1 ≡ true
unfolding add is_pending new_pending_manager lookup
first_sent = refl

first_window : pos 20 <ℤ window_end draw 32 (pos 10) no_requests
unfolding backoff_of next_retry jitter_of new_pending_manager default_config add64 ◌+ℤ◌ lookup
first_window = omega arith

-- A worker watches, another hash comes and goes, and a clean-up runs, all within the window.
abbrev meanwhile : List Call
meanwhile =
    watches (32 ∷ 68 ∷ [])
    ∷ adds draw 68 (pos 12)
    ∷ adds draw 32 (pos 13)
    ∷ removes 68
    ∷ cleans (pos 15)
    ∷ []

first_end : window_end draw 32 (pos 10) no_requests ≡ pos 500000011
unfolding backoff_of next_retry jitter_of new_pending_manager default_config add64 ◌+ℤ◌ lookup
first_end = refl

hashes_differ : ◌≢◌ {A = Hash} 68 32
hashes_differ e = omega (arith, e)

meanwhile-IsWithin : All (IsWithin 32 (window_end draw 32 (pos 10) no_requests)) meanwhile
meanwhile-IsWithin =
    let inside : pos 13 <ℤ window_end draw 32 (pos 10) no_requests = ground (arith, first_end) in
    (
      tt,
      (
        λ e. absurd (hashes_differ e),
        (λ e. inside, (hashes_differ, (ground (arith, first_end), tt))),
      ),
    )

add_single_flight_example :
    (add draw 32 (pos 20) (call_all meanwhile (add draw 32 (pos 10) no_requests).0)).1 ≡ false
add_single_flight_example =
    add_single_flight draw draw 32 (pos 10) (pos 20) no_requests meanwhile first_sent
      meanwhile-IsWithin first_window

-- A second worker watches the same hashes before one of them is removed.
remove-watch_example :
    contains no_requests.next_channel
      (call_all meanwhile (
        remove 68 (call_all (watches (68 ∷ []) ∷ []) (watch (32 ∷ 68 ∷ []) no_requests)))).signalled
    ≡ true
unfolding contains
remove-watch_example =
    remove-watch (32 ∷ 68 ∷ []) 68 no_requests (watches (68 ∷ []) ∷ []) meanwhile refl

default-IsTimeout : IsTimeout default_config 500000000 640000000000
unfolding default_config
default-IsTimeout = record {
  is_base = refl;
  is_longest = refl;
  positive = (omega arith, omega arith);
  doubles = omega arith;
  adds = omega arith;
}

-- A generator that always draws 0.
abbrev lowest : ℤ → ℤ
lowest n = pos 0

lowest-IsDraw : IsDraw lowest
lowest-IsDraw n positive = (omega arith, omega (arith, positive))

manager_config : no_requests.cfg ≡ default_config
unfolding new_pending_manager
manager_config = refl

nothing_pending : is_pending 32 (pos 10) no_requests ≡ false
unfolding is_pending new_pending_manager lookup
nothing_pending = refl

add-window_example :
    (meta : PendingMeta) × (lookup 32 (add lowest 32 (pos 10) no_requests).0.pending_requests
      ≡ some meta)
    × (meta.request_time ≡ pos 10)
    × (pos 10 +ℤ pos 500000000 ≤ℤ meta.expiry_time)
    × (meta.expiry_time ≤ℤ pos 10 +ℤ pos (640000000000 + 640000000000 / 5))
    × (meta.retry_count ≤ 15)
add-window_example =
    add-window default_config 500000000 640000000000 default-IsTimeout lowest 32 (pos 10)
      no_requests lowest-IsDraw manager_config nothing_pending
