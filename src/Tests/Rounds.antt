-- ===== src/Tests/Rounds.antt =====
-- Runs of the quorum policy and of the proposer.
use klef.Prelude.{
  add64, ℤ, pos, negsuc, ◌≡◌, ◌≢◌, ◌↔◌, ◌<ℤ◌, Member, ap, refl, true, some, List, [], ◌∷◌, arith,
  contains, int_eq,
}
use klef.Prelude.Map.{has, lookup, Distinct}
use klef.Config.{ratio_067, ratio_075}
use klef.Types.Hash.{Bytes}
use klef.Types.Vertex.{Qc, Vertex, qc_global}
use klef.Types.Message.{Message}
use klef.Consensus.Quorum.{QuorumPolicy, is_quorum}
use klef.Consensus.Quorum.Intersection.{old_total, Among, is_quorum_intersection}
use klef.Consensus.Proposer.{build_vertex, propose, already_proposed, mark_as_proposed}
use klef.Consensus.Proposer.Safety.{Proposed, propose-Proposed}
use klef.Consensus.Proposer.Overlap.{
  Call, Event, checks, sends, marks, Board, check, send, mark, Run, begins, goes_on, vertex_of,
  BothSend, overlapping_calls,
}
use klef.Tests.Data.{toy_hash, vote_for}

-- Seven nodes become four.
abbrev shrinking : QuorumPolicy
shrinking = record {
  old_total_n = 7;
  new_total_n = 4;
  old_committee_n = 4;
  new_committee_n = 4;
  is_transitioning = true;
  global_ratio = ratio_067;
  committee_ratio = ratio_075;
}

abbrev nodes : List ℤ
nodes = pos 0 ∷ pos 1 ∷ pos 2 ∷ pos 3 ∷ pos 4 ∷ pos 5 ∷ pos 6 ∷ []

abbrev certificate : List (ℤ × Bytes) → Qc
certificate signatures = record {
  kind = qc_global;
  vertex_hash = 32;
  round = pos 0;
  proposer_id = pos 1;
  signatures = signatures;
}

abbrev low_signers : List (ℤ × Bytes)
low_signers = (pos 0, []) ∷ (pos 1, []) ∷ (pos 2, []) ∷ (pos 3, []) ∷ (pos 4, []) ∷ []

abbrev high_signers : List (ℤ × Bytes)
high_signers = (pos 2, []) ∷ (pos 3, []) ∷ (pos 4, []) ∷ (pos 5, []) ∷ (pos 6, []) ∷ []

low-Among : Among nodes low_signers
unfolding has lookup contains
low-Among a h = ground (arith, h)

high-Among : Among nodes high_signers
unfolding has lookup contains
high-Among a h = ground (arith, h)

low-Distinct : Distinct low_signers
unfolding lookup
low-Distinct = (refl, (refl, (refl, (refl, (refl, tt)))))

high-Distinct : Distinct high_signers
unfolding lookup
high-Distinct = (refl, (refl, (refl, (refl, (refl, tt)))))

enough :
    (is_quorum shrinking (certificate low_signers) ≡ true)
    × (is_quorum shrinking (certificate high_signers) ≡ true)
unfolding is_quorum
enough = (refl, refl)

is_quorum_intersection_example : (a : ℤ) × (has a low_signers ≡ true) × (has a high_signers ≡ true)
is_quorum_intersection_example =
    is_quorum_intersection shrinking qc_global (omega arith) nodes (certificate low_signers)
      (certificate high_signers) (omega arith) (old_total refl) refl refl low-Distinct high-Distinct
      low-Among high-Among enough.0 enough.1

abbrev votes : List Message
votes = vote_for (pos 1) 68 ∷ vote_for (pos 2) 32 ∷ vote_for (pos 3) 68 ∷ []

abbrev sign : Bytes → Bytes
sign bytes = 1 ∷ bytes

sent :
    (propose toy_hash sign (pos 1) qc_global (some (votes, pos 0)) (pos 9) (negsuc 0)).1
    ≡ some (build_vertex toy_hash sign (pos 1) votes (pos 0) qc_global (pos 9))
unfolding propose
sent = refl

propose-Proposed_example :
    Proposed toy_hash sign
      (pos 1)
      votes
      (pos 0)
      (build_vertex toy_hash sign (pos 1) votes (pos 0) qc_global (pos 9))
propose-Proposed_example =
    propose-Proposed toy_hash sign (pos 1) qc_global votes (pos 0) (pos 9) (negsuc 0)
      (build_vertex toy_hash sign (pos 1) votes (pos 0) qc_global (pos 9)) sent

-- A call goes through, and two more for the next round follow.
abbrev call_at : ℤ → ℤ → Call
call_at voted_round now = record {
  qc_type = qc_global;
  votes = votes;
  voted_round = voted_round;
  now = now;
}

abbrev first_call : Call
first_call = call_at (pos 0) (pos 9)

abbrev board_at : ℤ → Board
board_at last = record { last_proposed_round = last; checked = []; unmarked = [] }

abbrev first_events : List Event
first_events = marks first_call ∷ sends first_call ∷ checks first_call ∷ []

first_run : Run (board_at (negsuc 0)) first_events (board_at (pos 1))
unfolding already_proposed mark_as_proposed add64
first_run =
    goes_on (goes_on (goes_on begins (check first_call refl)) (send first_call [] [] refl))
      (mark first_call [] [] refl)

same_round :
    (vertex_of toy_hash sign (pos 1) (call_at (pos 1) (pos 20))).round
    ≡ (vertex_of toy_hash sign (pos 1) (call_at (pos 1) (pos 21))).round
unfolding build_vertex
same_round = refl

two_vertices :
    vertex_of toy_hash sign (pos 1) (call_at (pos 1) (pos 20))
    ≢ vertex_of toy_hash sign (pos 1) (call_at (pos 1) (pos 21))
unfolding build_vertex
two_vertices e = ground (arith, ap (λ (v : Vertex). v.timestamp) e)

abbrev second_call : Call
second_call = call_at (pos 1) (pos 20)

second_run :
    Run
      (board_at (pos 1))
      (checks second_call ∷ [])
      (record (board_at (pos 1)) { checked = second_call ∷ [] })
unfolding already_proposed add64
second_run = goes_on begins (check second_call refl)

overlapping_calls_example :
    ((m x : Call)
      → Member (marks m) first_events
      → Member (checks x) (checks second_call ∷ [])
      → (vertex_of toy_hash sign (pos 1) m).round <ℤ (vertex_of toy_hash sign (pos 1) x).round)
    × (BothSend toy_hash sign (pos 1) (board_at (pos 1)) second_call (call_at (pos 1) (pos 21))
        ↔ (pos 1 <ℤ (vertex_of toy_hash sign (pos 1) second_call).round))
overlapping_calls_example =
    overlapping_calls toy_hash sign (pos 1) (board_at (negsuc 0)) (board_at (pos 1))
      (record (board_at (pos 1)) { checked = second_call ∷ [] }) first_events
      (checks second_call ∷ []) second_call (call_at (pos 1) (pos 21)) first_run second_run
      same_round two_vertices
