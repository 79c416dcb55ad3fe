-- ===== src/Core/Slasher.antt =====
-- core/slasher.go: penalties, evidence and replay protection. The mutex makes each method one step;
-- the clock is the argument `now`.
pub mod Ledger
pub mod Penalty
use klef.Prelude.{
  ℤ, pos, Bool, ◌||◌, Option, none, some, List, [], ◌∷◌, ◌++◌, leb_ℤ, add64, or_zero, get_last?,
  if◌then◌else◌, contains, nat_eq, int_eq,
}
use klef.Prelude.Map.{lookup, insert}
use klef.Config.{Config}
use klef.Types.Hash.{Hash}
use klef.Types.Vertex.{Vertex}
use klef.Types.Message.{
  MessageType, msg_vertex, msg_invalid_payload, Description, malformed, equivocation, Evidence,
  is_valid,
}
use klef.Types.Parents.{Malformation}

-- `processed_ev` holds the hashes that Go's map sends to true.
pub record Slasher : Type 0 where
  pub evidences : List (ℤ × List Evidence)
  pub penalty_table : List (ℤ × ℤ)
  pub processed_ev : List Hash
  pub config : Config

unfoldable pub new_slasher : Config → Slasher
new_slasher cfg = record { evidences = []; penalty_table = []; processed_ev = []; config = cfg }

unfoldable pub get_penalty : Slasher → ℤ → ℤ
unfolding lookup
get_penalty s validator_id = or_zero (lookup validator_id s.penalty_table) (pos 0)

unfoldable pub is_slashed : Slasher → ℤ → Bool
unfolding get_penalty
is_slashed s validator_id = leb_ℤ s.config.security.slash_threshold (get_penalty s validator_id)

-- Penalty, replay mark and evidence in one commit.
unfoldable pub execute_slasher :
    ℤ → ℤ → Hash → MessageType → Option Vertex → Option Vertex → Description → ℤ → Slasher → Slasher
unfolding get_penalty insert lookup
execute_slasher target amount ev_hash kind p1 p2 reason now s =
    let evidence : Evidence = record {
      target_id = target;
      kind = kind;
      proof1 = p1;
      proof2 = p2;
      reporter_id = s.config.node_id;
      timestamp = now;
      description = reason;
    } in
    record s {
      penalty_table = insert target (add64 (get_penalty s target) amount) s.penalty_table;
      processed_ev = ev_hash ∷ s.processed_ev;
      evidences =
          insert target (or_zero (lookup target s.evidences) [] ++ evidence ∷ []) s.evidences;
    }

-- The evidence that the caller gets is the newest of the author's list.
unfoldable pub handle_equivocation : Vertex → Vertex → ℤ → Slasher → Slasher × Option Evidence
unfolding contains execute_slasher lookup
handle_equivocation vtx1 vtx2 now s =
    if contains vtx1.hash s.processed_ev
    then (s, none)
    else (let s' =
          execute_slasher vtx1.author s.config.security.equivocation_penalty vtx1.hash msg_vertex
            (some vtx1) (some vtx2) equivocation now s in
        (s', get_last? (or_zero (lookup vtx1.author s'.evidences) [])))

-- The guard that AddDemerit and ProcessExternalEvidence share.
unfoldable pub settled : Slasher → ℤ → Hash → Bool
unfolding is_slashed contains
settled s target ev_hash = is_slashed s target || contains ev_hash s.processed_ev

-- IsValid refuses evidence that has no first proof.
unfoldable pub process_external_evidence : Evidence → ℤ → Slasher → Slasher
unfolding is_valid settled execute_slasher
process_external_evidence ev now s = elim ev.proof1 [
  | none ↦ s
  | some p1 ↦
      if is_valid ev
      then (if settled s ev.target_id p1.hash
          then s
          else execute_slasher ev.target_id s.config.security.equivocation_penalty p1.hash ev.kind
              ev.proof1 ev.proof2 ev.description now s)
      else s
]

unfoldable pub add_demerit : ℤ → ℤ → Vertex → Malformation → ℤ → Slasher → Slasher
unfolding settled execute_slasher
add_demerit author amount vtx reason now s =
    if settled s author vtx.hash
    then s
    else execute_slasher author amount vtx.hash msg_invalid_payload (some vtx) none
        (malformed reason) now s
