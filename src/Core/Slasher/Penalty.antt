-- ===== src/Core/Slasher/Penalty.antt =====
-- core/slasher.go: what a ruling adds, and to whom.
use klef.Prelude.{
  ℤ, pos, ◌+ℤ◌, ◌≤ℤ◌, ◌≡◌, refl, Bool, true, false, Option, none, some, arith, add64, if◌then◌else◌,
  contains, ◌==◌, nat_eq, int_eq, ==_refl, inl, inr, Bool-cases, Option-cases, int_beq_iff, IsInt64,
  wrap64_lem, +ℤ_parts,
}
use klef.Prelude.Map.{lookup-insert}
use klef.Types.Hash.{Hash}
use klef.Types.Vertex.{Vertex}
use klef.Types.Message.{
  MessageType, msg_vertex, msg_invalid_payload, equivocation, malformed, Description, is_valid,
}
use klef.Types.Parents.{Malformation}
use klef.Core.Slasher.{
  Slasher, get_penalty, is_slashed, settled, execute_slasher, handle_equivocation,
  process_external_evidence, add_demerit,
}
use klef.Core.Slasher.Ledger.{Ruling, equivocates, reports, demerits, rule}

get_penalty-execute_slasher :
    (target amount : ℤ) (h : Hash) (kind : MessageType) (p1 p2 : Option Vertex)
    (reason : Description) (now : ℤ) (s : Slasher) (a : ℤ)
    → get_penalty (execute_slasher target amount h kind p1 p2 reason now s) a
      ≡ (if target == a then add64 (get_penalty s target) amount else get_penalty s a)
unfolding get_penalty execute_slasher
get_penalty-execute_slasher target amount h kind p1 p2 reason now s a =
    ground (arith, lookup-insert target a (add64 (get_penalty s target) amount) s.penalty_table)

-- A demerit for a vertex that was recorded is not recorded twice, whatever its amount and reason.
pub add_demerit_again :
    (author a b : ℤ) (v : Vertex) (why why' : Malformation) (now now' : ℤ) (s : Slasher)
    → add_demerit author b v why' now' (add_demerit author a v why now s)
      ≡ add_demerit author a v why now s
unfolding add_demerit settled execute_slasher contains
add_demerit_again author a b v why why' now now' s = elim (Bool-cases (settled s author v.hash)) [
  | inl done ↦ rw (done, done) refl
  | inr new ↦ rw (new, ==_refl v.hash) (ground arith)
]

-- The validator and the amount of a ruling, and whether it takes effect.
abbrev pub target_of : Ruling → ℤ
target_of (equivocates v w now) = v.author
target_of (reports ev now) = ev.target_id
target_of (demerits author amount v reason now) = author

abbrev pub amount_of : Slasher → Ruling → ℤ
amount_of s (equivocates v w now) = s.config.security.equivocation_penalty
amount_of s (reports ev now) = s.config.security.equivocation_penalty
amount_of s (demerits author amount v reason now) = amount

unfoldable pub takes_effect : Slasher → Ruling → Bool
unfolding settled
takes_effect s (equivocates v w now) = if contains v.hash s.processed_ev then false else true
takes_effect s (reports ev now) = elim ev.proof1 [
  | none ↦ false
  | some p ↦ if is_valid ev then (if settled s ev.target_id p.hash then false else true) else false
]
takes_effect s (demerits author amount v reason now) =
    if settled s author v.hash then false else true

-- A ruling adds its amount to its target's penalty when it takes effect, and touches no other.
pub get_penalty-rule :
    (r : Ruling) (s : Slasher) (a : ℤ)
    → get_penalty (rule r s) a ≡ (
        if takes_effect s r
        then (if target_of r == a then add64 (get_penalty s a) (amount_of s r) else get_penalty s a)
        else get_penalty s a)
unfolding rule takes_effect handle_equivocation process_external_evidence add_demerit
get_penalty-rule (equivocates v w now) s a = ground (
  arith,
  get_penalty-execute_slasher v.author s.config.security.equivocation_penalty v.hash msg_vertex
      (some v) (some w) equivocation now s a,
  int_beq_iff v.author a,
)
get_penalty-rule (reports ev now) s a = elim (Option-cases ev.proof1) [
  | inl n ↦ ground (arith, n)
  | inr (p, e) ↦ ground (
    arith,
    e,
    get_penalty-execute_slasher ev.target_id s.config.security.equivocation_penalty p.hash ev.kind
        ev.proof1 ev.proof2 ev.description now s a,
    int_beq_iff ev.target_id a,
  )
]
get_penalty-rule (demerits author amount v reason now) s a = ground (
  arith,
  get_penalty-execute_slasher author amount v.hash msg_invalid_payload (some v) none
      (malformed reason) now s a,
  int_beq_iff author a,
)

rule-config : (r : Ruling) (s : Slasher) → (rule r s).config ≡ s.config
unfolding rule handle_equivocation process_external_evidence add_demerit execute_slasher
rule-config (equivocates v w now) s = ground arith
rule-config (reports ev now) s = elim (Option-cases ev.proof1) [
  | inl n ↦ ground (arith, n)
  | inr (p, e) ↦ ground (arith, e)
]
rule-config (demerits author amount v reason now) s = ground arith

-- A slashed validator stays slashed after a ruling whose amount is not negative, unless its penalty
-- leaves the 64 bits of an `int`.
pub rule-is_slashed :
    (r : Ruling) (s : Slasher) (a : ℤ)
    → pos 0 ≤ℤ amount_of s r
    → IsInt64 (get_penalty s a +ℤ amount_of s r)
    → is_slashed s a ≡ true
    → is_slashed (rule r s) a ≡ true
unfolding is_slashed add64
rule-is_slashed r s a positive fits slashed = ground (
  arith,
  rule-config r s,
  get_penalty-rule r s a,
  slashed,
  wrap64_lem (get_penalty s a +ℤ amount_of s r) fits,
  +ℤ_parts (get_penalty s a) (amount_of s r),
)
