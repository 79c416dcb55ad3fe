-- ===== src/Types/Message/Violation.antt =====
-- pkg/types/message.go: Evidence.IsValid against the two kinds of violation.
use klef.Prelude.{
  ◌≡◌, ◌≢◌, ◌↔◌, inl, inr, true, not, ◌&&◌, some, arith, ◌==◌, nat_eq, int_eq, is_some, Bool-cases,
  Option-cases, int_beq_iff,
}
use klef.Types.Vertex.{Vertex}
use klef.Types.Parents.{check_malformed}
use klef.Types.Message.{
  MessageType, msg_invalid_payload, Evidence, is_valid, is_valid_pair, payload_violation, type_beq,
}

-- Two vertices of one author and one round, or one vertex with malformed parents. A second vertex
-- beside a malformed one must have the same author.
pub data Violation (e : Evidence) : Type 0 where
  double_proposal :
      (p q : Vertex)
      → e.proof1 ≡ some p
      → e.proof2 ≡ some q
      → p.author ≡ e.target_id
      → q.author ≡ e.target_id
      → p.round ≡ q.round
      → p.hash ≢ q.hash
      → Violation e
  malformed_payload :
      (p : Vertex)
      → e.proof1 ≡ some p
      → p.author ≡ e.target_id
      → e.kind ≡ msg_invalid_payload
      → is_some (check_malformed p.parents) ≡ true
      → ((q : Vertex) → e.proof2 ≡ some q → q.author ≡ e.target_id)
      → Violation e

type_beq_iff :
    (k : MessageType) → (type_beq k msg_invalid_payload ≡ true) ↔ (k ≡ msg_invalid_payload)
unfolding type_beq
type_beq_iff k = ground arith

Violation-of : (e : Evidence) → is_valid e ≡ true → Violation e
unfolding is_valid is_valid_pair payload_violation
Violation-of e h = elim (Option-cases e.proof1) [
  | inl n ↦ absurd (ground (arith, h, n))
  | inr (p, e1) ↦ elim (Option-cases e.proof2) [
    | inl n ↦
        malformed_payload p e1 (ground (arith, h, e1, int_beq_iff p.author e.target_id))
          (ground (arith, h, e1, n, type_beq_iff e.kind)) (ground (arith, h, e1, n))
          (λ q e2. absurd (ground (arith, e2, n)))
    | inr (q, e2) ↦ elim (Bool-cases (p.round == q.round && not (p.hash == q.hash))) [
      | inl two ↦
          double_proposal p q e1 e2 (ground (arith, h, e1, int_beq_iff p.author e.target_id))
            (ground
              (arith, h, e1, e2, int_beq_iff p.author e.target_id, int_beq_iff p.author q.author))
            (ground (arith, two, int_beq_iff p.round q.round)) (ground (arith, two))
      | inr one ↦
          malformed_payload p e1 (ground (arith, h, e1, int_beq_iff p.author e.target_id))
            (ground (arith, h, e1, e2, one, type_beq_iff e.kind)) (ground (arith, h, e1, e2, one))
            (λ r e3. ground (
              arith,
              h,
              e1,
              e2,
              e3,
              int_beq_iff p.author e.target_id,
              int_beq_iff p.author q.author,
            ))
    ]
  ]
]

is_valid_of : (e : Evidence) → Violation e → is_valid e ≡ true
unfolding is_valid is_valid_pair payload_violation
is_valid_of e (double_proposal p q e1 e2 a b r n) = ground (
  arith,
  e1,
  e2,
  a,
  b,
  r,
  n,
  int_beq_iff p.author e.target_id,
  int_beq_iff p.author q.author,
  int_beq_iff p.round q.round,
)
is_valid_of e (malformed_payload p e1 a k bad same) = elim (Option-cases e.proof2) [
  | inl n ↦
      ground (arith, e1, n, a, bad, (type_beq_iff e.kind).1 k, int_beq_iff p.author e.target_id)
  | inr (q, e2) ↦ ground (
    arith,
    e1,
    e2,
    a,
    bad,
    same q e2,
    (type_beq_iff e.kind).1 k,
    int_beq_iff p.author e.target_id,
    int_beq_iff p.author q.author,
  )
]

-- Evidence is valid exactly when it shows one of the two violations by its target.
pub is_valid-eq-true_iff : (e : Evidence) → (is_valid e ≡ true) ↔ Violation e
is_valid-eq-true_iff e = (Violation-of e, is_valid_of e)
