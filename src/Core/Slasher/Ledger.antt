-- ===== src/Core/Slasher/Ledger.antt =====
-- core/slasher.go: the slasher's evidence, penalties and replay marks over a series of rulings.
use klef.Prelude.{
  ℕ, ℤ, suc, ◌+◌, ◌≡◌, refl, true, false, Option, some, List, [], ◌∷◌, ◌++◌, arith, length, All,
  All-append, All-mono, or_zero, add64, ◌⊎◌, contains, ◌==◌, nat_eq, int_eq, inl, inr, Bool-cases,
  Option-cases, length-append, subst, int_beq_iff, nat_beq_iff,
}
use klef.Prelude.Map.{lookup, insert, has, lookup-insert}
use klef.Prelude.Sets.{All-ne_of_not-contains}
use klef.Prelude.Sorting.{IsDistinct}
use klef.Config.{Config}
use klef.Types.Vertex.{Vertex}
use klef.Types.Message.{MessageType, Description, Evidence, is_valid}
use klef.Types.Parents.{Malformation}
use klef.Core.Slasher.{
  Slasher, new_slasher, settled, execute_slasher, handle_equivocation, process_external_evidence,
  add_demerit, get_penalty,
}

-- The calls that can change the slasher.
pub data Ruling : Type 0 where
  equivocates : Vertex → Vertex → ℤ → Ruling
  reports : Evidence → ℤ → Ruling
  demerits : ℤ → ℤ → Vertex → Malformation → ℤ → Ruling

unfoldable pub rule : Ruling → Slasher → Slasher
unfolding handle_equivocation process_external_evidence add_demerit
rule (equivocates v w now) s = (handle_equivocation v w now s).0
rule (reports ev now) s = process_external_evidence ev now s
rule (demerits author amount v reason now) s = add_demerit author amount v reason now s

unfoldable pub rule_all : List Ruling → Slasher → Slasher
unfolding rule
rule_all [] s = s
rule_all (r ∷ rs) s = rule_all rs (rule r s)

abbrev pub evidences_of : Slasher → ℤ → List Evidence
evidences_of s a = or_zero (lookup a s.evidences) []

unfoldable pub total : List (ℤ × List Evidence) → ℕ
total [] = 0
total ((a, es) ∷ m) = length es + total m

-- Evidence against `a` names `a` and this node, and its first proof is marked as processed.
pub record Filed (s : Slasher) (a : ℤ) (ev : Evidence) : Type 0 where
  pub target : ev.target_id ≡ a
  pub reporter : ev.reporter_id ≡ s.config.node_id
  pub proof : Vertex
  pub proved : ev.proof1 ≡ some proof
  pub marked : contains proof.hash s.processed_ev ≡ true

pub record SlasherInv (s : Slasher) : Type 0 where
  pub once : IsDistinct s.processed_ev
  pub counted : total s.evidences ≡ length s.processed_ev
  pub filed : (a : ℤ) → All (Filed s a) (evidences_of s a)
  pub penalised : (a : ℤ) → has a s.penalty_table ≡ has a s.evidences

total-insert :
    (a : ℤ) (ev : Evidence) (m : List (ℤ × List Evidence))
    → total (insert a (or_zero (lookup a m) [] ++ ev ∷ []) m) ≡ suc (total m)
unfolding total insert lookup
total-insert a ev [] = refl
total-insert a ev ((b, es) ∷ m) =
    ground (arith, int_beq_iff b a, length-append es (ev ∷ []), total-insert a ev m)

module _ (target amount : ℤ) (p : Vertex) (kind : MessageType) (p2 : Option Vertex)
    (reason : Description) (now : ℤ) (s : Slasher) where
  abbrev next : Slasher
  next = execute_slasher target amount p.hash kind (some p) p2 reason now s

  abbrev entry : Evidence
  entry = record {
    target_id = target;
    kind = kind;
    proof1 = some p;
    proof2 = p2;
    reporter_id = s.config.node_id;
    timestamp = now;
    description = reason;
  }

  abbrev longer : List Evidence
  longer = evidences_of s target ++ entry ∷ []

  marked_still : (a : ℤ) (ev : Evidence) → Filed s a ev → Filed next a ev
  unfolding execute_slasher contains
  marked_still a ev f = record {
    target = f.target;
    reporter = f.reporter;
    proof = f.proof;
    proved = f.proved;
    marked = ground (arith, f.marked);
  }

  Filed-next : SlasherInv s → (a : ℤ) → All (Filed next a) (evidences_of next a)
  unfolding execute_slasher contains
  Filed-next i a =
      let old : (x : ℤ) → All (Filed next x) (evidences_of s x) =
        λ x. All-mono (Filed s x) (Filed next x) (evidences_of s x) (marked_still x) (i.filed x) in
      elim (Bool-cases (target == a)) [
        | inr e ↦ rw (lookup-insert target a longer s.evidences, e) (old a)
        | inl e ↦
            rw (lookup-insert target a longer s.evidences, e)
              (subst (λ x. All (Filed next x) longer) ((int_beq_iff target a).0 e)
                (All-append (Filed next target) (evidences_of s target) _ (old target) (
                  record {
                    target = refl;
                    reporter = refl;
                    proof = p;
                    proved = refl;
                    marked = ground (arith, nat_beq_iff p.hash p.hash);
                  },
                  tt,
                )))
      ]

  execute_slasher-SlasherInv :
      SlasherInv s → contains p.hash s.processed_ev ≡ false → SlasherInv next
  unfolding execute_slasher has
  execute_slasher-SlasherInv i new = record {
    once = (All-ne_of_not-contains _ _ new, i.once);
    counted = ground (arith, i.counted, total-insert target entry s.evidences);
    filed = Filed-next i;
    penalised = λ a. ground (
      arith,
      i.penalised a,
      lookup-insert target a (add64 (get_penalty s target) amount) s.penalty_table,
      lookup-insert target a longer s.evidences,
    );
  }

pub new_slasher-SlasherInv : (cfg : Config) → SlasherInv (new_slasher cfg)
unfolding new_slasher total has lookup
new_slasher-SlasherInv cfg = record {
  once = tt;
  counted = refl;
  filed = λ a. tt;
  penalised = λ a. refl;
}

-- Reported evidence is ignored, or executed for its first proof, whose hash is new.
report-cases :
    (ev : Evidence) (now : ℤ) (s : Slasher)
    → (process_external_evidence ev now s ≡ s)
      ⊎ ((p : Vertex) × (contains p.hash s.processed_ev ≡ false)
          × (process_external_evidence ev now s
              ≡ execute_slasher ev.target_id s.config.security.equivocation_penalty p.hash ev.kind
                  (some p)
                  ev.proof2
                  ev.description
                  now
                  s))
unfolding process_external_evidence settled
report-cases ev now s = elim (Option-cases ev.proof1) [
  | inl e ↦ inl (ground (arith, e))
  | inr (p, e) ↦ elim (Bool-cases (is_valid ev)) [
    | inr bad ↦ inl (ground (arith, e, bad))
    | inl good ↦ elim (Bool-cases (settled s ev.target_id p.hash)) [
      | inl done ↦ inl (ground (arith, e, good, done))
      | inr fresh ↦ inr (p, ground (arith, fresh), ground (arith, e, good, fresh))
    ]
  ]
]

rule-SlasherInv : (r : Ruling) (s : Slasher) → SlasherInv s → SlasherInv (rule r s)
unfolding rule handle_equivocation process_external_evidence add_demerit settled
rule-SlasherInv (equivocates v w now) s i = elim (Bool-cases (contains v.hash s.processed_ev)) [
  | inl seen ↦ rw (rule, seen) i
  | inr new ↦ rw (rule, new) (execute_slasher-SlasherInv _ _ v _ _ _ _ s i new)
]
rule-SlasherInv (reports ev now) s i = elim (report-cases ev now s) [
  | inl e ↦ rw e i
  | inr (p, new, e) ↦ rw e (execute_slasher-SlasherInv _ _ p _ _ _ _ s i new)
]
rule-SlasherInv (demerits author amount v reason now) s i =
    elim (Bool-cases (settled s author v.hash)) [
      | inl done ↦ rw (rule, done) i
      | inr fresh ↦
          rw (rule, fresh) (execute_slasher-SlasherInv _ _ v _ _ _ _ s i (ground (arith, fresh)))
    ]

-- From a slasher with its invariant, whatever calls come, one with it results: each hash is judged at
-- most once, there is one piece of evidence for each
-- judged hash, filed under the validator it names, and those with a penalty are those with evidence.
pub rule_all-SlasherInv :
    (rs : List Ruling) (s : Slasher) → SlasherInv s → SlasherInv (rule_all rs s)
unfolding rule_all
rule_all-SlasherInv [] s i = i
rule_all-SlasherInv (r ∷ rs) s i = rule_all-SlasherInv rs (rule r s) (rule-SlasherInv r s i)
