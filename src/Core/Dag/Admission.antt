-- ===== src/Core/Dag/Admission.antt =====
-- core/dag.go: what AddVertex finds out about the missing parents, and the ledger after each branch.
use klef.Prelude.{
  ℕ, ℤ, ◌<◌, ◌≡◌, ◌≢◌, refl, sym, subst, inl, inr, Bool, false, not, ◌&&◌, none, some, List, [],
  ◌∷◌, arith, length, All-select, select, contains, ◌==◌, nat_eq, int_eq, ltb, ltb→lt, Bool-cases,
  Option-cases, Eq, nat_beq_iff,
}
use klef.Prelude.Map.{lookup, has}
use klef.Prelude.Sorting.{IsDistinct}
use klef.Types.Hash.{Hash, Bytes}
use klef.Types.Vertex.{Vertex}
use klef.Types.Parents.{check_malformed}
use klef.Types.Parents.Canonical.{check_malformed-IsDistinct}
use klef.Types.Encoding.{calculate_hash}
use klef.Core.Orphanage.{Orphanage, add_orphan}
use klef.Core.Orphanage.Invariant.{Inv, Misses}
use klef.Core.Orphanage.Registration.{add_orphan-Inv}
use klef.Core.Orphanage.Contents.{add_orphan-source}
use klef.Core.Orphanage.Release.{Complete}
use klef.Core.Slasher.{Slasher}
use klef.Core.Dag.{Dag, get_missing_hashes, add_vertex_locked, add_vertex}
use klef.Core.Dag.Invariant.{known, IsSound, DagInv}
use klef.Core.Dag.Insertion.{process_insertion-Inserted}

module _ {ℓ} {A : Type ℓ} ⦃e : Eq A⦄ where
  pub select-contains :
      (p : A → Bool) (a : A) (xs : List A) → contains a (select p xs) ≡ (contains a xs && p a)
  unfolding select contains
  select-contains p a [] = refl
  select-contains p a (x ∷ xs) = ground (arith, e.agrees x a, select-contains p a xs)

  pub contains-nil : (a : A) (xs : List A) → length xs ≡ 0 → contains a xs ≡ false
  unfolding contains
  contains-nil a [] h = refl
  contains-nil a (x ∷ xs) h = absurd (omega arith)

select-IsDistinct : (p : ℕ → Bool) (xs : List ℕ) → IsDistinct xs → IsDistinct (select p xs)
unfolding select
select-IsDistinct p [] d = tt
select-IsDistinct p (x ∷ xs) d =
    ground (arith, select-IsDistinct p xs d.1, All-select (λ y. x ≢ y) p xs d.0)

module _ (v : Vertex) (d : Dag) where
  missing-contains :
      (p : Hash)
      → contains p (get_missing_hashes v.parents d) ≡ (contains p v.parents && not (known d p))
  unfolding get_missing_hashes
  missing-contains p = select-contains (λ h. not (has h d.vertices)) p v.parents

  missing-Misses :
      check_malformed v.parents ≡ none
      → 0 < length (get_missing_hashes v.parents d)
      → Misses (known d) v (get_missing_hashes v.parents d)
  unfolding get_missing_hashes
  missing-Misses formed some_missing = record {
    some_missing = some_missing;
    each_once = select-IsDistinct _ v.parents (check_malformed-IsDistinct v.parents formed);
    not_known = λ p e. ground (arith, missing-contains p);
    among = λ p e. ground (arith, missing-contains p);
    complete = λ p e. ground (arith, missing-contains p);
  }

  pub nothing_missing : length (get_missing_hashes v.parents d) ≡ 0 → Complete (known d) v
  nothing_missing e p cites =
      ground (arith, missing-contains p, contains-nil p (get_missing_hashes v.parents d) e)

buffered-DagInv :
    (sha256 : Bytes → Hash) (b : Orphanage) (d : Dag)
    → DagInv sha256 d
    → Inv (known d) b
    → ((h : Hash) (u : Vertex) → lookup h b.orphans ≡ some u → IsSound sha256 u)
    → DagInv sha256 (record d { buffer = b })
buffered-DagInv sha256 b d i inv sound = record {
  base = record {
    distinct = i.base.distinct;
    keyed = i.base.keyed;
    closed = i.base.closed;
    sound = i.base.sound;
    sound_orphans = sound;
    buffered = inv;
    indexed = i.base.indexed;
    once = i.base.once;
  };
  sorted = i.sorted;
}

slashed-DagInv :
    (sha256 : Bytes → Hash) (s : Slasher) (d : Dag)
    → DagInv sha256 d
    → DagInv sha256 (record d { slasher = s })
slashed-DagInv sha256 s d i = record {
  base = record {
    distinct = i.base.distinct;
    keyed = i.base.keyed;
    closed = i.base.closed;
    sound = i.base.sound;
    sound_orphans = i.base.sound_orphans;
    buffered = i.base.buffered;
    indexed = i.base.indexed;
    once = i.base.once;
  };
  sorted = i.sorted;
}

-- A vertex that passed its own checks, under the lock: the invariant holds after each branch.
pub add_vertex_locked-DagInv :
    (sha256 : Bytes → Hash) (v : Vertex) (round : ℤ) (d : Dag)
    → IsSound sha256 v
    → DagInv sha256 d
    → DagInv sha256 (add_vertex_locked v round d).0
unfolding add_vertex_locked
add_vertex_locked-DagInv sha256 v round d s i =
    let missing = get_missing_hashes v.parents d in
    elim (Bool-cases (has v.hash d.vertices)) [
      | inl old ↦ rw old i
      | inr new ↦ elim (Bool-cases (ltb 0 (length missing))) [
        | inl lacks ↦
            rw (new, lacks)
              (buffered-DagInv sha256 (add_orphan v missing d.buffer) d i
                (add_orphan-Inv (known d) v missing d.buffer
                  (missing-Misses v d s.formed (ltb→lt 0 (length missing) lacks)) i.base.buffered)
                (λ h u e. elim (add_orphan-source v missing d.buffer h u e) [
                  | inl same ↦ subst (IsSound sha256) (sym same) s
                  | inr there ↦ i.base.sound_orphans h u there
                ]))
        | inr none_lacks ↦
            rw (new, none_lacks)
              (process_insertion-Inserted sha256 v d i (nothing_missing v d (ground arith)) s).inv
      ]
    ]

-- From a ledger with its invariant, AddVertex gives one with it on every branch, whatever vertex a
-- peer sends.
pub add_vertex-DagInv :
    (sha256 : Bytes → Hash) (v : Vertex) (round now : ℤ) (d : Dag)
    → DagInv sha256 d
    → DagInv sha256 (add_vertex sha256 v round now d).0
unfolding add_vertex
add_vertex-DagInv sha256 v round now d i = elim (Bool-cases (has v.hash d.vertices)) [
  | inl old ↦ rw old i
  | inr new ↦ elim (Bool-cases (v.hash == calculate_hash sha256 v)) [
    | inr wrong ↦ rw (new, wrong) i
    | inl right ↦ elim (Option-cases (check_malformed v.parents)) [
      | inr (reason, bad) ↦ rw (new, right, bad) (slashed-DagInv sha256 _ d i)
      | inl formed ↦
          rw (new, right, formed)
            (add_vertex_locked-DagInv sha256 v round d
              (record {
                hashed = (nat_beq_iff v.hash (calculate_hash sha256 v)).0 right;
                formed = formed;
              })
              i)
    ]
  ]
]
