-- ===== src/Core/Dag/Insertion.antt =====
-- core/dag.go: processInsertionLocked as a whole.
use klef.Prelude.{
  ℤ, suc, ◌≤◌, length, ◌≡◌, refl, ◌∙◌, ◌⊎◌, inl, inr, true, false, some, List, [], ◌∷◌, arith,
  if◌then◌else◌, contains, ◌==◌, nat_eq, int_eq, int_beq_iff, ltb_ℤ,
}
use klef.Prelude.Map.{lookup, insert, lookup-insert}
use klef.Prelude.Sorting.{
  IsDistinct, IsIncreasing, sort, sort-contains, sort-IsDistinct, sort-IsIncreasing,
}
use klef.Types.Hash.{Hash, Bytes, hash_less, sort_hashes}
use klef.Types.Vertex.{Vertex}
use klef.Core.Orphanage.Release.{Complete}
use klef.Core.Dag.{
  Dag, Work, round_hashes, insert_loop, sort_rounds, insertion_fuel, process_insertion,
}
use klef.Core.Dag.Invariant.{known, IsSound, DagInv}
use klef.Core.Dag.Commit.{Good, insert_loop-Good, insert_loop-measure}
use klef.Core.Dag.Closure.{insert_loop_closed}
use klef.Core.Dag.Trace.{IsOrphan, Trace, Trace-start, insert_loop-Trace}

abbrev Index : Type 0
Index = List (ℤ × List Hash)

sort_one :
    (q r : ℤ) (index : Index)
    → round_hashes r (insert q (sort_hashes (round_hashes q index)) index)
      ≡ (if q == r then sort_hashes (round_hashes r index) else round_hashes r index)
sort_one q r index =
    ground (arith, int_beq_iff q r, lookup-insert q r (sort_hashes (round_hashes q index)) index)

-- Sorting moves no hash from one round to another.
sort_rounds-contains :
    (rounds : List ℤ) (r : ℤ) (h : Hash) (index : Index)
    → contains h (round_hashes r (sort_rounds rounds index)) ≡ contains h (round_hashes r index)
unfolding sort_rounds sort_hashes
sort_rounds-contains [] r h index = refl
sort_rounds-contains (q ∷ rounds) r h index =
    let index' = insert q (sort_hashes (round_hashes q index)) index in
    ground (
      arith,
      sort_rounds-contains rounds r h index',
      sort_one q r index,
      sort-contains hash_less h (round_hashes r index),
    )

sort_rounds-IsDistinct :
    (rounds : List ℤ) (index : Index)
    → ((r : ℤ) → IsDistinct (round_hashes r index))
    → (r : ℤ) → IsDistinct (round_hashes r (sort_rounds rounds index))
unfolding sort_rounds sort_hashes
sort_rounds-IsDistinct [] index d = d
sort_rounds-IsDistinct (q ∷ rounds) index d =
    sort_rounds-IsDistinct rounds _
      (λ r. ground (arith, d r, sort_one q r index, sort-IsDistinct (round_hashes r index) (d r)))

sort_rounds-IsIncreasing :
    (rounds : List ℤ) (index : Index)
    → ((r : ℤ) → IsDistinct (round_hashes r index))
    → ((r : ℤ) → contains r rounds ≡ false → IsIncreasing (round_hashes r index))
    → (r : ℤ) → IsIncreasing (round_hashes r (sort_rounds rounds index))
unfolding sort_rounds sort_hashes contains
sort_rounds-IsIncreasing [] index d s = λ r. s r refl
sort_rounds-IsIncreasing (q ∷ rounds) index d s =
    sort_rounds-IsIncreasing rounds _
      (λ r. ground (arith, d r, sort_one q r index, sort-IsDistinct (round_hashes r index) (d r)))
      (λ r e.
        ground (arith, e, s r, sort_one q r index, sort-IsIncreasing (round_hashes r index) (d r)))

-- What an insertion does to the ledger.
pub record Inserted (sha256 : Bytes → Hash) (v : Vertex) (d d' : Dag) : Type 0 where
  pub inv : DagInv sha256 d'
  pub present : known d' v.hash ≡ true
  pub old : (h : Hash) (u : Vertex) → lookup h d.vertices ≡ some u → lookup h d'.vertices ≡ some u
  pub source :
      (h : Hash) (u : Vertex)
      → lookup h d'.vertices ≡ some u
      → (lookup h d.vertices ≡ some u) ⊎ (u ≡ v) ⊎ IsOrphan h u d
  pub fewer : (h : Hash) (u : Vertex) → IsOrphan h u d' → IsOrphan h u d
  pub none_lost :
      (h : Hash) (u : Vertex) → IsOrphan h u d → IsOrphan h u d' ⊎ (known d' u.hash ≡ true)
  pub bounded : length d'.buffer.lost_parent_count ≤ suc (length d.buffer.lost_parent_count)
  pub same_slasher : d'.slasher ≡ d.slasher
  pub same_config : d'.config ≡ d.config
  pub same_capacity : d'.buffer.capacity ≡ d.buffer.capacity

module _ (sha256 : Bytes → Hash) (v : Vertex) (d : Dag) (i : DagInv sha256 d)
    (ready : Complete (known d) v) (sound : IsSound sha256 v) where
  start : Work
  start = record { worklist = v ∷ []; affected = []; dag = d }

  end : Work
  end = insert_loop (insertion_fuel d) start

  start-Good : Good sha256 start
  unfolding start
  start-Good = record { inv = i.base; todo = ((ready, sound), tt) }

  finished : Good sha256 end × (end.worklist ≡ [])
  unfolding start insertion_fuel end
  finished = insert_loop-Good sha256 (insertion_fuel d) start start-Good (omega arith)

  trace : Trace d v end
  unfolding start end
  trace = insert_loop-Trace sha256 d v (insertion_fuel d) start start-Good (Trace-start d v)

  shorter : length end.dag.buffer.lost_parent_count ≤ suc (length d.buffer.lost_parent_count)
  unfolding start end
  shorter = omega (arith, insert_loop-measure sha256 (insertion_fuel d) start start-Good)

  rounds : List ℤ
  unfolding sort
  rounds = sort ltb_ℤ end.affected

  -- A round that the loop did not touch is sorted already.
  untouched :
      (r : ℤ) → contains r rounds ≡ false → IsIncreasing (round_hashes r end.dag.round_index)
  unfolding rounds
  untouched r e =
      rw (trace.other_rounds r (ground (arith, e, sort-contains ltb_ℤ r end.affected))) (i.sorted r)

  -- For a sound vertex whose parents are all known, the insertion into a ledger with its invariant
  -- ends, and gives a ledger with its invariant that has the vertex, keeps all it had and loses no
  -- orphan.
  pub process_insertion-Inserted : Inserted sha256 v d (process_insertion v d)
  unfolding process_insertion start end rounds
  process_insertion-Inserted = record {
    inv = record {
      base = record {
        distinct = finished.0.inv.distinct;
        keyed = finished.0.inv.keyed;
        closed = finished.0.inv.closed;
        sound = finished.0.inv.sound;
        sound_orphans = finished.0.inv.sound_orphans;
        buffered = finished.0.inv.buffered;
        indexed =
            λ r h. sort_rounds-contains rounds r h end.dag.round_index ∙ finished.0.inv.indexed r h;
        once = sort_rounds-IsDistinct rounds end.dag.round_index finished.0.inv.once;
      };
      sorted = sort_rounds-IsIncreasing rounds end.dag.round_index finished.0.inv.once untouched;
    };
    present = elim trace.first [ inl m ↦ absurd (rw finished.1 at m) | inr k ↦ k ];
    old = trace.old;
    source = trace.source;
    fewer = trace.fewer;
    none_lost = λ h u e. elim (trace.none_lost h u e) [
      | inl o ↦ inl o
      | inr (inl m) ↦ absurd (rw finished.1 at m)
      | inr (inr k) ↦ inr k
    ];
    bounded = shorter;
    same_slasher = trace.same_slasher;
    same_config = trace.same_config;
    same_capacity = trace.same_capacity;
  }

  -- A property of hashes that each admissible vertex inherits from its parents goes on to all that
  -- the insertion commits.
  pub process_insertion_closed :
      (P : Hash → Type 0)
      → ((u : Vertex)
          → (u ≡ v) ⊎ IsOrphan u.hash u d
          → ((p : Hash) → contains p u.parents ≡ true → P p)
          → P u.hash)
      → ((h : Hash) → known d h ≡ true → P h)
      → (h : Hash) → known (process_insertion v d) h ≡ true
      → P h
  unfolding process_insertion start end
  process_insertion_closed P inherit all =
      insert_loop_closed sha256 d v P inherit (insertion_fuel d) start start-Good (Trace-start d v)
        all
