-- ===== src/Scenario/Generator.antt =====
-- core/test_utils.go: generateComplexDAG. What rand.Intn returns, and the clock, are arguments: a
-- `Draw` holds those of one pass of the loop. `count` is one more than the number of passes.
use klef.Prelude.{
  ℕ, ℤ, zero, suc, pos, ◌+◌, ◌%◌, ◌/◌, Option, none, some, List, [], ◌∷◌, ◌++◌, length, ltb, add64,
  contains, nat_eq, if◌then◌else◌,
}
use klef.Types.Hash.{Hash, Bytes, zero_hash, sort_hashes}
use klef.Types.Vertex.{Vertex}
use klef.Types.Parents.{normalize}
use klef.Types.Encoding.{calculate_hash}
use klef.Core.Heap.{get_elem?}

-- `extra` is rand.Intn(3), `picks` what rand.Intn(len(vertices)) returns from call to call, and `now`
-- the clock.
pub record Draw : Type 0 where
  pub extra : ℕ
  pub picks : List ℕ
  pub now : ℤ

-- The decimal digits of a number of at most `fuel` digits, in ASCII.
unfoldable pub decimal : ℕ → ℕ → Bytes
decimal zero n = []
decimal (suc fuel) n =
    let front = decimal fuel (n / 10) in
    if ltb n 10 then (48 + n) ∷ [] else front ++ (48 + n % 10) ∷ []

-- The bytes of "tx-data-" and the number.
unfoldable pub tx_data : ℕ → Bytes
unfolding decimal
tx_data i = 116 ∷ 120 ∷ 45 ∷ 100 ∷ 97 ∷ 116 ∷ 97 ∷ 45 ∷ decimal (suc i) i

unfoldable pub num_parents : ℕ → List Vertex → ℕ
num_parents extra vertices =
    if ltb (length vertices) (extra + 1) then length vertices else extra + 1

-- `parents` with the hash of a vertex that was picked; parentSet's keys are the parents so far.
unfoldable pub pick : Vertex → List Hash → List Hash
unfolding contains
pick p parents = if contains p.hash parents then parents else parents ++ p.hash ∷ []

-- The loop that picks parents: `none` when the picks end before there are enough parents, or when one
-- is out of range.
unfoldable pub pick_parents : ℕ → List Vertex → List ℕ → List Hash → Option (List Hash)
unfolding pick
pick_parents wanted vertices [] parents = if ltb (length parents) wanted then none else some parents
pick_parents wanted vertices (k ∷ picks) parents =
    let rest : Option (List Hash) = elim (get_elem? vertices k) [
      | none ↦ none
      | some p ↦ pick_parents wanted vertices picks (pick p parents)
    ] in
    if ltb (length parents) wanted then rest else some parents

-- A vertex with its parents in order and its hash.
unfoldable pub finish : (Bytes → Hash) → Vertex → Vertex
unfolding normalize calculate_hash
finish sha256 vtx =
    let normal = (normalize vtx).0 in record normal { hash = calculate_hash sha256 normal }

-- The genesis vertex as it is written down, before Normalize.
abbrev pub genesis_draft : ℤ → Vertex
genesis_draft now = record {
  author = pos 0;
  round = pos 0;
  parents = [];
  parent_qcs = [];
  timestamp = now;
  payload = [];
  signature = [];
  hash = zero_hash;
}

-- The same for the vertex of the pass `i`.
unfoldable pub vertex_draft : ℕ → ℤ → List Hash → Vertex
unfolding sort_hashes add64 tx_data
vertex_draft i now parents = record {
  author = pos (i % 4);
  round = pos (i / 4);
  parents = sort_hashes parents;
  parent_qcs = [];
  timestamp = add64 now (pos i);
  payload = tx_data i ∷ [];
  signature = [];
  hash = zero_hash;
}

-- The passes from `i` on.
unfoldable pub generate_from : (Bytes → Hash) → ℕ → List Draw → List Vertex → Option (List Vertex)
unfolding num_parents pick_parents finish vertex_draft
generate_from sha256 i [] vertices = some vertices
generate_from sha256 i (x ∷ draws) vertices =
    elim (pick_parents (num_parents x.extra vertices) vertices x.picks []) [
      | none ↦ none
      | some parents ↦
          generate_from sha256 (suc i) draws
            (vertices ++ finish sha256 (vertex_draft i x.now parents) ∷ [])
    ]

unfoldable pub generate_complex_dag : (Bytes → Hash) → ℤ → List Draw → Option (List Vertex)
unfolding generate_from finish
generate_complex_dag sha256 now draws =
    generate_from sha256 1 draws (finish sha256 (genesis_draft now) ∷ [])
