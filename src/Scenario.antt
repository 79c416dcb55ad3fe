-- ===== src/Scenario.antt =====
-- core/test_utils.go: the vertices that the scenario tests make and their comparisons of two ledgers.
-- The clock is the argument `now`; a nil signer is `none`. Go's DeepEqual also tells a nil slice of
-- parents from an empty one, which the lists here do not.
pub mod Repeatable
pub mod Vertices
pub mod Generator
pub mod Picks
pub mod Delivered
use klef.Prelude.{
  ℕ, ℤ, ◌≡◌, Bool, true, false, not, ◌&&◌, Option, none, some, List, [], ◌∷◌, map, length, nat_beq,
  if◌then◌else◌, ◌==◌, nat_eq, int_eq, pos, sub64,
}
use klef.Prelude.Map.{lookup}
use klef.Types.Hash.{Hash, Bytes, zero_hash, sort_hashes}
use klef.Types.Vertex.{Vertex}
use klef.Types.Hash.Bytes.{be_bytes}
use klef.Types.Vertex.{Qc, qc_global}
use klef.Types.Parents.{normalize}
use klef.Types.Encoding.{calculate_hash}
use klef.Core.Dag.{Dag, dag_size, get_vertex, get_tips}

-- The signature of a test vertex, if there is a signer.
abbrev pub signature_of : Option (Bytes → Bytes) → Hash → Bytes
signature_of none hash = []
signature_of (some sign) hash = sign (be_bytes 32 hash)

-- The bytes of "test_transaction".
abbrev pub test_transaction : Bytes
test_transaction =
    116 ∷ 101 ∷ 115 ∷ 116 ∷ 95 ∷ 116 ∷ 114 ∷ 97 ∷ 110 ∷ 115 ∷ 97 ∷ 99 ∷ 116 ∷ 105 ∷ 111 ∷ 110 ∷ []

module _ (sha256 : Bytes → Hash) (signer : Option (Bytes → Bytes)) (now : ℤ) where
  abbrev pub signed : Vertex → Vertex
  signed vtx =
      let hash = calculate_hash sha256 vtx in
      record vtx { hash = hash; signature = signature_of signer hash }

  unfoldable pub create_dummy_vertex : ℤ → ℤ → List Hash → Vertex
  unfolding normalize sub64 calculate_hash
  create_dummy_vertex author round parents =
      let qc : Qc = record {
        kind = qc_global;
        vertex_hash = zero_hash;
        round = sub64 round (pos 1);
        proposer_id = pos 0;
        signatures = [];
      } in
      let vtx : Vertex = record {
        author = author;
        round = round;
        parents = parents;
        parent_qcs = some qc ∷ [];
        timestamp = now;
        payload = test_transaction ∷ [];
        signature = [];
        hash = zero_hash;
      } in
      signed (normalize vtx).0

  unfoldable pub create_byzantine_vertex : ℤ → ℤ → List Hash → Vertex
  unfolding calculate_hash
  create_byzantine_vertex author round parents = signed (record {
    author = author;
    round = round;
    parents = parents;
    parent_qcs = [];
    timestamp = now;
    payload = [];
    signature = [];
    hash = zero_hash;
  })

-- reflect.DeepEqual on slices of hashes.
abbrev pub equal_hashes : List Hash → List Hash → Bool
equal_hashes [] [] = true
equal_hashes (x ∷ xs) (y ∷ ys) = x == y && equal_hashes xs ys
equal_hashes xs ys = false

unfoldable pub sort_tips : List Vertex → List Hash
unfolding sort_hashes
sort_tips tips = sort_hashes (map (λ v. v.hash) tips)

unfoldable pub compare_dag : Dag → Dag → Bool
unfolding dag_size get_tips sort_tips
compare_dag dag_a dag_b =
    if not (nat_beq (dag_size dag_a) (dag_size dag_b))
    then false
    else (let tips_a = get_tips dag_a in
        let tips_b = get_tips dag_b in
        if not (nat_beq (length tips_a) (length tips_b))
        then false
        else equal_hashes (sort_tips tips_a) (sort_tips tips_b))

-- What compareDAGFull asks of a vertex of the first ledger.
abbrev pub matches : Vertex → Option Vertex → Bool
matches v_a none = false
matches v_a (some v_b) = equal_hashes v_a.parents v_b.parents && v_a.round == v_b.round

unfoldable pub compare_vertices : List (Hash × Vertex) → Dag → Bool
unfolding get_vertex
compare_vertices [] b = true
compare_vertices ((hash, v_a) ∷ vertices) b =
    if matches v_a (get_vertex hash b) then compare_vertices vertices b else false

unfoldable pub compare_dag_full : Dag → Dag → Bool
unfolding dag_size compare_vertices
compare_dag_full a b =
    if not (nat_beq (dag_size a) (dag_size b)) then false else compare_vertices a.vertices b
