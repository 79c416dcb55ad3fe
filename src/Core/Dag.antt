-- ===== src/Core/Dag.antt =====
-- core/dag.go: the ledger of vertices. The mutex makes each method one step, so the check that
-- AddVertex makes before it locks is a step of its own (`add_vertex`) and the locked part another
-- (`add_vertex_locked`, which looks again). Log lines are left out; the clock is the argument `now`.
pub mod Invariant
pub mod Commit
pub mod Trace
pub mod Closure
pub mod Insertion
pub mod Admission
pub mod Growth
pub mod Collision
pub mod Convergence
pub mod Progress
pub mod Deliveries
pub mod Tips
use klef.Prelude.{
  ℕ, ℤ, zero, suc, ◌+◌, ◌≡◌, Bool, true, false, not, Option, none, some, List, [], ◌∷◌, ◌++◌, ltb,
  ltb_ℤ, sub64, length, select, if◌then◌else◌, or_zero, ◌==◌, nat_eq, int_eq, contains,
}
use klef.Prelude.Map.{lookup, insert, has, keys, values}
use klef.Prelude.Sorting.{sort}
use klef.Config.{Config}
use klef.Types.Hash.{Hash, Bytes, sort_hashes}
use klef.Types.Vertex.{Vertex}
use klef.Types.Parents.{Malformation, check_malformed, sort_vertices}
use klef.Types.Encoding.{calculate_hash}
use klef.Core.Orphanage.{Orphanage, new_orphanage, add_orphan, on_parent_arrival}
use klef.Core.Slasher.{Slasher, add_demerit}

pub record Dag : Type 0 where
  pub vertices : List (Hash × Vertex)
  pub round_index : List (ℤ × List Hash)
  pub buffer : Orphanage
  pub slasher : Slasher
  pub config : Config

-- The arguments of the call of `Fetcher.StartSync`.
pub record SyncRequest : Type 0 where
  pub missing_hashes : List Hash
  pub suspect_id : ℤ

unfoldable pub new_dag : Slasher → Config → Dag
unfolding new_orphanage
new_dag slasher cfg = record {
  vertices = [];
  round_index = [];
  buffer = new_orphanage cfg.dag.orphan_capacity;
  slasher = slasher;
  config = cfg;
}

unfoldable pub get_vertex : Hash → Dag → Option Vertex
unfolding lookup
get_vertex hash d = lookup hash d.vertices

-- getMissingHashesLocked and GetMissingHashes, which differ in the lock only.
unfoldable pub get_missing_hashes : List Hash → Dag → List Hash
unfolding select has
get_missing_hashes hashes d = select (λ h. not (has h d.vertices)) hashes

-- `d.RoundIndex[r]`
abbrev pub round_hashes : ℤ → List (ℤ × List Hash) → List Hash
round_hashes r index = or_zero (lookup r index) []

-- The variables of the loop in processInsertionLocked.
pub record Work : Type 0 where
  pub worklist : List Vertex
  pub affected : List ℤ
  pub dag : Dag

-- Steps A and B for a vertex that is new. `affected` is a set.
unfoldable pub commit : Vertex → List Vertex → Work → Work
unfolding insert on_parent_arrival sort_vertices contains
commit vtx rest w =
    let d = w.dag in
    let (buffer, ready) = on_parent_arrival vtx.hash d.buffer in
    record {
      worklist = rest ++ sort_vertices ready;
      affected = if contains vtx.round w.affected then w.affected else vtx.round ∷ w.affected;
      dag = record d {
        vertices = insert vtx.hash vtx d.vertices;
        round_index =
            insert vtx.round (round_hashes vtx.round d.round_index ++ vtx.hash ∷ []) d.round_index;
        buffer = buffer;
      };
    }

unfoldable pub insert_step : Vertex → List Vertex → Work → Work
unfolding has commit
insert_step vtx rest w =
    if has vtx.hash w.dag.vertices then record w { worklist = rest } else commit vtx rest w

-- `for len(worklist) > 0`, with fuel.
unfoldable pub insert_loop : ℕ → Work → Work
unfolding insert_step
insert_loop zero w = w
insert_loop (suc fuel) w = elim w.worklist [
  | [] ↦ w
  | vtx ∷ rest ↦ insert_loop fuel (insert_step vtx rest w)
]

-- Phase 6: the lists of the affected rounds are sorted.
unfoldable pub sort_rounds : List ℤ → List (ℤ × List Hash) → List (ℤ × List Hash)
unfolding insert lookup sort_hashes
sort_rounds [] index = index
sort_rounds (r ∷ rounds) index =
    sort_rounds rounds (insert r (sort_hashes (round_hashes r index)) index)

-- Each round takes one vertex off the worklist, and what it adds has left the buffer; so the buffer's
-- size and two more rounds are enough.
unfoldable pub insertion_fuel : Dag → ℕ
insertion_fuel d = suc (suc (length d.buffer.lost_parent_count))

unfoldable pub process_insertion : Vertex → Dag → Dag
unfolding insert_loop sort_rounds sort insertion_fuel
process_insertion vtx d =
    let w =
      insert_loop (insertion_fuel d) (record { worklist = vtx ∷ []; affected = []; dag = d }) in
    record w.dag { round_index = sort_rounds (sort ltb_ℤ w.affected) w.dag.round_index }

-- `(vtx.Round - currentNodeRound) > SyncTriggerThreshold`, on 64-bit integers.
unfoldable pub should_sync : Vertex → ℤ → Dag → Bool
unfolding sub64
should_sync vtx current_node_round d =
    ltb_ℤ d.config.dag.sync_trigger_threshold (sub64 vtx.round current_node_round)

-- Phases 3 to 5, under the lock.
unfoldable pub add_vertex_locked : Vertex → ℤ → Dag → Dag × Option SyncRequest
unfolding has get_missing_hashes add_orphan should_sync process_insertion
add_vertex_locked vtx current_node_round d =
    if has vtx.hash d.vertices
    then (d, none)
    else (let missing = get_missing_hashes vtx.parents d in
        if ltb 0 (length missing)
        then (
          record d { buffer = add_orphan vtx missing d.buffer },
          if should_sync vtx current_node_round d
              then some (record { missing_hashes = missing; suspect_id = vtx.author })
              else none,
        )
        else (process_insertion vtx d, none))

-- The whole of AddVertex, with the call of StartSync that it ends in.
unfoldable pub add_vertex : (Bytes → Hash) → Vertex → ℤ → ℤ → Dag → Dag × Option SyncRequest
unfolding has calculate_hash check_malformed add_demerit add_vertex_locked
add_vertex sha256 vtx current_node_round now d =
    if has vtx.hash d.vertices
    then (d, none)
    else if not (vtx.hash == calculate_hash sha256 vtx)
    then (d, none)
    else elim (check_malformed vtx.parents) [
      | some reason ↦ (
        record d {
          slasher =
              add_demerit vtx.author d.config.security.malformed_vertex_penalty vtx reason now
                d.slasher;
        },
        none,
      )
      | none ↦ add_vertex_locked vtx current_node_round d
    ]

-- The vertices of the hashes that the map holds, in order.
unfoldable pub known_vertices : List Hash → List (Hash × Vertex) → List Vertex
unfolding lookup
known_vertices [] m = []
known_vertices (h ∷ hs) m =
    let rest = known_vertices hs m in elim (lookup h m) [ none ↦ rest | some v ↦ v ∷ rest ]

unfoldable pub get_vertices_by_round : ℤ → Dag → List Vertex
unfolding known_vertices lookup
get_vertices_by_round round d = known_vertices (round_hashes round d.round_index) d.vertices

unfoldable pub dag_size : Dag → ℕ
dag_size d = length d.vertices

-- Every parent that some vertex names.
unfoldable pub all_parents : List Vertex → List Hash
all_parents [] = []
all_parents (v ∷ vs) = v.parents ++ all_parents vs

unfoldable pub tips_of : (Hash → Bool) → List (Hash × Vertex) → List Vertex
tips_of has_child [] = []
tips_of has_child ((h, v) ∷ m) =
    if has_child h then tips_of has_child m else v ∷ tips_of has_child m

unfoldable pub get_tips : Dag → List Vertex
unfolding all_parents tips_of contains
get_tips d = tips_of (λ h. contains h (all_parents (values d.vertices))) d.vertices
