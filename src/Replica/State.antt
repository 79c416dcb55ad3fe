-- ===== src/Replica/State.antt =====
-- replica/state.go and pending.go: the surface that the replica gives to its components. `now` is the
-- clock; sequence numbers and peers of the placeholders are not read.
use klef.Prelude.{ℕ, ℤ, Bool, true, false, List, is_some}
use klef.Types.Hash.{Hash}
use klef.Types.Vertex.{qc_global}
use klef.Core.Dag.{get_vertex, get_missing_hashes}
use klef.Core.Pending.{is_pending, add, remove, watch}
use klef.Consensus.Quorum.{quorum_size}
use klef.Replica.{Replica}

unfoldable pub current_round : Replica → ℤ
current_round r = r.round

unfoldable pub is_known_vertex : Hash → Replica → Bool
unfolding get_vertex
is_known_vertex hash r = is_some (get_vertex hash r.dag)

unfoldable pub quorum_threshold : Replica → ℕ
unfolding quorum_size
quorum_threshold r = quorum_size r.policy qc_global

unfoldable pub is_duplicate_message : ℤ → ℕ → Replica → Bool
is_duplicate_message peer_id seq r = false

unfoldable pub update_and_check_rate_limit : ℤ → Replica → Bool
update_and_check_rate_limit peer_id r = true

unfoldable pub is_finalized : Hash → Replica → Bool
is_finalized hash r = false

unfoldable pub is_request_pending : Hash → ℤ → Replica → Bool
unfolding is_pending
is_request_pending hash now r = is_pending hash now r.pending_mgr

unfoldable pub add_pending_request : (ℤ → ℤ) → Hash → ℤ → Replica → Replica × Bool
unfolding add
add_pending_request int63n hash now r =
    let (pm, added) = add int63n hash now r.pending_mgr in (record r { pending_mgr = pm }, added)

unfoldable pub remove_pending_request : Hash → Replica → Replica
unfolding remove
remove_pending_request hash r = record r { pending_mgr = remove hash r.pending_mgr }

-- The channel that is returned is the one before `next_channel`.
unfoldable pub watch_requests : List Hash → Replica → Replica
unfolding watch
watch_requests hashes r = record r { pending_mgr = watch hashes r.pending_mgr }

unfoldable pub missing_hashes_of : List Hash → Replica → List Hash
unfolding get_missing_hashes
missing_hashes_of hashes r = get_missing_hashes hashes r.dag
