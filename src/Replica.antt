-- ===== src/Replica.antt =====
-- The replica package: the record of replica.go, the accessors of state.go, peers.go and
-- consensus.go, and the routing of router.go. The slasher is the ledger's own (`dag.slasher`), which
-- the Go struct shares. What is sent and which fetches start are kept as lists.
pub mod Routing
pub mod Proposal
pub mod Received
pub mod Exchange
pub mod Peers
pub mod Lifecycle
pub mod State
pub mod Network
use klef.Prelude.{
  ℕ, ℤ, pos, negsuc, ◌≡◌, Bool, true, false, Option, none, some, List, [], ◌∷◌, ◌++◌, length, ltb,
  leb, ltb_ℤ, or_zero, is_some, if◌then◌else◌, int_eq, nat_eq, nat_beq,
}
use klef.Prelude.Map.{lookup, insert}
use klef.Config.{Config}
use klef.Types.Hash.{Hash, Bytes}
use klef.Types.Vertex.{Vertex, QcType}
use klef.Types.Message.{
  MessageType, msg_vertex, msg_fetch_req, msg_fetch_res, Message, FetchRequest, FetchResponse,
}
use klef.Core.Dag.{Dag, SyncRequest, new_dag, get_vertex, add_vertex, known_vertices}
use klef.Core.Slasher.{new_slasher}
use klef.Core.Pending.{PendingManager, new_pending_manager, is_pending, remove}
use klef.Core.Fetcher.{start_sync}
use klef.Core.Validation.{Context, ValidationError, validate_request, validate_response}
use klef.Consensus.Quorum.{QuorumPolicy, new_quorum_policy, quorum_size}
use klef.Consensus.Proposer.{propose}

-- A FETCH_RES to a peer.
pub record Reply : Type 0 where
  pub target_id : ℤ
  pub vertices : List Vertex

pub record Replica : Type 0 where
  pub id : ℤ
  pub cfg : Config
  pub dag : Dag
  pub pending_mgr : PendingManager
  pub vote_pool : List (ℤ × List Message)
  pub policy : QuorumPolicy
  pub round : ℤ
  pub last_proposed_round : ℤ
  pub peers : List (ℤ × Bool)
  pub peer_rounds : List (ℤ × ℤ)
  pub inbound_response : List Vertex
  pub replies : List Reply
  pub fetches : List SyncRequest

unfoldable pub new_replica : Config → Replica
unfolding new_dag new_slasher new_pending_manager new_quorum_policy
new_replica cfg = record {
  id = cfg.node_id;
  cfg = cfg;
  dag = new_dag (new_slasher cfg) cfg;
  pending_mgr = new_pending_manager cfg;
  vote_pool = [];
  policy =
      new_quorum_policy cfg.consensus.total_nodes cfg.consensus.committee_nodes
        cfg.consensus.global_quorum_ratio cfg.consensus.committee_quorum_ratio;
  round = pos 0;
  last_proposed_round = negsuc 0;
  peers = [];
  peer_rounds = [];
  inbound_response = [];
  replies = [];
  fetches = [];
}

unfoldable pub add_peer : ℤ → Replica → Replica
unfolding insert
add_peer id r = record r { peers = insert id true r.peers }

unfoldable pub update_peer_round : ℤ → ℤ → Replica → Replica
unfolding lookup insert
update_peer_round peer_id round r =
    if ltb_ℤ (or_zero (lookup peer_id r.peer_rounds) (pos 0)) round
    then record r { peer_rounds = insert peer_id round r.peer_rounds }
    else r

unfoldable pub active_of : List (ℤ × Bool) → List ℤ
active_of [] = []
active_of ((id, active) ∷ peers) = if active then id ∷ active_of peers else active_of peers

unfoldable pub get_active_peer_ids : Replica → List ℤ
unfolding active_of
get_active_peer_ids r = active_of r.peers

unfoldable pub get_votes_by_round : ℤ → List (ℤ × List Message) → List Message
unfolding lookup
get_votes_by_round round votes = or_zero (lookup round votes) []

-- `none` is Go's nil.
unfoldable pub check_quorum : QcType → Replica → Option (List Message × ℤ)
unfolding get_votes_by_round quorum_size
check_quorum qc_type r =
    let votes = get_votes_by_round r.round r.vote_pool in
    if leb (quorum_size r.policy qc_type) (length votes) then some (votes, r.round) else none

-- Proposer.Propose on the replica as its context, and what it broadcasts.
unfoldable pub propose_vertex :
    (Bytes → Hash) → (Bytes → Bytes) → QcType → ℤ → Replica → Replica × Option Vertex
unfolding check_quorum propose
propose_vertex sha256 sign qc_type now r =
    let (last, sent) =
      propose sha256 sign r.id qc_type (check_quorum qc_type r) now r.last_proposed_round in
    (record r { last_proposed_round = last }, sent)

-- The replica as the validators' context.
unfoldable pub context_of : ℤ → Replica → Context
unfolding get_vertex is_pending
context_of now r = record {
  current_round = r.round;
  is_known_vertex = λ h. is_some (get_vertex h r.dag);
  is_request_pending = λ h. is_pending h now r.pending_mgr;
}

pub data PreValidation : Type 0 where
  passed unknown_message_type : PreValidation
  invalid : ValidationError → PreValidation

abbrev pub verdict : Option ValidationError → PreValidation
verdict none = passed
verdict (some err) = invalid err

-- The two validators that registerValidators registers; any other type has none.
unfoldable pub validate_kind : (Bytes → Hash) → ℤ → MessageType → Message → Replica → PreValidation
unfolding context_of validate_request validate_response
validate_kind sha256 now msg_fetch_req msg r =
    verdict (validate_request r.cfg.request.max_fetch_request_hashes msg)
validate_kind sha256 now msg_fetch_res msg r =
    verdict (validate_response sha256 r.cfg.request.max_fetch_response_vtx (context_of now r) msg)
validate_kind sha256 now kind msg r = unknown_message_type

unfoldable pub pre_validate : (Bytes → Hash) → ℤ → Message → Replica → PreValidation
unfolding validate_kind
pre_validate sha256 now msg r = validate_kind sha256 now msg.kind msg r

-- The answer of handleFetchRequest to the request that a message carries, if any.
unfoldable pub answer : Option FetchRequest → ℤ → Replica → Replica
unfolding known_vertices
answer none from_id r = r
answer (some req) from_id r =
    let found = known_vertices req.missing_hashes r.dag.vertices in
    if ltb 0 (length found)
    then record r { replies = r.replies ++ (record { target_id = from_id; vertices = found }) ∷ [] }
    else r

unfoldable pub handle_fetch_request : Message → Replica → Replica
unfolding answer
handle_fetch_request msg r = answer msg.fetch_req msg.from_id r

module _ (sha256 : Bytes → Hash) (int63n : Hash → ℤ → ℤ) (now : ℤ) where
  -- The call of StartSync, if there is one.
  unfoldable pub begin_sync : Option SyncRequest → Replica → Replica
  unfolding start_sync
  begin_sync none r = r
  begin_sync (some request) r =
      let (pending_mgr, started) = start_sync int63n now request r.pending_mgr in
      record r {
        pending_mgr = pending_mgr;
        fetches = elim started [ none ↦ r.fetches | some fetch ↦ r.fetches ++ fetch ∷ [] ];
      }

  -- AddVertex with the StartSync that it may end in.
  unfoldable pub insert_vertex : Vertex → Replica → Replica
  unfolding add_vertex begin_sync
  insert_vertex vtx r =
      let (dag, request) = add_vertex sha256 vtx r.round now r.dag in
      begin_sync request (record r { dag = dag })

  -- The non-blocking send to the fetcher's channel; nothing in the program reads from it.
  unfoldable pub offer : Vertex → Replica → Replica
  offer vtx r =
      if ltb (length r.inbound_response) r.cfg.resource.fetcher_channel_size
      then record r { inbound_response = r.inbound_response ++ vtx ∷ [] }
      else r

  -- One round of handleFetchResponse's loop.
  unfoldable pub receive_vertex : Vertex → Replica → Replica
  unfolding get_vertex remove insert_vertex offer
  receive_vertex vtx r =
      if is_some (get_vertex vtx.hash r.dag)
      then r
      else offer vtx (insert_vertex vtx (record r { pending_mgr = remove vtx.hash r.pending_mgr }))

  unfoldable pub receive_all : List Vertex → Replica → Replica
  unfolding receive_vertex
  receive_all [] r = r
  receive_all (vtx ∷ vertices) r = receive_all vertices (receive_vertex vtx r)

  unfoldable pub receive_response : Option FetchResponse → Replica → Replica
  unfolding receive_all
  receive_response none r = r
  receive_response (some res) r = receive_all res.vertices r

  unfoldable pub handle_fetch_response : Message → Replica → Replica
  unfolding receive_response
  handle_fetch_response msg r = receive_response msg.fetch_res r

  unfoldable pub insert_given : Option Vertex → Replica → Replica
  unfolding insert_vertex
  insert_given none r = r
  insert_given (some vtx) r = insert_vertex vtx r

  -- The switch of routeMessage.
  unfoldable pub dispatch : MessageType → Message → Replica → Replica
  unfolding handle_fetch_request handle_fetch_response insert_given
  dispatch msg_fetch_req msg r = handle_fetch_request msg r
  dispatch msg_fetch_res msg r = handle_fetch_response msg r
  dispatch msg_vertex msg r = insert_given msg.vertex r
  dispatch kind msg r = r

  -- Phase 2, for a message that passed.
  unfoldable pub handle : PreValidation → Message → Replica → Replica
  unfolding dispatch
  handle passed msg r = dispatch msg.kind msg r
  handle unknown_message_type msg r = r
  handle (invalid err) msg r = r

  unfoldable pub route_message : Message → Replica → Replica
  unfolding update_peer_round pre_validate handle
  route_message msg r =
      let seen = update_peer_round msg.from_id msg.current_round r in
      handle (pre_validate sha256 now msg seen) msg seen
