-- ===== src/Replica/Lifecycle/Invariant.antt =====
-- replica/lifecycle.go and router.go: what holds of a node whatever messages it gets.
use klef.Prelude.{ℤ, Option, none, some, List, [], ◌∷◌, is_some, split_if}
use klef.Types.Hash.{Hash, Bytes}
use klef.Types.Vertex.{Vertex}
use klef.Types.Message.{
  MessageType, msg_vertex, msg_vote, msg_fetch_req, msg_fetch_res, msg_evidence,
  msg_invalid_payload, other, Message, FetchRequest, FetchResponse,
}
use klef.Config.{Config}
use klef.Core.Dag.{get_vertex, add_vertex, SyncRequest}
use klef.Core.Dag.Invariant.{DagInv}
use klef.Core.Dag.Progress.{new_dag-DagInv}
use klef.Core.Pending.{PendingManager, add, remove}
use klef.Core.Pending.Consistent.{
  IsConsistent, add-IsConsistent, remove-IsConsistent, new_pending_manager-IsConsistent,
}
use klef.Core.Slasher.{new_slasher}
use klef.Core.Fetcher.{filter_new_requests, start_sync}
use klef.Replica.{
  Replica, new_replica, update_peer_round, pre_validate, PreValidation, passed,
  unknown_message_type, invalid, answer, handle_fetch_request, insert_vertex, begin_sync, offer,
  receive_vertex, receive_all, receive_response, handle_fetch_response, insert_given, dispatch,
  handle, route_message,
}
use klef.Replica.Routing.{route_message-DagInv}
use klef.Replica.Lifecycle.{Inbound, arrives, is_closed, is_done, run_message_loop}

filter_new_requests-IsConsistent :
    (int63n : Hash → ℤ → ℤ) (now : ℤ) (hashes : List Hash) (pm : PendingManager)
    → IsConsistent pm
    → IsConsistent (filter_new_requests int63n now hashes pm).0
unfolding filter_new_requests
filter_new_requests-IsConsistent int63n now [] pm c = c
filter_new_requests-IsConsistent int63n now (h ∷ hashes) pm c =
    filter_new_requests-IsConsistent int63n now hashes (add (int63n h) h now pm).0
      (add-IsConsistent (int63n h) h now pm c)

module _ (sha256 : Bytes → Hash) (int63n : Hash → ℤ → ℤ) (now : ℤ) where
  abbrev Keeps : Replica → Type 0
  Keeps r = IsConsistent r.pending_mgr

  begin_sync-IsConsistent :
      (q : Option SyncRequest) (r : Replica) → Keeps r → Keeps (begin_sync sha256 int63n now q r)
  unfolding begin_sync start_sync
  begin_sync-IsConsistent none r c = c
  begin_sync-IsConsistent (some q) r c =
      filter_new_requests-IsConsistent int63n now q.missing_hashes r.pending_mgr c

  insert_vertex-IsConsistent :
      (v : Vertex) (r : Replica) → Keeps r → Keeps (insert_vertex sha256 int63n now v r)
  unfolding insert_vertex
  insert_vertex-IsConsistent v r c =
      let added = add_vertex sha256 v r.round now r.dag in
      begin_sync-IsConsistent added.1 (record r { dag = added.0 }) c

  receive_vertex-IsConsistent :
      (v : Vertex) (r : Replica) → Keeps r → Keeps (receive_vertex sha256 int63n now v r)
  unfolding receive_vertex offer
  receive_vertex-IsConsistent v r c =
      let removed = record r { pending_mgr = remove v.hash r.pending_mgr } in
      let inserted = insert_vertex sha256 int63n now v removed in
      let i = insert_vertex-IsConsistent v removed (remove-IsConsistent v.hash r.pending_mgr c) in
      split_if Keeps (is_some (get_vertex v.hash r.dag)) r (offer sha256 int63n now v inserted)
        (λ e. c) (λ e. split_if Keeps _ _ inserted (λ f. i) (λ f. i))

  receive_all-IsConsistent :
      (vs : List Vertex) (r : Replica) → Keeps r → Keeps (receive_all sha256 int63n now vs r)
  unfolding receive_all
  receive_all-IsConsistent [] r c = c
  receive_all-IsConsistent (v ∷ vs) r c =
      receive_all-IsConsistent vs _ (receive_vertex-IsConsistent v r c)

  receive_response-IsConsistent :
      (o : Option FetchResponse) (r : Replica)
      → Keeps r
      → Keeps (receive_response sha256 int63n now o r)
  unfolding receive_response
  receive_response-IsConsistent none r c = c
  receive_response-IsConsistent (some res) r c = receive_all-IsConsistent res.vertices r c

  insert_given-IsConsistent :
      (o : Option Vertex) (r : Replica) → Keeps r → Keeps (insert_given sha256 int63n now o r)
  unfolding insert_given
  insert_given-IsConsistent none r c = c
  insert_given-IsConsistent (some v) r c = insert_vertex-IsConsistent v r c

  answer-IsConsistent :
      (o : Option FetchRequest) (from_id : ℤ) (r : Replica) → Keeps r → Keeps (answer o from_id r)
  unfolding answer
  answer-IsConsistent none from_id r c = c
  answer-IsConsistent (some req) from_id r c = split_if Keeps _ _ r (λ e. c) (λ e. c)

  dispatch-IsConsistent :
      (kind : MessageType) (msg : Message) (r : Replica)
      → Keeps r
      → Keeps (dispatch sha256 int63n now kind msg r)
  unfolding dispatch handle_fetch_request handle_fetch_response
  dispatch-IsConsistent msg_fetch_req msg r c = answer-IsConsistent msg.fetch_req msg.from_id r c
  dispatch-IsConsistent msg_fetch_res msg r c = receive_response-IsConsistent msg.fetch_res r c
  dispatch-IsConsistent msg_vertex msg r c = insert_given-IsConsistent msg.vertex r c
  dispatch-IsConsistent msg_vote msg r c = c
  dispatch-IsConsistent msg_evidence msg r c = c
  dispatch-IsConsistent msg_invalid_payload msg r c = c
  dispatch-IsConsistent other msg r c = c

  handle-IsConsistent :
      (p : PreValidation) (msg : Message) (r : Replica)
      → Keeps r
      → Keeps (handle sha256 int63n now p msg r)
  unfolding handle
  handle-IsConsistent passed msg r c = dispatch-IsConsistent msg.kind msg r c
  handle-IsConsistent unknown_message_type msg r c = c
  handle-IsConsistent (invalid err) msg r c = c

  route_message-IsConsistent :
      (msg : Message) (r : Replica) → Keeps r → Keeps (route_message sha256 int63n now msg r)
  unfolding route_message update_peer_round
  route_message-IsConsistent msg r c =
      let seen = update_peer_round msg.from_id msg.current_round r in
      handle-IsConsistent (pre_validate sha256 now msg seen) msg seen
        (split_if Keeps _ _ r (λ e. c) (λ e. c))

-- The ledger has its invariant, and the pending requests stand in step with their heap.
pub record NodeInv (sha256 : Bytes → Hash) (r : Replica) : Type 0 where
  pub ledger : DagInv sha256 r.dag
  pub requests : IsConsistent r.pending_mgr

module _ (sha256 : Bytes → Hash) (int63n : Hash → ℤ → ℤ) where
  new_replica-NodeInv : (cfg : Config) → NodeInv sha256 (new_replica cfg)
  unfolding new_replica
  new_replica-NodeInv cfg = record {
    ledger = new_dag-DagInv sha256 (new_slasher cfg) cfg;
    requests = new_pending_manager-IsConsistent cfg;
  }

  loop-NodeInv :
      (inbound : List Inbound) (r : Replica)
      → NodeInv sha256 r
      → NodeInv sha256 (run_message_loop sha256 int63n inbound r)
  unfolding run_message_loop
  loop-NodeInv [] r i = i
  loop-NodeInv (arrives now msg ∷ rest) r i =
      loop-NodeInv rest (route_message sha256 int63n now msg r) (record {
        ledger = route_message-DagInv sha256 int63n now msg r i.ledger;
        requests = route_message-IsConsistent sha256 int63n now msg r i.requests;
      })
  loop-NodeInv (is_closed ∷ rest) r i = i
  loop-NodeInv (is_done ∷ rest) r i = i

  -- Whatever messages a new node gets, in whatever order and from whatever peers, its ledger keeps its
  -- invariant and its pending requests stand in step with the heap of their expiry times.
  pub run_message_loop-NodeInv :
      (cfg : Config) (inbound : List Inbound)
      → NodeInv sha256 (run_message_loop sha256 int63n inbound (new_replica cfg))
  run_message_loop-NodeInv cfg inbound =
      loop-NodeInv inbound (new_replica cfg) (new_replica-NodeInv cfg)
