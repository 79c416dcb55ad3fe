-- ===== src/Replica/Routing.antt =====
-- replica/router.go: what a message does to a replica.
use klef.Prelude.{
  ℤ, ◌≡◌, refl, sym, ap, arith, subst, Bool, true, false, Option, none, some, List, [], ◌∷◌,
  is_some, if◌then◌else◌,
}
use klef.Types.Hash.{Hash, Bytes}
use klef.Types.Vertex.{Vertex}
use klef.Types.Message.{
  MessageType, msg_vertex, msg_vote, msg_fetch_req, msg_fetch_res, msg_evidence,
  msg_invalid_payload, other, Message, FetchRequest, FetchResponse,
}
use klef.Core.Dag.{get_vertex, SyncRequest}
use klef.Core.Dag.Invariant.{DagInv}
use klef.Core.Dag.Admission.{add_vertex-DagInv}
use klef.Core.Pending.{remove}
use klef.Replica.{
  Replica, update_peer_round, pre_validate, validate_kind, PreValidation, passed,
  unknown_message_type, invalid, answer, handle_fetch_request, insert_vertex, begin_sync, offer,
  receive_vertex, receive_all, receive_response, handle_fetch_response, insert_given, dispatch,
  handle, route_message,
}

-- A property of both branches.
both : (P : Replica → Type 0) (b : Bool) (x y : Replica) → P x → P y → P (if b then x else y)
both P true x y p q = p
both P false x y p q = q

module _ (sha256 : Bytes → Hash) (int63n : Hash → ℤ → ℤ) (now : ℤ) where
  abbrev Keeps : Replica → Type 0
  Keeps r = DagInv sha256 r.dag

  pub begin_sync-dag :
      (q : Option SyncRequest) (r : Replica) → (begin_sync sha256 int63n now q r).dag ≡ r.dag
  unfolding begin_sync
  begin_sync-dag none r = refl
  begin_sync-dag (some q) r = refl

  pub insert_vertex-DagInv :
      (v : Vertex) (r : Replica) → Keeps r → Keeps (insert_vertex sha256 int63n now v r)
  unfolding insert_vertex
  insert_vertex-DagInv v r i =
      subst (DagInv sha256) (sym (begin_sync-dag _ _))
        (add_vertex-DagInv sha256 v r.round now r.dag i)

  offer-DagInv : (v : Vertex) (r : Replica) → Keeps r → Keeps (offer sha256 int63n now v r)
  unfolding offer
  offer-DagInv v r i = both Keeps _ _ r i i

  pub receive_vertex-DagInv :
      (v : Vertex) (r : Replica) → Keeps r → Keeps (receive_vertex sha256 int63n now v r)
  unfolding receive_vertex
  receive_vertex-DagInv v r i =
      let removed = record r { pending_mgr = remove v.hash r.pending_mgr } in
      let inserted = insert_vertex sha256 int63n now v removed in
      both Keeps (is_some (get_vertex v.hash r.dag)) r (offer sha256 int63n now v inserted) i
        (offer-DagInv v inserted (insert_vertex-DagInv v removed i))

  receive_all-DagInv :
      (vs : List Vertex) (r : Replica) → Keeps r → Keeps (receive_all sha256 int63n now vs r)
  unfolding receive_all
  receive_all-DagInv [] r i = i
  receive_all-DagInv (v ∷ vs) r i = receive_all-DagInv vs _ (receive_vertex-DagInv v r i)

  receive_response-DagInv :
      (o : Option FetchResponse) (r : Replica)
      → Keeps r
      → Keeps (receive_response sha256 int63n now o r)
  unfolding receive_response
  receive_response-DagInv none r i = i
  receive_response-DagInv (some res) r i = receive_all-DagInv res.vertices r i

  insert_given-DagInv :
      (o : Option Vertex) (r : Replica) → Keeps r → Keeps (insert_given sha256 int63n now o r)
  unfolding insert_given
  insert_given-DagInv none r i = i
  insert_given-DagInv (some v) r i = insert_vertex-DagInv v r i

  answer-DagInv :
      (o : Option FetchRequest) (from : ℤ) (r : Replica) → Keeps r → Keeps (answer o from r)
  unfolding answer
  answer-DagInv none from r i = i
  answer-DagInv (some req) from r i = both Keeps _ _ r i i

  dispatch-DagInv :
      (kind : MessageType) (msg : Message) (r : Replica)
      → Keeps r
      → Keeps (dispatch sha256 int63n now kind msg r)
  unfolding dispatch handle_fetch_request handle_fetch_response
  dispatch-DagInv msg_fetch_req msg r i = answer-DagInv msg.fetch_req msg.from_id r i
  dispatch-DagInv msg_fetch_res msg r i = receive_response-DagInv msg.fetch_res r i
  dispatch-DagInv msg_vertex msg r i = insert_given-DagInv msg.vertex r i
  dispatch-DagInv msg_vote msg r i = i
  dispatch-DagInv msg_evidence msg r i = i
  dispatch-DagInv msg_invalid_payload msg r i = i
  dispatch-DagInv other msg r i = i

  handle-DagInv :
      (p : PreValidation) (msg : Message) (r : Replica)
      → Keeps r
      → Keeps (handle sha256 int63n now p msg r)
  unfolding handle
  handle-DagInv passed msg r i = dispatch-DagInv msg.kind msg r i
  handle-DagInv unknown_message_type msg r i = i
  handle-DagInv (invalid err) msg r i = i

  update_peer_round-DagInv :
      (peer_id round : ℤ) (r : Replica) → Keeps r → Keeps (update_peer_round peer_id round r)
  unfolding update_peer_round
  update_peer_round-DagInv peer_id round r i = both Keeps _ _ r i i

  -- Whatever message comes, from whatever peer, the replica's ledger keeps its invariant.
  pub route_message-DagInv :
      (msg : Message) (r : Replica)
      → DagInv sha256 r.dag
      → DagInv sha256 (route_message sha256 int63n now msg r).dag
  unfolding route_message
  route_message-DagInv msg r i =
      let seen = update_peer_round msg.from_id msg.current_round r in
      handle-DagInv (pre_validate sha256 now msg seen) msg seen
        (update_peer_round-DagInv msg.from_id msg.current_round r i)

  -- The types that a validator is registered for.
  abbrev pub is_registered : MessageType → Bool
  is_registered msg_fetch_req = true
  is_registered msg_fetch_res = true
  is_registered kind = false

  unregistered :
      (kind : MessageType) (msg : Message) (r : Replica)
      → is_registered kind ≡ false
      → validate_kind sha256 now kind msg r ≡ unknown_message_type
  unfolding validate_kind
  unregistered msg_vertex msg r e = refl
  unregistered msg_vote msg r e = refl
  unregistered msg_fetch_req msg r e = absurd (ground (arith, e))
  unregistered msg_fetch_res msg r e = absurd (ground (arith, e))
  unregistered msg_evidence msg r e = refl
  unregistered msg_invalid_payload msg r e = refl
  unregistered other msg r e = refl

  -- A message that is neither a FETCH_REQ nor a FETCH_RES, a VERTEX included, does nothing but update
  -- the round of its sender.
  pub route_message_unregistered :
      (msg : Message) (r : Replica)
      → is_registered msg.kind ≡ false
      → route_message sha256 int63n now msg r ≡ update_peer_round msg.from_id msg.current_round r
  unfolding route_message pre_validate handle
  route_message_unregistered msg r e =
      let seen = update_peer_round msg.from_id msg.current_round r in
      ap (λ p. handle sha256 int63n now p msg seen) (unregistered msg.kind msg seen e)
