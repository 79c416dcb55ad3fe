-- ===== src/Replica/Exchange.antt =====
-- What FETCH_REQ and FETCH_RES do between two replicas (replica/router.go over core/dag.go).
use klef.Prelude.{
  ℤ, ◌≡◌, refl, sym, ap, ◌∙◌, subst, arith, true, some, List, [], ◌∷◌, ◌++◌, split_if, Member,
  contains, nat_eq, length, ltb, ◌<◌,
}
use klef.Prelude.Map.{lookup}
use klef.Types.Hash.{Hash, Bytes}
use klef.Types.Vertex.{Vertex}
use klef.Types.Message.{Message, FetchRequest, msg_fetch_req, msg_fetch_res}
use klef.Core.Dag.{Dag, known_vertices}
use klef.Core.Dag.Invariant.{known, IsSound, DagInv}
use klef.Core.Orphanage.Release.{Complete}
use klef.Replica.{
  Replica, Reply, update_peer_round, pre_validate, passed, answer, handle_fetch_request,
  receive_all, receive_response, handle_fetch_response, dispatch, handle, route_message,
}
use klef.Replica.Received.{Member-known_vertices, Member-length, receive_all-known}

module _ (sha256 : Bytes → Hash) (int63n : Hash → ℤ → ℤ) (now : ℤ) where
  update_peer_round-dag :
      (peer_id round : ℤ) (r : Replica) → (update_peer_round peer_id round r).dag ≡ r.dag
  unfolding update_peer_round
  update_peer_round-dag peer_id round r =
      split_if (λ (x : Replica). x.dag ≡ r.dag) _ _ r (λ e. refl) (λ e. refl)

  update_peer_round-replies :
      (peer_id round : ℤ) (r : Replica) → (update_peer_round peer_id round r).replies ≡ r.replies
  unfolding update_peer_round
  update_peer_round-replies peer_id round r =
      split_if (λ (x : Replica). x.replies ≡ r.replies) _ _ r (λ e. refl) (λ e. refl)

  -- The replica as a message's handler finds it.
  abbrev seen_by : Replica → Message → Replica
  seen_by r msg = update_peer_round msg.from_id msg.current_round r

  route_message-passed :
      (msg : Message) (r : Replica)
      → pre_validate sha256 now msg (seen_by r msg) ≡ passed
      → route_message sha256 int63n now msg r
        ≡ dispatch sha256 int63n now msg.kind msg (seen_by r msg)
  unfolding route_message handle
  route_message-passed msg r ok = ap (λ p. handle sha256 int63n now p msg (seen_by r msg)) ok

  dispatch-answer :
      (msg : Message) (r : Replica)
      → dispatch sha256 int63n now msg_fetch_req msg r ≡ answer msg.fetch_req msg.from_id r
  unfolding dispatch handle_fetch_request
  dispatch-answer msg r = refl

  dispatch-receive_response :
      (msg : Message) (r : Replica)
      → dispatch sha256 int63n now msg_fetch_res msg r
        ≡ receive_response sha256 int63n now msg.fetch_res r
  unfolding dispatch handle_fetch_response
  dispatch-receive_response msg r = refl

  receive_response-receive_all :
      (vs : List Vertex) (r : Replica)
      → receive_response sha256 int63n now (some (record { vertices = vs })) r
        ≡ receive_all sha256 int63n now vs r
  unfolding receive_response
  receive_response-receive_all vs r = refl

  module _ (req : FetchRequest) (from_id : ℤ) where
    abbrev found_in : Dag → List Vertex
    found_in d = known_vertices req.missing_hashes d.vertices

    abbrev reply_from : Dag → Reply
    reply_from d = record { target_id = from_id; vertices = found_in d }

    answer-replies :
        (r : Replica)
        → 0 < length (found_in r.dag)
        → (answer (some req) from_id r).replies ≡ r.replies ++ reply_from r.dag ∷ []
    unfolding answer
    answer-replies r some_found =
        split_if (λ (x : Replica). x.replies ≡ r.replies ++ reply_from r.dag ∷ [])
          (ltb 0 (length (found_in r.dag)))
          (record r { replies = r.replies ++ reply_from r.dag ∷ [] }) r (λ e. refl)
          (λ e. absurd (ground (arith, e, some_found)))

  replied :
      (peer : Replica) (ask : Message) (req : FetchRequest)
      → ask.kind ≡ msg_fetch_req
      → ask.fetch_req ≡ some req
      → pre_validate sha256 now ask (seen_by peer ask) ≡ passed
      → 0 < length (found_in req ask.from_id peer.dag)
      → (route_message sha256 int63n now ask peer).replies
        ≡ peer.replies ++ reply_from req ask.from_id peer.dag ∷ []
  replied peer ask req is_req asks ok some_found =
      let seen = seen_by peer ask in
      let same = update_peer_round-dag ask.from_id ask.current_round peer in
      ap (λ (x : Replica). x.replies) (route_message-passed ask peer ok)
      ∙ ap (λ k. (dispatch sha256 int63n now k ask seen).replies) is_req
      ∙ ap (λ (x : Replica). x.replies) (dispatch-answer ask seen)
      ∙ ap (λ o. (answer o ask.from_id seen).replies) asks
      ∙ answer-replies req ask.from_id seen
          (subst (λ d. 0 < length (found_in req ask.from_id d)) (sym same) some_found)
      ∙ ap (λ l. l ++ reply_from req ask.from_id seen.dag ∷ [])
          (update_peer_round-replies ask.from_id ask.current_round peer)
      ∙ ap (λ d. peer.replies ++ reply_from req ask.from_id d ∷ []) same

  fetched :
      (r : Replica) (reply : Message) (vs : List Vertex) (v : Vertex)
      → DagInv sha256 r.dag
      → reply.kind ≡ msg_fetch_res
      → reply.fetch_res ≡ some (record { vertices = vs })
      → pre_validate sha256 now reply (seen_by r reply) ≡ passed
      → IsSound sha256 v
      → Complete (known r.dag) v
      → Member v vs
      → known (route_message sha256 int63n now reply r).dag v.hash ≡ true
  fetched r reply vs v i is_res carries ok s ready m =
      let seen = seen_by r reply in
      let same = update_peer_round-dag reply.from_id reply.current_round r in
      let whole =
        route_message-passed reply r ok
        ∙ ap (λ k. dispatch sha256 int63n now k reply seen) is_res
        ∙ dispatch-receive_response reply seen
        ∙ ap (λ o. receive_response sha256 int63n now o seen) carries
        ∙ receive_response-receive_all vs seen in
      subst (λ (x : Replica). known x.dag v.hash ≡ true) (sym whole)
        (receive_all-known sha256 int63n now vs v seen (subst (DagInv sha256) (sym same) i) s
          (subst (λ d. Complete (known d) v) (sym same) ready) m)

  -- A FETCH_REQ that passes the checks is answered to its sender with the vertices that are there; and
  -- when the sender's checks let that answer pass, each vertex in it whose parents the sender has is
  -- in the sender's ledger afterwards.
  pub fetch_exchange :
      (peer r : Replica) (ask reply : Message) (req : FetchRequest) (h : Hash) (v : Vertex)
      → DagInv sha256 peer.dag
      → DagInv sha256 r.dag
      → ask.kind ≡ msg_fetch_req
      → ask.fetch_req ≡ some req
      → pre_validate sha256 now ask (seen_by peer ask) ≡ passed
      → contains h req.missing_hashes ≡ true
      → lookup h peer.dag.vertices ≡ some v
      → reply.kind ≡ msg_fetch_res
      → reply.fetch_res
        ≡ some (record { vertices = known_vertices req.missing_hashes peer.dag.vertices })
      → pre_validate sha256 now reply (seen_by r reply) ≡ passed
      → Complete (known r.dag) v
      → ((route_message sha256 int63n now ask peer).replies
          ≡ peer.replies
            ++ record {
              target_id = ask.from_id;
              vertices = known_vertices req.missing_hashes peer.dag.vertices;
            }
              ∷ [])
        × (known (route_message sha256 int63n now reply r).dag h ≡ true)
  fetch_exchange peer r ask reply req h v ip ir is_req asks ok asked found is_res carries ok'
        ready =
      let vs = known_vertices req.missing_hashes peer.dag.vertices in
      let m = Member-known_vertices v req.missing_hashes peer.dag.vertices h asked found in
      let sound = ip.base.sound h v found in
      let there = fetched r reply vs v ir is_res carries ok' sound ready m in
      (
        replied peer ask req is_req asks ok (Member-length v vs m),
        subst (λ k. known (route_message sha256 int63n now reply r).dag k ≡ true)
            (ip.base.keyed h v found) there,
      )
