-- ===== src/Hub/Peers.antt =====
-- About src/peerhub.rs: the table of peers under `NewPeer`, `send_to_peer` and `broadcast`.
use ddcoin.Prelude.{
  ◌≤◌, ◌<◌, ◌≡◌, ◌≢◌, refl, arith, Bool, true, false, not, xor, some, [], ◌∷◌, length, Option-cases,
  inl, inr, leb,
}
use ddcoin.Prelude.Bytes.{Bytes, bytes_eq}
use ddcoin.HashMap.{get, contains_key}
use ddcoin.HashMap.Laws.{length-insert-some, length-insert-le}
use ddcoin.Hub.{HubState, peer_size_limit, new_peer}
use ddcoin.Hub.Messages.{NodeId, Network, PeerMessage, BroadcastMessage, Reply}
use ddcoin.Hub.Send.{PeerMap, send_to_peer, send_to_all, broadcast}

module _ {S : Type 0} (net : Network S) where
  pub length-send_to_peer :
      (msg : PeerMessage) (id : NodeId) (peers : PeerMap S)
      → length (send_to_peer net msg id peers).0 ≡ length peers
  unfolding send_to_peer
  length-send_to_peer msg id peers = elim (Option-cases (get id peers)) [
    | inl gone ↦ rw (gone, send_to_peer)
    | inr (t, at) ↦ elim (Option-cases (net.encode msg)) [
      | inl bad ↦ rw (at, send_to_peer, bad)
      | inr (encoded, good) ↦ rw (at, send_to_peer, good) (length-insert-some id t _ peers at)
    ]
  ]

  length-send_to_all :
      (skipped : NodeId) (encoded : Bytes) (peers : PeerMap S)
      → length (send_to_all net skipped encoded peers).0 ≡ length peers
  unfolding send_to_all
  length-send_to_all skipped encoded [] = refl
  length-send_to_all skipped encoded ((id, stream) ∷ peers) =
      ground (arith, length-send_to_all skipped encoded peers)

  pub length-broadcast :
      (skipped : NodeId) (msg : BroadcastMessage) (peers : PeerMap S)
      → length (broadcast net skipped msg peers).0 ≡ length peers
  unfolding broadcast
  length-broadcast skipped msg peers =
      elim (Option-cases (net.encode (PeerMessage.broadcast msg))) [
        | inl bad ↦ rw (bad, broadcast)
        | inr (encoded, good) ↦ rw (good, broadcast) (length-send_to_all skipped encoded peers)
      ]

  -- A new peer never takes a table of peers that is within its limit past it.
  pub length-new_peer :
      (h : HubState S) (id : NodeId) (stream : S) (connecting : Bool)
      → length h.peers ≤ peer_size_limit
      → length (new_peer net h id stream connecting).state.peers ≤ peer_size_limit
  unfolding new_peer
  length-new_peer h id stream connecting le = ground (arith, length-insert-le id stream h.peers)

  pub new_peer-same_chain :
      (h : HubState S) (id : NodeId) (stream : S) (connecting : Bool)
      → (new_peer net h id stream connecting).state.chain ≡ h.chain
  unfolding new_peer
  new_peer-same_chain h id stream connecting = ground arith

  by_true : (b : Bool) → not (xor b true) ≡ b
  unfolding xor
  by_true true = refl
  by_true false = refl

  by_false : (b : Bool) → not (xor (not b) false) ≡ b
  unfolding xor
  by_false true = refl
  by_false false = refl

  duplicate-new_peer :
      (h : HubState S) (id : NodeId) (stream old : S) (connecting taken : Bool)
      → leb peer_size_limit (length h.peers) ≡ false
      → get id h.peers ≡ some old
      → not (xor (net.node_lt h.local_node_id id) connecting) ≡ taken
      → (new_peer net h id stream connecting).reply ≡ some (Reply.decision taken)
  unfolding new_peer
  duplicate-new_peer h id stream old connecting true room at e =
      let known : contains_key id h.peers ≡ true = ground arith in rw (room, known, e)
  duplicate-new_peer h id stream old connecting false room at e =
      let known : contains_key id h.peers ≡ true = ground arith in rw (room, known, e)

  -- With an order of ids that decides any two of them, two nodes that have each other for a peer,
  -- and room in their tables, answer a second connection between them in the same way: both take
  -- it if the node that opened it has the smaller id, and both refuse it otherwise.
  pub duplicates_agree :
      ((a b : NodeId) → a ≢ b → net.node_lt b a ≡ not (net.node_lt a b))
      → (ha hb : HubState S) (sa sb ta tb : S) → ha.local_node_id ≢ hb.local_node_id
      → length ha.peers < peer_size_limit
      → length hb.peers < peer_size_limit
      → get hb.local_node_id ha.peers ≡ some ta
      → get ha.local_node_id hb.peers ≡ some tb
      → ((new_peer net ha hb.local_node_id sa true).reply
          ≡ some (Reply.decision (net.node_lt ha.local_node_id hb.local_node_id)))
        × ((new_peer net hb ha.local_node_id sb false).reply
            ≡ some (Reply.decision (net.node_lt ha.local_node_id hb.local_node_id)))
  unfolding new_peer
  duplicates_agree order ha hb sa sb ta tb ne room_a room_b at_a at_b =
      let taken = net.node_lt ha.local_node_id hb.local_node_id in
      (
        duplicate-new_peer ha hb.local_node_id sa ta true taken (ground arith) at_a (by_true taken),
        duplicate-new_peer hb ha.local_node_id sb tb false taken (ground arith) at_b
            (rw (order ha.local_node_id hb.local_node_id ne) (by_false taken)),
      )
