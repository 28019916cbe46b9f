-- ===== src/Peer/Stops.antt =====
-- About src/peerhub.rs: what ends the actor, which stops when its handler returns an error.
use ddcoin.Prelude.{
  ℕ, ◌≡◌, ◌≢◌, ◌⊎◌, ◌↔◌, inl, inr, refl, arith, true, false, not, none, some, List, [], ◌∷◌,
  Bool-cases,
}
use ddcoin.Prelude.Outcome.{done}
use ddcoin.Prelude.Bytes.{Bytes, bytes_eq}
use ddcoin.HashMap.{get, contains_key}
use ddcoin.Data.{Transaction, TransactionId, Timestamp}
use ddcoin.External.{External}
use ddcoin.Transaction
use ddcoin.Hub
use ddcoin.Hub.{HubState, Handled, sent, forget}
use ddcoin.Hub.Messages.{NodeId, Network, PeerMessage, BroadcastMessage, Message}
use ddcoin.Hub.Send.{PeerMap, send_frame, send_to_all, broadcast}
use ddcoin.Hub.Handle.{handle}
use ddcoin.Peer.{forward}
use ddcoin.Peer.Delivery.{deliver}

module _ {S : Type 0} (net : Network S) where
  -- A peer other than `skipped` does not take the frame.
  abbrev pub SomeRefuses : NodeId → Bytes → PeerMap S → Type 0
  SomeRefuses skipped encoded [] = ⊥
  SomeRefuses skipped encoded ((id, stream) ∷ peers) =
      ((id ≢ skipped) × ((send_frame net stream encoded).1 ≡ false))
      ⊎ SomeRefuses skipped encoded peers

  send_to_all_iff :
      (skipped : NodeId) (encoded : Bytes) (peers : PeerMap S)
      → ((send_to_all net skipped encoded peers).1 ≡ false) ↔ SomeRefuses skipped encoded peers
  unfolding send_to_all
  send_to_all_iff skipped encoded [] = (λ e. cc, λ n. absurd n)
  send_to_all_iff skipped encoded ((id, stream) ∷ peers) =
      ground (arith, send_to_all_iff skipped encoded peers)

  module _ ⦃x : External⦄ where
    forget-same_failed : (id : TransactionId) (r : Handled S) → (forget net id r).failed ≡ r.failed
    forget-same_failed id r = elim (Bool-cases r.failed) [
      | inl stop ↦ rw stop refl
      | inr on ↦ rw on refl
    ]

    new_transaction-failed :
        (h : HubState S) (t : Transaction) (encoded : Bytes)
        → contains_key (Transaction.id t) h.mempool ≡ false
        → net.encode
            (PeerMessage.broadcast (BroadcastMessage.announce_transaction (Transaction.id t)))
          ≡ some encoded
        → (Hub.new_transaction net h t).failed
          ≡ not (send_to_all net h.local_node_id encoded h.peers).1
    unfolding Hub.new_transaction broadcast
    new_transaction-failed h t encoded new e = rw new (rw (forget-same_failed, e, broadcast) refl)

    -- The handler of a transaction that is not in the pool, and whose announcement can be encoded,
    -- ends by an error exactly when a peer other than the node itself does not take the frame.
    pub new_transaction-fails_iff :
        (h : HubState S) (t : Transaction) (encoded : Bytes)
        → contains_key (Transaction.id t) h.mempool ≡ false
        → net.encode
            (PeerMessage.broadcast (BroadcastMessage.announce_transaction (Transaction.id t)))
          ≡ some encoded
        → ((Hub.new_transaction net h t).failed ≡ true)
          ↔ SomeRefuses h.local_node_id encoded h.peers
    new_transaction-fails_iff h t encoded new e =
        rw (new_transaction-failed h t encoded new e)
          (ground (arith, send_to_all_iff h.local_node_id encoded h.peers))

    -- A request for what the node does not have.
    abbrev pub IsUnknown : HubState S → PeerMessage → Type 0
    IsUnknown h (PeerMessage.get_transaction_request id) = get id h.mempool ≡ none
    IsUnknown h (PeerMessage.get_block_request id) = get id h.valid_blocks ≡ none
    IsUnknown h _ = ⊥

    -- Such a request makes the handler fail, and changes nothing.
    unknown_request-fails :
        (root_fuel : ℕ) (now : Timestamp) (h : HubState S) (id : NodeId) (msg : PeerMessage)
        → IsUnknown h msg
        → handle net root_fuel now h (forward id msg) ≡ done (Hub.fail h)
    unfolding forward handle Hub.get_transaction Hub.get_block
    unknown_request-fails root_fuel now h id (PeerMessage.get_transaction_request t) gone =
        rw (gone, Hub.get_transaction)
    unknown_request-fails root_fuel now h id (PeerMessage.get_block_request b) gone =
        rw (gone, Hub.get_block)
    unknown_request-fails root_fuel now h id (PeerMessage.broadcast m) gone = absurd gone
    unknown_request-fails root_fuel now h id (PeerMessage.get_transaction_response t) gone =
        absurd gone
    unknown_request-fails root_fuel now h id (PeerMessage.get_block_response n b) gone = absurd gone

    -- A request of a peer for a transaction that is not in the pool, or for a block that is not
    -- valid, makes the handler fail with the state unchanged, and no message after it is handled.
    pub unknown_request-stops :
        (root_fuel : ℕ) (now : ℕ → Timestamp) (k : ℕ) (h : HubState S) (id : NodeId)
        (msg : PeerMessage) (later : List (Message S))
        → IsUnknown h msg
        → deliver net root_fuel now k h (forward id msg ∷ later) ≡ done h
    unfolding deliver
    unknown_request-stops root_fuel now k h id msg later gone =
        rw (unknown_request-fails root_fuel (now k) h id msg gone) refl
