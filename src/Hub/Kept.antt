-- ===== src/Hub/Kept.antt =====
-- About src/peerhub.rs, `PeerHubActor::handle`: the invariant of Hub/Safe.antt under every message.
use ddcoin.Prelude.{
  ℕ, ◌≤◌, ◌≡◌, sym, subst, arith, Bool, true, List, length, map, leb, Bool-cases, Option-cases, inl,
  inr,
}
use ddcoin.Prelude.Outcome.{done, ◌>>=◌}
use ddcoin.Prelude.Bytes.{bytes_eq}
use ddcoin.HashMap.{get, insert}
use ddcoin.Data.{Block, BlockId, Timestamp, TransactionId}
use ddcoin.External.{External}
use ddcoin.Util.Difficulty.{IsUsable}
use ddcoin.Chain.{knows_block, confirmed_chain, prev_difficulty_adjusted_block, transaction_depth}
use ddcoin.Chain.Linked.{Inv}
use ddcoin.Chain.Confirmed.{confirmed_chain-IsConfirmed}
use ddcoin.Chain.Heights.{prev_difficulty_adjusted_block-IsPeriodStart}
use ddcoin.CashSet.{Moved}
use ddcoin.CashSet.Current.{cash_set_at-IsBroughtTo}
use ddcoin.Hub
use ddcoin.Hub.{HubState, Handled, peer_size_limit, quiet, sent, announce_blocks, forget}
use ddcoin.Hub.Messages.{NodeId, Network, PeerMessage, Message, Reply}
use ddcoin.Hub.Peers.{length-new_peer, new_peer-same_chain}
use ddcoin.Hub.Handle.{answer, handle, reply_cash}
use ddcoin.Hub.Safe.{
  HubInv, IsSafe, IsWellFormed, sent_to-HubInv, new_transaction-HubInv, new_block-IsSafe,
}

module _ {S : Type 0} ⦃x : External⦄ where
  module _ (net : Network S) where
    confirmed-IsSafe :
        (h : HubState S) (k : List Block → Reply)
        → HubInv h
        → IsSafe (confirmed_chain h.chain >>= λ chain. done (Hub.replied h (k chain)))
    confirmed-IsSafe h k i = let (chain, e, _) = confirmed_chain-IsConfirmed h.chain i.0 in rw e i

    time-IsSafe :
        (h : HubState S) (n : ℕ)
        → HubInv h
        → IsWellFormed h (Message.query_difficulty_adjust_time n)
        → IsSafe (
            prev_difficulty_adjusted_block h.chain n >>= λ adjusted.
            done (Hub.replied h (Reply.time adjusted.inner.timestamp)))
    time-IsSafe h n (v, usable, le) (pos, small, (b, at, near)) =
        let top : b.inner.seqno ≤ v.leader.inner.seqno = v.leader_max h.leading_block b at in
        let (a, e, _) =
          prev_difficulty_adjusted_block-IsPeriodStart h.chain v n usable.period_pos pos small
            (omega arith) in
        rw e (v, usable, le)

    reply_cash-IsSafe :
        (h : HubState S) (m : Moved) → m.known ≡ true → HubInv h → IsSafe (reply_cash h m)
    reply_cash-IsSafe h m e i = rw e i

    cash-IsSafe : (h : HubState S) → HubInv h → IsSafe (answer net h Message.query_leading_cash_set)
    unfolding answer
    cash-IsSafe h i =
        let (m, e, brought) =
          cash_set_at-IsBroughtTo h.chain i.0 h.leading_block i.0.leader i.0.leader_at in
        rw e (reply_cash-IsSafe h m brought.known i)

    new_peer-HubInv :
        (h : HubState S) (id : NodeId) (stream : S) (connecting : Bool)
        → HubInv h
        → HubInv (Hub.new_peer net h id stream connecting).state
    new_peer-HubInv h id stream connecting (v, usable, le) =
        let same = new_peer-same_chain net h id stream connecting in
        (
          subst Inv (sym same) v,
          subst (λ c. IsUsable c.config) (sym same) usable,
          length-new_peer net h id stream connecting le,
        )

    announce_transaction-HubInv :
        (h : HubState S) (id : NodeId) (txn_id : TransactionId)
        → HubInv h
        → HubInv (Hub.announce_transaction net h id txn_id).state
    unfolding Hub.announce_transaction
    announce_transaction-HubInv h id txn_id i = elim (Bool-cases (Hub.knows_transaction h txn_id)) [
      | inl known ↦ rw known i
      | inr new ↦ rw new (
          sent_to-HubInv net (record h { annoucements = insert txn_id id h.annoucements })
            (PeerMessage.get_transaction_request txn_id) id i)
    ]

    announce_block-HubInv :
        (h : HubState S) (id : NodeId) (block_id : BlockId)
        → HubInv h
        → HubInv (Hub.announce_block net h id block_id).state
    unfolding Hub.announce_block
    announce_block-HubInv h id block_id i = elim (Bool-cases (knows_block h.chain block_id)) [
      | inl known ↦ rw known i
      | inr new ↦ rw new (sent_to-HubInv net h (PeerMessage.get_block_request block_id) id i)
    ]

    get_transaction-HubInv :
        (h : HubState S) (id : NodeId) (txn_id : TransactionId)
        → HubInv h
        → HubInv (Hub.get_transaction net h id txn_id).state
    unfolding Hub.get_transaction
    get_transaction-HubInv h id txn_id i = elim (Option-cases (get txn_id h.mempool)) [
      | inl missing ↦ rw (missing, Hub.get_transaction) i
      | inr (t, at) ↦
          rw (at, Hub.get_transaction)
            (sent_to-HubInv net h (PeerMessage.get_transaction_response t) id i)
    ]

    get_block-HubInv :
        (h : HubState S) (id : NodeId) (block_id : BlockId)
        → HubInv h
        → HubInv (Hub.get_block net h id block_id).state
    unfolding Hub.get_block
    get_block-HubInv h id block_id i = elim (Option-cases (get block_id h.valid_blocks)) [
      | inl missing ↦ rw (missing, Hub.get_block) i
      | inr (b, at) ↦
          rw (at, Hub.get_block)
            (sent_to-HubInv net h (PeerMessage.get_block_response h.local_node_id b) id i)
    ]

    should_connect-HubInv :
        (h : HubState S) (id : NodeId) → HubInv h → HubInv (Hub.should_connect h id).state
    unfolding Hub.should_connect
    should_connect-HubInv h id i = elim (Bool-cases (leb peer_size_limit (length h.peers))) [
      | inl full ↦ rw full i
      | inr room ↦ rw room i
    ]

    pub handle-IsSafe :
        (root_fuel : ℕ) (now : Timestamp) (h : HubState S) (m : Message S)
        → HubInv h
        → IsWellFormed h m
        → IsSafe (handle net root_fuel now h m)
    unfolding handle answer
    handle-IsSafe root_fuel now h (Message.should_connect id) i w = should_connect-HubInv h id i
    handle-IsSafe root_fuel now h (Message.new_peer id stream connecting) i w =
        new_peer-HubInv h id stream connecting i
    handle-IsSafe root_fuel now h (Message.announce_transaction id txn_id) i w =
        announce_transaction-HubInv h id txn_id i
    handle-IsSafe root_fuel now h (Message.announce_block id block_id) i w =
        announce_block-HubInv h id block_id i
    handle-IsSafe root_fuel now h (Message.get_transaction id txn_id) i w =
        get_transaction-HubInv h id txn_id i
    handle-IsSafe root_fuel now h (Message.get_block id block_id) i w =
        get_block-HubInv h id block_id i
    handle-IsSafe root_fuel now h (Message.new_transaction txn) i w =
        new_transaction-HubInv net h txn i
    handle-IsSafe root_fuel now h (Message.new_block from block) i w =
        new_block-IsSafe net root_fuel now h from block i w
    handle-IsSafe root_fuel now h (Message.query_transaction id) i w = i
    handle-IsSafe root_fuel now h (Message.query_transactions ids) i w = i
    handle-IsSafe root_fuel now h (Message.query_transaction_depth id) i w =
        confirmed-IsSafe h (λ chain. Reply.depth (transaction_depth chain id)) i
    handle-IsSafe root_fuel now h (Message.query_transaction_depths ids) i w =
        confirmed-IsSafe h (λ chain. Reply.depths (map (transaction_depth chain) ids)) i
    handle-IsSafe root_fuel now h (Message.query_block id) i w = i
    handle-IsSafe root_fuel now h Message.query_peers i w = i
    handle-IsSafe root_fuel now h Message.query_local_node_id i w = i
    handle-IsSafe root_fuel now h Message.query_mem_pool i w = i
    handle-IsSafe root_fuel now h Message.query_leading_block i w = i
    handle-IsSafe root_fuel now h (Message.query_difficulty_adjust_time n) i w = time-IsSafe h n i w
    handle-IsSafe root_fuel now h Message.query_leading_cash_set i w = cash-IsSafe h i
