-- ===== src/Hub/Truth.antt =====
-- About src/peerhub.rs, `PeerHubActor::handle`: what the reply to a message says of the node.
use ddcoin.Prelude.{
  ℕ, ◌<◌, ◌≤◌, ◌≡◌, ◌∙◌, ◌↔◌, ◌⊎◌, refl, sym, Bool, true, false, xor, none, some, arith, map, leb,
  length, List, Bool-cases, Option-cases, inl, inr,
}
use ddcoin.Prelude.Outcome.{Returns}
use ddcoin.Prelude.Bytes.{bytes_eq}
use ddcoin.HashMap.{get, contains_key}
use ddcoin.Data.{Block, Timestamp}
use ddcoin.External.{External}
use ddcoin.Transaction.{fee}
use ddcoin.Chain.{transaction_depth}
use ddcoin.Chain.Confirmed.{IsConfirmed, confirmed_chain-IsConfirmed}
use ddcoin.Chain.Heights.{IsPeriodStart, prev_difficulty_adjusted_block-IsPeriodStart}
use ddcoin.CashSet.{Moved}
use ddcoin.CashSet.Current.{IsBroughtTo, cash_set_at-IsBroughtTo}
use ddcoin.Validation.{with_cash}
use ddcoin.Hub
use ddcoin.Hub.{HubState, Handled, peer_size_limit, replied, reply_sent}
use ddcoin.Hub.Messages.{NodeId, Network, Message, Reply}
use ddcoin.Hub.Handle.{handle, answer, reply_cash}
use ddcoin.Hub.Safe.{HubInv, IsWellFormed}
use ddcoin.Hub.Replies.{HasPort}

leb→le : (a b : ℕ) → leb a b ≡ true → a ≤ b
leb→le a b e = ground arith

leb_false→lt : (a b : ℕ) → leb a b ≡ false → b < a
leb_false→lt a b e = ground arith

xor-same : (a b : Bool) → a ≡ b → xor a b ≡ false
unfolding xor
xor-same true true e = refl
xor-same true false e = cc e
xor-same false true e = cc e
xor-same false false e = refl

xor_false→same : (a b : Bool) → xor a b ≡ false → a ≡ b
unfolding xor
xor_false→same true true e = refl
xor_false→same true false e = cc e
xor_false→same false true e = cc e
xor_false→same false false e = refl

module _ {S : Type 0} ⦃x : External⦄ (net : Network S) (h : HubState S) (i : HubInv h) where
  -- What the reply to a message says of the node.
  abbrev pub IsTruth : Message S → Reply → Type 0
  IsTruth (Message.should_connect id) p =
      (b : Bool) × (p ≡ Reply.decision b)
      × ((b ≡ true) ↔ ((length h.peers < peer_size_limit) × (get id h.peers ≡ none)))
  IsTruth (Message.new_peer id stream connecting) p =
      (b : Bool) × (p ≡ Reply.decision b)
      × ((b ≡ true) ↔ (
          (length h.peers < peer_size_limit)
          × ((get id h.peers ≡ none) ⊎ (net.node_lt h.local_node_id id ≡ connecting))))
  IsTruth (Message.query_transaction id) p = p ≡ Reply.transaction (get id h.mempool)
  IsTruth (Message.query_transactions ids) p =
      p ≡ Reply.transactions (map (λ id. get id h.mempool) ids)
  IsTruth (Message.query_transaction_depth id) p =
      (chain : List Block) × IsConfirmed h.chain i.0 chain
      × (p ≡ Reply.depth (transaction_depth chain id))
  IsTruth (Message.query_transaction_depths ids) p =
      (chain : List Block) × IsConfirmed h.chain i.0 chain
      × (p ≡ Reply.depths (map (transaction_depth chain) ids))
  IsTruth (Message.query_block id) p = p ≡ Reply.block (get id h.valid_blocks)
  IsTruth Message.query_peers p = p ≡ Reply.node_ids (map (λ e. e.0) h.peers)
  IsTruth Message.query_local_node_id p = p ≡ Reply.node_id h.local_node_id
  IsTruth Message.query_mem_pool p = p ≡ Reply.mem_pool (map (λ e. (e.0, fee e.1)) h.mempool)
  IsTruth Message.query_leading_block p = p ≡ Reply.block_id h.leading_block
  IsTruth (Message.query_difficulty_adjust_time n) p =
      (start : Block) × IsPeriodStart h.chain i.0 n start × (p ≡ Reply.time start.inner.timestamp)
  IsTruth Message.query_leading_cash_set p =
      (m : Moved) × IsBroughtTo h.chain i.0 h.leading_block m × (p ≡ Reply.cash_set m.cash)
  IsTruth _ p = ⊥

  -- The reply of a handler, if it gives one, is true.
  abbrev pub IsTold : Message S → Handled S → Type 0
  IsTold m r = (p : Reply) × (r.reply ≡ some p) × IsTruth m p

  below_limit : leb peer_size_limit (length h.peers) ≡ true → ¬ (length h.peers < peer_size_limit)
  below_limit full room = omega (arith, leb→le peer_size_limit (length h.peers) full, room)

  missing : (id : NodeId) → get id h.peers ≡ none → contains_key id h.peers ≡ false
  missing id gone = rw (gone, contains_key) refl

  there : {stream : S} (id : NodeId) → get id h.peers ≡ some stream → contains_key id h.peers ≡ true
  there id at = rw (at, contains_key) refl

  should_connect-IsTold :
      (id : NodeId) → IsTold (Message.should_connect id) (Hub.should_connect h id)
  unfolding Hub.should_connect
  should_connect-IsTold id = elim (Bool-cases (leb peer_size_limit (length h.peers))) [
    | inl full ↦ (
      Reply.decision false,
      rw full refl,
      (false, refl, (λ e. cc e, λ room. absurd (below_limit full room.0))),
    )
    | inr room ↦ elim (Option-cases (get id h.peers)) [
      | inl gone ↦ (
        Reply.decision true,
        rw (room, missing id gone) refl,
        (true, refl, (λ e. (leb_false→lt _ _ room, gone), λ free. refl)),
      )
      | inr (stream, at) ↦ (
        Reply.decision false,
        rw (room, there id at) refl,
        (false, refl, (λ e. cc e, λ free. cc (free.1, at))),
      )
    ]
  ]

  new_peer-IsTold :
      (id : NodeId) (stream : S) (connecting : Bool)
      → IsTold (Message.new_peer id stream connecting) (Hub.new_peer net h id stream connecting)
  unfolding Hub.new_peer
  new_peer-IsTold id stream connecting = elim (Bool-cases (leb peer_size_limit (length h.peers))) [
    | inl full ↦ (
      Reply.decision false,
      rw full refl,
      (false, refl, (λ e. cc e, λ room. absurd (below_limit full room.0))),
    )
    | inr room ↦ elim (Option-cases (get id h.peers)) [
      | inl gone ↦ (
        Reply.decision true,
        rw (room, missing id gone) refl,
        (true, refl, (λ e. (leb_false→lt _ _ room, inl gone), λ free. refl)),
      )
      | inr (old, at) ↦ elim (Bool-cases (xor (net.node_lt h.local_node_id id) connecting)) [
        | inl other ↦ (
          Reply.decision false,
          rw (room, there id at, other) refl,
          (
            false,
            refl,
            (
              λ e. cc e,
              λ free. elim free.1 [
                | inl gone ↦ cc (gone, at)
                | inr same ↦ cc (sym (xor-same _ _ same) ∙ other)
              ],
            ),
          ),
        )
        | inr agree ↦ (
          Reply.decision true,
          rw (room, there id at, agree) refl,
          (
            true,
            refl,
            (λ e. (leb_false→lt _ _ room, inr (xor_false→same _ _ agree)), λ free. refl),
          ),
        )
      ]
    ]
  ]

  pub handle-IsTold :
      (root_fuel : ℕ) (now : Timestamp) (m : Message S)
      → IsWellFormed h m
      → HasPort m
      → Returns (IsTold m) (handle net root_fuel now h m)
  unfolding handle answer
  handle-IsTold root_fuel now (Message.should_connect id) w port =
      (_, refl, should_connect-IsTold id)
  handle-IsTold root_fuel now (Message.new_peer id stream connecting) w port =
      (_, refl, new_peer-IsTold id stream connecting)
  handle-IsTold root_fuel now (Message.query_transaction id) w port = (_, refl, (_, refl, refl))
  handle-IsTold root_fuel now (Message.query_transactions ids) w port = (_, refl, (_, refl, refl))
  handle-IsTold root_fuel now (Message.query_transaction_depth id) w port =
      let (chain, e, c) = confirmed_chain-IsConfirmed h.chain i.0 in
      (replied h (Reply.depth (transaction_depth chain id)), rw e refl, (_, refl, (chain, c, refl)))
  handle-IsTold root_fuel now (Message.query_transaction_depths ids) w port =
      let (chain, e, c) = confirmed_chain-IsConfirmed h.chain i.0 in
      (
        replied h (Reply.depths (map (transaction_depth chain) ids)),
        rw e refl,
        (_, refl, (chain, c, refl)),
      )
  handle-IsTold root_fuel now (Message.query_block id) w port = (_, refl, (_, refl, refl))
  handle-IsTold root_fuel now Message.query_peers w port = (_, refl, (_, refl, refl))
  handle-IsTold root_fuel now Message.query_local_node_id w port = (_, refl, (_, refl, refl))
  handle-IsTold root_fuel now Message.query_mem_pool w port = (_, refl, (_, refl, refl))
  handle-IsTold root_fuel now Message.query_leading_block w port = (_, refl, (_, refl, refl))
  handle-IsTold root_fuel now (Message.query_difficulty_adjust_time n) (pos, small, (top, at, near))
        port =
      let high : top.inner.seqno ≤ i.0.leader.inner.seqno = i.0.leader_max h.leading_block top at in
      let (b, e, s) =
        prev_difficulty_adjusted_block-IsPeriodStart h.chain i.0 n i.1.period_pos pos small
          (omega arith) in
      (replied h (Reply.time b.inner.timestamp), rw e refl, (_, refl, (b, s, refl)))
  handle-IsTold root_fuel now Message.query_leading_cash_set w port =
      let (m, e, brought) =
        cash_set_at-IsBroughtTo h.chain i.0 h.leading_block i.0.leader i.0.leader_at in
      (
        replied (record h { chain = with_cash h.chain m.cash }) (Reply.cash_set m.cash),
        rw (e, reply_cash, brought.known) refl,
        (_, refl, (m, brought, refl)),
      )
  handle-IsTold root_fuel now (Message.announce_transaction id t) w port = absurd port.1
  handle-IsTold root_fuel now (Message.announce_block id t) w port = absurd port.1
  handle-IsTold root_fuel now (Message.get_transaction id t) w port = absurd port.1
  handle-IsTold root_fuel now (Message.get_block id t) w port = absurd port.1
  handle-IsTold root_fuel now (Message.new_transaction t) w port = absurd port.1
  handle-IsTold root_fuel now (Message.new_block from b) w port = absurd port.1
