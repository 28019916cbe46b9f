-- ===== src/Hub/Replies.antt =====
-- About src/peerhub.rs, `PeerHubActor::handle`: the reply ports of `PeerHubActorMessage`.
use ddcoin.Prelude.{
  ℕ, ◌≤◌, ◌≡◌, refl, arith, Bool, true, false, not, ◌||◌, xor, Option, some, List, [], ◌∷◌, length,
  map, leb, Bool-cases, inl, inr,
}
use ddcoin.Prelude.Outcome.{Returns}
use ddcoin.Prelude.Bytes.{bytes_eq}
use ddcoin.HashMap.{contains_key}
use ddcoin.Data.{Cash, Transaction, TransactionId, Block, BlockId, Timestamp}
use ddcoin.External.{External}
use ddcoin.Chain.{transaction_depth}
use ddcoin.Chain.Confirmed.{confirmed_chain-IsConfirmed}
use ddcoin.Chain.Heights.{prev_difficulty_adjusted_block-IsPeriodStart}
use ddcoin.CashSet.{Moved}
use ddcoin.CashSet.Current.{cash_set_at-IsBroughtTo}
use ddcoin.Hub
use ddcoin.Hub.{HubState, Handled, peer_size_limit, replied}
use ddcoin.Hub.Messages.{NodeId, Network, Message, Reply}
use ddcoin.Hub.Handle.{handle, answer, reply_cash}
use ddcoin.Hub.Safe.{HubInv, IsWellFormed}

module _ {S : Type 0} where
  -- A reply of the type of the message's port. A message that only tells something has no port.
  abbrev pub IsReplyTo : Message S → Reply → Type 0
  IsReplyTo (Message.should_connect id) p = (b : Bool) × (p ≡ Reply.decision b)
  IsReplyTo (Message.new_peer id stream connecting) p = (b : Bool) × (p ≡ Reply.decision b)
  IsReplyTo (Message.query_transaction id) p = (t : Option Transaction) × (p ≡ Reply.transaction t)
  IsReplyTo (Message.query_transactions ids) p =
      (ts : List (Option Transaction)) × (p ≡ Reply.transactions ts) × (length ts ≡ length ids)
  IsReplyTo (Message.query_transaction_depth id) p = (d : Option ℕ) × (p ≡ Reply.depth d)
  IsReplyTo (Message.query_transaction_depths ids) p =
      (ds : List (Option ℕ)) × (p ≡ Reply.depths ds) × (length ds ≡ length ids)
  IsReplyTo (Message.query_block id) p = (b : Option Block) × (p ≡ Reply.block b)
  IsReplyTo Message.query_peers p = (ids : List NodeId) × (p ≡ Reply.node_ids ids)
  IsReplyTo Message.query_local_node_id p = (id : NodeId) × (p ≡ Reply.node_id id)
  IsReplyTo Message.query_mem_pool p = (fees : List (TransactionId × ℕ)) × (p ≡ Reply.mem_pool fees)
  IsReplyTo Message.query_leading_block p = (id : BlockId) × (p ≡ Reply.block_id id)
  IsReplyTo (Message.query_difficulty_adjust_time n) p = (t : Timestamp) × (p ≡ Reply.time t)
  IsReplyTo Message.query_leading_cash_set p = (set : List Cash) × (p ≡ Reply.cash_set set)
  IsReplyTo _ p = ⊥

  -- The messages with a port.
  abbrev pub HasPort : Message S → Type 0
  HasPort m = (p : Reply) × IsReplyTo m p

  -- The caller gets what it waits for, and the actor goes on.
  pub record IsAnswered (m : Message S) (r : Handled S) : Type 0 where
    pub goes_on : r.failed ≡ false
    pub reply : Reply
    pub sent : r.reply ≡ some reply
    pub fits : IsReplyTo m reply

module _ {S : Type 0} ⦃x : External⦄ where
  reply_cash-IsAnswered :
      (h : HubState S) (m : Moved)
      → m.known ≡ true
      → Returns (IsAnswered Message.query_leading_cash_set) (reply_cash h m)
  reply_cash-IsAnswered h m e =
      rw e (_, refl, record { goes_on = refl; reply = _; sent = refl; fits = (_, refl) })

length-map : {A B : Type 0} (f : A → B) (xs : List A) → length (map f xs) ≡ length xs
length-map f [] = refl
length-map f (y ∷ xs) = omega (arith, length-map f xs)

module _ {S : Type 0} ⦃x : External⦄ (net : Network S) (root_fuel : ℕ) (now : Timestamp) where
  should_connect-IsAnswered :
      (h : HubState S) (id : NodeId)
      → IsAnswered (Message.should_connect id) (Hub.should_connect h id)
  unfolding Hub.should_connect
  should_connect-IsAnswered h id = elim (Bool-cases (leb peer_size_limit (length h.peers))) [
    | inl full ↦ rw full record { goes_on = refl; reply = _; sent = refl; fits = (_, refl) }
    | inr room ↦ rw room record { goes_on = refl; reply = _; sent = refl; fits = (_, refl) }
  ]

  abbrev taken : HubState S → NodeId → Bool → Bool
  taken h id connecting =
      not (contains_key id h.peers) || not (xor (net.node_lt h.local_node_id id) connecting)

  new_peer-IsAnswered :
      (h : HubState S) (id : NodeId) (stream : S) (connecting : Bool)
      → IsAnswered (Message.new_peer id stream connecting) (Hub.new_peer net h id stream connecting)
  unfolding Hub.new_peer
  new_peer-IsAnswered h id stream connecting =
      elim (Bool-cases (leb peer_size_limit (length h.peers))) [
        | inl full ↦ rw full record { goes_on = refl; reply = _; sent = refl; fits = (_, refl) }
        | inr room ↦ elim (Bool-cases (taken h id connecting)) [
          | inl takes ↦
              rw (room, takes) record { goes_on = refl; reply = _; sent = refl; fits = (_, refl) }
          | inr refuses ↦
              rw (room, refuses) record { goes_on = refl; reply = _; sent = refl; fits = (_, refl) }
        ]
      ]

  cash-IsAnswered :
      (h : HubState S)
      → HubInv h
      → Returns
          (IsAnswered Message.query_leading_cash_set)
          (answer net h Message.query_leading_cash_set)
  unfolding answer
  cash-IsAnswered h i =
      let (m, e, brought) =
        cash_set_at-IsBroughtTo h.chain i.0 h.leading_block i.0.leader i.0.leader_at in
      rw e (reply_cash-IsAnswered h m brought.known)

  -- A node in its invariant replies to every well-formed message that has a port, with a reply of the type
  -- of the port, and for a list of ids with as many answers as ids; the handler goes on to where the reply
  -- is sent.
  pub handle-IsAnswered :
      (h : HubState S) (m : Message S)
      → HubInv h
      → IsWellFormed h m
      → HasPort m
      → Returns (IsAnswered m) (handle net root_fuel now h m)
  unfolding handle answer
  handle-IsAnswered h (Message.should_connect id) i w port =
      (_, refl, should_connect-IsAnswered h id)
  handle-IsAnswered h (Message.new_peer id stream connecting) i w port =
      (_, refl, new_peer-IsAnswered h id stream connecting)
  handle-IsAnswered h (Message.query_transaction id) i w port =
      (_, refl, record { goes_on = refl; reply = _; sent = refl; fits = (_, refl) })
  handle-IsAnswered h (Message.query_transactions ids) i w port = (
    _,
    refl,
    record { goes_on = refl; reply = _; sent = refl; fits = (_, refl, length-map _ ids) },
  )
  handle-IsAnswered h (Message.query_transaction_depth id) i w port =
      let (chain, e, _) = confirmed_chain-IsConfirmed h.chain i.0 in
      (
        replied h (Reply.depth (transaction_depth chain id)),
        rw e,
        record { goes_on = refl; reply = _; sent = refl; fits = (_, refl) },
      )
  handle-IsAnswered h (Message.query_transaction_depths ids) i w port =
      let (chain, e, _) = confirmed_chain-IsConfirmed h.chain i.0 in
      (
        replied h (Reply.depths (map (transaction_depth chain) ids)),
        rw e,
        record { goes_on = refl; reply = _; sent = refl; fits = (_, refl, length-map _ ids) },
      )
  handle-IsAnswered h (Message.query_block id) i w port =
      (_, refl, record { goes_on = refl; reply = _; sent = refl; fits = (_, refl) })
  handle-IsAnswered h Message.query_peers i w port =
      (_, refl, record { goes_on = refl; reply = _; sent = refl; fits = (_, refl) })
  handle-IsAnswered h Message.query_local_node_id i w port =
      (_, refl, record { goes_on = refl; reply = _; sent = refl; fits = (_, refl) })
  handle-IsAnswered h Message.query_mem_pool i w port =
      (_, refl, record { goes_on = refl; reply = _; sent = refl; fits = (_, refl) })
  handle-IsAnswered h Message.query_leading_block i w port =
      (_, refl, record { goes_on = refl; reply = _; sent = refl; fits = (_, refl) })
  handle-IsAnswered h (Message.query_difficulty_adjust_time n) i (pos, small, (b, at, near)) port =
      let top : b.inner.seqno ≤ i.0.leader.inner.seqno = i.0.leader_max h.leading_block b at in
      let (a, e, _) =
        prev_difficulty_adjusted_block-IsPeriodStart h.chain i.0 n i.1.period_pos pos small
          (omega arith) in
      (
        replied h (Reply.time a.inner.timestamp),
        rw e,
        record { goes_on = refl; reply = _; sent = refl; fits = (_, refl) },
      )
  handle-IsAnswered h Message.query_leading_cash_set i w port = cash-IsAnswered h i
  handle-IsAnswered h (Message.announce_transaction id txn_id) i w (r, p) = absurd p
  handle-IsAnswered h (Message.announce_block id block_id) i w (r, p) = absurd p
  handle-IsAnswered h (Message.get_transaction id txn_id) i w (r, p) = absurd p
  handle-IsAnswered h (Message.get_block id block_id) i w (r, p) = absurd p
  handle-IsAnswered h (Message.new_transaction txn) i w (r, p) = absurd p
  handle-IsAnswered h (Message.new_block from block) i w (r, p) = absurd p
