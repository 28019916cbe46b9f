-- ===== src/Hub.antt =====
-- src/peerhub.rs: the actor. A call of the actor's handler takes the state and a message and gives
-- the state after it, the reply that was sent, and whether it ended by an error. A reply is the last
-- thing a handler does, and `reply_sent` is what comes of it once the caller has gone or not.
pub mod Messages
pub mod Handle
pub mod Client
pub mod Helper
pub mod Send
pub mod Peers
pub mod Safe
pub mod Kept
pub mod Histories
pub mod Grows
pub mod Untouched
pub mod Changes
pub mod Keeps
pub mod Ledger
pub mod Replies
pub mod Truth
pub mod Callers
pub mod Tidy
use ddcoin.Prelude.{
  ℕ, suc, ◌==◌, ltb, leb, if◌then◌else◌, xor, Bool, true, false, not, ◌||◌, Option, none, some,
  List, [], ◌∷◌, map, length,
}
use ddcoin.Prelude.Outcome.{Outcome, done, unwrap, ◌>>=◌}
use ddcoin.Prelude.Bytes.{bytes_eq}
use ddcoin.HashMap.{HashMap, get, insert, remove, contains_key, contains}
use ddcoin.Data.{Transaction, TransactionId, Block, BlockId, Timestamp, Cash}
use ddcoin.External.{External}
use ddcoin.Config.{Config}
use ddcoin.Transaction
use ddcoin.Block
use ddcoin.Chain
use ddcoin.Chain.{
  ChainState, knows_block, block_root, confirmed_chain, transaction_depth,
  prev_difficulty_adjusted_block,
}
use ddcoin.Chain.Start
use ddcoin.CashSet.{cash_set_at}
use ddcoin.Validation.{reject, validate_block, with_cash}
use Messages.{NodeId, Network, PeerMessage, BroadcastMessage, Message, Reply}
use Send.{PeerMap, send_to_peer, broadcast}

abbrev pub peer_size_limit : ℕ
peer_size_limit = 3

pub record HubState (S : Type 0) : Type 0 where
  pub chain : ChainState
  pub open chain use *
  pub peers : PeerMap S
  pub annoucements : HashMap TransactionId NodeId
  pub local_node_id : NodeId

-- The end of a call of the handler. `failed` stands for `Err`.
pub record Handled (S : Type 0) : Type 0 where
  pub state : HubState S
  pub reply : Option Reply
  pub failed : Bool

module _ {S : Type 0} where
  abbrev pub quiet : HubState S → Handled S
  quiet h = record { state = h; reply = none; failed = false }

  abbrev pub fail : HubState S → Handled S
  fail h = record { state = h; reply = none; failed = true }

  abbrev pub replied : HubState S → Reply → Handled S
  replied h r = record { state = h; reply = some r; failed = false }

  -- `reply.send(…)?` with the reply of a handler: an error if the port is no longer open.
  unfoldable pub reply_sent : Bool → Handled S → Handled S
  reply_sent true r = r
  reply_sent false r = elim r.reply [ none ↦ r | some reply ↦ fail (r.state) ]

  -- After a call that sends, which ends the handler by `?` if it fails.
  abbrev pub sent : HubState S → PeerMap S × Bool → Handled S
  sent h (peers, good) = record {
    state = record h { peers = peers };
    reply = none;
    failed = not good;
  }

  -- `PeerHubActorState::new`
  unfoldable pub new : ⦃x : External⦄ → ℕ → NodeId → Config → Outcome (HubState S)
  new fuel local_node_id config = do
    chain ← Start.new fuel config
    done (record { chain = chain; peers = []; annoucements = []; local_node_id = local_node_id })

  -- `pre_start`, which gets the arguments of `Actor::spawn`.
  unfoldable pub pre_start : ⦃x : External⦄ → ℕ → NodeId × Config → Outcome (HubState S)
  unfolding new
  pre_start fuel args = new fuel args.0 args.1

  unfoldable pub knows_transaction : HubState S → TransactionId → Bool
  knows_transaction h id = contains_key id h.mempool || contains_key id h.annoucements

  unfoldable pub should_connect : HubState S → NodeId → Handled S
  should_connect h id =
      if leb peer_size_limit (length h.peers)
      then replied h (Reply.decision false)
      else replied h (Reply.decision (not (contains_key id h.peers)))

module _ {S : Type 0} (net : Network S) where
  -- A duplicate connection replaces the old one if the smaller id opened it.
  unfoldable pub new_peer : HubState S → NodeId → S → Bool → Handled S
  new_peer h id stream connecting =
      if leb peer_size_limit (length h.peers)
      then replied h (Reply.decision false)
      else if not (contains_key id h.peers) || not (xor (net.node_lt h.local_node_id id) connecting)
      then replied (record h { peers = insert id stream h.peers }) (Reply.decision true)
      else replied h (Reply.decision false)

  unfoldable pub announce_transaction : HubState S → NodeId → TransactionId → Handled S
  announce_transaction h id txn_id =
      if knows_transaction h txn_id
      then quiet h
      else sent (record h { annoucements = insert txn_id id h.annoucements })
          (send_to_peer net (PeerMessage.get_transaction_request txn_id) id h.peers)

  unfoldable pub announce_block : HubState S → NodeId → BlockId → Handled S
  announce_block h id block_id =
      if knows_block h.chain block_id
      then quiet h
      else sent h (send_to_peer net (PeerMessage.get_block_request block_id) id h.peers)

  unfoldable pub get_transaction : HubState S → NodeId → TransactionId → Handled S
  get_transaction h id txn_id = elim (get txn_id h.mempool) [
    | none ↦ fail h
    | some txn ↦ sent h (send_to_peer net (PeerMessage.get_transaction_response txn) id h.peers)
  ]

  unfoldable pub get_block : HubState S → NodeId → BlockId → Handled S
  get_block h id block_id = elim (get block_id h.valid_blocks) [
    | none ↦ fail h
    | some block ↦
        sent h (send_to_peer net (PeerMessage.get_block_response h.local_node_id block) id h.peers)
  ]

  -- The announcement is forgotten only if the broadcast went through.
  abbrev pub forget : TransactionId → Handled S → Handled S
  forget id r =
      if r.failed
      then r
      else record r { state = record (r.state) { annoucements = remove id r.state.annoucements } }

  -- The loop over the new valid ids.
  unfoldable pub announce_blocks : HubState S → List BlockId → Handled S
  announce_blocks h [] = quiet h
  announce_blocks h (id ∷ ids) =
      let r = sent h (broadcast net h.local_node_id (BroadcastMessage.announce_block id) h.peers) in
      let rest = announce_blocks r.state ids in if r.failed then r else rest

  module _ ⦃x : External⦄ where
    unfoldable pub new_transaction : HubState S → Transaction → Handled S
    new_transaction h txn =
        let id = Transaction.id txn in
        if contains_key id h.mempool
        then quiet h
        else let h' = record h { chain = record (h.chain) { mempool = insert id txn h.mempool } } in
          forget id (
            sent h'
              (broadcast net h.local_node_id (BroadcastMessage.announce_transaction id) h.peers))

    -- After validation: ask for a missing block, or announce the new valid ones.
    unfoldable pub after_validation :
        ℕ → HubState S → Option NodeId → Block → List BlockId → Outcome (Handled S)
    unfolding announce_blocks
    after_validation root_fuel h from block [] =
        if not (contains_key (Block.id block) h.unconfirmed_blocks) then done (quiet h) else do
          missing_root ← block_root root_fuel h.chain block.inner.prev_id
          elim from [
            | none ↦ done (quiet h)
            | some id ↦
                done (
                  sent h (send_to_peer net (PeerMessage.get_block_request missing_root) id h.peers))
          ]
    after_validation root_fuel h from block (id ∷ ids) = done (announce_blocks h (id ∷ ids))

    -- `now` is the clock; validation has fuel for every block of the pool.
    unfoldable pub new_block :
        ℕ → Timestamp → HubState S → Option NodeId → Block → Outcome (Handled S)
    unfolding after_validation
    new_block root_fuel now h from block =
        if contains h.invalid_blocks (Block.id block)
        then done (quiet h)
        else if knows_block h.chain (Block.id block)
        then done (quiet h)
        else if ltb now block.inner.timestamp
        then (reject h.chain (Block.id block) >>= λ chain.
            done (quiet (record h { chain = chain })))
        else (validate_block (suc (length h.unconfirmed_blocks)) h.chain block >>= λ r.
            after_validation root_fuel (record h { chain = r.0 }) from block r.1)
