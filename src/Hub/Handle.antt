-- ===== src/Hub/Handle.antt =====
-- src/peerhub.rs: `PeerHubActor::handle`, message by message.
use ddcoin.Prelude.{ℕ, Bool, true, false, map}
use ddcoin.Prelude.Outcome.{Outcome, done, panic, ◌>>=◌}
use ddcoin.Prelude.Bytes.{bytes_eq}
use ddcoin.HashMap.{get}
use ddcoin.Data.{Timestamp}
use ddcoin.External.{External}
use ddcoin.Transaction.{fee}
use ddcoin.Chain.{confirmed_chain, transaction_depth, prev_difficulty_adjusted_block}
use ddcoin.CashSet.{Moved, cash_set_at}
use ddcoin.Validation.{with_cash}
use ddcoin.Hub
use ddcoin.Hub.{HubState, Handled, quiet, replied, reply_sent}
use ddcoin.Hub.Messages.{Network, Message, Reply}

module _ {S : Type 0} where
  -- `cash_set_at(…).unwrap()`
  abbrev pub reply_cash : HubState S → Moved → Outcome (Handled S)
  reply_cash h moved = elim moved.known [
    | false ↦ panic
    | true ↦
        done
          (replied (record h { chain = with_cash h.chain moved.cash }) (Reply.cash_set moved.cash))
  ]

  module _ (net : Network S) ⦃x : External⦄ where
    -- The messages that only ask.
    unfoldable pub answer : HubState S → Message S → Outcome (Handled S)
    answer h (Message.query_transaction id) =
        done (replied h (Reply.transaction (get id h.mempool)))
    answer h (Message.query_transactions ids) =
        done (replied h (Reply.transactions (map (λ id. get id h.mempool) ids)))
    answer h (Message.query_transaction_depth id) = do
      chain ← confirmed_chain h.chain
      done (replied h (Reply.depth (transaction_depth chain id)))
    answer h (Message.query_transaction_depths ids) = do
      chain ← confirmed_chain h.chain
      done (replied h (Reply.depths (map (transaction_depth chain) ids)))
    answer h (Message.query_block id) = done (replied h (Reply.block (get id h.valid_blocks)))
    answer h Message.query_peers = done (replied h (Reply.node_ids (map (λ e. e.0) h.peers)))
    answer h Message.query_local_node_id = done (replied h (Reply.node_id h.local_node_id))
    answer h Message.query_mem_pool =
        done (replied h (Reply.mem_pool (map (λ e. (e.0, fee e.1)) h.mempool)))
    answer h Message.query_leading_block = done (replied h (Reply.block_id h.leading_block))
    answer h (Message.query_difficulty_adjust_time seqno) = do
      adjusted ← prev_difficulty_adjusted_block h.chain seqno
      done (replied h (Reply.time adjusted.inner.timestamp))
    answer h Message.query_leading_cash_set = do
      moved ← cash_set_at h.chain h.leading_block
      reply_cash h moved
    answer h _ = done (quiet h)

    -- `now` is what `Timestamp::now` would give, and `root_fuel` bounds `block_root`.
    unfoldable pub handle : ℕ → Timestamp → HubState S → Message S → Outcome (Handled S)
    unfolding answer
    handle root_fuel now h (Message.should_connect id) = done (Hub.should_connect h id)
    handle root_fuel now h (Message.new_peer id stream connecting) =
        done (Hub.new_peer net h id stream connecting)
    handle root_fuel now h (Message.announce_transaction id txn_id) =
        done (Hub.announce_transaction net h id txn_id)
    handle root_fuel now h (Message.announce_block id block_id) =
        done (Hub.announce_block net h id block_id)
    handle root_fuel now h (Message.get_transaction id txn_id) =
        done (Hub.get_transaction net h id txn_id)
    handle root_fuel now h (Message.get_block id block_id) = done (Hub.get_block net h id block_id)
    handle root_fuel now h (Message.new_transaction txn) = done (Hub.new_transaction net h txn)
    handle root_fuel now h (Message.new_block from block) =
        Hub.new_block net root_fuel now h from block
    handle root_fuel now h query = answer h query

    -- The same where the caller may have gone: `waits` says whether it still waits for the reply.
    unfoldable pub handle_call : Bool → ℕ → Timestamp → HubState S → Message S → Outcome (Handled S)
    unfolding handle reply_sent
    handle_call waits root_fuel now h m =
        handle root_fuel now h m >>= λ r. done (reply_sent waits r)
