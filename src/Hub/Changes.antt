-- ===== src/Hub/Changes.antt =====
-- About src/peerhub.rs, `PeerHubActor::handle`: what every message does to the blocks of a node.
use ddcoin.Prelude.{
  ℕ, suc, ◌≡◌, refl, false, Option, none, some, List, [], ◌∷◌, map, length, ltb, Bool-cases, inl,
  inr,
}
use ddcoin.Prelude.Outcome.{Outcome, done, panic, out_of_fuel, ◌>>=◌}
use ddcoin.Prelude.Bytes.{bytes_eq}
use ddcoin.HashMap.{HashMap, insert, contains, contains_key}
use ddcoin.Data.{Cash, Block, BlockId, Timestamp, Transaction, TransactionId}
use ddcoin.External.{External}
use ddcoin.Transaction
use ddcoin.Block
use ddcoin.Chain.{
  ChainState, knows_block, confirmed_chain, prev_difficulty_adjusted_block, block_root,
  transaction_depth,
}
use ddcoin.CashSet.{Moved, cash_set_at}
use ddcoin.Validation.{reject, validate_block, with_cash}
use ddcoin.Hub
use ddcoin.Hub.{HubState, Handled, quiet, sent, announce_blocks, forget}
use ddcoin.Hub.Messages.{NodeId, Network, PeerMessage, Message, Reply}
use ddcoin.Hub.Send.{send_to_peer}
use ddcoin.Hub.Handle.{handle, answer, reply_cash}
use ddcoin.Hub.Peers.{new_peer-same_chain}
use ddcoin.Hub.Grows.{announce_blocks-same_chain}
use ddcoin.Hub.Untouched.{
  should_connect-same_chain, announce_transaction-same_chain, announce_block-same_chain,
  get_transaction-same_chain, get_block-same_chain, forget-same_chain,
}

-- What has to be related where a new block is rejected or validated.
pub record Relates ⦃x : External⦄ (R : ChainState → ChainState → Type 0) (s : ChainState)
    (block : Block) : Type 0 where
  pub rejected : (t : ChainState) → reject s (Block.id block) ≡ done t → R s t
  pub validated :
      (r : ChainState × List BlockId)
      → validate_block (suc (length s.unconfirmed_blocks)) s block ≡ done r
      → R s r.0

-- A relation between the states before and after that a change of the pool of transactions or of the
-- cash set does not break.
pub record IsIndifferent (R : ChainState → ChainState → Type 0) : Type 0 where
  pub same : (s : ChainState) → R s s
  pub pooled :
      (s : ChainState) (pool : HashMap TransactionId Transaction)
      → R s (record s { mempool = pool })
  pub cashed : (s : ChainState) (cash : List Cash) → R s (with_cash s cash)

module _ {S : Type 0} ⦃x : External⦄ (net : Network S) (R : ChainState → ChainState → Type 0)
    (indifferent : IsIndifferent R) where
  -- If the call returns, the state after it is so related to `s`.
  abbrev pub Keeps : ChainState → Outcome (Handled S) → Type 0
  Keeps s (done r) = R s r.state.chain
  Keeps s panic = Unit
  Keeps s out_of_fuel = Unit

  same-Keeps : (s t : ChainState) → t ≡ s → R s t
  same-Keeps s t e = rw e (indifferent.same s)

  new_transaction-Keeps :
      (h : HubState S) (t : Transaction) → R h.chain (Hub.new_transaction net h t).state.chain
  unfolding Hub.new_transaction
  new_transaction-Keeps h t = elim (Bool-cases (contains_key (Transaction.id t) h.mempool)) [
    | inl known ↦ rw known (indifferent.same h.chain)
    | inr new ↦ rw new (
        rw (forget-same_chain net)
          (indifferent.pooled h.chain (insert (Transaction.id t) t h.mempool)))
  ]

  ask-Keeps :
      (s : ChainState) (h : HubState S) (from : Option NodeId) (root : Outcome BlockId)
      → R s h.chain
      → Keeps s (
          root >>= λ missing_root. elim from [
            | none ↦ done (quiet h)
            | some id ↦
                done (
                  sent h (send_to_peer net (PeerMessage.get_block_request missing_root) id h.peers))
          ])
  ask-Keeps s h none (done missing) e = e
  ask-Keeps s h (some id) (done missing) e = e
  ask-Keeps s h from panic e = tt
  ask-Keeps s h from out_of_fuel e = tt

  pub after_validation-Keeps :
      (root_fuel : ℕ) (s : ChainState) (h : HubState S) (from : Option NodeId) (block : Block)
      (ids : List BlockId)
      → R s h.chain
      → Keeps s (Hub.after_validation net root_fuel h from block ids)
  unfolding Hub.after_validation
  after_validation-Keeps root_fuel s h from block (id ∷ ids) e =
      rw (announce_blocks-same_chain net (id ∷ ids) h) e
  after_validation-Keeps root_fuel s h from block [] e =
      elim (Bool-cases (contains_key (Block.id block) h.unconfirmed_blocks)) [
        | inl waiting ↦
            rw waiting (ask-Keeps s h from (block_root root_fuel h.chain block.inner.prev_id) e)
        | inr gone ↦ rw gone e
      ]

  rejected-Keeps :
      (h : HubState S) (o : Outcome ChainState)
      → ((t : ChainState) → o ≡ done t → R h.chain t)
      → Keeps h.chain (o >>= λ chain. done (quiet (record h { chain = chain })))
  rejected-Keeps h (done t) related = related t refl
  rejected-Keeps h panic related = tt
  rejected-Keeps h out_of_fuel related = tt

  validated-Keeps :
      (root_fuel : ℕ) (h : HubState S) (from : Option NodeId) (block : Block)
      (o : Outcome (ChainState × List BlockId))
      → ((r : ChainState × List BlockId) → o ≡ done r → R h.chain r.0)
      → Keeps h.chain
          (o >>= λ r. Hub.after_validation net root_fuel (record h { chain = r.0 }) from block r.1)
  validated-Keeps root_fuel h from block (done r) related =
      after_validation-Keeps root_fuel h.chain (record h { chain = r.0 }) from block r.1
        (related r refl)
  validated-Keeps root_fuel h from block panic related = tt
  validated-Keeps root_fuel h from block out_of_fuel related = tt

  pub new_block-Keeps :
      (root_fuel : ℕ) (now : Timestamp) (h : HubState S) (from : Option NodeId) (block : Block)
      → (contains h.invalid_blocks (Block.id block) ≡ false
          → knows_block h.chain (Block.id block) ≡ false
          → Relates R h.chain block)
      → Keeps h.chain (Hub.new_block net root_fuel now h from block)
  unfolding Hub.new_block
  new_block-Keeps root_fuel now h from block relates =
      elim (Bool-cases (contains h.invalid_blocks (Block.id block))) [
        | inl bad ↦ rw bad (indifferent.same h.chain)
        | inr fine ↦ elim (Bool-cases (knows_block h.chain (Block.id block))) [
          | inl known ↦ rw (fine, known) (indifferent.same h.chain)
          | inr new ↦
              let related = relates fine new in
              elim (Bool-cases (ltb now block.inner.timestamp)) [
                | inl late ↦
                    rw (fine, new, late)
                      (rejected-Keeps h (reject h.chain (Block.id block)) related.rejected)
                | inr in_time ↦
                    rw (fine, new, in_time)
                      (validated-Keeps root_fuel h from block
                        (validate_block (suc (length h.unconfirmed_blocks)) h.chain block)
                        related.validated)
              ]
        ]
      ]

  confirmed-Keeps :
      (h : HubState S) (o : Outcome (List Block)) (k : List Block → Reply)
      → Keeps h.chain (o >>= λ chain. done (Hub.replied h (k chain)))
  confirmed-Keeps h (done chain) k = indifferent.same h.chain
  confirmed-Keeps h panic k = tt
  confirmed-Keeps h out_of_fuel k = tt

  time-Keeps :
      (h : HubState S) (o : Outcome Block)
      → Keeps h.chain (o >>= λ adjusted. done (Hub.replied h (Reply.time adjusted.inner.timestamp)))
  time-Keeps h (done b) = indifferent.same h.chain
  time-Keeps h panic = tt
  time-Keeps h out_of_fuel = tt

  reply_cash-Keeps : (h : HubState S) (m : Moved) → Keeps h.chain (reply_cash h m)
  reply_cash-Keeps h m = elim (Bool-cases m.known) [
    | inl known ↦ rw known (indifferent.cashed h.chain m.cash)
    | inr lost ↦ rw lost tt
  ]

  cash-Keeps : (h : HubState S) (o : Outcome Moved) → Keeps h.chain (o >>= reply_cash h)
  cash-Keeps h (done m) = reply_cash-Keeps h m
  cash-Keeps h panic = tt
  cash-Keeps h out_of_fuel = tt

  pub handle-Keeps :
      (root_fuel : ℕ) (now : Timestamp) (h : HubState S) (m : Message S)
      → ((from : Option NodeId) (block : Block)
          → m ≡ Message.new_block from block
          → contains h.invalid_blocks (Block.id block) ≡ false
          → knows_block h.chain (Block.id block) ≡ false
          → Relates R h.chain block)
      → Keeps h.chain (handle net root_fuel now h m)
  unfolding handle answer
  handle-Keeps root_fuel now h (Message.should_connect id) relates =
      same-Keeps h.chain _ (should_connect-same_chain net h id)
  handle-Keeps root_fuel now h (Message.new_peer id stream connecting) relates =
      same-Keeps h.chain _ (new_peer-same_chain net h id stream connecting)
  handle-Keeps root_fuel now h (Message.announce_transaction id t) relates =
      same-Keeps h.chain _ (announce_transaction-same_chain net h id t)
  handle-Keeps root_fuel now h (Message.announce_block id b) relates =
      same-Keeps h.chain _ (announce_block-same_chain net h id b)
  handle-Keeps root_fuel now h (Message.get_transaction id t) relates =
      same-Keeps h.chain _ (get_transaction-same_chain net h id t)
  handle-Keeps root_fuel now h (Message.get_block id b) relates =
      same-Keeps h.chain _ (get_block-same_chain net h id b)
  handle-Keeps root_fuel now h (Message.new_transaction txn) relates = new_transaction-Keeps h txn
  handle-Keeps root_fuel now h (Message.new_block from block) relates =
      new_block-Keeps root_fuel now h from block (relates from block refl)
  handle-Keeps root_fuel now h (Message.query_transaction_depth id) relates =
      confirmed-Keeps h (confirmed_chain h.chain)
        (λ chain. Reply.depth (transaction_depth chain id))
  handle-Keeps root_fuel now h (Message.query_transaction_depths ids) relates =
      confirmed-Keeps h (confirmed_chain h.chain)
        (λ chain. Reply.depths (map (transaction_depth chain) ids))
  handle-Keeps root_fuel now h (Message.query_difficulty_adjust_time n) relates =
      time-Keeps h (prev_difficulty_adjusted_block h.chain n)
  handle-Keeps root_fuel now h Message.query_leading_cash_set relates =
      cash-Keeps h (cash_set_at h.chain h.leading_block)
  handle-Keeps root_fuel now h (Message.query_transaction id) relates = indifferent.same h.chain
  handle-Keeps root_fuel now h (Message.query_transactions ids) relates = indifferent.same h.chain
  handle-Keeps root_fuel now h (Message.query_block id) relates = indifferent.same h.chain
  handle-Keeps root_fuel now h Message.query_peers relates = indifferent.same h.chain
  handle-Keeps root_fuel now h Message.query_local_node_id relates = indifferent.same h.chain
  handle-Keeps root_fuel now h Message.query_mem_pool relates = indifferent.same h.chain
  handle-Keeps root_fuel now h Message.query_leading_block relates = indifferent.same h.chain
