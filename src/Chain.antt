-- ===== src/Chain.antt =====
-- src/peerhub.rs: the blocks that a node keeps, and the walks along them. `ChainState` is the part
-- of `PeerHubActorState` that concerns blocks; the rest of it is in Hub.antt.
pub mod Linked
pub mod Start
pub mod Confirmed
pub mod Ancestors
pub mod Heights
pub mod Root
use ddcoin.Prelude.{
  ℕ, zero, suc, ◌-◌, ◌==◌, ℕ_eq, ltb, if◌then◌else◌, Bool, true, false, ◌||◌, not, Option, none,
  some, List, [], ◌∷◌, length, get_elem?, set, replicate, add_u64, sub_u64, rem_checked,
}
use ddcoin.Prelude.Outcome.{Outcome, done, panic, out_of_fuel, unwrap, ◌>>=◌}
use ddcoin.Prelude.Bytes.{Bytes, bytes_eq}
use ddcoin.HashMap.{HashMap, get, contains_key, contains}
use ddcoin.Data.{Cash, Transaction, TransactionId, Block, BlockId, SequenceNo}
use ddcoin.Config.{Config}
use ddcoin.External.{External}
use ddcoin.Transaction
use ddcoin.Block

abbrev pub BlockMap : Type 0
BlockMap = HashMap BlockId Block

-- The unspent cash as of the block `block_id`.
pub record CashSet : Type 0 where
  pub block_id : BlockId
  pub cash : List Cash

pub record ChainState : Type 0 where
  pub cash_set : CashSet
  pub config : Config
  pub genesis_id : BlockId
  pub mempool : HashMap TransactionId Transaction
  pub valid_blocks : BlockMap
  pub unconfirmed_blocks : BlockMap
  pub invalid_blocks : List BlockId
  pub next_blocks : HashMap BlockId (List BlockId)
  pub leading_block : BlockId

unfoldable pub leading_block_seqno : ChainState → Outcome SequenceNo
leading_block_seqno s = do
  block ← unwrap (get s.leading_block s.valid_blocks)
  done block.inner.seqno

unfoldable pub knows_block : ChainState → BlockId → Bool
knows_block s id =
    contains_key id s.valid_blocks
    || contains_key id s.unconfirmed_blocks
    || contains s.invalid_blocks id

-- The loop of `block_root` that began at `start`.
unfoldable pub block_root_loop : ℕ → ChainState → BlockId → BlockId → Outcome BlockId
block_root_loop zero s start current = out_of_fuel
block_root_loop (suc fuel) s start current =
    if current == s.genesis_id then done s.genesis_id else elim (get current s.unconfirmed_blocks) [
      | some block ↦ block_root_loop fuel s start block.inner.prev_id
      | none ↦ done start
    ]

-- `block_root`, which has no bound of its own.
unfoldable pub block_root : ℕ → ChainState → BlockId → Outcome BlockId
unfolding block_root_loop
block_root fuel s id = block_root_loop fuel s id id

-- More rounds than a walk from `id` back to the genesis block takes.
abbrev pub walk_fuel : BlockMap → BlockId → ℕ
walk_fuel valid id = elim (get id valid) [ none ↦ 1 | some block ↦ suc (suc block.inner.seqno) ]

-- `blocks[i].write(block)`, which panics out of bounds
pub write_slot : List (Option Block) → ℕ → Block → Outcome (List (Option Block))
write_slot slots i block = if ltb i (length slots) then done (set slots i (some block)) else panic

-- The loop of `confirmed_chain`.
pub fill_slots : ℕ → ChainState → BlockId → List (Option Block) → Outcome (List (Option Block))
unfolding write_slot
fill_slots zero s id slots = out_of_fuel
fill_slots (suc fuel) s id slots = do
  block ← unwrap (get id s.valid_blocks)
  slots' ← write_slot slots block.inner.seqno block
  let rest = fill_slots fuel s block.inner.prev_id slots'
  if id == s.genesis_id then done slots' else rest

-- `assume_init`. On a slot that was not written it is undefined behaviour, here a panic.
pub assume_init : List (Option Block) → Outcome (List Block)
assume_init [] = done []
assume_init (none ∷ slots) = panic
assume_init (some block ∷ slots) = do blocks ← assume_init slots; done (block ∷ blocks)

unfoldable pub confirmed_chain : ChainState → Outcome (List Block)
unfolding leading_block_seqno fill_slots assume_init
confirmed_chain s = do
  seqno ← leading_block_seqno s
  slots ← fill_slots (suc seqno) s s.leading_block (replicate (add_u64 seqno 1) none)
  assume_init slots

unfoldable pub prev_difficulty_adjusted_block : ChainState → SequenceNo → Outcome Block
prev_difficulty_adjusted_block s seqno = do
  chain ← confirmed_chain s
  rewind ← rem_checked seqno s.config.difficulty_adjustment_period
  let rewind_number : ℕ = if rewind == 0 then s.config.difficulty_adjustment_period else rewind
  unwrap (get_elem? chain (sub_u64 seqno rewind_number))

module _ ⦃x : External⦄ where
  -- What the iterator `ancestors_id` yields, from `block_id` itself back.
  pub ancestors_id_from : ℕ → BlockMap → BlockId → Outcome (List BlockId)
  ancestors_id_from zero valid current = out_of_fuel
  ancestors_id_from (suc fuel) valid current = elim (get current valid) [
    | none ↦ done []
    | some block ↦ do
      rest ← ancestors_id_from fuel valid block.inner.prev_id
      done (Block.id block ∷ rest)
  ]

  unfoldable pub ancestors_id : BlockMap → BlockId → Outcome (List BlockId)
  unfolding ancestors_id_from
  ancestors_id valid id = ancestors_id_from (walk_fuel valid id) valid id

  -- `block.transactions().iter().any(|txn| txn.id() == *txn_id)`
  pub has_transaction : TransactionId → List Transaction → Bool
  has_transaction id [] = false
  has_transaction id (t ∷ ts) = Transaction.id t == id || has_transaction id ts

  -- `enumerate().find(…)`, with the index `i` of the first block of what is left
  unfoldable pub find_index : TransactionId → ℕ → List Block → Option ℕ
  unfolding has_transaction
  find_index id i [] = none
  find_index id i (block ∷ chain) =
      let rest = find_index id (suc i) chain in
      if has_transaction id block.inner.transactions then some i else rest

  -- `BlockChain::transaction_depth`
  unfoldable pub transaction_depth : List Block → TransactionId → Option ℕ
  unfolding find_index
  transaction_depth chain id = elim (find_index id 0 chain) [
    | none ↦ none
    | some i ↦ some (length chain - 1 - i)
  ]
