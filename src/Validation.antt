-- ===== src/Validation.antt =====
-- src/peerhub.rs: `add_invalid_block`, `add_valid_block` and `validate_block`, which call one another
-- over the tree of blocks that wait for a predecessor. A set of ids is walked in the order of its
-- list.
pub mod Extends
pub mod Insertion
pub mod Checks
pub mod Inputs
pub mod Rules
pub mod Rejecting
pub mod Pool
pub mod Total
pub mod Accepted
pub mod Tidy
use ddcoin.Prelude.{
  ℕ, zero, suc, ◌==◌, ℕ_eq, ltb, if◌then◌else◌, Bool, true, false, not, ◌&&◌, Option, none, some,
  List, [], ◌∷◌, ◌++◌, length, add_u64, sub_u128, rem_checked,
}
use ddcoin.Prelude.Outcome.{Outcome, done, out_of_fuel, unwrap, ◌>>=◌}
use ddcoin.Prelude.Bytes.{bytes_eq}
use ddcoin.HashMap.{HashMap, get, insert, remove, contains, set_insert}
use ddcoin.Data.{Cash, cash_eq, Transaction, TransactionId, Block, BlockId, Difficulty}
use ddcoin.External.{External}
use ddcoin.Util.Difficulty.{adjust_with_actual_span}
use ddcoin.Block
use ddcoin.Block.{subsidy_at, fees}
use ddcoin.Chain.{
  ChainState, CashSet, leading_block_seqno, prev_difficulty_adjusted_block, has_transaction,
}
use ddcoin.CashSet.{Moved, cash_set_at}

-- The two fields that `add_invalid_block` borrows.
pub record Rejected : Type 0 where
  pub invalid : List BlockId
  pub next : HashMap BlockId (List BlockId)

-- `next_blocks.remove(&id).unwrap_or_default()`, the value removed
abbrev pub children : BlockId → HashMap BlockId (List BlockId) → List BlockId
children id next = elim (get id next) [ none ↦ [] | some ids ↦ ids ]

-- The loop of `add_invalid_block`, with its recursive call as an argument.
pub add_invalid_all :
    (Rejected → BlockId → Outcome Rejected) → Rejected → List BlockId → Outcome Rejected
add_invalid_all add r [] = done r
add_invalid_all add r (id ∷ ids) = do r' ← add r id; add_invalid_all add r' ids

unfoldable pub add_invalid_block : ℕ → Rejected → BlockId → Outcome Rejected
unfolding add_invalid_all
add_invalid_block zero r id = out_of_fuel
add_invalid_block (suc fuel) r id =
    add_invalid_all (add_invalid_block fuel)
      (record { invalid = set_insert id r.invalid; next = remove id r.next }) (children id r.next)

-- The call of it on a node's state, with fuel for every entry of `next_blocks`.
unfoldable pub reject : ChainState → BlockId → Outcome ChainState
unfolding add_invalid_block
reject s id = do
  r ←
      add_invalid_block (suc (length s.next_blocks))
        (record { invalid = s.invalid_blocks; next = s.next_blocks }) id
  done (record s { invalid_blocks = r.invalid; next_blocks = r.next })

module _ ⦃x : External⦄ where
  -- The previous block is missing: keep the block until it comes.
  unfoldable pub postpone : ChainState → Block → ChainState
  postpone s block = record s {
    next_blocks =
        insert block.inner.prev_id
          (set_insert (Block.id block) (children block.inner.prev_id s.next_blocks)) s.next_blocks;
    unconfirmed_blocks = insert (Block.id block) block s.unconfirmed_blocks;
  }

-- The difficulty at the end of an adjustment period. The block that began the period is looked up
-- on the chain of the leading block.
unfoldable pub adjusted_difficulty : ChainState → Block → Block → Outcome Difficulty
adjusted_difficulty s block prev = do
  adjusted ← prev_difficulty_adjusted_block s block.inner.seqno
  adjust_with_actual_span prev.inner.difficulty
      (sub_u128 block.inner.timestamp adjusted.inner.timestamp) s.config

-- The difficulty that a block after `prev` must have.
unfoldable pub expected_difficulty : ChainState → Block → Block → Outcome Difficulty
unfolding adjusted_difficulty
expected_difficulty s block prev = do
  r ← rem_checked block.inner.seqno s.config.difficulty_adjustment_period
  if r == 0 then adjusted_difficulty s block prev else done prev.inner.difficulty

-- The loops over the inputs of the transactions.
pub inputs_known : List Cash → List Cash → Bool
inputs_known set [] = true
inputs_known set (c ∷ cs) =
    let rest = inputs_known set cs in if not (contains set c) then false else rest

pub all_inputs_known : List Cash → List Transaction → Bool
unfolding inputs_known
all_inputs_known set [] = true
all_inputs_known set (t ∷ ts) =
    let rest = all_inputs_known set ts in
    if not (inputs_known set t.inner.inputs) then false else rest

unfoldable pub reward_is_valid : ChainState → Block → Outcome Bool
reward_is_valid s block = do
  expected_subsidy ← subsidy_at s.config block.inner.seqno
  done (block.inner.reward.amount == add_u64 (fees block.inner.transactions) expected_subsidy)

-- The state with the cash set as `cash_set_at` leaves it.
abbrev pub with_cash : ChainState → List Cash → ChainState
with_cash s cash = record s { cash_set = record { block_id = s.cash_set.block_id; cash = cash } }

module _ ⦃x : External⦄ where
  -- The checks of `validate_block` on a block whose predecessor is valid: the state after them, and
  -- whether all pass.
  unfoldable pub check_block : ChainState → Block → Block → Outcome (ChainState × Bool)
  unfolding expected_difficulty all_inputs_known reward_is_valid
  check_block s block prev =
      if ltb block.inner.timestamp prev.inner.timestamp
      then done (s, false)
      else if not (block.inner.seqno == add_u64 prev.inner.seqno 1)
      then done (s, false)
      else do
        expected ← expected_difficulty s block prev
        if not (block.inner.difficulty == expected) then done (s, false) else do
          moved ← cash_set_at s block.inner.prev_id
          if not (moved.known && all_inputs_known moved.cash block.inner.transactions)
              then done (with_cash s moved.cash, false)
              else do
                good ← reward_is_valid (with_cash s moved.cash) block
                done (with_cash s moved.cash, good)

module _ ⦃x : External⦄ where
  -- `mempool.retain`
  unfoldable pub retain_uncollected :
      List Transaction → HashMap TransactionId Transaction → HashMap TransactionId Transaction
  retain_uncollected txns [] = []
  retain_uncollected txns ((id, t) ∷ m) =
      let rest = retain_uncollected txns m in
      if not (has_transaction id txns) then (id, t) ∷ rest else rest

  -- The loop of `add_valid_block`, with `validate_block` as an argument.
  pub validate_next :
      (ChainState → Block → Outcome (ChainState × List BlockId))
      → ChainState
      → List BlockId
      → Outcome (ChainState × List BlockId)
  validate_next validate s [] = done (s, [])
  validate_next validate s (id ∷ ids) = elim (get id s.unconfirmed_blocks) [
    | none ↦ validate_next validate s ids
    | some next ↦
        validate (record s { unconfirmed_blocks = remove id s.unconfirmed_blocks }) next >>= λ r.
        validate_next validate r.0 ids >>= λ q. done (q.0, r.1 ++ q.1)
  ]

  -- The block is in, and leads if it is higher than the leading one.
  unfoldable pub enter : ChainState → Block → Outcome ChainState
  unfolding retain_uncollected leading_block_seqno
  enter s block = do
    let s' = record s {
      mempool = retain_uncollected block.inner.transactions s.mempool;
      valid_blocks = insert (Block.id block) block s.valid_blocks;
    }
    seqno ← leading_block_seqno s'
    done (record s' {
      leading_block = if ltb seqno block.inner.seqno then Block.id block else s'.leading_block;
    })

  unfoldable pub add_valid_block :
      (ChainState → Block → Outcome (ChainState × List BlockId))
      → ChainState
      → Block
      → Outcome (ChainState × List BlockId)
  unfolding validate_next
  add_valid_block validate s block = do
    entered ← enter s block
    r ←
        validate_next validate
          (record entered { next_blocks = remove (Block.id block) entered.next_blocks })
          (children (Block.id block) entered.next_blocks)
    done (r.0, Block.id block ∷ r.1)

  unfoldable pub validate_block : ℕ → ChainState → Block → Outcome (ChainState × List BlockId)
  validate_block zero s block = out_of_fuel
  validate_block (suc fuel) s block = elim (get block.inner.prev_id s.valid_blocks) [
    | none ↦ done (postpone s block, [])
    | some prev ↦ check_block s block prev >>= λ c.
        if c.1
        then add_valid_block (validate_block fuel) c.0 block
        else (reject c.0 (Block.id block) >>= λ s'. done (s', []))
  ]
