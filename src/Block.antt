-- ===== src/Block.antt =====
-- src/block.rs: blocks, their validation at decoding, and the making and mining of new ones. The
-- clock (`Timestamp::now`) and the id of the reward (`Uuid::new_v4`) are arguments.
pub mod Mining
pub mod Genesis
use ddcoin.Prelude.{
  replicate, ℕ, zero, suc, ◌==◌, ℕ_eq, if◌then◌else◌, Bool, true, false, not, Option, none, some,
  List, [], ◌∷◌, ◌++◌, map, add_u64, sum_u64, sub_u128, shr_u64, ◌≡◌, ◌<◌, ◌/◌, div_checked-pos,
  rem_checked, div_checked,
}
use ddcoin.Prelude.Outcome.{Outcome, done, panic, out_of_fuel, ◌>>=◌}
use ddcoin.Prelude.Result
use ddcoin.Prelude.Result.{Result, ok, err, bail_if, ◌>>◌}
use ddcoin.Util.Hex.{hex_to_bytes}
use ddcoin.Prelude.Bytes.{Bytes, bytes_eq, to_le_bytes, ascii_bytes}
use ddcoin.Data.{
  Cash, CoinAddress, Signature, Transaction, BlockInner, Block, UnconfirmedBlock, BlockId,
  Difficulty, Timestamp, SequenceNo,
}
use ddcoin.Config.{Config}
use ddcoin.External.{External, with_nonce_field}
use ddcoin.Util.Difficulty.{is_met, adjust_with_actual_span}
use ddcoin.Transaction.{fee, new_cash, genesis_reward}

abbrev pub genesis_secret : Bytes
genesis_secret = ascii_bytes "01a4b29a7fc6127080b9eb962ec4f18a3a61d5e011cc3fa821d5d1d1f30d0ddb"

-- `[0; 32]`
abbrev pub zero_hash : BlockId
zero_hash = replicate 32 0

-- The `anyhow` errors of `try_from`.
pub data DecodeError : Type 0 where
  bad_nonce bad_key bad_signature : DecodeError

pub data BlockValidationError : Type 0 where
  block_size_exceeded miner_not_match_signer invalid_nonce : BlockValidationError

-- The reward that a block at this height may claim beside its fees.
unfoldable pub subsidy_at : Config → SequenceNo → Outcome ℕ
subsidy_at config seqno = do
  halvings ← div_checked seqno config.block_subsidy_half_period
  done (shr_u64 config.initial_block_subsidy halvings)

pub subsidy_at-pos :
    (config : Config) (seqno : SequenceNo)
    → 0 < config.block_subsidy_half_period
    → subsidy_at config seqno
      ≡ done (shr_u64 config.initial_block_subsidy (seqno / config.block_subsidy_half_period))
unfolding subsidy_at
subsidy_at-pos config seqno h = rw (div_checked-pos seqno _ h)

-- `txns.iter().map(|txn| txn.fee()).sum::<u64>()`
unfoldable pub fees : List Transaction → ℕ
fees txns = sum_u64 (map fee txns)

module _ ⦃x : External⦄ where
  pub verify_nonce : BlockInner → Bool
  verify_nonce inner = is_met inner.difficulty (x.sha256 (x.encode_block_inner inner))

  -- `TryFrom<BlockValidator>`, which every decoded block goes through.
  pub try_from : BlockInner → Signature → Result DecodeError Block
  unfolding verify_nonce
  try_from inner signature =
      bail_if (not (verify_nonce inner)) bad_nonce
      >> bail_if (not (x.is_key inner.miner)) bad_key
      >> bail_if (not (x.verify inner.miner (x.encode_block_inner inner) signature)) bad_signature
      >> ok (record { inner = inner; signature = signature })

  -- `Block::id` and `Block::sha256`
  unfoldable pub id : Block → BlockId
  id b = x.sha256 (x.encode_block b)

  -- The difficulty of a block after `prev`; `none` is the `bail!`.
  unfoldable pub next_difficulty :
      Block → SequenceNo → Timestamp → Option Timestamp → Config → Outcome (Option Difficulty)
  next_difficulty prev seqno timestamp prev_adjustment_time config = do
    r ← rem_checked seqno config.difficulty_adjustment_period
    if r == 0
        then elim prev_adjustment_time [
          | none ↦ done none
          | some t ↦
              adjust_with_actual_span prev.inner.difficulty (sub_u128 timestamp t) config >>= λ d.
              done (some d)
        ]
        else done (some prev.inner.difficulty)

  -- `UnconfirmedBlock::new`; `none` is the `bail!`.
  unfoldable pub new :
      (now : Timestamp) (reward_id : Bytes)
      → Block
      → CoinAddress
      → List Transaction
      → Option Timestamp
      → Config
      → Outcome (Option UnconfirmedBlock)
  unfolding next_difficulty subsidy_at
  new now reward_id prev miner txns prev_adjustment_time config = do
    let seqno : ℕ = add_u64 prev.inner.seqno 1
    found ← next_difficulty prev seqno now prev_adjustment_time config
    elim found [
      | none ↦ done none
      | some difficulty ↦ do
        subsidy ← subsidy_at config seqno
        done (
            some (record {
              seqno = seqno;
              difficulty = difficulty;
              prev_id = id prev;
              transactions = txns;
              reward = new_cash reward_id (add_u64 subsidy (fees txns)) miner;
              miner = miner;
              timestamp = now;
            }))
    ]

  unfoldable pub with_nonce : UnconfirmedBlock → Bytes → ℕ → Result BlockValidationError Block
  with_nonce u signing_key nonce =
      let inner = with_nonce_field u nonce in
      let bytes = x.encode_block_inner inner in
      bail_if (not (inner.miner == x.verifying_key signing_key)) miner_not_match_signer
      >> bail_if (not (is_met inner.difficulty (x.sha256 bytes))) invalid_nonce
      >> ok (record { inner = inner; signature = x.sign signing_key bytes })

  -- The loop of `find_nouce` from `nonce` on.
  unfoldable pub find_nouce_from : ℕ → Bytes → Difficulty → ℕ → Outcome ℕ
  find_nouce_from zero bytes d nonce = out_of_fuel
  find_nouce_from (suc fuel) bytes d nonce =
      elim (is_met d (x.sha256 (bytes ++ to_le_bytes 8 nonce))) [
        | true ↦ done nonce
        | false ↦ find_nouce_from fuel bytes d (suc nonce)
      ]

  -- The nonces tried are the `fuel` first ones.
  unfoldable pub find_nouce : ℕ → UnconfirmedBlock → Outcome ℕ
  unfolding find_nouce_from
  find_nouce fuel u = find_nouce_from fuel (x.encode_unconfirmed u) u.difficulty 0

  unfoldable pub try_confirm :
      ℕ → UnconfirmedBlock → Bytes → Outcome (Result BlockValidationError Block)
  try_confirm fuel u signing_key = do
    valid_nouce ← find_nouce fuel u
    done (with_nonce u signing_key valid_nouce)

  -- The unconfirmed genesis block, and `Block::create_genesis`, whose `unwrap` panics on an error.
  abbrev pub genesis_draft : Difficulty → Timestamp → ℕ → CoinAddress → UnconfirmedBlock
  genesis_draft difficulty timestamp subsidy miner = record {
    seqno = 0;
    difficulty = difficulty;
    prev_id = zero_hash;
    transactions = [];
    reward = genesis_reward subsidy miner;
    miner = miner;
    timestamp = timestamp;
  }

  unfoldable pub create_genesis : ℕ → Difficulty → Timestamp → ℕ → Outcome Block
  unfolding try_confirm
  create_genesis fuel difficulty timestamp subsidy = do
    signing_key ← hex_to_bytes 32 genesis_secret
    confirmed ←
        try_confirm fuel (genesis_draft difficulty timestamp subsidy (x.verifying_key signing_key))
          signing_key
    elim confirmed [ ok b ↦ done b | err _ ↦ panic ]
