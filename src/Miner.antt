-- ===== src/Miner.antt =====
-- src/bin/miner.rs: the rounds of the loop of the miner, which is a user of the actor. The fuel is that
-- of the search for a nonce, `now` the clock when the block is drafted, and `reward_id` the id that
-- `Cash::new` draws. The pause at the end of a round is left out.
pub mod Order
pub mod Drafted
pub mod Grows
pub mod Made
use ddcoin.Prelude.{
  ℕ, zero, suc, ◌==◌, ℕ_eq, leb, if◌then◌else◌, Option, none, some, List, [], ◌∷◌, map, add_u64,
  rem_checked,
}
use ddcoin.Prelude.Outcome.{Outcome, done, panic, out_of_fuel}
use ddcoin.Prelude.Result.{ok, err}
use ddcoin.Prelude.Bytes.{Bytes}
use ddcoin.Data.{CoinAddress, Transaction, TransactionId, Block, Timestamp, UnconfirmedBlock}
use ddcoin.External.{External}
use ddcoin.Config.{Config}
use ddcoin.Block
use ddcoin.Block.{try_confirm}
use ddcoin.Hub.Messages.{Message}
use ddcoin.Hub.Client.{
  Client, ret, fail, crash, stuck, cast, and_then, refused_draft, refused_block, ask_mem_pool,
  ask_transactions, ask_time,
}
use ddcoin.Hub.Helper.{leading_block}

pub record MinerConfig : Type 0 where
  pub signing_key : Bytes
  pub miner : CoinAddress
  pub peerhub_config : Config

-- `fees.sort_by_key(|k| k.1)`, which is stable
unfoldable pub insert_by_fee :
    TransactionId × ℕ → List (TransactionId × ℕ) → List (TransactionId × ℕ)
insert_by_fee e [] = e ∷ []
insert_by_fee e (f ∷ fees) = if leb e.1 f.1 then e ∷ f ∷ fees else f ∷ insert_by_fee e fees

unfoldable pub sort_by_fee : List (TransactionId × ℕ) → List (TransactionId × ℕ)
unfolding insert_by_fee
sort_by_fee [] = []
sort_by_fee (e ∷ fees) = insert_by_fee e (sort_by_fee fees)

abbrev pub take {ℓ} : {A : Type ℓ} → ℕ → List A → List A
take zero xs = []
take (suc n) [] = []
take (suc n) (x ∷ xs) = x ∷ take n xs

-- `txns.into_iter().flatten()`
abbrev pub flatten {ℓ} : {A : Type ℓ} → List (Option A) → List A
flatten [] = []
flatten (none ∷ xs) = flatten xs
flatten (some x ∷ xs) = x ∷ flatten xs

unfoldable pub top_ids : Config → List (TransactionId × ℕ) → List TransactionId
unfolding sort_by_fee
top_ids config fees = map (λ e. e.0) (take config.block_txn_limit (sort_by_fee fees))

module _ {S : Type 0} ⦃x : External⦄ where
  -- `try_confirm(…)?`, and the block goes to the actor.
  unfoldable pub confirm : ℕ → MinerConfig → UnconfirmedBlock → Client S (Unit {0})
  confirm fuel miner unconfirmed = elim (try_confirm fuel unconfirmed miner.signing_key) [
    | panic ↦ crash
    | out_of_fuel ↦ stuck
    | done confirmed ↦ elim confirmed [
      | err e ↦ fail refused_block
      | ok block ↦ cast (Message.new_block none block) (ret tt)
    ]
  ]

  -- `UnconfirmedBlock::new(…)?`
  unfoldable pub draft :
      ℕ
      → Timestamp
      → Bytes
      → MinerConfig
      → Block
      → List Transaction
      → Option Timestamp
      → Client S (Unit {0})
  unfolding confirm
  draft fuel now reward_id miner leading txns time =
      elim (Block.new now reward_id leading miner.miner txns time miner.peerhub_config) [
        | panic ↦ crash
        | out_of_fuel ↦ stuck
        | done drafted ↦ elim drafted [
          | none ↦ fail refused_draft
          | some unconfirmed ↦ confirm fuel miner unconfirmed
        ]
      ]

  -- What follows once the transactions are there.
  unfoldable pub mine_on :
      ℕ → Timestamp → Bytes → MinerConfig → Block → List Transaction → Client S (Unit {0})
  unfolding draft ask_time
  mine_on fuel now reward_id miner leading txns =
      let new_seqno = add_u64 leading.inner.seqno 1 in
      elim (rem_checked new_seqno miner.peerhub_config.difficulty_adjustment_period) [
        | panic ↦ crash
        | out_of_fuel ↦ stuck
        | done r ↦
            if r == 0
            then ask_time (Message.query_difficulty_adjust_time new_seqno)
                (λ time. draft fuel now reward_id miner leading txns (some time))
            else draft fuel now reward_id miner leading txns none
      ]

  unfoldable pub mine : ℕ → Timestamp → Bytes → MinerConfig → Client S (Unit {0})
  unfolding leading_block ask_mem_pool ask_transactions mine_on top_ids
  mine fuel now reward_id miner = leading_block λ leading.
      ask_mem_pool Message.query_mem_pool λ fees.
        ask_transactions (Message.query_transactions (top_ids miner.peerhub_config fees))
          λ txns. mine_on fuel now reward_id miner leading (flatten txns)

  -- The loop, over what each round reads of the clock and draws. It is left by an error only.
  unfoldable pub mine_loop : ℕ → MinerConfig → List (Timestamp × Bytes) → Client S (Unit {0})
  unfolding and_then mine
  mine_loop fuel miner [] = stuck
  mine_loop fuel miner (round ∷ rounds) =
      and_then (mine fuel round.0 round.1 miner) λ _. mine_loop fuel miner rounds
