-- ===== src/Miner/Made.antt =====
-- About src/block.rs, as the miner of src/bin/miner.rs uses it: making and confirming a block do not panic.
use ddcoin.Prelude.{
  ℕ, zero, suc, ◌≡◌, refl, sym, ap, ◌∙◌, ◌==◌, ℕ_eq, Option, none, some, List, ◌++◌, ◌%◌, ◌/◌,
  Bool-cases, Option-cases, inl, inr, add_u64, sub_u128, rem_checked-pos, shr_u64,
}
use ddcoin.Prelude.Outcome.{Outcome, done, panic, out_of_fuel, Returns, ◌>>=◌, >>=-eq-done}
use ddcoin.Prelude.Result.{ok}
use ddcoin.Prelude.Bytes.{Bytes, bytes_eq, to_le_bytes}
use ddcoin.Data.{
  CoinAddress, Transaction, Block, BlockInner, UnconfirmedBlock, Difficulty, Timestamp,
}
use ddcoin.External.{External}
use ddcoin.Config.{Config}
use ddcoin.Util.Difficulty.{IsUsable, is_met, adjust_with_actual_span}
use ddcoin.Util.Difficulty.Bounds.{adjust-Returns}
use ddcoin.Block
use ddcoin.Block.{
  BlockValidationError, zero_hash, subsidy_at, subsidy_at-pos, next_difficulty, find_nouce_from,
  find_nouce, with_nonce, try_confirm,
}
use ddcoin.Block.Genesis.{with_nonce-inner}
use ddcoin.Miner.Drafted.{drafted, new-drafted}

module _ ⦃x : External⦄ where
  find_nouce_from-no_panic :
      (fuel : ℕ) (bytes : Bytes) (d : Difficulty) (nonce : ℕ)
      → ¬ (find_nouce_from fuel bytes d nonce ≡ panic)
  unfolding find_nouce_from
  find_nouce_from-no_panic zero bytes d nonce = λ e. cc e
  find_nouce_from-no_panic (suc fuel) bytes d nonce =
      elim (Bool-cases (is_met d (x.sha256 (bytes ++ to_le_bytes 8 nonce)))) [
        | inl hit ↦ rw (hit, find_nouce_from) (λ e. cc e)
        | inr miss ↦ rw (miss, find_nouce_from) (find_nouce_from-no_panic fuel bytes d (suc nonce))
      ]

  returned-no_panic :
      {A B : Type 0} (o : Outcome A) (f : A → B)
      → ¬ (o ≡ panic)
      → ¬ ((o >>= λ a. done (f a)) ≡ panic)
  returned-no_panic (done a) f ne e = cc e
  returned-no_panic panic f ne e = ne refl
  returned-no_panic out_of_fuel f ne e = cc e

  -- The search for a nonce ends or goes on, but the confirmation of a block does not panic.
  pub try_confirm-no_panic :
      (fuel : ℕ) (u : UnconfirmedBlock) (key : Bytes) → ¬ (try_confirm fuel u key ≡ panic)
  unfolding try_confirm find_nouce
  try_confirm-no_panic fuel u key =
      returned-no_panic (find_nouce fuel u) (with_nonce u key)
        (find_nouce_from-no_panic fuel (x.encode_unconfirmed u) u.difficulty 0)

  pub try_confirm-seqno :
      (fuel : ℕ) (u : UnconfirmedBlock) (key : Bytes) (b : Block)
      → try_confirm fuel u key ≡ done (ok b)
      → b.inner.seqno ≡ u.seqno
  unfolding try_confirm
  try_confirm-seqno fuel u key b e =
      let (n, _, f) = >>=-eq-done (find_nouce fuel u) _ e in
      ap (λ (i : BlockInner). i.seqno) (with_nonce-inner u key n b (cc f))

  module _ (config : Config) (usable : IsUsable config) where
    at_start-Returns :
        (prev : Block) (now : ℕ) (time : Option Timestamp)
        → Returns
            (λ _. Unit {0})
            (elim time as (λ _. Outcome (Option Difficulty)) [
              | none ↦ done none
              | some t ↦
                  adjust_with_actual_span prev.inner.difficulty (sub_u128 now t) config >>= λ d.
                  done (some d)
            ])
    at_start-Returns prev now none = (none, refl, tt)
    at_start-Returns prev now (some t) =
        let (d, e, _) =
          adjust-Returns config prev.inner.difficulty (sub_u128 now t) usable.span_pos in
        (some d, rw e, tt)

    next_difficulty-Returns :
        (prev : Block) (seqno now : ℕ) (time : Option Timestamp)
        → Returns (λ _. Unit {0}) (next_difficulty prev seqno now time config)
    unfolding next_difficulty
    next_difficulty-Returns prev seqno now time =
        let r = rem_checked-pos seqno config.difficulty_adjustment_period usable.period_pos in
        elim (Bool-cases (seqno % config.difficulty_adjustment_period == 0)) [
          | inr within ↦ (some prev.inner.difficulty, rw (r, within), tt)
          | inl start ↦ rw (r, start) (at_start-Returns prev now time)
        ]

    -- `UnconfirmedBlock::new` does not panic, and a draft is one above the block before.
    pub new-Returns :
        (now : Timestamp) (reward_id : Bytes) (prev : Block) (miner : CoinAddress)
        (txns : List Transaction) (time : Option Timestamp)
        → Returns
            (λ found.
              (u : UnconfirmedBlock) → found ≡ some u → u.seqno ≡ add_u64 prev.inner.seqno 1)
            (Block.new now reward_id prev miner txns time config)
    unfolding Block.new
    new-Returns now reward_id prev miner txns time =
        let seqno = add_u64 prev.inner.seqno 1 in
        let (found, e, _) = next_difficulty-Returns prev seqno now time in
        elim (Option-cases found) [
          | inl refused ↦ (none, rw (e, refused), λ u q. cc q)
          | inr (d, at) ↦
              let subsidy =
                shr_u64 config.initial_block_subsidy (seqno / config.block_subsidy_half_period) in
              let u = drafted now reward_id prev miner txns d subsidy in
              (
                some u,
                new-drafted now reward_id prev miner txns time config d subsidy (e ∙ ap done at)
                    (subsidy_at-pos config seqno usable.half_period_pos),
                λ v q. let same : u ≡ v = cc q in ap (λ (w : UnconfirmedBlock). w.seqno) (sym same),
              )
        ]
