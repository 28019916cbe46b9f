-- ===== src/Miner/Grows.antt =====
-- About src/bin/miner.rs: one round of the loop, by a miner who is alone with the actor and was given
-- the actor's settings.
use ddcoin.Prelude.{
  ℕ, suc, ◌/◌, ◌%◌, ◌≤◌, ◌<◌, ◌≡◌, ◌≢◌, refl, sym, ap, ◌∙◌, arith, true, false, Option, none, some,
  List, map, add_u64, add_u64-suc, u64_mod, sub_u128, rem_checked-pos, shr_u64, ◌==◌, ℕ_eq,
  Bool-cases, inl, inr,
}
use ddcoin.Prelude.Outcome.{done}
use ddcoin.Prelude.Result.{ok}
use ddcoin.Prelude.Bytes.{Bytes, bytes_eq}
use ddcoin.HashMap.{get}
use ddcoin.Data.{Transaction, Block, UnconfirmedBlock, Difficulty, Timestamp}
use ddcoin.External.{External, SignsCorrectly, EncodesInOrder}
use ddcoin.Config.{Config}
use ddcoin.Util.Difficulty.Bounds.{adjust-Returns}
use ddcoin.Transaction.{fee}
use ddcoin.Block
use ddcoin.Block.{zero_hash, subsidy_at, subsidy_at-pos, next_difficulty, try_confirm}
use ddcoin.Block.Mining.{meets, try_confirm-IsMined}
use ddcoin.Chain.{knows_block}
use ddcoin.Chain.Heights.{prev_difficulty_adjusted_block-IsPeriodStart}
use ddcoin.CashSet.{Moved, cash_set_at}
use ddcoin.Validation.{expected_difficulty, adjusted_difficulty}
use ddcoin.Validation.Checks.{AllSpendable}
use ddcoin.Hub.{HubState, Handled}
use ddcoin.Hub.Messages.{Network, Message}
use ddcoin.Hub.Handle.{handle, answer}
use ddcoin.Hub.Safe.{HubInv}
use ddcoin.Hub.Client.{Client, run, run_stopped, ret, ask_mem_pool, ask_transactions, ask_time}
use ddcoin.Hub.Helper.Calls.{leading_block-leader}
use ddcoin.Hub.Grows.{HasBlock, new_block-HasBlock}
use ddcoin.Miner.{MinerConfig, flatten, top_ids, confirm, draft, mine_on, mine}
use ddcoin.Miner.Drafted.{drafted, new-drafted, Expected, drafted-IsAccepted}

-- The miner that `main` makes of a key and the settings.
abbrev pub miner_of : ⦃x : External⦄ → Bytes → Config → MinerConfig
miner_of ⦃x⦄ key config = record {
  signing_key = key;
  miner = x.verifying_key key;
  peerhub_config = config;
}

-- The transactions that a miner takes from the pool.
abbrev pub collected : {S : Type 0} → HubState S → List Transaction
collected h =
    flatten
      (map (λ id. get id h.mempool) (top_ids h.chain.config (map (λ e. (e.0, fee e.1)) h.mempool)))

module _ {S : Type 0} ⦃x : External⦄ (net : Network S) (root_fuel : ℕ) (now : Timestamp)
    (h : HubState S) (i : HubInv h) (fuel : ℕ) (clock : Timestamp) (reward_id key : Bytes)
    (room : suc (suc i.0.leader.inner.seqno) < u64_mod) where
  abbrev prev : Block
  prev = i.0.leader

  abbrev config : Config
  config = h.chain.config

  abbrev next_seqno : ℕ
  next_seqno = add_u64 prev.inner.seqno 1

  abbrev pub subsidy : ℕ
  subsidy = shr_u64 config.initial_block_subsidy (next_seqno / config.block_subsidy_half_period)

  abbrev pub block_draft : Difficulty → UnconfirmedBlock
  block_draft d = drafted clock reward_id prev (x.verifying_key key) (collected h) d subsidy

  abbrev pub Expects : Difficulty → Type 0
  Expects d =
      Expected clock reward_id prev (x.verifying_key key) (collected h) h.chain i.0 i.1 refl room d

  next_seqno-suc : next_seqno ≡ suc prev.inner.seqno
  next_seqno-suc = add_u64-suc prev.inner.seqno (omega arith)

  -- A round up to the draft.
  record IsDrafted : Type 0 where
    d : Difficulty
    expected : Expects d
    runs :
        run net root_fuel now h (mine fuel clock reward_id (miner_of key config))
        ≡ run net root_fuel now h (confirm fuel (miner_of key config) (block_draft d))

  asked-mine_on :
      run net root_fuel now h (mine fuel clock reward_id (miner_of key config))
      ≡ run net root_fuel now h
          (mine_on fuel clock reward_id (miner_of key config) prev (collected h))
  unfolding mine run ask_mem_pool ask_transactions handle answer
  asked-mine_on = leading_block-leader net root_fuel now h i _

  draft-confirm :
      (time : Option Timestamp) (d : Difficulty)
      → next_difficulty prev next_seqno clock time config ≡ done (some d)
      → draft fuel clock reward_id (miner_of key config) prev (collected h) time
        ≡ confirm {S = S} fuel (miner_of key config) (block_draft d)
  unfolding draft
  draft-confirm time d e = rw (
    new-drafted clock reward_id prev (x.verifying_key key) (collected h) time config d subsidy e
        (subsidy_at-pos config next_seqno i.1.half_period_pos),
    draft,
  )

  within_period : (next_seqno % config.difficulty_adjustment_period == 0) ≡ false → IsDrafted
  unfolding mine_on next_difficulty expected_difficulty
  within_period e =
      let r = rem_checked-pos next_seqno config.difficulty_adjustment_period i.1.period_pos in
      let goes_on : mine_on {S = S} fuel clock reward_id (miner_of key config) prev (collected h)
          ≡ draft fuel clock reward_id (miner_of key config) prev (collected h) none =
        rw (r, e, mine_on) in
      let level : next_difficulty prev next_seqno clock none config
          ≡ done (some prev.inner.difficulty) =
        rw (r, e) in
      record {
        d = prev.inner.difficulty;
        expected = λ b height time. rw (height ∙ sym next_seqno-suc, r, e);
        runs = asked-mine_on ∙ ap (run net root_fuel now h) (goes_on ∙ draft-confirm none _ level);
      }

  -- At the start of a period the actor says when the last one started.
  period_start : (next_seqno % config.difficulty_adjustment_period == 0) ≡ true → IsDrafted
  unfolding mine_on next_difficulty expected_difficulty adjusted_difficulty ask_time run handle
      answer
  period_start e =
      let r = rem_checked-pos next_seqno config.difficulty_adjustment_period i.1.period_pos in
      let (start, at, _) =
        prev_difficulty_adjusted_block-IsPeriodStart h.chain i.0 next_seqno i.1.period_pos
          (omega (arith, next_seqno-suc)) (omega (arith, next_seqno-suc))
          (omega (arith, next_seqno-suc)) in
      let (d, adjusted, _) =
        adjust-Returns config prev.inner.difficulty (sub_u128 clock start.inner.timestamp)
          i.1.span_pos in
      let goes_on : mine_on {S = S} fuel clock reward_id (miner_of key config) prev (collected h)
          ≡ ask_time (Message.query_difficulty_adjust_time next_seqno)
              (λ t. draft fuel clock reward_id (miner_of key config) prev (collected h) (some t)) =
        rw (r, e, mine_on) in
      let level : next_difficulty prev next_seqno clock (some start.inner.timestamp) config
          ≡ done (some d) =
        rw (r, e, adjusted) in
      record {
        d = d;
        expected = λ b height time. rw (height ∙ sym next_seqno-suc, r, e, at, time, adjusted);
        runs =
            asked-mine_on
            ∙ ap (run net root_fuel now h) goes_on
            ∙ rw at
                (ap (run net root_fuel now h) (draft-confirm (some start.inner.timestamp) d level));
      }

  is_drafted : IsDrafted
  is_drafted = elim (Bool-cases (next_seqno % config.difficulty_adjustment_period == 0)) [
    | inl start ↦ period_start start
    | inr within ↦ within_period within
  ]

  sent_lem :
      (u : UnconfirmedBlock) (b : Block) (r : Handled S)
      → try_confirm fuel u key ≡ done (ok b)
      → handle net root_fuel now h (Message.new_block none b) ≡ done r
      → run net root_fuel now h (confirm fuel (miner_of key config) u) ≡ done (r.state, ok tt)
  unfolding run run_stopped confirm
  sent_lem u b r e handled =
      let program : confirm {S = S} fuel (miner_of key config) u
          ≡ Client.cast (Message.new_block none b) (ret tt) =
        rw (e, confirm) in
      ap (run net root_fuel now h) program
      ∙ elim (Bool-cases r.failed) [ inl stop ↦ rw (handled, stop) | inr on ↦ rw (handled, on) ]

  -- What a round gives: a new block on the leading one, one above it, with the transactions of the pool.
  pub record IsGrown (r : HubState S) : Type 0 where
    pub block : Block
    pub known : HasBlock net block r
    pub on_leading : block.inner.prev_id ≡ h.leading_block
    pub higher : block.inner.seqno ≡ suc prev.inner.seqno
    pub transactions : block.inner.transactions ≡ collected h

  -- A round of a miner with the node's settings, alone with a node whose store is linked, whose
  -- settings are usable and whose table of peers is within its limit, ends with a new valid block
  -- whose predecessor is the leading block of before: one higher, with the transactions that the
  -- miner took from the pool, and with the node in the same invariant. It is assumed that
  -- signatures verify and the nonce is encoded last, that the clock of the miner is between the
  -- time of the leading block and the clock of the node, that heights stay below the last u64s,
  -- that the transactions taken are spendable together, that for the expected difficulty a nonce
  -- below the bound meets the level, and that the block that is mined has a new id, which is not
  -- the hash of zeros.
  pub mine-IsGrown :
      SignsCorrectly x
      → EncodesInOrder x
      → prev.inner.timestamp ≤ clock
      → clock ≤ now
      → ((m : Moved)
          → cash_set_at h.chain h.leading_block ≡ done m
          → AllSpendable m.cash (collected h))
      → ((d : Difficulty) → Expects d → (n : ℕ) × (meets (block_draft d) n ≡ true) × (n < fuel))
      → ((d : Difficulty) (b : Block)
          → Expects d
          → try_confirm fuel (block_draft d) key ≡ done (ok b)
          → (knows_block h.chain (Block.id b) ≡ false) × (Block.id b ≢ zero_hash))
      → (r : HubState S) × (run net root_fuel now h
            (mine fuel clock reward_id (miner_of key config))
          ≡ done (r, ok tt))
        × IsGrown r
  mine-IsGrown signs encodes after_prev in_time spendable mineable fresh =
      let drafted_block = is_drafted in
      let u = block_draft drafted_block.d in
      let (n, met, enough) = mineable drafted_block.d drafted_block.expected in
      let (b, e, mined) = try_confirm-IsMined signs encodes u key fuel n refl met enough in
      let height : b.inner.seqno ≡ suc prev.inner.seqno =
        ap (λ f. f.seqno) mined.fields ∙ next_seqno-suc in
      let leading : Block.id prev ≡ h.leading_block =
        i.0.keyed h.leading_block prev i.0.leader_at in
      let below : b.inner.prev_id ≡ h.leading_block = ap (λ f. f.prev_id) mined.fields ∙ leading in
      let time : b.inner.timestamp ≡ clock = ap (λ f. f.timestamp) mined.fields in
      let (unknown, nonzero) = fresh drafted_block.d b drafted_block.expected e in
      let accepted =
        drafted-IsAccepted clock reward_id prev (x.verifying_key key) (collected h) h.chain i.0 i.1
          refl room drafted_block.d subsidy mined.nonce b
          (subsidy_at-pos config next_seqno i.1.half_period_pos) drafted_block.expected after_prev
          spendable mined.fields in
      let (r, handled, known) =
        new_block-HasBlock net root_fuel now h none b prev i
          (record { seqno_small = omega (arith, height); id_nonzero = nonzero }) unknown
          (omega (arith, time)) (rw below (i.0.leader_at)) accepted in
      (
        r.state,
        drafted_block.runs ∙ sent_lem u b r e handled,
        record {
          block = b;
          known = known;
          on_leading = below;
          higher = height;
          transactions = ap (λ f. f.transactions) mined.fields;
        },
      )
