-- ===== src/Validation/Rules.antt =====
-- About src/peerhub.rs and src/util.rs: the rules of a block, apart from the functions that compute them.
use ddcoin.Prelude.{
  ℕ, suc, ◌+◌, ◌-◌, ◌*◌, ◌/◌, ◌%◌, ◌^◌, ◌≤◌, ◌≡◌, ◌↔◌, refl, sym, ap, subst, ◌∙◌, ◌==◌, ℕ_eq, ==→eq,
  ==_false→ne, Bool, true, false, Bool-cases, inl, inr, some, arith, List, map, add_u64, sub_u128,
  u64_mod, u128_mod, shr_u64, sum_u64-eq-total_mod, rem_checked-pos,
}
use ddcoin.Prelude.Outcome.{done, Returns}
use ddcoin.Prelude.Bytes.{bytes_eq}
use ddcoin.HashMap.{get, contains}
use ddcoin.Data.{Cash, cash_eq, Block, Difficulty}
use ddcoin.External.{External}
use ddcoin.Util.Difficulty.{IsUsable, expected_span}
use ddcoin.Util.Difficulty.Bounds.{adjust-Returns}
use ddcoin.Util.Difficulty.Retarget.{IsRetargeted, adjust-IsRetargeted}
use ddcoin.Transaction.{fee}
use ddcoin.Block.{subsidy_at, subsidy_at-pos, fees}
use ddcoin.Chain.{ChainState}
use ddcoin.Chain.Confirmed.{IsChain}
use ddcoin.Chain.Linked.{Inv}
use ddcoin.Chain.Heights.{IsPeriodStart, prev_difficulty_adjusted_block-IsPeriodStart}
use ddcoin.CashSet.{Moved}
use ddcoin.CashSet.Writes.{after, chain_writes}
use ddcoin.CashSet.Current.{cash_set_at-IsBroughtTo}
use ddcoin.Validation.{adjusted_difficulty, expected_difficulty, with_cash, check_block}
use ddcoin.Validation.Checks.{AllSpendable, check_block-IsChecked}
use ddcoin.Validation.Inputs.{EachInput, AllSpendable-EachInput, left_over, total-fees}

module _ ⦃x : External⦄ (s : ChainState) (v : Inv s) (usable : IsUsable s.config)
    (block prev : Block) where
  abbrev height : ℕ
  height = suc prev.inner.seqno

  abbrev period : ℕ
  period = s.config.difficulty_adjustment_period

  -- The level of the block one above `prev`: the same within a period, and at the start of one the level
  -- retargeted by the time since the block of the confirmed chain at which the last period started.
  pub record IsLevel (level : Difficulty) : Type 0 where
    pub within : ¬ (height % period ≡ 0) → level ≡ prev.inner.difficulty
    pub at_start :
        height % period ≡ 0
        → (start : Block) × IsPeriodStart s v height start
          × IsRetargeted
              (s.config.average_block_time % u128_mod * period % u128_mod)
              prev.inner.difficulty
              ((block.inner.timestamp + u128_mod - start.inner.timestamp) % u128_mod)
              level

  -- The rules, for the chain up to the predecessor and the level that the block must have.
  pub record MeetsRules (chain : List Block) (level : Difficulty) : Type 0 where
    pub in_time : prev.inner.timestamp ≤ block.inner.timestamp
    pub next_seqno : block.inner.seqno ≡ height
    pub right_difficulty : block.inner.difficulty ≡ level
    pub spendable :
        EachInput
          (λ c. after c (chain_writes chain) (contains s.cash_set.cash c))
          block.inner.transactions
    pub reward :
        block.inner.reward.amount
        ≡ (left_over block.inner.transactions
            + s.config.initial_block_subsidy
              / 2 ^ (block.inner.seqno / s.config.block_subsidy_half_period % 64))
          % u64_mod

  pub record IsJudged (r : ChainState × Bool) : Type 0 where
    pub cash : List Cash
    pub state : r.0 ≡ with_cash s cash
    pub chain : List Block
    pub is_chain : IsChain s.genesis_id s.valid_blocks block.inner.prev_id chain
    pub level : Difficulty
    pub is_level : IsLevel level
    pub verdict : (r.1 ≡ true) ↔ MeetsRules chain level

  module _ (at : get block.inner.prev_id s.valid_blocks ≡ some prev) where
    record HasLevel : Type 0 where
      level : Difficulty
      is_level : IsLevel level
      computed : block.inner.seqno ≡ height → expected_difficulty s block prev ≡ done level

    level_at_start : (height % period == 0) ≡ true → HasLevel
    unfolding expected_difficulty adjusted_difficulty expected_span sub_u128
    level_at_start starts =
        let (start, found, is_start) =
          prev_difficulty_adjusted_block-IsPeriodStart s v height usable.period_pos (omega arith)
            (omega (arith, v.small block.inner.prev_id prev at))
            (omega (arith, v.leader_max block.inner.prev_id prev at)) in
        let (d, adjusted, _) =
          adjust-Returns s.config prev.inner.difficulty
            (sub_u128 block.inner.timestamp start.inner.timestamp) usable.span_pos in
        record {
          level = d;
          is_level = record {
            within = λ no. absurd (no (==→eq _ _ starts));
            at_start = λ _. (
              start,
              is_start,
              adjust-IsRetargeted s.config prev.inner.difficulty
                  (sub_u128 block.inner.timestamp start.inner.timestamp) d usable.span_pos adjusted,
            );
          };
          computed =
              λ e. rw (e, rem_checked-pos height period usable.period_pos, starts, found) adjusted;
        }

    level_within : (height % period == 0) ≡ false → HasLevel
    unfolding expected_difficulty
    level_within inside = record {
      level = prev.inner.difficulty;
      is_level = record {
        within = λ _. refl;
        at_start = λ starts. absurd (==_false→ne _ _ inside starts);
      };
      computed = λ e. rw (e, rem_checked-pos height period usable.period_pos, inside) refl;
    }

    has_level : HasLevel
    has_level = elim (Bool-cases (height % period == 0)) [
      | inl starts ↦ level_at_start starts
      | inr inside ↦ level_within inside
    ]

    rewarded :
        (n : ℕ)
        → subsidy_at s.config block.inner.seqno ≡ done n
        → add_u64 (fees block.inner.transactions) n
          ≡ (left_over block.inner.transactions
              + s.config.initial_block_subsidy
                / 2 ^ (block.inner.seqno / s.config.block_subsidy_half_period % 64))
            % u64_mod
    unfolding add_u64 fees shr_u64
    rewarded n e =
        let shifted = subsidy_at-pos s.config block.inner.seqno usable.half_period_pos in
        let same : n
            ≡ s.config.initial_block_subsidy
              / 2 ^ (block.inner.seqno / s.config.block_subsidy_half_period % 64) =
          cc (e, shifted) in
        omega (
          arith,
          same,
          total-fees block.inner.transactions,
          sum_u64-eq-total_mod (map fee block.inner.transactions),
        )

    -- In a linked store with usable settings, the checks on a block whose predecessor is valid
    -- return; they change nothing but the cash set, and they pass exactly when the block meets the
    -- rules. It is not earlier than its predecessor and one higher; its level is that of its
    -- predecessor within a period, and at the start of one that level retargeted by the time since
    -- the block of the confirmed chain at which the last period started; the last write to each of
    -- its inputs on the chain up to the predecessor puts the input in, or, where that chain does
    -- not write it, the input was in the cash set before; and its reward is what its transactions
    -- leave over and the halved subsidy, modulo 2 ^ 64.
    pub check_block-IsJudged : Returns IsJudged (check_block s block prev)
    check_block-IsJudged =
        let (r, e, checked) = check_block-IsChecked s block prev v usable at in
        let (m, brought, b) = cash_set_at-IsBroughtTo s v block.inner.prev_id prev at in
        let l = has_level in
        let spends =
          AllSpendable-EachInput m.cash
            (λ c. after c (chain_writes b.chain) (contains s.cash_set.cash c)) b.cash_iff
            block.inner.transactions in
        (
          r,
          e,
          record {
            cash = checked.cash;
            state = checked.state;
            chain = b.chain;
            is_chain = b.is_chain;
            level = l.level;
            is_level = l.is_level;
            verdict = (
              λ good.
                  let a = checked.verdict.0 good in
                  let same : a.moved ≡ m = cc (a.brought, brought) in
                  let level : done block.inner.difficulty ≡ done l.level =
                    sym a.right_difficulty ∙ l.computed a.next_seqno in
                  record {
                    in_time = a.in_time;
                    next_seqno = a.next_seqno;
                    right_difficulty = cc level;
                    spendable = spends.0 (
                        subst (λ (q : Moved). AllSpendable q.cash block.inner.transactions) same
                          a.spendable);
                    reward = a.reward_right ∙ rewarded a.subsidy a.subsidy_right;
                  },
              λ rules. checked.verdict.1 (record {
                in_time = rules.in_time;
                next_seqno = rules.next_seqno;
                right_difficulty =
                    l.computed rules.next_seqno ∙ ap done (sym rules.right_difficulty);
                moved = m;
                brought = brought;
                spendable = spends.1 rules.spendable;
                subsidy = _;
                subsidy_right = subsidy_at-pos s.config block.inner.seqno usable.half_period_pos;
                reward_right =
                    rules.reward
                    ∙ sym (
                        rewarded _
                          (subsidy_at-pos s.config block.inner.seqno usable.half_period_pos));
              }),
            );
          },
        )
