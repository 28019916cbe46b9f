-- ===== src/Validation/Checks.antt =====
-- About src/peerhub.rs: the checks of `validate_block`, and the rules that they stand for.
use ddcoin.Prelude.{
  ℕ, suc, ◌%◌, ◌≤◌, ◌≡◌, ◌↔◌, refl, sym, ap, subst, ◌∙◌, ◌==◌, ℕ_eq, ==→eq, eq→==, ==_false→ne, ltb,
  ltb→lt, ltb_false→le, Bool, true, false, some, inl, inr, Bool-cases, arith, List, [], ◌∷◌,
  add_u64, add_u64-suc, sub_u128, rem_checked-pos,
}
use ddcoin.Prelude.Outcome.{done, Returns}
use ddcoin.Prelude.Bytes.{bytes_eq}
use ddcoin.HashMap.{get, contains}
use ddcoin.Data.{Cash, cash_eq, Transaction, Block, Difficulty}
use ddcoin.External.{External}
use ddcoin.Util.Difficulty.{IsUsable}
use ddcoin.Util.Difficulty.Bounds.{adjust-Returns}
use ddcoin.Block.{subsidy_at, subsidy_at-pos, fees}
use ddcoin.Chain.{ChainState}
use ddcoin.Chain.Linked.{Inv}
use ddcoin.Chain.Heights.{prev_difficulty_adjusted_block-IsPeriodStart}
use ddcoin.CashSet.{Moved, cash_set_at}
use ddcoin.CashSet.Current.{cash_set_at-IsBroughtTo}
use ddcoin.Validation.{
  adjusted_difficulty, expected_difficulty, inputs_known, all_inputs_known, reward_is_valid,
  with_cash, check_block,
}

abbrev pub AllIn : List Cash → List Cash → Type 0
AllIn set [] = Unit
AllIn set (c ∷ cs) = (contains set c ≡ true) × AllIn set cs

-- Every input of every transaction is in the set.
abbrev pub AllSpendable : List Cash → List Transaction → Type 0
AllSpendable set [] = Unit
AllSpendable set (t ∷ ts) = AllIn set t.inner.inputs × AllSpendable set ts

inputs_known_iff : (set cs : List Cash) → (inputs_known set cs ≡ true) ↔ AllIn set cs
unfolding inputs_known
inputs_known_iff set [] = (λ _. tt, λ _. refl)
inputs_known_iff set (c ∷ cs) = ground (arith, inputs_known_iff set cs)

pub all_inputs_known_iff :
    (set : List Cash) (ts : List Transaction)
    → (all_inputs_known set ts ≡ true) ↔ AllSpendable set ts
unfolding all_inputs_known
all_inputs_known_iff set [] = (λ _. tt, λ _. refl)
all_inputs_known_iff set (t ∷ ts) =
    ground (arith, inputs_known_iff set t.inner.inputs, all_inputs_known_iff set ts)

module _ ⦃x : External⦄ (s : ChainState) (block prev : Block) where
  -- The rules that a block after `prev` has to meet.
  pub record IsAccepted : Type 0 where
    pub in_time : prev.inner.timestamp ≤ block.inner.timestamp
    pub next_seqno : block.inner.seqno ≡ suc prev.inner.seqno
    pub right_difficulty : expected_difficulty s block prev ≡ done block.inner.difficulty
    pub moved : Moved
    pub brought : cash_set_at s block.inner.prev_id ≡ done moved
    pub spendable : AllSpendable moved.cash block.inner.transactions
    pub subsidy : ℕ
    pub subsidy_right : subsidy_at s.config block.inner.seqno ≡ done subsidy
    pub reward_right : block.inner.reward.amount ≡ add_u64 (fees block.inner.transactions) subsidy

  -- What `check_block` promises: it touches the cash set alone, and its verdict is the rules'.
  pub record IsChecked (r : ChainState × Bool) : Type 0 where
    pub cash : List Cash
    pub state : r.0 ≡ with_cash s cash
    pub verdict : (r.1 ≡ true) ↔ IsAccepted

  refused : (cash : List Cash) → ¬ IsAccepted → IsChecked (with_cash s cash, false)
  refused cash no_way = record {
    cash = cash;
    state = refl;
    verdict = (λ e. cc, λ a. absurd (no_way a));
  }

  module _ (v : Inv s) (usable : IsUsable s.config)
      (at : get block.inner.prev_id s.valid_blocks ≡ some prev) where
    expected_difficulty-Returns :
        block.inner.seqno ≡ suc prev.inner.seqno
        → Returns (λ _. Unit {0}) (expected_difficulty s block prev)
    unfolding expected_difficulty adjusted_difficulty
    expected_difficulty-Returns e =
        let period = s.config.difficulty_adjustment_period in
        let rem = rem_checked-pos block.inner.seqno period usable.period_pos in
        elim (Bool-cases ((block.inner.seqno % period) == 0)) [
          | inl at_end ↦
              let (start, found, _) =
                prev_difficulty_adjusted_block-IsPeriodStart s v block.inner.seqno usable.period_pos
                  (omega arith) (omega (arith, v.small block.inner.prev_id prev at))
                  (omega (arith, v.leader_max block.inner.prev_id prev at)) in
              let (d, adjusted, _) =
                adjust-Returns s.config prev.inner.difficulty
                  (sub_u128 block.inner.timestamp start.inner.timestamp) usable.span_pos in
              (d, rw (rem, at_end, found) adjusted, tt)
          | inr within ↦ (prev.inner.difficulty, rw (rem, within), tt)
        ]

    subsidy_at-returns : (n : ℕ) × (subsidy_at s.config block.inner.seqno ≡ done n)
    subsidy_at-returns = (_, subsidy_at-pos s.config block.inner.seqno usable.half_period_pos)

    next_seqno_iff :
        ((block.inner.seqno == add_u64 prev.inner.seqno 1) ≡ true)
        ↔ (block.inner.seqno ≡ suc prev.inner.seqno)
    next_seqno_iff =
        rw (add_u64-suc prev.inner.seqno (v.small block.inner.prev_id prev at)) (ground arith)

    -- From here on: a block whose time, height and difficulty are right.
    module _ (in_time : ltb block.inner.timestamp prev.inner.timestamp ≡ false)
        (next : (block.inner.seqno == add_u64 prev.inner.seqno 1) ≡ true) (d : Difficulty)
        (expected : expected_difficulty s block prev ≡ done d)
        (right : (block.inner.difficulty == d) ≡ true) (m : Moved)
        (brought : cash_set_at s block.inner.prev_id ≡ done m) (known : m.known ≡ true) where
      missing_input :
          all_inputs_known m.cash block.inner.transactions ≡ false
          → Returns IsChecked (check_block s block prev)
      unfolding check_block
      missing_input missing = (
        (with_cash s m.cash, false),
        rw (in_time, next, expected, right, brought, known, missing),
        refused m.cash λ a.
            let same : a.moved ≡ m = cc (a.brought, brought) in
            let there =
              subst (λ (q : Moved). AllSpendable q.cash block.inner.transactions) same
                a.spendable in
            let found = (all_inputs_known_iff m.cash block.inner.transactions).1 there in cc,
      )

      -- What is left to decide is the reward.
      accepted :
          (n : ℕ)
          → subsidy_at s.config block.inner.seqno ≡ done n
          → AllSpendable m.cash block.inner.transactions
          → block.inner.reward.amount ≡ add_u64 (fees block.inner.transactions) n
          → IsAccepted
      accepted n sub there e = record {
        in_time = ltb_false→le _ _ in_time;
        next_seqno = next_seqno_iff.0 next;
        right_difficulty = expected ∙ ap done (sym (==→eq _ _ right));
        moved = m;
        brought = brought;
        spendable = there;
        subsidy = n;
        subsidy_right = sub;
        reward_right = e;
      }

      inputs_there :
          all_inputs_known m.cash block.inner.transactions ≡ true
          → Returns IsChecked (check_block s block prev)
      unfolding check_block reward_is_valid
      inputs_there there =
          let (n, sub) = subsidy_at-returns in
          let reward = block.inner.reward.amount == add_u64 (fees block.inner.transactions) n in
          (
            (with_cash s m.cash, reward),
            rw (in_time, next, expected, right, brought, known, there, sub),
            record {
              cash = m.cash;
              state = refl;
              verdict = (
                λ e.
                    accepted n sub ((all_inputs_known_iff m.cash block.inner.transactions).0 there)
                      (==→eq _ _ e),
                λ a.
                    let same : a.subsidy ≡ n = cc (a.subsidy_right, sub) in
                    eq→== _ _ (a.reward_right ∙ ap (add_u64 (fees block.inner.transactions)) same),
              );
            },
          )

    -- In a linked store with usable settings, the checks return, change nothing but the cash set, and
    -- pass exactly when the block is accepted, as the functions that they call say.
    pub check_block-IsChecked : Returns IsChecked (check_block s block prev)
    unfolding check_block
    check_block-IsChecked = elim (Bool-cases (ltb block.inner.timestamp prev.inner.timestamp)) [
      | inl late ↦ (
        (s, false),
        rw late,
        refused s.cash_set.cash (λ a. omega (arith, a.in_time, ltb→lt _ _ late)),
      )
      | inr in_time ↦ elim (Bool-cases (block.inner.seqno == add_u64 prev.inner.seqno 1)) [
        | inr jumps ↦ (
          (s, false),
          rw (in_time, jumps),
          refused s.cash_set.cash (λ a. let e = next_seqno_iff.1 a.next_seqno in cc),
        )
        | inl next ↦
            let (d, expected, _) = expected_difficulty-Returns (next_seqno_iff.0 next) in
            elim (Bool-cases (block.inner.difficulty == d)) [
              | inr wrong ↦ (
                (s, false),
                rw (in_time, next, expected, wrong),
                refused s.cash_set.cash (λ a.
                    ==_false→ne block.inner.difficulty d wrong (cc (a.right_difficulty, expected))),
              )
              | inl right ↦
                  let (m, brought, b) = cash_set_at-IsBroughtTo s v block.inner.prev_id prev at in
                  elim (Bool-cases (all_inputs_known m.cash block.inner.transactions)) [
                    | inl there ↦ inputs_there in_time next d expected right m brought b.known there
                    | inr missing ↦
                        missing_input in_time next d expected right m brought b.known missing
                  ]
            ]
      ]
    ]
