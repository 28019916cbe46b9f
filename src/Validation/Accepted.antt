-- ===== src/Validation/Accepted.antt =====
-- About src/peerhub.rs: `validate_block` on a block that meets the rules.
use ddcoin.Prelude.{ℕ, zero, suc, ◌≡◌, ◌<◌, ◌≤◌, ap, refl, true, some, List, ◌∷◌, length, arith}
use ddcoin.Prelude.Outcome.{Outcome, Returns}
use ddcoin.Prelude.Bytes.{bytes_eq}
use ddcoin.HashMap.{get, remove}
use ddcoin.Data.{Block, BlockId}
use ddcoin.External.{External}
use ddcoin.Util.Difficulty.{IsUsable}
use ddcoin.Block
use ddcoin.Chain.{ChainState}
use ddcoin.Chain.Linked.{Inv, HasPrev}
use ddcoin.Validation.{children, with_cash, add_valid_block, validate_block}
use ddcoin.Validation.Extends.{IsFresh}
use ddcoin.Validation.Checks.{IsAccepted, check_block-IsChecked}
use ddcoin.Validation.Total.{Validates, validate_next-IsStep, validate_block-IsStep}
use ddcoin.Validation.Insertion.{enter-IsEntered}

module _ ⦃x : External⦄ where
  -- The ids begin with that of the block itself, and the block is among the valid ones.
  pub record IsIn (block : Block) (r : ChainState × List BlockId) : Type 0 where
    pub others : List BlockId
    pub reported : r.1 ≡ Block.id block ∷ others
    pub in_valid : get (Block.id block) r.0.valid_blocks ≡ some block

  add_valid_block-IsIn :
      (fuel : ℕ) (validate : ChainState → Block → Outcome (ChainState × List BlockId))
      (validates : Validates fuel validate) (s : ChainState) (block : Block)
      → Inv s
      → IsUsable s.config
      → IsFresh s block
      → HasPrev s.valid_blocks block
      → length s.unconfirmed_blocks ≤ fuel
      → Returns (IsIn block) (add_valid_block validate s block)
  unfolding add_valid_block
  add_valid_block-IsIn fuel validate validates s block v usable fresh has_prev h =
      let (t, e, entered) = enter-IsEntered s block v fresh has_prev in
      let t₁ = record t { next_blocks = remove (Block.id block) t.next_blocks } in
      let (q, f, step) =
        validate_next-IsStep fuel validate validates (children (Block.id block) t.next_blocks) t₁
          entered.inv (rw entered.extends.same_config usable)
          (omega (arith, ap length entered.same_pool)) in
      (
        (q.0, Block.id block ∷ q.1),
        rw (e, f),
        record {
          others = q.1;
          reported = refl;
          in_valid = step.extends.keeps_valid (Block.id block) block entered.in_valid;
        },
      )

  pub validate_block-IsIn :
      (fuel : ℕ) (s : ChainState) (block prev : Block)
      → Inv s
      → IsUsable s.config
      → IsFresh s block
      → length s.unconfirmed_blocks < fuel
      → get block.inner.prev_id s.valid_blocks ≡ some prev
      → IsAccepted s block prev
      → Returns (IsIn block) (validate_block fuel s block)
  unfolding validate_block
  validate_block-IsIn zero s block prev v usable fresh h at a = absurd (omega arith)
  validate_block-IsIn (suc fuel) s block prev v usable fresh h at a =
      let (c, f, checked) = check_block-IsChecked s block prev v usable at in
      let good : c.1 ≡ true = checked.verdict.1 a in
      let (r, e, is_in) =
        add_valid_block-IsIn fuel (validate_block fuel) (validate_block-IsStep fuel)
          (with_cash s checked.cash) block v usable fresh
          (record { prev = prev; prev_at = at; prev_seqno = a.next_seqno; prev_time = a.in_time })
          (omega arith) in
      (r, rw (at, validate_block, f, good, checked.state) e, is_in)
