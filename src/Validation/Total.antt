-- ===== src/Validation/Total.antt =====
-- About src/peerhub.rs: `validate_block` and `add_valid_block`, which call one another.
use ddcoin.Prelude.{
  ℕ, zero, suc, ◌≤◌, ◌<◌, ◌≡◌, refl, sym, ap, subst, inl, inr, Option-cases, Bool-cases, arith,
  List, [], ◌∷◌, ◌++◌, length,
}
use ddcoin.Prelude.Outcome.{Outcome, Returns}
use ddcoin.Prelude.Bytes.{bytes_eq}
use ddcoin.HashMap.{get, remove}
use ddcoin.HashMap.Laws.{length-remove-lt}
use ddcoin.Data.{Cash, Block, BlockId}
use ddcoin.External.{External}
use ddcoin.Util.Difficulty.{IsUsable}
use ddcoin.Block
use ddcoin.Chain.{ChainState}
use ddcoin.Chain.Linked.{Inv, HasPrev}
use ddcoin.Validation.{
  Rejected, children, postpone, with_cash, validate_next, add_valid_block, validate_block,
}
use ddcoin.Validation.Extends.{
  Extends-refl, Extends-trans, AllValid-Extends, AllValid-append, IsFresh, IsStep,
}
use ddcoin.Validation.Insertion.{enter-IsEntered}
use ddcoin.Validation.Rejecting.{reject-total}
use ddcoin.Validation.Pool.{postpone-IsStep, taken-Inv, taken-IsFresh}
use ddcoin.Validation.Checks.{check_block-IsChecked}

module _ ⦃x : External⦄ where
  -- The contract of `validate_block` on a pool of fewer blocks than the fuel.
  abbrev pub Validates : ℕ → (ChainState → Block → Outcome (ChainState × List BlockId)) → Type 0
  Validates fuel validate =
      (s : ChainState) (block : Block)
      → Inv s
      → IsUsable s.config
      → IsFresh s block
      → length s.unconfirmed_blocks < fuel
      → Returns (IsStep 1 s) (validate s block)

  module _ (fuel : ℕ) (validate : ChainState → Block → Outcome (ChainState × List BlockId))
      (validates : Validates fuel validate) where
    pub validate_next-IsStep :
        (ids : List BlockId) (s : ChainState)
        → Inv s
        → IsUsable s.config
        → length s.unconfirmed_blocks ≤ fuel
        → Returns (IsStep 0 s) (validate_next validate s ids)
    unfolding validate_next
    validate_next-IsStep [] s v usable h = (
      (s, []),
      refl,
      record { inv = v; extends = Extends-refl s; pool = omega arith; all_valid = tt },
    )
    validate_next-IsStep (id ∷ ids) s v usable h =
        elim (Option-cases (get id s.unconfirmed_blocks)) [
          | inl gone ↦
              let (r, e, step) = validate_next-IsStep ids s v usable h in
              (r, rw (gone, validate_next) e, step)
          | inr (b, waiting) ↦
              let s₁ = record s { unconfirmed_blocks = remove id s.unconfirmed_blocks } in
              let shorter = length-remove-lt id b s.unconfirmed_blocks waiting in
              let (r, e, step) =
                validates s₁ b (taken-Inv s id v) usable (taken-IsFresh s id b v waiting)
                  (omega arith) in
              let (q, f, rest) =
                validate_next-IsStep ids r.0 step.inv (rw step.extends.same_config usable)
                  (omega (arith, step.pool)) in
              (
                (q.0, r.1 ++ q.1),
                rw (waiting, validate_next, e, f),
                record {
                  inv = rest.inv;
                  extends = Extends-trans s r.0 q.0 step.extends rest.extends;
                  pool = omega (arith, step.pool, rest.pool);
                  all_valid =
                      AllValid-append q.0.valid_blocks r.1 q.1
                        (AllValid-Extends r.0 q.0 r.1 rest.extends step.all_valid) rest.all_valid;
                },
              )
        ]

    -- A block that passed the checks enters, and the blocks that waited for it follow.
    add_valid_block-IsStep :
        (s : ChainState) (block : Block)
        → Inv s
        → IsUsable s.config
        → IsFresh s block
        → HasPrev s.valid_blocks block
        → length s.unconfirmed_blocks ≤ fuel
        → Returns (IsStep 0 s) (add_valid_block validate s block)
    unfolding add_valid_block
    add_valid_block-IsStep s block v usable fresh has_prev h =
        let (t, e, entered) = enter-IsEntered s block v fresh has_prev in
        let t₁ = record t { next_blocks = remove (Block.id block) t.next_blocks } in
        let (q, f, rest) =
          validate_next-IsStep (children (Block.id block) t.next_blocks) t₁ entered.inv
            (rw entered.extends.same_config usable) (omega (arith, ap length entered.same_pool)) in
        (
          (q.0, Block.id block ∷ q.1),
          rw (e, f),
          record {
            inv = rest.inv;
            extends = Extends-trans s t q.0 entered.extends rest.extends;
            pool = omega (arith, rest.pool, ap length entered.same_pool);
            all_valid = (
              (block, rest.extends.keeps_valid (Block.id block) block entered.in_valid),
              rest.all_valid,
            );
          },
        )

  IsStep-with_cash :
      (s : ChainState) (cash : List Cash) (r : ChainState × List BlockId)
      → IsStep 0 (with_cash s cash) r
      → IsStep 1 s r
  IsStep-with_cash s cash r step = record {
    inv = step.inv;
    extends = step.extends;
    pool = omega (arith, step.pool);
    all_valid = step.all_valid;
  }

  rejected-IsStep :
      (s : ChainState) (cash : List Cash) (q : Rejected) (t : ChainState)
      → Inv s
      → t ≡ record (with_cash s cash) { invalid_blocks = q.invalid; next_blocks = q.next }
      → IsStep 1 s (t, [])
  rejected-IsStep s cash q t v g =
      subst (λ u. IsStep 1 s (u, [])) (sym g)
        (record { inv = v; extends = Extends-refl s; pool = omega arith; all_valid = tt })

  -- In a linked store, with usable settings and more fuel than the pool of unconfirmed blocks has
  -- entries, `validate_block` returns on an admissible block that is neither valid nor in the
  -- pool: no look-up in it panics. The store it leaves is linked, has every block that was valid
  -- before and at most one more block in the pool, and every id that it reports is of a valid
  -- block.
  pub validate_block-IsStep : (fuel : ℕ) → Validates fuel (validate_block fuel)
  unfolding validate_block
  validate_block-IsStep zero s block v usable fresh h = absurd (omega arith)
  validate_block-IsStep (suc fuel) s block v usable fresh h =
      elim (Option-cases (get block.inner.prev_id s.valid_blocks)) [
        | inl missing ↦
            ((postpone s block, []), rw (missing, validate_block), postpone-IsStep s block v fresh)
        | inr (prev, at) ↦
            let (c, e, checked) = check_block-IsChecked s block prev v usable at in
            let enough : length s.unconfirmed_blocks ≤ fuel = omega arith in
            elim (Bool-cases c.1) [
              | inl good ↦
                  let a = checked.verdict.0 good in
                  let (r, f, step) =
                    add_valid_block-IsStep fuel (validate_block fuel) (validate_block-IsStep fuel)
                      (with_cash s checked.cash) block v usable fresh
                      (record {
                        prev = prev;
                        prev_at = at;
                        prev_seqno = a.next_seqno;
                        prev_time = a.in_time;
                      })
                      enough in
                  (
                    r,
                    rw (at, validate_block, e, good, checked.state) f,
                    IsStep-with_cash s checked.cash r step,
                  )
              | inr bad ↦
                  let (t, f, shape) = reject-total (with_cash s checked.cash) (Block.id block) in
                  (
                    (t, []),
                    rw (at, validate_block, e, bad, checked.state, f),
                    rejected-IsStep s checked.cash shape.0 t v shape.1,
                  )
            ]
      ]
