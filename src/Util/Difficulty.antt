-- ===== src/Util/Difficulty.antt =====
-- src/util.rs: `Difficulty`, a 256-bit target level.
pub mod Bounds
pub mod Retarget
use ddcoin.Prelude.{
  ℕ, ◌+◌, ◌*◌, ◌/◌, ◌%◌, ◌-◌, ◌<◌, Bool, ltb, ◌==◌, ℕ_eq, if◌then◌else◌, max, min, u128_mod,
  u256_mod,
}
use ddcoin.Prelude.Outcome.{Outcome, done, panic}
use ddcoin.Prelude.Bytes.{from_le_bytes}
use ddcoin.Data.{Difficulty, Sha256Hash, Timestamp}
use ddcoin.Config.{Config}

-- `U256::saturating_mul`
unfoldable pub saturating_mul : ℕ → ℕ → ℕ
saturating_mul a b = min (a * b) (u256_mod - 1)

-- The product of two u128, which wraps.
unfoldable pub expected_span : Config → ℕ
expected_span config =
    (config.average_block_time % u128_mod) * config.difficulty_adjustment_period % u128_mod

-- Settings by which no division is a division by zero.
pub record IsUsable (c : Config) : Type 0 where
  pub period_pos : 0 < c.difficulty_adjustment_period
  pub half_period_pos : 0 < c.block_subsidy_half_period
  pub span_pos : 0 < expected_span c

-- A division by zero panics.
pub adjust_with_actual_span : Difficulty → Timestamp → Config → Outcome Difficulty
unfolding saturating_mul
adjust_with_actual_span d actual config =
    let expected = expected_span config in
    if ltb (expected * 4) actual
    then done (saturating_mul d 4)
    else if ltb actual (expected / 4)
    then done (max (d / 4) 1)
    else if expected == 0
    then panic
    else done (saturating_mul (max (d / expected) 1) actual)

unfoldable pub is_met : Difficulty → Sha256Hash → Bool
is_met d hash = ltb (from_le_bytes hash) d
