-- ===== src/Config.antt =====
-- src/config.rs: the settings of a node. `average_block_time` is the `Duration` in nanoseconds.
pub mod HubHandle
use ddcoin.Prelude.{ℕ, ◌+◌, ◌*◌, ◌-◌, ◌^◌, [], ◌∷◌}
use ddcoin.Prelude.Bytes.{Bytes}
use ddcoin.Data.{Difficulty, Timestamp}

pub record Config : Type 0 where
  pub initial_block_subsidy : ℕ
  pub block_subsidy_half_period : ℕ
  pub difficulty_adjustment_period : ℕ
  pub average_block_time : ℕ
  pub block_txn_limit : ℕ
  pub genesis_difficulty : Difficulty
  pub genesis_timestamp : Timestamp
  pub alpn : Bytes

abbrev pub nanos_per_sec : ℕ
nanos_per_sec = 1_000_000_000

-- `b"ddcoin/1.0"`
abbrev default_alpn : Bytes
default_alpn = b'd' ∷ b'd' ∷ b'c' ∷ b'o' ∷ b'i' ∷ b'n' ∷ b'/' ∷ b'1' ∷ b'.' ∷ b'0' ∷ []

-- `Config::default`
unfoldable pub default_config : Config
default_config = record {
  initial_block_subsidy = 2 ^ 60;
  block_subsidy_half_period = 210_000;
  difficulty_adjustment_period = 2016;
  average_block_time = 60 * 10 * nanos_per_sec;
  block_txn_limit = 20;
  genesis_difficulty = 2 ^ 128 - 1;
  genesis_timestamp = 1_737_615_026 * nanos_per_sec;
  alpn = default_alpn;
}

-- `Config::INCOMPLETE_TESTING_CONFIG`
unfoldable pub incomplete_testing_config : Config
incomplete_testing_config = record {
  initial_block_subsidy = 2 ^ 60;
  block_subsidy_half_period = 40;
  difficulty_adjustment_period = 10;
  average_block_time = 10_000_000;
  block_txn_limit = 20;
  genesis_difficulty = (2 ^ 127 - 1) * 2 ^ 128 + (2 ^ 128 - 1);
  genesis_timestamp = 1_737_615_026 * nanos_per_sec;
  alpn = [];
}

-- `Config::with_testing_alpn`, where `now` is the clock.
unfoldable pub with_testing_alpn : Timestamp → Bytes → Config
unfolding incomplete_testing_config
with_testing_alpn now alpn = record incomplete_testing_config {
  alpn = alpn;
  genesis_timestamp = now;
}
