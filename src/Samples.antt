-- ===== src/Samples.antt =====
-- A small concrete node for the examples: hashing is the identity, every signature is the key and the
-- message, and a chain has the genesis block and one block on it.
pub mod Making
pub mod Examples
pub mod Users
pub mod Peers
pub mod Watchers
pub mod Depth
pub mod Systems
pub mod Settled
pub mod Fetching
pub mod Texts
use ddcoin.Prelude.{
  ℕ, zero, suc, ◌+◌, ◌≤◌, ◌<◌, ◌≡◌, ◌≢◌, ◌==◌, refl, sym, subst, true, none, some, List, [], ◌∷◌,
  ◌++◌, arith, length, ℕ_discrete,
}
use ddcoin.Prelude.Outcome.{Outcome, done}
use ddcoin.Prelude.Bytes.{Bytes, Bytes-discrete, bytes_eq, to_le_bytes}
use ddcoin.HashMap.{get, insert}
use ddcoin.Data.{Cash, Block, BlockInner, Transaction, UnconfirmedBlock}
use ddcoin.External.{External, SignsCorrectly, EncodesInOrder}
use ddcoin.Config.{Config, incomplete_testing_config}
use ddcoin.Util.Difficulty.{IsUsable, expected_span}
use ddcoin.Block
use ddcoin.Block.{zero_hash}
use ddcoin.Block.Genesis.{IsGenesis}
use ddcoin.Chain.{ChainState, leading_block_seqno}
use ddcoin.Chain.Linked.{Inv, HasPrev, IsAdmissible}
use ddcoin.Chain.Start.{start, start-Inv}
use ddcoin.Validation.{enter, retain_uncollected}
use ddcoin.Validation.Extends.{IsFresh}
use ddcoin.Validation.Insertion.{IsEntered, enter-IsEntered}

instance abbrev pub toy : External
toy = record {
  sha256 = λ m. m;
  verifying_key = λ k. k;
  is_key = λ k. true;
  verify = λ k m s. s == k ++ m;
  sign = λ k m. k ++ m;
  encode_transaction_inner = λ i. length i.inputs ∷ length i.outputs ∷ [];
  encode_transaction = λ t. t.signature;
  encode_block_inner = λ i. suc i.seqno ∷ to_le_bytes 8 i.nonce;
  encode_block = λ b. suc b.inner.seqno ∷ b.inner.timestamp ∷ [];
  encode_unconfirmed = λ u. suc u.seqno ∷ [];
}

pub toy-SignsCorrectly : SignsCorrectly toy
toy-SignsCorrectly = record { own_key = λ k. refl; own_signature = λ k m. ground arith }

pub toy-EncodesInOrder : EncodesInOrder toy
toy-EncodesInOrder = record { nonce_last = λ u n. refl }

abbrev pub coin : Cash
coin = record { id = 1 ∷ []; amount = 5; owner = 7 ∷ [] }

abbrev pub small_config : Config
small_config = record {
  initial_block_subsidy = 64;
  block_subsidy_half_period = 40;
  difficulty_adjustment_period = 10;
  average_block_time = 100;
  block_txn_limit = 20;
  genesis_difficulty = 100_000;
  genesis_timestamp = 1000;
  alpn = [];
}

pub small_config-IsUsable : IsUsable small_config
unfolding expected_span
small_config-IsUsable = record {
  period_pos = omega arith;
  half_period_pos = omega arith;
  span_pos = omega arith;
}

abbrev pub genesis : Block
genesis = record {
  inner = record {
    seqno = 0;
    difficulty = 100_000;
    prev_id = zero_hash;
    transactions = [];
    reward = coin;
    miner = 7 ∷ [];
    timestamp = 1000;
    nonce = 0;
  };
  signature = [];
}

abbrev pub second : Block
second = record {
  inner = record {
    seqno = 1;
    difficulty = 100_000;
    prev_id = 1 ∷ 1000 ∷ [];
    transactions = [];
    reward = record { id = 2 ∷ []; amount = 64; owner = 7 ∷ [] };
    miner = 7 ∷ [];
    timestamp = 1001;
    nonce = 0;
  };
  signature = [];
}

abbrev pub one_block : ChainState
one_block = start small_config genesis

pub one_block-Inv : Inv one_block
unfolding Block.id
one_block-Inv =
    start-Inv small_config genesis
      (record { seqno = refl; prev = refl; at = refl; level = refl; empty = refl }) (ground arith)

pub second-IsFresh : IsFresh one_block second
unfolding Block.id get insert Bytes-discrete ℕ_discrete
second-IsFresh = record {
  admissible = record { seqno_small = omega arith; id_nonzero = ground arith };
  not_valid = refl;
  not_pooled = refl;
}

pub second-HasPrev : HasPrev one_block.valid_blocks second
unfolding Block.id get insert Bytes-discrete ℕ_discrete
second-HasPrev = record {
  prev = genesis;
  prev_at = refl;
  prev_seqno = refl;
  prev_time = omega arith;
}

-- The state after the second block has entered.
abbrev pub two_blocks : ChainState
two_blocks = record one_block {
  valid_blocks = ((1 ∷ 1000 ∷ []), genesis) ∷ ((2 ∷ 1001 ∷ []), second) ∷ [];
  leading_block = 2 ∷ 1001 ∷ [];
}

pub two_blocks-Inv : Inv two_blocks
unfolding Block.id get insert Bytes-discrete ℕ_discrete enter retain_uncollected leading_block_seqno
two_blocks-Inv =
    let (t, e, entered) =
      enter-IsEntered ⦃x = toy⦄ one_block second one_block-Inv second-IsFresh second-HasPrev in
    let found : enter one_block second ≡ done two_blocks = refl in
    let same : t ≡ two_blocks = cc (e, found) in subst Inv same entered.inv
