-- ===== src/Data.antt =====
-- The data that nodes store and exchange: the structs of src/transaction.rs, src/block.rs and
-- src/util.rs. A struct with one field (`Sha256Hash`, `CoinAddress`, `Signature`, `Difficulty`) is
-- that field; `[u8; N]` is the list of its bytes, and a `Uuid` the list of its 16 bytes.
use ddcoin.Prelude.{ℕ, List, Eq, ℕ_discrete}
use ddcoin.Prelude.Bytes.{Bytes, Bytes-discrete}

abbrev pub Sha256Hash : Type 0
Sha256Hash = Bytes

abbrev pub TransactionId : Type 0
TransactionId = Sha256Hash

abbrev pub BlockId : Type 0
BlockId = Sha256Hash

-- The public key.
abbrev pub CoinAddress : Type 0
CoinAddress = Bytes

abbrev pub Signature : Type 0
Signature = Bytes

-- u128, nanoseconds
abbrev pub Timestamp : Type 0
Timestamp = ℕ

-- u64
abbrev pub SequenceNo : Type 0
SequenceNo = ℕ

-- U256
abbrev pub Difficulty : Type 0
Difficulty = ℕ

pub record Cash : Type 0 where
  pub id : Bytes
  pub amount : ℕ
  pub owner : CoinAddress

unfoldable pub Cash-discrete : Discrete Cash
unfolding Bytes-discrete
Cash-discrete = hlevel (ℕ_discrete, Bytes-discrete)

-- The derived `Eq` and `Hash` of `Cash` look at all three fields.
instance abbrev pub cash_eq : Eq Cash
cash_eq = record { discrete = Cash-discrete }

pub record TransactionInner : Type 0 where
  pub inputs : List Cash
  pub outputs : List Cash

pub record Transaction : Type 0 where
  pub inner : TransactionInner
  pub signature : Signature

pub record BlockInner : Type 0 where
  pub seqno : SequenceNo
  pub difficulty : Difficulty
  pub prev_id : BlockId
  pub transactions : List Transaction
  pub reward : Cash
  pub miner : CoinAddress
  pub timestamp : Timestamp
  pub nonce : ℕ

pub record Block : Type 0 where
  pub inner : BlockInner
  pub signature : Signature

pub record UnconfirmedBlock : Type 0 where
  pub seqno : SequenceNo
  pub difficulty : Difficulty
  pub prev_id : BlockId
  pub transactions : List Transaction
  pub reward : Cash
  pub miner : CoinAddress
  pub timestamp : Timestamp
