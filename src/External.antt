-- ===== src/External.antt =====
-- The third-party code that transactions and blocks call: SHA-256 (sha2), Ed25519 (ed25519-dalek)
-- and the fixed-width bincode encoding behind src/serdes.rs `hashsig::encode`. The encoding of
-- these types is infallible, so `unwrap` on it has no other branch here.
use ddcoin.Prelude.{ℕ, Bool, true, ◌≡◌, ◌++◌}
use ddcoin.Prelude.Bytes.{Bytes, to_le_bytes}
use ddcoin.Data.{TransactionInner, Transaction, BlockInner, Block, UnconfirmedBlock}

pub record External : Type 0 where
  -- `Sha256::digest`
  pub sha256 : Bytes → Bytes
  -- `SigningKey::verifying_key().to_bytes()`
  pub verifying_key : Bytes → Bytes
  -- whether `VerifyingKey::from_bytes` accepts these bytes
  pub is_key : Bytes → Bool
  -- `VerifyingKey::verify` of a message and a signature
  pub verify : Bytes → Bytes → Bytes → Bool
  -- `SigningKey::sign`
  pub sign : Bytes → Bytes → Bytes
  -- `hashsig::encode` at the types that are hashed or signed
  pub encode_transaction_inner : TransactionInner → Bytes
  pub encode_transaction : Transaction → Bytes
  pub encode_block_inner : BlockInner → Bytes
  pub encode_block : Block → Bytes
  pub encode_unconfirmed : UnconfirmedBlock → Bytes

-- What Ed25519 documents: the key of a signer is a key, and its signatures verify.
pub record SignsCorrectly (x : External) : Type 0 where
  pub own_key : (k : Bytes) → x.is_key (x.verifying_key k) ≡ true
  pub own_signature : (k m : Bytes) → x.verify (x.verifying_key k) m (x.sign k m) ≡ true

-- A block with its nonce.
abbrev pub with_nonce_field : UnconfirmedBlock → ℕ → BlockInner
with_nonce_field u n = record {
  seqno = u.seqno;
  difficulty = u.difficulty;
  prev_id = u.prev_id;
  transactions = u.transactions;
  reward = u.reward;
  miner = u.miner;
  timestamp = u.timestamp;
  nonce = n;
}

-- What bincode documents of fixed-width, little-endian encoding: a struct is the concatenation of
-- its fields in the order of declaration, and a u64 is its eight bytes.
pub record EncodesInOrder (x : External) : Type 0 where
  pub nonce_last :
      (u : UnconfirmedBlock) (n : ℕ)
      → x.encode_block_inner (with_nonce_field u n) ≡ x.encode_unconfirmed u ++ to_le_bytes 8 n
