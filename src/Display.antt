-- ===== src/Display.antt =====
-- The `Display` of src/util.rs, src/transaction.rs and src/block.rs, which is what the log shows. A text is
-- the list of its bytes. How Rust writes an integer, how other crates write their ids, and the derived
-- `Debug` of a list of cash are parameters.
pub mod Messages
pub mod Numbers
pub mod Hashes
pub mod Kinds
pub mod Announcements
use mathlib.Core.List.{reverse}
use ddcoin.Prelude.{ℕ, List, [], ◌∷◌, ◌++◌}
use ddcoin.Prelude.Bytes.{Bytes, ascii_bytes, to_le_bytes}
use ddcoin.Util.Hex.{fmt_hex}
use ddcoin.Data.{Sha256Hash, Cash, CoinAddress, Signature, Difficulty, Transaction, Block}
use ddcoin.External.{External}
use ddcoin.Transaction
use ddcoin.Block
use ddcoin.Block.{BlockValidationError, block_size_exceeded, miner_not_match_signer, invalid_nonce}

-- `Display` of the unsigned integers, of `Uuid` and of the `NodeId` of iroh, and `Debug` of `Vec<Cash>`.
pub record Formats : Type 0 where
  pub integer : ℕ → Bytes
  pub uuid : Bytes → Bytes
  pub node_id : Bytes → Bytes
  pub debug_cash : List Cash → Bytes

pub hash_text : Sha256Hash → Bytes
hash_text hash = fmt_hex hash

-- The bytes of a U256, the highest first.
pub difficulty_text : Difficulty → Bytes
difficulty_text d = fmt_hex (reverse (to_le_bytes 32 d))

address_text : CoinAddress → Bytes
address_text pub_key = fmt_hex pub_key

unfoldable signature_text : Signature → Bytes
signature_text sig = fmt_hex sig

unfoldable error_text : BlockValidationError → Bytes
error_text block_size_exceeded = ascii_bytes "Block size exceeded"
error_text miner_not_match_signer = ascii_bytes "Miner not match signer"
error_text invalid_nonce = ascii_bytes "Invalid nonce"

-- `write!(f, "{}, ", id)` for each id
pub ids_text : List Sha256Hash → Bytes
unfolding hash_text
ids_text [] = []
ids_text (id ∷ ids) = hash_text id ++ (ascii_bytes ", " ++ ids_text ids)

module _ (formats : Formats) where
  cash_text : Cash → Bytes
  unfolding address_text
  cash_text c =
      ascii_bytes "Cash { id: "
      ++ (formats.uuid c.id
          ++ (ascii_bytes ", amount: "
              ++ (formats.integer c.amount
                  ++ (ascii_bytes ", owner: " ++ (address_text c.owner ++ ascii_bytes " }")))))

  pub transaction_text : ⦃x : External⦄ → Transaction → Bytes
  unfolding hash_text
  transaction_text t =
      ascii_bytes "Transaction: id: "
      ++ (hash_text (Transaction.id t)
          ++ (ascii_bytes ", inputs: "
              ++ (formats.debug_cash t.inner.inputs
                  ++ (ascii_bytes ", outputs: " ++ formats.debug_cash t.inner.outputs))))

  -- The ids of the transactions of a block.
  transaction_ids : ⦃x : External⦄ → List Transaction → List Sha256Hash
  transaction_ids [] = []
  transaction_ids (t ∷ ts) = Transaction.id t ∷ transaction_ids ts

  -- The fields, the last of which is followed by a comma, and another one before the transactions.
  pub block_text : ⦃x : External⦄ → Block → Bytes
  unfolding hash_text difficulty_text address_text cash_text ids_text transaction_ids
  block_text b =
      ascii_bytes "Block: seqno: "
      ++ (formats.integer b.inner.seqno
          ++ (ascii_bytes ", difficulty: "
              ++ (difficulty_text b.inner.difficulty
                  ++ (ascii_bytes ", id: "
                      ++ (hash_text (Block.id b)
                          ++ (ascii_bytes ", prev_id: "
                              ++ (hash_text b.inner.prev_id
                                  ++ (ascii_bytes ", miner: "
                                      ++ (address_text b.inner.miner
                                          ++ (ascii_bytes ", timestamp: "
                                              ++ (formats.integer b.inner.timestamp
                                                  ++ (ascii_bytes ", nouce: "
                                                      ++ (formats.integer b.inner.nonce
                                                          ++ (ascii_bytes ", reward: "
                                                            ++ (cash_text b.inner.reward
                                                            ++ (ascii_bytes ", , transactions: ["
                                                            ++ (ids_text
                                                            (transaction_ids b.inner.transactions)
                                                            ++ ascii_bytes "]")))))))))))))))))
