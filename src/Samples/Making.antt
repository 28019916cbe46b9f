-- ===== src/Samples/Making.antt =====
-- Tests, and the theorems on transactions and new blocks applied to concrete ones.
use ddcoin.Prelude.{◌≡◌, refl, true, [], ◌∷◌, arith, ℕ_discrete}
use ddcoin.Prelude.Outcome.{done, Returns}
use ddcoin.Prelude.Bytes.{Bytes-discrete, bytes_eq}
use ddcoin.Util.Difficulty.{expected_span, is_met, adjust_with_actual_span}
use ddcoin.Samples.{toy, small_config, second}
use ddcoin.Samples.{coin, toy-SignsCorrectly, toy-EncodesInOrder}
use ddcoin.Data.{Cash, cash_eq, Cash-discrete, Transaction, Block, UnconfirmedBlock}
use ddcoin.Prelude.Result.{ok}
use ddcoin.Transaction
use ddcoin.Transaction.{check_inputs_and_outputs, amounts, fee, all_owned_by}
use ddcoin.Transaction.Accounting.{check_iff, IsLocallyValid}
use ddcoin.Transaction.Accepted.{try_from-new}
use ddcoin.Block.{try_confirm}
use ddcoin.Block.Mining.{meets, IsMined, try_confirm-IsMined}
use ddcoin.CashSet.{Moved, apply_block, rewind, replay}
use ddcoin.CashSet.Rewound.{rewind-replay}
use ddcoin.CashSet.Writes.{contains-apply_block, after, block_writes}
use ddcoin.Util.Difficulty.Bounds.{adjust-IsNear, IsNear}
use ddcoin.Util.Hex.{hex_to_bytes, fmt_hex}
use ddcoin.Util.Hex.RoundTrip.{hex_to_bytes-fmt_hex}
use ddcoin.HashMap.{get, contains, set_insert, set_remove}
use ddcoin.Prelude.{◌↔◌, sum_u64}
use ddcoin.Prelude.Bytes.{from_le_bytes, to_le_bytes}
use ddcoin.Block.{genesis_draft}
use ddcoin.Block.Genesis.{genesis_key}
use ddcoin.Transaction.{genesis_reward}
use ddcoin.Prelude.{ℕ_eq}

abbrev change : Cash
change = record { id = 3 ∷ []; amount = 2; owner = 8 ∷ [] }

abbrev payment : Transaction
payment = record {
  inner = record { inputs = coin ∷ []; outputs = change ∷ [] };
  signature = 7 ∷ 1 ∷ 1 ∷ [];
}

check_iff_example :
    (check_inputs_and_outputs (coin ∷ []) (change ∷ []) ≡ ok tt)
    ↔ IsLocallyValid (coin ∷ []) (change ∷ [])
check_iff_example = check_iff (coin ∷ []) (change ∷ [])

payment-new : Transaction.new (7 ∷ []) (coin ∷ []) (change ∷ []) ≡ ok payment
unfolding Transaction.new check_inputs_and_outputs all_owned_by sum_u64 Bytes-discrete ℕ_discrete
payment-new = refl

try_from-new_example : Transaction.try_from payment.inner payment.signature ≡ ok payment
try_from-new_example =
    try_from-new toy-SignsCorrectly (7 ∷ []) (coin ∷ []) (change ∷ []) payment payment-new

abbrev draft : UnconfirmedBlock
draft = record {
  seqno = 1;
  difficulty = 100_000;
  prev_id = 1 ∷ 1000 ∷ [];
  transactions = payment ∷ [];
  reward = coin;
  miner = 7 ∷ [];
  timestamp = 1001;
}

draft-meets : meets draft 1 ≡ true
unfolding is_met from_le_bytes to_le_bytes
draft-meets = refl

try_confirm-IsMined_example :
    (b : Block) × (try_confirm 2 draft (7 ∷ []) ≡ done (ok b)) × IsMined draft b
try_confirm-IsMined_example =
    try_confirm-IsMined toy-SignsCorrectly toy-EncodesInOrder draft (7 ∷ []) 2 1 refl draft-meets
      (omega arith)

contains-apply_block_example :
    contains (apply_block (coin ∷ []) second) coin
    ≡ after coin (block_writes second) (contains (coin ∷ []) coin)
contains-apply_block_example = contains-apply_block (coin ∷ []) second coin

span-small : expected_span small_config ≡ 1000
unfolding expected_span
span-small = refl

adjust-IsNear_example : Returns (IsNear 100_000) (adjust_with_actual_span 100_000 1500 small_config)
adjust-IsNear_example =
    adjust-IsNear small_config 100_000 1500 (omega arith) (omega (arith, span-small))
      (omega (arith, span-small))

hex_to_bytes-fmt_hex_example : hex_to_bytes 2 (fmt_hex (10 ∷ 255 ∷ [])) ≡ done (10 ∷ 255 ∷ [])
hex_to_bytes-fmt_hex_example = hex_to_bytes-fmt_hex (10 ∷ 255 ∷ []) (omega arith, (omega arith, tt))

pub genesis-meets : meets (genesis_draft 100_000 1000 64 genesis_key) 0 ≡ true
unfolding is_met from_le_bytes to_le_bytes
genesis-meets = refl

-- The second block with a payment from the coin.
abbrev spending : Block
spending = record { inner = record (second.inner) { transactions = payment ∷ [] }; signature = [] }

-- It is the one block of a branch, which is gone over and back.
rewind-replay_example :
    (m : Moved) × (rewind 2
        (((2 ∷ 1001 ∷ []), spending) ∷ [])
        (1 ∷ 1000 ∷ [])
        (2 ∷ 1001 ∷ [])
        (replay (((2 ∷ 1001 ∷ []), spending) ∷ []) ((2 ∷ 1001 ∷ []) ∷ []) (coin ∷ [])).cash
      ≡ done m)
    × (m.known ≡ true)
    × ((c : Cash) → contains m.cash c ≡ contains (coin ∷ []) c)
unfolding contains get set_insert set_remove Bytes-discrete ℕ_discrete Cash-discrete
rewind-replay_example =
    rewind-replay (((2 ∷ 1001 ∷ []), spending) ∷ []) (1 ∷ 1000 ∷ []) (2 ∷ 1001 ∷ [])
      (((2 ∷ 1001 ∷ []), spending) ∷ []) 2 (coin ∷ []) (refl, refl, λ q. ground (arith, q), refl)
      ((refl, (refl, (refl, tt))), tt) (omega arith)
