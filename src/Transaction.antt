-- ===== src/Transaction.antt =====
-- src/transaction.rs: the making of cash and transactions, and the checks on them. The id that
-- `Uuid::new_v4` draws is an argument.
pub mod Accounting
pub mod Accepted
use ddcoin.Prelude.{
  replicate, ℕ, ◌==◌, if◌then◌else◌, Bool, true, false, not, List, [], ◌∷◌, map, ltb, sum_u64,
  sub_u64,
}
use ddcoin.Prelude.Result.{Result, ok, err, bail_if, ◌>>=◌, ◌>>◌}
use ddcoin.Prelude.Bytes.{Bytes, bytes_eq}
use ddcoin.Data.{Cash, CoinAddress, Signature, TransactionInner, Transaction, TransactionId}
use ddcoin.External.{External}

-- The reasons of the `bail!`s; the last two are those of `try_from`.
pub data TransactionError : Type 0 where
  empty_inputs inconsistent_owners insufficient_inputs owner_not_signer : TransactionError
  invalid_key invalid_transaction : TransactionError

unfoldable pub new_cash : Bytes → ℕ → CoinAddress → Cash
new_cash id amount owner = record { id = id; amount = amount; owner = owner }

-- `Uuid::nil`
abbrev nil_id : Bytes
nil_id = replicate 16 0

unfoldable pub genesis_reward : ℕ → CoinAddress → Cash
genesis_reward amount owner = record { id = nil_id; amount = amount; owner = owner }

abbrev pub amounts : List Cash → List ℕ
amounts = map λ c. c.amount

-- The loop over `inputs[1..]`.
unfoldable pub all_owned_by : CoinAddress → List Cash → Bool
all_owned_by owner [] = true
all_owned_by owner (input ∷ inputs) =
    let rest = all_owned_by owner inputs in if not (input.owner == owner) then false else rest

unfoldable pub check_inputs_and_outputs : List Cash → List Cash → Result TransactionError (Unit {0})
unfolding all_owned_by
check_inputs_and_outputs [] outputs = err empty_inputs
check_inputs_and_outputs (first ∷ inputs) outputs = do
  bail_if (not (all_owned_by first.owner inputs)) inconsistent_owners
  bail_if (ltb (sum_u64 (amounts (first ∷ inputs))) (sum_u64 (amounts outputs))) insufficient_inputs

-- `inputs[0].owner`, after the check that has refused the empty list.
abbrev pub first_owner : List Cash → CoinAddress
first_owner [] = []
first_owner (first ∷ inputs) = first.owner

unfoldable pub fee : Transaction → ℕ
fee t = sub_u64 (sum_u64 (amounts t.inner.inputs)) (sum_u64 (amounts t.inner.outputs))

module _ ⦃x : External⦄ where
  -- `TryFrom<TransactionValidator>`, which every decoded transaction goes through.
  unfoldable pub try_from : TransactionInner → Signature → Result TransactionError Transaction
  try_from inner signature = do
    check_inputs_and_outputs inner.inputs inner.outputs
    bail_if (not (x.is_key (first_owner inner.inputs))) invalid_key
    bail_if (not (x.verify (first_owner inner.inputs) (x.encode_transaction_inner inner) signature))
        invalid_transaction
    ok (record { inner = inner; signature = signature })

  -- `Transaction::new`
  unfoldable pub new : Bytes → List Cash → List Cash → Result TransactionError Transaction
  new signing_key inputs outputs = do
    check_inputs_and_outputs inputs outputs
    bail_if (not (x.verifying_key signing_key == first_owner inputs)) owner_not_signer
    let inner : TransactionInner = record { inputs = inputs; outputs = outputs }
    ok (record { inner = inner; signature = x.sign signing_key (x.encode_transaction_inner inner) })

  unfoldable pub id : Transaction → TransactionId
  id t = x.sha256 (x.encode_transaction t)
