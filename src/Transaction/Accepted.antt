-- ===== src/Transaction/Accepted.antt =====
-- About src/transaction.rs: `Transaction::new`, and the `try_from` of a receiver.
use ddcoin.Prelude.{◌≡◌, List, arith}
use ddcoin.Prelude.Result.{ok}
use ddcoin.Prelude.Bytes.{Bytes}
use ddcoin.Data.{Cash, Transaction}
use ddcoin.External.{External, SignsCorrectly}
use ddcoin.Transaction.{try_from, new, check_inputs_and_outputs, first_owner}
use ddcoin.Prelude.{◌==◌, eq→==, true}
use ddcoin.Prelude.Bytes.{bytes_eq}

module _ ⦃x : External⦄ where
  -- Where signatures verify, a transaction that `Transaction::new` returns is accepted unchanged
  -- by the `try_from` through which a receiver decodes it.
  pub try_from-new :
      (laws : SignsCorrectly x) (key : Bytes) (inputs outputs : List Cash) (t : Transaction)
      → new key inputs outputs ≡ ok t
      → try_from t.inner t.signature ≡ ok t
  unfolding try_from new
  try_from-new laws key inputs outputs t h = ground (
    arith,
    laws.own_key key,
    laws.own_signature key
        (x.encode_transaction_inner (record { inputs = inputs; outputs = outputs })),
  )

  -- The transaction that `new` makes where its checks pass.
  abbrev pub signed : Bytes → List Cash → List Cash → Transaction
  signed key inputs outputs = record {
    inner = record { inputs = inputs; outputs = outputs };
    signature =
        x.sign key (x.encode_transaction_inner (record { inputs = inputs; outputs = outputs }));
  }

  pub new-signed :
      (key : Bytes) (inputs outputs : List Cash)
      → check_inputs_and_outputs inputs outputs ≡ ok tt
      → x.verifying_key key ≡ first_owner inputs
      → new key inputs outputs ≡ ok (signed key inputs outputs)
  unfolding new
  new-signed key inputs outputs passes own =
      let same : (x.verifying_key key == first_owner inputs) ≡ true = eq→== _ _ own in
      rw (passes, same)
