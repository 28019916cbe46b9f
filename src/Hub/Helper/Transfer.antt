-- ===== src/Hub/Helper/Transfer.antt =====
-- About src/hub_helper.rs: `new_transfer`, alone with the actor.
use ddcoin.Prelude.{
  ℕ, ◌+◌, ◌%◌, ◌≤◌, ◌<◌, ◌≡◌, ◌≢◌, inl, inr, refl, sym, arith, true, false, ltb, List, [], ◌∷◌,
  total, u64_mod, add_u64, sub_u64, lt→ltb, le→ltb_false,
}
use ddcoin.Prelude.Result.{ok}
use ddcoin.Prelude.Bytes.{Bytes, bytes_eq}
use ddcoin.Data.{Cash, CoinAddress, Transaction}
use ddcoin.External.{External, SignsCorrectly}
use ddcoin.Transaction
use ddcoin.Transaction.{new_cash, amounts, fee, first_owner, check_inputs_and_outputs}
use ddcoin.Transaction.Accounting.{AllOwnedBy, check_iff, fee-balances}
use ddcoin.Transaction.Accepted.{signed, new-signed, try_from-new}
use ddcoin.Validation.Checks.{AllIn}
use ddcoin.Hub.Helper.{worth, gather, transfer_outputs}
use ddcoin.Hub.Helper.Gather.{owned, value, worth-value, AllIn-self, IsGathered, gather-IsGathered}

first_owner_of :
    (sender : CoinAddress) (cs : List Cash)
    → AllOwnedBy sender cs
    → cs ≢ []
    → sender ≡ first_owner cs
first_owner_of sender [] p ne = absurd (ne refl)
first_owner_of sender (c ∷ cs) p ne = sym p.0

some_of_value : (cs : List Cash) → 0 < value cs → cs ≢ []
unfolding value
some_of_value [] h e = omega arith
some_of_value (c ∷ cs) h e = cc

module _ ⦃x : External⦄ (signs : SignsCorrectly x) (signer : Bytes) (receiver : CoinAddress)
    (amount paid_fee : ℕ) (transfer_id rest_id : Bytes) (set : List Cash)
    (small : value (owned (x.verifying_key signer) set) < u64_mod)
    (fits : amount + paid_fee < u64_mod) where
  sender : CoinAddress
  sender = x.verifying_key signer

  abbrev pub inputs : List Cash
  inputs = gather (x.verifying_key signer) (add_u64 amount paid_fee) [] set

  needed_lem : add_u64 amount paid_fee ≡ amount + paid_fee
  unfolding add_u64
  needed_lem = omega arith

  gathered :
      IsGathered
        (x.verifying_key signer)
        (add_u64 amount paid_fee)
        set
        (owned (x.verifying_key signer) set)
        inputs
  gathered =
      gather-IsGathered (x.verifying_key signer) (add_u64 amount paid_fee) set set [] tt tt
        (AllIn-self set) small

  -- Too little: the test that ends the transfer.
  pub too_little :
      value (owned (x.verifying_key signer) set) < amount + paid_fee
      → ltb (worth inputs) (add_u64 amount paid_fee) ≡ true
  too_little short = lt→ltb _ _ (
      omega
        (arith, gathered.bounded, worth-value inputs (omega (arith, gathered.bounded)), needed_lem))

  -- The transaction of a transfer: it spends cash of the sender in the set, pays the receiver the
  -- amount and the sender the rest, leaves the fee, and is accepted by a receiver.
  pub record IsTransfer (t : Transaction) : Type 0 where
    pub from_set : AllIn set t.inner.inputs
    pub one_owner : AllOwnedBy (x.verifying_key signer) t.inner.inputs
    pub rest : ℕ
    pub paid :
        t.inner.outputs
        ≡ new_cash transfer_id amount receiver ∷ new_cash rest_id rest (x.verifying_key signer) ∷ []
    pub balance : value t.inner.inputs ≡ amount + paid_fee + rest
    pub right_fee : fee t ≡ paid_fee
    pub accepted : Transaction.try_from t.inner t.signature ≡ ok t

  module _ (some_needed : 0 < amount + paid_fee)
      (enough : amount + paid_fee ≤ value (owned (x.verifying_key signer) set)) where
    enough_found : amount + paid_fee ≤ value inputs
    enough_found = elim gathered.enough [
      | inl reached ↦ omega (arith, needed_lem)
      | inr all ↦ omega (arith, needed_lem)
    ]

    worth_found : worth inputs ≡ value inputs
    worth_found = worth-value inputs (omega (arith, gathered.bounded))

    pub goes_on : ltb (worth inputs) (add_u64 amount paid_fee) ≡ false
    goes_on = le→ltb_false _ _ (omega (arith, needed_lem, worth_found, enough_found))

    abbrev rest_amount : ℕ
    rest_amount = sub_u64 (sub_u64 (worth inputs) amount) paid_fee

    rest_lem : value inputs ≡ amount + paid_fee + rest_amount
    unfolding sub_u64
    rest_lem = omega (arith, worth_found, enough_found, gathered.bounded)

    abbrev pub outputs : List Cash
    outputs =
        transfer_outputs (x.verifying_key signer) receiver amount paid_fee transfer_id rest_id
          inputs

    outputs_value : total (amounts outputs) ≡ amount + rest_amount
    unfolding transfer_outputs new_cash
    outputs_value = omega arith

    some_found : inputs ≢ []
    some_found = some_of_value inputs (omega (arith, enough_found))

    own_found : x.verifying_key signer ≡ first_owner inputs
    own_found = first_owner_of (x.verifying_key signer) inputs gathered.one_owner some_found

    covered_lem : total (amounts outputs) % u64_mod ≤ total (amounts inputs) % u64_mod
    unfolding value
    covered_lem = omega (arith, outputs_value, rest_lem, gathered.bounded)

    passes : check_inputs_and_outputs inputs outputs ≡ ok tt
    passes = (check_iff inputs outputs).1 (record {
      some_input = some_found;
      one_owner = rw (← own_found) gathered.one_owner;
      covered = covered_lem;
    })

    unfoldable pub transfer : Transaction
    transfer = signed signer inputs outputs

    pub made : Transaction.new signer inputs outputs ≡ ok transfer
    unfolding transfer
    made = new-signed signer inputs outputs passes own_found

    fee_lem : fee transfer ≡ paid_fee
    unfolding value transfer
    fee_lem = omega (
      arith,
      fee-balances transfer passes (omega (arith, gathered.bounded))
          (omega (arith, outputs_value, rest_lem, gathered.bounded)),
      outputs_value,
      rest_lem,
    )

    pub transfer-IsTransfer : IsTransfer transfer
    unfolding transfer transfer_outputs
    transfer-IsTransfer = record {
      from_set = gathered.from_set;
      one_owner = gathered.one_owner;
      rest = rest_amount;
      paid = refl;
      balance = rest_lem;
      right_fee = fee_lem;
      accepted = try_from-new signs signer inputs outputs transfer made;
    }
