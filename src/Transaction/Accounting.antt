-- ===== src/Transaction/Accounting.antt =====
-- About src/transaction.rs: the sums of `check_inputs_and_outputs` and of `fee`.
use ddcoin.Prelude.{
  ◌+◌, ◌%◌, ◌≤◌, ◌<◌, ◌≡◌, ◌≢◌, ◌↔◌, refl, true, List, [], ◌∷◌, arith, total, sum_u64-eq-total_mod,
  sum_u64-eq-total, sub_u64, u64_mod,
}
use ddcoin.Prelude.Result.{ok}
use ddcoin.Prelude.Bytes.{bytes_eq}
use ddcoin.Data.{Cash, CoinAddress, Transaction}
use ddcoin.Transaction.{amounts, all_owned_by, check_inputs_and_outputs, first_owner, fee}

-- Each of them belongs to `owner`.
abbrev pub AllOwnedBy : CoinAddress → List Cash → Type 0
AllOwnedBy owner [] = Unit
AllOwnedBy owner (c ∷ cs) = (c.owner ≡ owner) × AllOwnedBy owner cs

all_owned_by_iff :
    (owner : CoinAddress) (cs : List Cash) → (all_owned_by owner cs ≡ true) ↔ AllOwnedBy owner cs
unfolding all_owned_by
all_owned_by_iff owner [] = (λ _. tt, λ _. refl)
all_owned_by_iff owner (c ∷ cs) = ground (arith, all_owned_by_iff owner cs)

-- The conditions that the checks stand for, with the sums as u64 has them.
pub record IsLocallyValid (inputs outputs : List Cash) : Type 0 where
  pub some_input : inputs ≢ []
  pub one_owner : AllOwnedBy (first_owner inputs) inputs
  pub covered : total (amounts outputs) % u64_mod ≤ total (amounts inputs) % u64_mod

-- The check of a transaction passes exactly when it has an input, its inputs have one owner, and
-- the total of its outputs is at most that of its inputs, both totals modulo 2 ^ 64.
pub check_iff :
    (inputs outputs : List Cash)
    → (check_inputs_and_outputs inputs outputs ≡ ok tt) ↔ IsLocallyValid inputs outputs
unfolding check_inputs_and_outputs
check_iff [] outputs = (λ h. cc, λ v. absurd (v.some_input refl))
check_iff (c ∷ cs) outputs = (
  λ h. record {
    some_input = λ e. cc;
    one_owner = ground (arith, all_owned_by_iff c.owner cs);
    covered =
        ground
          (arith, sum_u64-eq-total_mod (amounts (c ∷ cs)), sum_u64-eq-total_mod (amounts outputs));
  },
  λ v. ground (
    arith,
    all_owned_by_iff c.owner cs,
    sum_u64-eq-total_mod (amounts (c ∷ cs)),
    sum_u64-eq-total_mod (amounts outputs),
  ),
)

-- For a transaction that passes the check and whose two totals each fit a u64, the inputs are
-- worth the outputs and the fee together.
pub fee-balances :
    (t : Transaction)
    → check_inputs_and_outputs t.inner.inputs t.inner.outputs ≡ ok tt
    → total (amounts t.inner.inputs) < u64_mod
    → total (amounts t.inner.outputs) < u64_mod
    → total (amounts t.inner.inputs) ≡ total (amounts t.inner.outputs) + fee t
unfolding fee sub_u64
fee-balances t h p q = omega (
  arith,
  ((check_iff t.inner.inputs t.inner.outputs).0 h).covered,
  sum_u64-eq-total (amounts t.inner.inputs) p,
  sum_u64-eq-total (amounts t.inner.outputs) q,
)
