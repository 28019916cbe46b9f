-- ===== src/Validation/Inputs.antt =====
-- About src/peerhub.rs, `validate_block`, and src/transaction.rs, `fee`: the inputs of the transactions of a
-- block, and what they leave over.
use ddcoin.Prelude.{
  ℕ, ◌+◌, ◌-◌, ◌%◌, ◌≡◌, ◌↔◌, refl, sym, ◌∙◌, ℕ_eq, Bool, true, arith, List, [], ◌∷◌, map, sub_u64,
  u64_mod, total, sum_u64-eq-total_mod,
}
use ddcoin.Prelude.Bytes.{bytes_eq}
use ddcoin.HashMap.{contains}
use ddcoin.Data.{Cash, cash_eq, Transaction}
use ddcoin.Transaction.{fee, amounts}
use ddcoin.Validation.Checks.{AllIn, AllSpendable}

-- Every input of every transaction passes.
abbrev Each : (Cash → Bool) → List Cash → Type 0
Each f [] = Unit
Each f (c ∷ cs) = (f c ≡ true) × Each f cs

abbrev pub EachInput : (Cash → Bool) → List Transaction → Type 0
EachInput f [] = Unit
EachInput f (t ∷ ts) = Each f t.inner.inputs × EachInput f ts

AllIn-Each :
    (set : List Cash) (f : Cash → Bool)
    → ((c : Cash) → contains set c ≡ f c)
    → (cs : List Cash) → AllIn set cs ↔ Each f cs
AllIn-Each set f same [] = (λ _. tt, λ _. tt)
AllIn-Each set f same (c ∷ cs) =
    let rest = AllIn-Each set f same cs in
    (λ a. (sym (same c) ∙ a.0, rest.0 a.1), λ e. (same c ∙ e.0, rest.1 e.1))

pub AllSpendable-EachInput :
    (set : List Cash) (f : Cash → Bool)
    → ((c : Cash) → contains set c ≡ f c)
    → (ts : List Transaction) → AllSpendable set ts ↔ EachInput f ts
AllSpendable-EachInput set f same [] = (λ _. tt, λ _. tt)
AllSpendable-EachInput set f same (t ∷ ts) =
    let one = AllIn-Each set f same t.inner.inputs in
    let rest = AllSpendable-EachInput set f same ts in
    (λ a. (one.0 a.0, rest.0 a.1), λ e. (one.1 e.0, rest.1 e.1))

-- What is left of the inputs, over all transactions, where what is missing counts modulo 2 ^ 64.
abbrev pub left_over : List Transaction → ℕ
left_over [] = 0
left_over (t ∷ ts) =
    total (amounts t.inner.inputs)
    + (u64_mod - total (amounts t.inner.outputs) % u64_mod)
    + left_over ts

pub total-fees : (ts : List Transaction) → total (map fee ts) % u64_mod ≡ left_over ts % u64_mod
unfolding fee sub_u64
total-fees [] = refl
total-fees (t ∷ ts) = omega (
  arith,
  total-fees ts,
  sum_u64-eq-total_mod (amounts t.inner.inputs),
  sum_u64-eq-total_mod (amounts t.inner.outputs),
)
