-- ===== src/Hub/Helper/Gather.antt =====
-- About src/hub_helper.rs: the cash that the loop of `new_transfer` collects.
use mathlib.Core.List.{append_assoc, append-nil, map-append}
use ddcoin.Prelude.{
  ℕ, ◌+◌, ◌≤◌, ◌<◌, ◌≡◌, ◌⊎◌, inl, inr, refl, ap, arith, ◌==◌, leb, if◌then◌else◌, List, [], ◌∷◌,
  ◌++◌, total, sum_u64-eq-total, u64_mod, Bool-cases, ==→eq,
}
use ddcoin.Prelude.Bytes.{bytes_eq}
use ddcoin.HashMap.{contains}
use ddcoin.HashMap.Laws.{contains-head}
use ddcoin.Data.{Cash, cash_eq, CoinAddress}
use ddcoin.Transaction.{amounts}
use ddcoin.Transaction.Accounting.{AllOwnedBy}
use ddcoin.Validation.Checks.{AllIn}
use ddcoin.Hub.Helper.{worth, gather}

-- The cash of one owner.
abbrev pub owned : CoinAddress → List Cash → List Cash
owned sender [] = []
owned sender (c ∷ cs) = if c.owner == sender then c ∷ owned sender cs else owned sender cs

pub total-append : (xs ys : List ℕ) → total (xs ++ ys) ≡ total xs + total ys
total-append [] ys = omega arith
total-append (x ∷ xs) ys = omega (arith, total-append xs ys)

-- The worth of pieces of cash that fits a u64 is their total.
unfoldable pub value : List Cash → ℕ
value cash = total (amounts cash)

value-append : (cs ds : List Cash) → value (cs ++ ds) ≡ value cs + value ds
unfolding value
value-append cs ds = rw map-append (total-append (amounts cs) (amounts ds))

value-cons : (c : Cash) (cs : List Cash) → value (c ∷ cs) ≡ c.amount + value cs
unfolding value
value-cons c cs = refl

value-nil : value [] ≡ 0
unfolding value
value-nil = refl

pub worth-value : (cs : List Cash) → value cs < u64_mod → worth cs ≡ value cs
unfolding value
worth-value cs h = sum_u64-eq-total (amounts cs) h

AllOwnedBy-append :
    (sender : CoinAddress) (cs ds : List Cash)
    → AllOwnedBy sender cs
    → AllOwnedBy sender ds
    → AllOwnedBy sender (cs ++ ds)
AllOwnedBy-append sender [] ds p q = q
AllOwnedBy-append sender (c ∷ cs) ds p q = (p.0, AllOwnedBy-append sender cs ds p.1 q)

AllIn-append : (set cs ds : List Cash) → AllIn set cs → AllIn set ds → AllIn set (cs ++ ds)
AllIn-append set [] ds p q = q
AllIn-append set (c ∷ cs) ds p q = (p.0, AllIn-append set cs ds p.1 q)

AllIn-cons : (c : Cash) (set cs : List Cash) → AllIn set cs → AllIn (c ∷ set) cs
unfolding contains
AllIn-cons c set [] p = tt
AllIn-cons c set (d ∷ cs) p = (ground arith, AllIn-cons c set cs p.1)

pub AllIn-self : (set : List Cash) → AllIn set set
AllIn-self [] = tt
AllIn-self (c ∷ set) = (contains-head c set, AllIn-cons c set set (AllIn-self set))

-- What the loop keeps: the inputs belong to the sender, are from the set `from`, and are worth no
-- more than all that the sender has; and they are enough, or all that there is.
pub record IsGathered (sender : CoinAddress) (needed : ℕ) (from all inputs : List Cash)
    : Type 0 where
  pub one_owner : AllOwnedBy sender inputs
  pub from_set : AllIn from inputs
  pub bounded : value inputs ≤ value all
  pub enough : (needed ≤ value inputs) ⊎ (value inputs ≡ value all)

module _ (sender : CoinAddress) (needed : ℕ) (from : List Cash) where
  pub gather-IsGathered :
      (set inputs : List Cash)
      → AllOwnedBy sender inputs
      → AllIn from inputs
      → AllIn from set
      → value (inputs ++ owned sender set) < u64_mod
      → IsGathered sender needed from (inputs ++ owned sender set) (gather sender needed inputs set)
  unfolding gather
  gather-IsGathered [] inputs mine known rest small =
      rw append-nil
        (record { one_owner = mine; from_set = known; bounded = omega arith; enough = inr refl })
  gather-IsGathered (c ∷ set) inputs mine known rest small = elim (Bool-cases (c.owner == sender)) [
    | inr other ↦ rw other (gather-IsGathered set inputs mine known rest.1 (rw other at small))
    | inl own ↦
        let grown = inputs ++ c ∷ [] in
        let mine' = AllOwnedBy-append sender inputs (c ∷ []) mine (==→eq c.owner sender own, tt) in
        let known' = AllIn-append from inputs (c ∷ []) known (rest.0, tt) in
        let regroup : grown ++ owned sender set ≡ inputs ++ c ∷ owned sender set =
          append_assoc inputs (c ∷ []) (owned sender set) in
        let small' : value (inputs ++ c ∷ owned sender set) < u64_mod = rw own at small in
        let within : value grown ≤ value (inputs ++ c ∷ owned sender set) =
          omega (arith, value-append grown (owned sender set), ap value regroup) in
        elim (Bool-cases (leb needed (worth grown))) [
          | inl stop ↦
              rw (own, stop)
                (record {
                  one_owner = mine';
                  from_set = known';
                  bounded = within;
                  enough = inl (ground (arith, worth-value grown (omega arith)));
                })
          | inr more ↦
              rw (own, more, ← regroup)
                (gather-IsGathered set grown mine' known' rest.1 (rw regroup small'))
        ]
  ]
