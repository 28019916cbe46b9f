-- ===== src/Miner/Order.antt =====
-- About src/bin/miner.rs: the order in which the miner takes transactions from the pool.
use mathlib.Core.List.{Perm}
use mathlib.Core.List.Perm
use ddcoin.Prelude.{
  ℕ, zero, suc, ◌≤◌, ◌≡◌, refl, ap, arith, leb, List, [], ◌∷◌, ◌++◌, map, length, Bool-cases, inl,
  inr, ◌⊎◌,
}
use ddcoin.Data.{TransactionId}
use ddcoin.Config.{Config}
use ddcoin.Miner.{insert_by_fee, sort_by_fee, take, top_ids}

abbrev Fees : Type 0
Fees = List (TransactionId × ℕ)

-- Every fee of the list is at least `n`.
abbrev pub AllAtLeast : ℕ → List (TransactionId × ℕ) → Type 0
AllAtLeast n [] = Unit
AllAtLeast n (e ∷ fees) = (n ≤ e.1) × AllAtLeast n fees

abbrev pub IsAscending : List (TransactionId × ℕ) → Type 0
IsAscending [] = Unit
IsAscending (e ∷ fees) = AllAtLeast e.1 fees × IsAscending fees

-- No fee of the first list is above one of the second.
abbrev pub AllBelow : List (TransactionId × ℕ) → List (TransactionId × ℕ) → Type 0
AllBelow [] rest = Unit
AllBelow (e ∷ fees) rest = AllAtLeast e.1 rest × AllBelow fees rest

AllAtLeast-le : (m n : ℕ) (fees : Fees) → m ≤ n → AllAtLeast n fees → AllAtLeast m fees
AllAtLeast-le m n [] h p = tt
AllAtLeast-le m n (e ∷ fees) h p = (omega (arith, p.0), AllAtLeast-le m n fees h p.1)

AllAtLeast-insert_by_fee :
    (n : ℕ) (e : TransactionId × ℕ) (fees : Fees)
    → n ≤ e.1
    → AllAtLeast n fees
    → AllAtLeast n (insert_by_fee e fees)
unfolding insert_by_fee
AllAtLeast-insert_by_fee n e [] h p = (h, tt)
AllAtLeast-insert_by_fee n e (f ∷ fees) h p = elim (Bool-cases (leb e.1 f.1)) [
  | inl stop ↦ rw stop (h, (p.0, p.1))
  | inr on ↦ rw on (p.0, AllAtLeast-insert_by_fee n e fees h p.1)
]

insert_by_fee-IsAscending :
    (e : TransactionId × ℕ) (fees : Fees) → IsAscending fees → IsAscending (insert_by_fee e fees)
unfolding insert_by_fee
insert_by_fee-IsAscending e [] p = (tt, tt)
insert_by_fee-IsAscending e (f ∷ fees) p = elim (Bool-cases (leb e.1 f.1)) [
  | inl stop ↦
      let le : e.1 ≤ f.1 = ground arith in rw stop ((le, AllAtLeast-le e.1 f.1 fees le p.0), p)
  | inr on ↦
      let le : f.1 ≤ e.1 = ground arith in
      rw on (AllAtLeast-insert_by_fee f.1 e fees le p.0, insert_by_fee-IsAscending e fees p.1)
]

insert_by_fee-Perm : (e : TransactionId × ℕ) (fees : Fees) → Perm (insert_by_fee e fees) (e ∷ fees)
unfolding insert_by_fee
insert_by_fee-Perm e [] = Perm.refl (e ∷ [])
insert_by_fee-Perm e (f ∷ fees) = elim (Bool-cases (leb e.1 f.1)) [
  | inl stop ↦ rw stop (Perm.refl (e ∷ f ∷ fees))
  | inr on ↦ rw on (Perm.trans (Perm.cons f (insert_by_fee-Perm e fees)) (Perm.swap e f fees))
]

sort_by_fee-IsAscending : (fees : Fees) → IsAscending (sort_by_fee fees)
unfolding sort_by_fee
sort_by_fee-IsAscending [] = tt
sort_by_fee-IsAscending (e ∷ fees) =
    insert_by_fee-IsAscending e (sort_by_fee fees) (sort_by_fee-IsAscending fees)

sort_by_fee-Perm : (fees : Fees) → Perm (sort_by_fee fees) fees
unfolding sort_by_fee
sort_by_fee-Perm [] = Perm.refl []
sort_by_fee-Perm (e ∷ fees) =
    Perm.trans (insert_by_fee-Perm e (sort_by_fee fees)) (Perm.cons e (sort_by_fee-Perm fees))

-- What `take` leaves.
abbrev left : ℕ → Fees → Fees
left zero fees = fees
left (suc n) [] = []
left (suc n) (e ∷ fees) = left n fees

take-left : (n : ℕ) (fees : Fees) → take n fees ++ left n fees ≡ fees
take-left zero fees = refl
take-left (suc n) [] = refl
take-left (suc n) (e ∷ fees) = ap (λ l. e ∷ l) (take-left n fees)

AllAtLeast-left : (m n : ℕ) (fees : Fees) → AllAtLeast m fees → AllAtLeast m (left n fees)
AllAtLeast-left m zero fees p = p
AllAtLeast-left m (suc n) [] p = p
AllAtLeast-left m (suc n) (e ∷ fees) p = AllAtLeast-left m n fees p.1

take-AllBelow : (n : ℕ) (fees : Fees) → IsAscending fees → AllBelow (take n fees) (left n fees)
take-AllBelow zero fees p = tt
take-AllBelow (suc n) [] p = tt
take-AllBelow (suc n) (e ∷ fees) p = (AllAtLeast-left e.1 n fees p.0, take-AllBelow n fees p.1)

AllAtLeast-take : (m n : ℕ) (fees : Fees) → AllAtLeast m fees → AllAtLeast m (take n fees)
AllAtLeast-take m zero fees p = tt
AllAtLeast-take m (suc n) [] p = tt
AllAtLeast-take m (suc n) (e ∷ fees) p = (p.0, AllAtLeast-take m n fees p.1)

take-IsAscending : (n : ℕ) (fees : Fees) → IsAscending fees → IsAscending (take n fees)
take-IsAscending zero fees p = tt
take-IsAscending (suc n) [] p = tt
take-IsAscending (suc n) (e ∷ fees) p =
    (AllAtLeast-take e.1 n fees p.0, take-IsAscending n fees p.1)

length-take-le : (n : ℕ) (fees : Fees) → length (take n fees) ≤ n
length-take-le zero fees = omega arith
length-take-le (suc n) [] = omega arith
length-take-le (suc n) (e ∷ fees) = omega (arith, length-take-le n fees)

used_up : (n : ℕ) (fees : Fees) → (left n fees ≡ []) ⊎ (length (take n fees) ≡ n)
used_up zero fees = inr refl
used_up (suc n) [] = inl refl
used_up (suc n) (e ∷ fees) = elim (used_up n fees) [
  | inl none_left ↦ inl none_left
  | inr full ↦ inr (ap suc full)
]

-- The choice of a miner: the cheapest of the pool, in ascending order, up to the limit of a block;
-- the limit is only missed when the pool is used up.
pub record IsCheapest (config : Config) (fees : List (TransactionId × ℕ)) (ids : List TransactionId)
    : Type 0 where
  pub taken : List (TransactionId × ℕ)
  pub rest : List (TransactionId × ℕ)
  pub ids_of : ids ≡ map (λ e. e.0) taken
  pub all : Perm (taken ++ rest) fees
  pub cheapest : AllBelow taken rest
  pub ascending : IsAscending taken
  pub within : length taken ≤ config.block_txn_limit
  pub full : (rest ≡ []) ⊎ (length taken ≡ config.block_txn_limit)

-- The ids that the miner takes are those of the cheapest transactions of the pool, in ascending
-- order of their fees and no more than the limit of a block; the limit is missed only when the
-- pool is used up. No transaction that is left pays less than one that is taken.
pub top_ids-IsCheapest :
    (config : Config) (fees : List (TransactionId × ℕ))
    → IsCheapest config fees (top_ids config fees)
unfolding top_ids
top_ids-IsCheapest config fees =
    let sorted = sort_by_fee fees in
    record {
      taken = take config.block_txn_limit sorted;
      rest = left config.block_txn_limit sorted;
      ids_of = refl;
      all = rw (take-left config.block_txn_limit sorted) (sort_by_fee-Perm fees);
      cheapest = take-AllBelow config.block_txn_limit sorted (sort_by_fee-IsAscending fees);
      ascending = take-IsAscending config.block_txn_limit sorted (sort_by_fee-IsAscending fees);
      within = length-take-le config.block_txn_limit sorted;
      full = used_up config.block_txn_limit sorted;
    }
