-- ===== src/CashSet/Writes.antt =====
-- About src/peerhub.rs, the forward loop of `cash_set_at`: the writes of a block to one piece of cash.
use ddcoin.Prelude.{
  ◌==◌, if◌then◌else◌, Bool, true, false, List, [], ◌∷◌, ◌++◌, foldl, map, ◌≡◌, refl, sym, ◌∙◌, ◌⊎◌,
  inl, inr, Bool-cases,
}
use ddcoin.HashMap.{contains, set_insert, set_remove}
use ddcoin.HashMap.Laws.{contains-set_insert, contains-set_remove}
use ddcoin.Data.{Cash, cash_eq, Transaction, Block}
use ddcoin.CashSet.{apply_transaction, apply_block, insert_all, remove_all}

-- A write puts a piece of cash into the set (`true`) or takes it out.
abbrev pub Write : Type 0
Write = Cash × Bool

abbrev pub written : Bool → List Cash → List Write
written v = map λ c. (c, v)

abbrev pub transaction_writes : List Transaction → List Write
transaction_writes [] = []
transaction_writes (t ∷ ts) =
    written false t.inner.inputs ++ (written true t.inner.outputs ++ transaction_writes ts)

abbrev pub block_writes : Block → List Write
block_writes b = transaction_writes b.inner.transactions ++ (b.inner.reward, true) ∷ []

abbrev pub chain_writes : List Block → List Write
chain_writes [] = []
chain_writes (b ∷ chain) = block_writes b ++ chain_writes chain

-- Whether `c` is in the set after the writes, if before them it was by `before`.
abbrev pub after : Cash → List Write → Bool → Bool
after c [] before = before
after c ((d, v) ∷ ws) before = after c ws (if d == c then v else before)

pub after-append :
    (c : Cash) (ws us : List Write) (i : Bool) → after c (ws ++ us) i ≡ after c us (after c ws i)
after-append c [] us i = refl
after-append c ((d, v) ∷ ws) us i = after-append c ws us (if d == c then v else i)

-- Writes to one piece of cash are a constant or change nothing.
after_cases :
    (c : Cash) (ws : List Write)
    → ((i : Bool) → after c ws i ≡ i) ⊎ ((v : Bool) × ((i : Bool) → after c ws i ≡ v))
after_cases c [] = inl (λ i. refl)
after_cases c ((d, v) ∷ ws) = elim (after_cases c ws) [
  | inr (w, const) ↦ inr (w, λ i. const (if d == c then v else i))
  | inl same ↦ elim (Bool-cases (d == c)) [
    | inl hit ↦ inr (v, λ i. rw hit (same v))
    | inr miss ↦ inl (λ i. rw miss (same i))
  ]
]

pub after_twice : (c : Cash) (ws : List Write) (i : Bool) → after c ws (after c ws i) ≡ after c ws i
after_twice c ws i = elim (after_cases c ws) [
  | inl same ↦ same _
  | inr (v, const) ↦ const _ ∙ sym (const i)
]

pub contains-remove_all :
    (set cs : List Cash) (c : Cash)
    → contains (remove_all set cs) c ≡ after c (written false cs) (contains set c)
contains-remove_all set [] c = refl
contains-remove_all set (d ∷ cs) c =
    rw (contains-remove_all (set_remove d set) cs c, contains-set_remove d c set)

pub contains-insert_all :
    (set cs : List Cash) (c : Cash)
    → contains (insert_all set cs) c ≡ after c (written true cs) (contains set c)
contains-insert_all set [] c = refl
contains-insert_all set (d ∷ cs) c =
    rw (contains-insert_all (set_insert d set) cs c, contains-set_insert d c set)

contains-transactions :
    (set : List Cash) (ts : List Transaction) (c : Cash)
    → contains (foldl apply_transaction set ts) c ≡ after c (transaction_writes ts) (contains set c)
unfolding apply_transaction
contains-transactions set [] c = refl
contains-transactions set (t ∷ ts) c = rw (
  contains-transactions (apply_transaction set t) ts c,
  contains-insert_all (remove_all set t.inner.inputs) t.inner.outputs c,
  contains-remove_all set t.inner.inputs c,
  after-append c (written false t.inner.inputs),
  after-append c (written true t.inner.outputs),
)

-- A piece of cash is in the set after a block has been applied as the last write of the block to
-- it says, where a transaction takes out its inputs and then puts in its outputs and the block
-- puts in the reward, and as before where the block does not write it.
pub contains-apply_block :
    (set : List Cash) (b : Block) (c : Cash)
    → contains (apply_block set b) c ≡ after c (block_writes b) (contains set c)
unfolding apply_block
contains-apply_block set b c = rw (
  contains-set_insert b.inner.reward c,
  after-append c (transaction_writes b.inner.transactions),
  contains-transactions set b.inner.transactions c,
)

-- Applying a block to a set to which it has just been applied changes what no piece of cash says:
-- the set of `cash_set_at`, which begins at the common ancestor and applies that block again, is
-- not disturbed by it.
pub apply_block_twice :
    (set : List Cash) (b : Block) (c : Cash)
    → contains (apply_block (apply_block set b) b) c ≡ contains (apply_block set b) c
apply_block_twice set b c =
    rw (contains-apply_block (apply_block set b) b c, contains-apply_block set b c)
      (after_twice c (block_writes b) (contains set c))
