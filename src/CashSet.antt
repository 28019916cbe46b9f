-- ===== src/CashSet.antt =====
-- src/peerhub.rs: `cash_set_at`, which brings the set of unspent cash to a block. The set is changed
-- in place, so what was written before an early `?` stays written.
pub mod Writes
pub mod Current
pub mod Undone
pub mod Rewound
use mathlib.Core.List.{reverse}
use ddcoin.Prelude.{
  ℕ, zero, suc, ◌==◌, if◌then◌else◌, Bool, true, false, Option, none, some, List, [], ◌∷◌, ◌++◌,
  foldl,
}
use ddcoin.Prelude.Outcome.{Outcome, done, out_of_fuel, ◌>>=◌}
use ddcoin.Prelude.Bytes.{bytes_eq}
use ddcoin.HashMap.{get, contains, set_insert, set_remove}
use ddcoin.Data.{Cash, cash_eq, Transaction, Block, BlockId}
use ddcoin.External.{External}
use ddcoin.Chain.{BlockMap, ChainState, CashSet, walk_fuel, ancestors_id}

abbrev pub remove_all : List Cash → List Cash → List Cash
remove_all set cash = foldl (λ set c. set_remove c set) set cash

abbrev pub insert_all : List Cash → List Cash → List Cash
insert_all set cash = foldl (λ set c. set_insert c set) set cash

-- Spending: the body of the forward loop.
unfoldable pub apply_transaction : List Cash → Transaction → List Cash
apply_transaction set t = insert_all (remove_all set t.inner.inputs) t.inner.outputs

unfoldable pub apply_block : List Cash → Block → List Cash
unfolding apply_transaction
apply_block set b = set_insert b.inner.reward (foldl apply_transaction set b.inner.transactions)

-- Rewinding: the body of the backward loop.
unfoldable pub undo_transaction : List Cash → Transaction → List Cash
undo_transaction set t =
    insert_all (remove_all set (reverse t.inner.outputs)) (reverse t.inner.inputs)

unfoldable pub undo_block : List Cash → Block → List Cash
unfolding undo_transaction
undo_block set b =
    foldl undo_transaction (set_remove b.inner.reward set) (reverse b.inner.transactions)

-- What is left of the call: the set, and whether no `?` ended it.
pub record Moved : Type 0 where
  pub cash : List Cash
  pub known : Bool

-- The first loop. `none` is its `?`.
unfoldable pub common_ancestor : ℕ → BlockMap → List BlockId → BlockId → Outcome (Option BlockId)
common_ancestor zero valid ancestors current = out_of_fuel
common_ancestor (suc fuel) valid ancestors current =
    if contains ancestors current then done (some current) else elim (get current valid) [
      | none ↦ done none
      | some block ↦ common_ancestor fuel valid ancestors block.inner.prev_id
    ]

-- The second loop, from `current` back to `common`.
unfoldable pub rewind : ℕ → BlockMap → BlockId → BlockId → List Cash → Outcome Moved
rewind zero valid common current cash = out_of_fuel
rewind (suc fuel) valid common current cash =
    if current == common
    then done (record { cash = cash; known = true })
    else elim (get current valid) [
      | none ↦ done (record { cash = cash; known = false })
      | some block ↦ rewind fuel valid common block.inner.prev_id (undo_block cash block)
    ]

-- `&ancestors_id[position..]` for the first position of `id`; `none` if there is none.
unfoldable pub from_id : BlockId → List BlockId → Option (List BlockId)
from_id id [] = none
from_id id (k ∷ ks) = let rest = from_id id ks in if k == id then some (k ∷ ks) else rest

-- The third loop.
unfoldable pub replay : BlockMap → List BlockId → List Cash → Moved
replay valid [] cash = record { cash = cash; known = true }
replay valid (id ∷ ids) cash = elim (get id valid) [
  | none ↦ record { cash = cash; known = false }
  | some block ↦ replay valid ids (apply_block cash block)
]

abbrev replay_from : BlockMap → Option (List BlockId) → List Cash → Moved
replay_from valid none cash = record { cash = cash; known = false }
replay_from valid (some ids) cash = replay valid ids cash

module _ ⦃x : External⦄ where
  -- `cash_set.block_id` is read and never written.
  unfoldable pub cash_set_at : ChainState → BlockId → Outcome Moved
  unfolding common_ancestor rewind from_id replay
  cash_set_at s id = do
    back ← ancestors_id s.valid_blocks id
    let ancestors : List BlockId = reverse back ++ id ∷ []
    let fuel : ℕ = walk_fuel s.valid_blocks s.cash_set.block_id
    found ← common_ancestor fuel s.valid_blocks ancestors s.cash_set.block_id
    elim found [
      | none ↦ done (record { cash = s.cash_set.cash; known = false })
      | some common ↦ do
        rewound ← rewind fuel s.valid_blocks common s.cash_set.block_id s.cash_set.cash
        elim rewound.known [
          | false ↦ done rewound
          | true ↦ done (replay_from s.valid_blocks (from_id common ancestors) rewound.cash)
        ]
    ]
