-- ===== src/CashSet/Rewound.antt =====
-- About src/peerhub.rs, the loops of `cash_set_at`: going back over the blocks that have been gone over.
use ddcoin.Prelude.{
  ℕ, suc, ◌+◌, ◌-◌, ◌<◌, ==_refl, ne→==_false, true, List, [], ◌∷◌, map, length, ◌≡◌, ◌≢◌, refl,
  sym, ap, ◌∙◌, arith, some,
}
use ddcoin.Prelude.Outcome.{done}
use ddcoin.Prelude.Bytes.{bytes_eq}
use ddcoin.HashMap.{get, contains}
use ddcoin.Data.{Cash, cash_eq, Block, BlockId}
use ddcoin.Chain.{BlockMap}
use ddcoin.CashSet.{Moved, apply_block, undo_block, rewind, replay}
use ddcoin.CashSet.Writes.{block_writes, after}
use ddcoin.CashSet.Undone.{AllChange, undone, contains-undo_block, undo_block-apply_block}

-- The blocks of a branch, the lowest first, with their ids.
abbrev pub Branch : Type 0
Branch = List (BlockId × Block)

-- The branch goes from one id up to another, and does not come by `stop` again.
abbrev pub Leads : BlockMap → BlockId → BlockId → Branch → BlockId → Type 0
Leads valid stop from [] to = to ≡ from
Leads valid stop from ((id, b) ∷ branch) to =
    (get id valid ≡ some b) × (b.inner.prev_id ≡ from) × (id ≢ stop) × Leads valid stop id branch to

-- Every write of the branch changes the set that it comes to.
abbrev pub BranchChanges : Branch → List Cash → Type 0
BranchChanges [] set = Unit
BranchChanges ((id, b) ∷ branch) set =
    AllChange (block_writes b) set × BranchChanges branch (apply_block set b)

abbrev applied : Branch → List Cash → List Cash
applied [] set = set
applied ((id, b) ∷ branch) set = applied branch (apply_block set b)

abbrev unapplied : Branch → List Cash → List Cash
unapplied [] set = set
unapplied ((id, b) ∷ branch) set = undo_block (unapplied branch set) b

contains-unapplied :
    (branch : Branch) (set : List Cash)
    → BranchChanges branch set
    → (c : Cash) → contains (unapplied branch (applied branch set)) c ≡ contains set c
contains-unapplied [] set all c = refl
contains-unapplied ((id, b) ∷ branch) set (first, rest) c =
    let back = unapplied branch (applied branch (apply_block set b)) in
    contains-undo_block back b c
    ∙ ap (after c (undone (block_writes b))) (contains-unapplied branch (apply_block set b) rest c)
    ∙ sym (contains-undo_block (apply_block set b) b c)
    ∙ undo_block-apply_block set b first c

replay-applied :
    (valid : BlockMap) (stop from to : BlockId) (branch : Branch) (set : List Cash)
    → Leads valid stop from branch to
    → replay valid (map (λ e. e.0) branch) set ≡ record { cash = applied branch set; known = true }
unfolding replay
replay-applied valid stop from to [] set leads = refl
replay-applied valid stop from to ((id, b) ∷ branch) set (at, below, ne, leads) =
    rw (at, replay) (replay-applied valid stop id to branch (apply_block set b) leads)

rewind-unapplied :
    (valid : BlockMap) (stop from to : BlockId) (branch : Branch) (fuel : ℕ) (set : List Cash)
    → Leads valid stop from branch to
    → rewind (length branch + fuel) valid stop to set
      ≡ rewind fuel valid stop from (unapplied branch set)
unfolding rewind
rewind-unapplied valid stop from to [] fuel set leads =
    let same : 0 + fuel ≡ fuel = omega arith in
    ap (λ n. rewind n valid stop to set) same ∙ ap (λ t. rewind fuel valid stop t set) leads
rewind-unapplied valid stop from to ((id, b) ∷ branch) fuel set (at, below, ne, leads) =
    let same : suc (length branch) + fuel ≡ length branch + suc fuel = omega arith in
    let back = undo_block (unapplied branch set) b in
    let passed : rewind (suc fuel) valid stop id (unapplied branch set)
        ≡ rewind fuel valid stop b.inner.prev_id back =
      rw (ne→==_false id stop ne, at, rewind) in
    ap (λ n. rewind n valid stop to set) same
    ∙ rewind-unapplied valid stop id to branch (suc fuel) set leads
    ∙ passed
    ∙ ap (λ t. rewind fuel valid stop t back) below

-- Going over a branch of valid blocks and then back from its top to where it began gives the set
-- of before, as to which cash is in it, without a missing block, if every write of the branch
-- changed the set that it came to: what it took out was there, and what it put in was not. The
-- branch does not come by its beginning again, and the fuel is above its length.
pub rewind-replay :
    (valid : BlockMap) (common top : BlockId) (branch : Branch) (fuel : ℕ) (set : List Cash)
    → Leads valid common common branch top
    → BranchChanges branch set
    → length branch < fuel
    → (m : Moved) × (rewind fuel valid common top (replay valid (map (λ e. e.0) branch) set).cash
        ≡ done m)
      × (m.known ≡ true)
      × ((c : Cash) → contains m.cash c ≡ contains set c)
unfolding rewind
rewind-replay valid common top branch fuel set leads changes enough =
    let k = fuel - suc (length branch) in
    let split : fuel ≡ length branch + suc k = omega (arith, enough) in
    let there = applied branch set in
    let gone : (replay valid (map (λ e. e.0) branch) set).cash ≡ there =
      ap (λ (m : Moved). m.cash) (replay-applied valid common common top branch set leads) in
    let stops : rewind (suc k) valid common common (unapplied branch there)
        ≡ done (record { cash = unapplied branch there; known = true }) =
      rw (==_refl common, rewind) in
    (
      record { cash = unapplied branch there; known = true },
      ap (λ n. rewind n valid common top (replay valid (map (λ e. e.0) branch) set).cash) split
          ∙ ap (rewind (length branch + suc k) valid common top) gone
          ∙ rewind-unapplied valid common common top branch (suc k) there leads
          ∙ stops,
      refl,
      contains-unapplied branch set changes,
    )
