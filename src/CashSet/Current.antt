-- ===== src/CashSet/Current.antt =====
-- About src/peerhub.rs: the set that `cash_set_at` gives in a linked store.
use mathlib.Core.List.{append_assoc, foldl-append, map-append, reverse-reverse}
use ddcoin.Prelude.{
  ℕ, suc, ==_refl, Bool, true, some, List, [], ◌∷◌, ◌++◌, map, reverse, foldl, ◌≡◌, refl, ap, sym,
  ◌∙◌,
}
use ddcoin.Prelude.Outcome.{done, Returns}
use ddcoin.Prelude.Bytes.{bytes_eq}
use ddcoin.HashMap.{get, contains}
use ddcoin.HashMap.Laws.{contains-head}
use ddcoin.Data.{Cash, cash_eq, Block, BlockId}
use ddcoin.External.{External}
use ddcoin.Block
use ddcoin.Chain.{BlockMap, ChainState, ancestors_id}
use ddcoin.Chain.Linked.{Inv}
use ddcoin.Chain.Confirmed.{IsChain, root, link}
use ddcoin.Chain.Ancestors.{ancestors_id-HasWalk, walk_fuel-at}
use ddcoin.CashSet.{Moved, common_ancestor, rewind, from_id, replay, apply_block, cash_set_at}
use ddcoin.CashSet.Writes.{
  after, after-append, apply_block_twice, chain_writes, block_writes, contains-apply_block,
}

abbrev pub apply_chain : List Cash → List Block → List Cash
apply_chain = foldl apply_block

contains-apply_chain :
    (cash : List Cash) (chain : List Block) (c : Cash)
    → contains (apply_chain cash chain) c ≡ after c (chain_writes chain) (contains cash c)
contains-apply_chain cash [] c = refl
contains-apply_chain cash (b ∷ chain) c = rw (
  contains-apply_chain (apply_block cash b) chain c,
  contains-apply_block cash b c,
  after-append c (block_writes b),
)

module _ (fuel : ℕ) (valid : BlockMap) (id : BlockId) (ids : List BlockId) where
  common_ancestor-here : common_ancestor (suc fuel) valid (id ∷ ids) id ≡ done (some id)
  unfolding common_ancestor
  common_ancestor-here = rw (contains-head id ids)

  rewind-none :
      (cash : List Cash)
      → rewind (suc fuel) valid id id cash ≡ done (record { cash = cash; known = true })
  unfolding rewind
  rewind-none cash = rw (==_refl id)

from_id-head : (id : BlockId) (ids : List BlockId) → from_id id (id ∷ ids) ≡ some (id ∷ ids)
unfolding from_id
from_id-head id ids = rw (==_refl id)

module _ ⦃x : External⦄ (s : ChainState) (v : Inv s) where
  replay_one :
      (id : BlockId) (b : Block) (rest : List BlockId) (cash : List Cash)
      → get id s.valid_blocks ≡ some b
      → replay s.valid_blocks (id ∷ rest) cash ≡ replay s.valid_blocks rest (apply_block cash b)
  unfolding replay
  replay_one id b rest cash at = rw (at, replay)

  -- The ids of a chain lead to its blocks.
  replay-chain :
      {id : BlockId} {chain : List Block}
      → IsChain s.genesis_id s.valid_blocks id chain
      → (rest : List BlockId) (cash : List Cash)
      → replay s.valid_blocks (map Block.id chain ++ rest) cash
        ≡ replay s.valid_blocks rest (apply_chain cash chain)
  replay-chain (root b at) rest cash =
      rw (v.keyed s.genesis_id b at) (replay_one s.genesis_id b rest cash at)
  replay-chain {id} (link {chain = chain} b at ne h) rest cash = rw (
    map-append,
    append_assoc,
    replay-chain h (Block.id b ∷ rest) cash,
    v.keyed id b at,
    replay_one id b rest (apply_chain cash chain) at,
    foldl-append,
  )

  -- The first of them is the genesis block's.
  ids-genesis :
      {id : BlockId} {chain : List Block}
      → IsChain s.genesis_id s.valid_blocks id chain
      → (rest : List BlockId) × (map Block.id chain ≡ s.genesis_id ∷ rest)
  ids-genesis (root b at) = ([], rw (v.keyed s.genesis_id b at))
  ids-genesis (link b at ne h) =
      let (rest, e) = ids-genesis h in (rest ++ Block.id b ∷ [], rw (map-append, e))

  -- The last of its blocks is the one that `id` leads to.
  apply_chain-last :
      {id : BlockId} {chain : List Block} (b : Block)
      → get id s.valid_blocks ≡ some b
      → IsChain s.genesis_id s.valid_blocks id chain
      → (cash : List Cash) → (before : List Cash) × (apply_chain cash chain ≡ apply_block before b)
  apply_chain-last b at (root d at') cash = let e : d ≡ b = cc in (cash, ap (apply_block cash) e)
  apply_chain-last b at (link {chain = chain} d at' ne h) cash =
      let e : d ≡ b = cc in
      (
        apply_chain cash chain,
        foldl-append _ _ chain _ ∙ ap (apply_block (apply_chain cash chain)) e,
      )

  -- The end of the replay, at the block `id` that the list has twice.
  replayed :
      (id : BlockId) (b : Block) (chain : List Block)
      → get id s.valid_blocks ≡ some b
      → IsChain s.genesis_id s.valid_blocks id chain
      → replay s.valid_blocks (map Block.id chain ++ id ∷ []) s.cash_set.cash
        ≡ record { cash = apply_block (apply_chain s.cash_set.cash chain) b; known = true }
  unfolding replay
  replayed id b chain at h =
      replay-chain h (id ∷ []) s.cash_set.cash
      ∙ replay_one id b [] (apply_chain s.cash_set.cash chain) at

  contains-last :
      {id : BlockId} (b : Block) (chain : List Block)
      → get id s.valid_blocks ≡ some b
      → IsChain s.genesis_id s.valid_blocks id chain
      → (c : Cash)
      → contains (apply_block (apply_chain s.cash_set.cash chain) b) c
        ≡ after c (chain_writes chain) (contains s.cash_set.cash c)
  contains-last b chain at h c =
      let (before, e) = apply_chain-last b at h s.cash_set.cash in
      ap (λ l. contains (apply_block l b) c) e
      ∙ apply_block_twice before b c
      ∙ ap (λ l. contains l c) (sym e)
      ∙ contains-apply_chain s.cash_set.cash chain c

  -- The three loops, for a list of ids that begins at the genesis block.
  cash_set_at-loops :
      (id : BlockId) (back rest : List BlockId)
      → ancestors_id s.valid_blocks id ≡ done back
      → reverse back ++ id ∷ [] ≡ s.genesis_id ∷ rest
      → cash_set_at s id ≡ done (replay s.valid_blocks (s.genesis_id ∷ rest) s.cash_set.cash)
  unfolding cash_set_at
  cash_set_at-loops id back rest e f = rw (
    e,
    f,
    v.cash_at_genesis,
    walk_fuel-at s v s.genesis_id v.root v.root_at,
    common_ancestor-here,
    v.cash_at_genesis,
    walk_fuel-at s v s.genesis_id v.root v.root_at,
    rewind-none,
    f,
    from_id-head,
  )

  -- The unspent cash of a chain, if before it a piece was in the set by `before`.
  abbrev unspent : Cash → List Block → Bool → Bool
  unspent c chain = after c (chain_writes chain)

  pub record IsBroughtTo (id : BlockId) (m : Moved) : Type 0 where
    pub chain : List Block
    pub is_chain : IsChain s.genesis_id s.valid_blocks id chain
    pub known : m.known ≡ true
    pub cash_iff :
        (c : Cash) → contains m.cash c ≡ after c (chain_writes chain) (contains s.cash_set.cash c)

  -- In a linked store `cash_set_at` returns a set for every valid block. A piece of cash is in it
  -- as the last write to it on the chain from the genesis block to that block says, and where the
  -- chain does not write it, as it was in the set before the call.
  pub cash_set_at-IsBroughtTo :
      (id : BlockId) (b : Block)
      → get id s.valid_blocks ≡ some b
      → Returns (IsBroughtTo id) (cash_set_at s id)
  cash_set_at-IsBroughtTo id b at =
      let w = ancestors_id-HasWalk s v id b at in
      let (rest, g) = ids-genesis w.is_chain in
      let m = replay s.valid_blocks (s.genesis_id ∷ rest ++ id ∷ []) s.cash_set.cash in
      let e = replayed id b w.chain at w.is_chain in
      (
        record { cash = apply_block (apply_chain s.cash_set.cash w.chain) b; known = true },
        cash_set_at-loops id (reverse (map Block.id w.chain)) (rest ++ id ∷ []) w.walked
              (rw (reverse-reverse, g))
            ∙ ap done (rw g at e),
        record {
          chain = w.chain;
          is_chain = w.is_chain;
          known = refl;
          cash_iff = contains-last b w.chain at w.is_chain;
        },
      )
