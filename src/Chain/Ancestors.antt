-- ===== src/Chain/Ancestors.antt =====
-- About src/peerhub.rs: the walk of `ancestors_id` to the genesis block.
use ddcoin.Prelude.{
  suc, ◌≡◌, sym, ap, ◌∙◌, arith, none, some, List, [], ◌∷◌, ◌++◌, map, reverse, length,
  length-append,
}
use mathlib.Core.List.{map-append, reverse-append}
use ddcoin.Prelude.Outcome.{done}
use ddcoin.Prelude.Bytes.{bytes_eq}
use ddcoin.HashMap.{get}
use ddcoin.Data.{Block, BlockId}
use ddcoin.External.{External}
use ddcoin.Block
use ddcoin.Block.{zero_hash}
use ddcoin.Chain.{ChainState, walk_fuel, ancestors_id_from, ancestors_id}
use ddcoin.Chain.Linked.{Inv}
use ddcoin.Chain.Confirmed.{IsChain, root, link, IsChain-of}

module _ ⦃x : External⦄ where
  ids-snoc :
      (chain : List Block) (b : Block)
      → Block.id b ∷ reverse (map Block.id chain) ≡ reverse (map Block.id (chain ++ b ∷ []))
  ids-snoc chain b = rw (map-append, reverse-append)

  module _ (s : ChainState) (v : Inv s) where
    ancestors_id_from-chain :
        {id : BlockId} {chain : List Block}
        → IsChain s.genesis_id s.valid_blocks id chain
        → ancestors_id_from (suc (length chain)) s.valid_blocks id
          ≡ done (reverse (map Block.id chain))
    unfolding ancestors_id_from
    ancestors_id_from-chain (root b at) =
        let e : get b.inner.prev_id s.valid_blocks ≡ none =
          cc (at, v.root_at, v.root_prev, v.no_zero) in
        rw (at, ancestors_id_from, e)
    ancestors_id_from-chain (link {chain = chain} b at ne c) =
        let l : length (chain ++ b ∷ []) ≡ suc (length chain) =
          omega (arith, length-append chain (b ∷ [])) in
        rw (at, ancestors_id_from, l, ancestors_id_from-chain c) (ap done (ids-snoc chain b))

    pub walk_fuel-at :
        (id : BlockId) (b : Block)
        → get id s.valid_blocks ≡ some b
        → walk_fuel s.valid_blocks id ≡ suc (suc b.inner.seqno)
    walk_fuel-at id b at = rw (at, walk_fuel)

    -- The chain of a valid block, and its walk.
    pub record HasWalk (id : BlockId) : Type 0 where
      pub chain : List Block
      pub is_chain : IsChain s.genesis_id s.valid_blocks id chain
      pub walked : ancestors_id s.valid_blocks id ≡ done (reverse (map Block.id chain))

    -- In a linked store `ancestors_id` ends for every valid block, with the ids of the chain from
    -- it down to the genesis block, in that order.
    pub ancestors_id-HasWalk :
        (id : BlockId) (b : Block) → get id s.valid_blocks ≡ some b → HasWalk id
    unfolding ancestors_id
    ancestors_id-HasWalk id b at =
        let (chain, c, l) = IsChain-of s v id b at in
        record {
          chain = chain;
          is_chain = c;
          walked =
              ap (λ f. ancestors_id_from f s.valid_blocks id)
                (walk_fuel-at id b at ∙ ap suc (sym l))
              ∙ ancestors_id_from-chain c;
        }
