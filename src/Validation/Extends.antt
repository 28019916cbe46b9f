-- ===== src/Validation/Extends.antt =====
-- About src/peerhub.rs: the relation between the states before and after a call of `validate_block`.
use ddcoin.Prelude.{ℕ, ◌+◌, ◌≤◌, ◌≡◌, refl, ◌∙◌, none, some, List, [], ◌∷◌, ◌++◌, length}
use ddcoin.Prelude.Bytes.{bytes_eq}
use ddcoin.HashMap.{get}
use ddcoin.Data.{Block, BlockId}
use ddcoin.External.{External}
use ddcoin.Config.{Config}
use ddcoin.Block
use ddcoin.Chain.{ChainState, BlockMap}
use ddcoin.Chain.Linked.{IsAdmissible, Inv}

-- Over the fields that matter, so that a change of another field does not show.
pub record ExtendsIn (config config' : Config) (genesis genesis' : BlockId)
    (valid valid' : BlockMap) : Type 0 where
  pub same_config : config' ≡ config
  pub same_genesis : genesis' ≡ genesis
  pub keeps_valid : (k : BlockId) (b : Block) → get k valid ≡ some b → get k valid' ≡ some b

abbrev pub Extends : ChainState → ChainState → Type 0
Extends s t = ExtendsIn s.config t.config s.genesis_id t.genesis_id s.valid_blocks t.valid_blocks

pub Extends-refl : (s : ChainState) → Extends s s
Extends-refl s = record { same_config = refl; same_genesis = refl; keeps_valid = λ k b h. h }

pub Extends-trans : (s t u : ChainState) → Extends s t → Extends t u → Extends s u
Extends-trans s t u p q = record {
  same_config = q.same_config ∙ p.same_config;
  same_genesis = q.same_genesis ∙ p.same_genesis;
  keeps_valid = λ k b h. q.keeps_valid k b (p.keeps_valid k b h);
}

-- Every one of the ids has a valid block.
abbrev pub AllValid : BlockMap → List BlockId → Type 0
AllValid valid [] = Unit
AllValid valid (id ∷ ids) = ((b : Block) × (get id valid ≡ some b)) × AllValid valid ids

pub AllValid-Extends :
    (s t : ChainState) (ids : List BlockId)
    → Extends s t
    → AllValid s.valid_blocks ids
    → AllValid t.valid_blocks ids
AllValid-Extends s t [] e h = tt
AllValid-Extends s t (id ∷ ids) e (h, rest) =
    let (b, at) = h in ((b, e.keeps_valid id b at), AllValid-Extends s t ids e rest)

pub AllValid-append :
    (valid : BlockMap) (ids ks : List BlockId)
    → AllValid valid ids
    → AllValid valid ks
    → AllValid valid (ids ++ ks)
AllValid-append valid [] ks h k = k
AllValid-append valid (id ∷ ids) ks h k = (h.0, AllValid-append valid ids ks h.1 k)

module _ ⦃x : External⦄ where
  pub record IsFreshIn (valid pool : BlockMap) (b : Block) : Type 0 where
    pub admissible : IsAdmissible b
    pub not_valid : get (Block.id b) valid ≡ none
    pub not_pooled : get (Block.id b) pool ≡ none

  -- The preconditions of `validate_block`: the block is neither valid nor in the pool.
  abbrev pub IsFresh : ChainState → Block → Type 0
  IsFresh s = IsFreshIn s.valid_blocks s.unconfirmed_blocks

  -- What a step of validation promises: the store stays linked and only grows, at most `extra`
  -- blocks join the pool, and the ids it reports are of valid blocks.
  pub record IsStep (extra : ℕ) (s : ChainState) (r : ChainState × List BlockId) : Type 0 where
    pub inv : Inv r.0
    pub extends : Extends s r.0
    pub pool : length r.0.unconfirmed_blocks ≤ length s.unconfirmed_blocks + extra
    pub all_valid : AllValid r.0.valid_blocks r.1
