-- ===== src/Chain/Linked.antt =====
-- About src/peerhub.rs: the invariant of the block store, a tree whose root is the genesis block.
use ddcoin.Prelude.{suc, ◌≤◌, ◌<◌, ◌≡◌, ◌≢◌, u64_mod, none, some}
use ddcoin.Prelude.Bytes.{bytes_eq}
use ddcoin.HashMap.{get}
use ddcoin.Data.{Block, BlockId}
use ddcoin.External.{External}
use ddcoin.Block
use ddcoin.Block.{zero_hash}
use ddcoin.Chain.{BlockMap, ChainState}

-- The block before `b` is valid, one lower, and no later.
pub record HasPrev (valid : BlockMap) (b : Block) : Type 0 where
  pub prev : Block
  pub prev_at : get b.inner.prev_id valid ≡ some prev
  pub prev_seqno : b.inner.seqno ≡ suc prev.inner.seqno
  pub prev_time : prev.inner.timestamp ≤ b.inner.timestamp

module _ ⦃x : External⦄ where
  -- A block as the outside may send it: its height is not the last u64, and SHA-256 did not give
  -- its encoding the hash that the genesis block has for its predecessor.
  pub record IsAdmissible (b : Block) : Type 0 where
    pub seqno_small : suc b.inner.seqno < u64_mod
    pub id_nonzero : Block.id b ≢ zero_hash

  pub record IsLinked (genesis_id : BlockId) (valid pool : BlockMap) (leading cash_at : BlockId)
      : Type 0 where
    -- the genesis block
    pub root : Block
    pub root_at : get genesis_id valid ≡ some root
    pub root_seqno : root.inner.seqno ≡ 0
    pub root_prev : root.inner.prev_id ≡ zero_hash
    pub no_zero : get zero_hash valid ≡ none
    -- the valid blocks
    pub keyed : (k : BlockId) (b : Block) → get k valid ≡ some b → Block.id b ≡ k
    pub small : (k : BlockId) (b : Block) → get k valid ≡ some b → suc b.inner.seqno < u64_mod
    pub linked : (k : BlockId) (b : Block) → get k valid ≡ some b → k ≢ genesis_id → HasPrev valid b
    -- the leading block, a highest one
    pub leader : Block
    pub leader_at : get leading valid ≡ some leader
    pub leader_max :
        (k : BlockId) (b : Block) → get k valid ≡ some b → b.inner.seqno ≤ leader.inner.seqno
    -- the pool of unconfirmed blocks
    pub pool_keyed : (k : BlockId) (b : Block) → get k pool ≡ some b → Block.id b ≡ k
    pub pool_admissible : (k : BlockId) (b : Block) → get k pool ≡ some b → IsAdmissible b
    pub pool_fresh : (k : BlockId) (b : Block) → get k pool ≡ some b → get k valid ≡ none
    -- the block from which the cash set is brought up to date
    pub cash_at_genesis : cash_at ≡ genesis_id

  abbrev pub Inv : ChainState → Type 0
  Inv s =
      IsLinked s.genesis_id s.valid_blocks s.unconfirmed_blocks s.leading_block s.cash_set.block_id
