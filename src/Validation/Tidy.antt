-- ===== src/Validation/Tidy.antt =====
-- About src/peerhub.rs: how the pool of unconfirmed blocks, `next_blocks`, the invalid blocks and the valid
-- ones fit together, also in the middle of `add_valid_block`, where some ids are still to be looked at.
pub mod Rejects
pub mod Moves
pub mod Taken
pub mod Enters
pub mod SameBut
pub mod Validates
use ddcoin.Prelude.{◌≡◌, Bool, true, false, none, some, ◌⊎◌, List}
use ddcoin.Prelude.Bytes.{bytes_eq}
use ddcoin.HashMap.{HashMap, get, contains}
use ddcoin.Data.{Block, BlockId}
use ddcoin.External.{External}
use ddcoin.Block
use ddcoin.Chain.{BlockMap, ChainState}
use ddcoin.Validation.{children}

abbrev pub NextBlocks : Type 0
NextBlocks = HashMap BlockId (List BlockId)

-- The block `k` is noted to wait for `p`.
abbrev pub Waits : NextBlocks → BlockId → BlockId → Type 0
Waits next p k = contains (children p next) k ≡ true

-- A block that waits is in the pool, on the block that it waits for; neither is valid, and it is not
-- invalid.
pub record IsWaiting (valid pool : BlockMap) (invalid : List BlockId) (p k : BlockId) : Type 0 where
  pub block : Block
  pub pooled : get k pool ≡ some block
  pub below : block.inner.prev_id ≡ p
  pub missing : get p valid ≡ none
  pub not_valid : get k valid ≡ none
  pub not_invalid : contains invalid k ≡ false

-- A block of the pool that is to be looked at: its predecessor is valid now.
pub record IsPending (valid : BlockMap) (invalid : List BlockId) (next : NextBlocks) (k : BlockId)
    (b : Block) : Type 0 where
  pub prev : Block
  pub prev_at : get b.inner.prev_id valid ≡ some prev
  pub not_valid : get k valid ≡ none
  pub not_invalid : contains invalid k ≡ false
  pub not_waiting : (p : BlockId) → ¬ (Waits next p k)

-- Why a block is in the pool.
abbrev pub Reason : List BlockId → NextBlocks → (BlockId → Bool) → BlockId → BlockId → Type 0
Reason invalid next pending p k =
    Waits next p k ⊎ ((contains invalid p ≡ true) ⊎ (pending k ≡ true))

module _ ⦃x : External⦄ where
  pub record IsTidyIn (valid pool : BlockMap) (invalid : List BlockId) (next : NextBlocks)
      (pending : BlockId → Bool) : Type 0 where
    pub pool_keyed : (k : BlockId) (b : Block) → get k pool ≡ some b → Block.id b ≡ k
    pub waiting : (p k : BlockId) → Waits next p k → IsWaiting valid pool invalid p k
    pub reason :
        (k : BlockId) (b : Block)
        → get k pool ≡ some b
        → Reason invalid next pending b.inner.prev_id k
    pub disjoint : (k : BlockId) → contains invalid k ≡ true → get k valid ≡ none
    pub looked_at :
        (k : BlockId) (b : Block)
        → pending k ≡ true
        → get k pool ≡ some b
        → IsPending valid invalid next k b

  abbrev pub IsTidy : (BlockId → Bool) → ChainState → Type 0
  IsTidy pending s =
      IsTidyIn s.valid_blocks s.unconfirmed_blocks s.invalid_blocks s.next_blocks pending

  -- Nothing is left to be looked at.
  abbrev pub nothing : BlockId → Bool
  nothing k = false

-- What is never taken back: an invalid block stays invalid, and a block of the pool on an invalid one
-- stays in the pool.
pub record RetainsIn (pool pool' : BlockMap) (invalid invalid' : List BlockId) : Type 0 where
  pub invalid_stays : (k : BlockId) → contains invalid k ≡ true → contains invalid' k ≡ true
  pub orphan_stays :
      (k : BlockId) (b : Block)
      → get k pool ≡ some b
      → contains invalid b.inner.prev_id ≡ true
      → get k pool' ≡ some b

abbrev pub Retains : ChainState → ChainState → Type 0
Retains s t = RetainsIn s.unconfirmed_blocks t.unconfirmed_blocks s.invalid_blocks t.invalid_blocks

pub Retains-refl : (s : ChainState) → Retains s s
Retains-refl s = record { invalid_stays = λ k e. e; orphan_stays = λ k b e f. e }

pub Retains-trans : (s t u : ChainState) → Retains s t → Retains t u → Retains s u
Retains-trans s t u a b = record {
  invalid_stays = λ k e. b.invalid_stays k (a.invalid_stays k e);
  orphan_stays = λ k block e f.
      b.orphan_stays k block (a.orphan_stays k block e f) (a.invalid_stays block.inner.prev_id f);
}
