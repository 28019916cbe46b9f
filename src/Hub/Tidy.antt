-- ===== src/Hub/Tidy.antt =====
-- About src/peerhub.rs, `PeerHubActor::handle`: the blocks that a node has judged, and those that wait.
use ddcoin.Prelude.{ℕ, suc, ◌≡◌, subst, arith, false, length}
use ddcoin.Prelude.Outcome.{done}
use ddcoin.Prelude.Bytes.{bytes_eq}
use ddcoin.HashMap.{contains}
use ddcoin.Data.{Block, BlockId, Timestamp}
use ddcoin.External.{External}
use ddcoin.Block
use ddcoin.Chain.{ChainState, knows_block}
use ddcoin.Validation.Tidy.{IsTidy, nothing, Retains-refl}
use ddcoin.Validation.Tidy.Rejects.{reject-IsTidy}
use ddcoin.Validation.Tidy.Moves.{IsNew}
use ddcoin.Validation.Tidy.Validates.{IsTidied, validate_block-IsTidied}
use ddcoin.Hub.{HubState, Handled}
use ddcoin.Hub.Messages.{Network, Message}
use ddcoin.Hub.Handle.{handle}
use ddcoin.Hub.Changes.{IsIndifferent, Relates, Keeps, handle-Keeps}

module _ ⦃x : External⦄ where
  -- Tidy before, tidy after, and nothing taken back.
  abbrev Tidied : ChainState → ChainState → Type 0
  Tidied s t = IsTidy nothing s → IsTidied nothing s t

  Tidied-IsIndifferent : IsIndifferent Tidied
  Tidied-IsIndifferent = record {
    same = λ s t. (t, Retains-refl s);
    pooled = λ s pool t. (t, Retains-refl s);
    cashed = λ s cash t. (t, Retains-refl s);
  }

  unknown-IsNew :
      (s : ChainState) (id : BlockId)
      → contains s.invalid_blocks id ≡ false
      → knows_block s id ≡ false
      → IsNew s id
  unfolding knows_block
  unknown-IsNew s id fine new = record {
    not_valid = ground arith;
    not_pooled = ground arith;
    not_invalid = fine;
  }

  new_block-Tidied :
      (s : ChainState) (block : Block) → IsNew s (Block.id block) → Relates Tidied s block
  new_block-Tidied s block new = record {
    rejected =
        λ t e tidy. reject-IsTidy nothing s (Block.id block) t tidy new.not_valid new.not_pooled e;
    validated = λ r e tidy.
        validate_block-IsTidied (suc (length s.unconfirmed_blocks)) s block r tidy new e;
  }

module _ {S : Type 0} ⦃x : External⦄ (net : Network S) where
  -- Every message that is handled to its end keeps a node tidy: the pool is kept under the ids of
  -- its blocks; a block that is noted to wait is in the pool, on the block that it waits for,
  -- neither of them is valid, and it is not invalid; a block of the pool is noted to wait or is on
  -- an invalid block; and no block is valid and invalid. An invalid block stays invalid, and a
  -- block of the pool on an invalid one stays in the pool.
  pub handle-IsTidied :
      (root_fuel : ℕ) (now : Timestamp) (h : HubState S) (m : Message S) (r : Handled S)
      → IsTidy nothing h.chain
      → handle net root_fuel now h m ≡ done r
      → IsTidied nothing h.chain r.state.chain
  handle-IsTidied root_fuel now h m r tidy e =
      subst (Keeps net Tidied Tidied-IsIndifferent h.chain) e
        (handle-Keeps net Tidied Tidied-IsIndifferent root_fuel now h m λ from block same fine new.
          new_block-Tidied h.chain block (unknown-IsNew h.chain (Block.id block) fine new))
        tidy
