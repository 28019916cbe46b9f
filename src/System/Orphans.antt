-- ===== src/System/Orphans.antt =====
-- About src/peerhub.rs: a block whose predecessor was found invalid.
use ddcoin.Prelude.{ℕ, ◌≡◌, refl, sym, ap, subst, ◌∙◌, ltb, true, false, length, [], Option, some}
use ddcoin.Prelude.Outcome.{done}
use ddcoin.Prelude.Bytes.{bytes_eq}
use ddcoin.HashMap.{get, insert, contains}
use ddcoin.HashMap.Laws.{get-insert_self}
use ddcoin.Data.{Block, Timestamp}
use ddcoin.External.{External}
use ddcoin.Block
use ddcoin.Chain.{knows_block}
use ddcoin.Validation.{postpone}
use ddcoin.Validation.Tidy.{IsTidy, nothing}
use ddcoin.Validation.Tidy.Validates.{missing-postpones}
use ddcoin.Hub
use ddcoin.Hub.{HubState, Handled}
use ddcoin.Hub.Messages.{NodeId, Network, Message}
use ddcoin.Hub.Handle.{handle}
use ddcoin.Hub.Changes.{IsIndifferent, Keeps, after_validation-Keeps}
use ddcoin.Hub.Tidy.{handle-IsTidied}
use ddcoin.System.{System}
use ddcoin.System.Runs.{Runs}
use ddcoin.System.Settled.{Runs-IsTidied}

-- The block is new to the node and not from the future, and its predecessor is an invalid block.
pub record IsOrphan {S : Type 0} ⦃x : External⦄ (now : Timestamp) (h : HubState S) (block : Block)
    : Type 0 where
  pub fine : contains h.invalid_blocks (Block.id block) ≡ false
  pub new : knows_block h.chain (Block.id block) ≡ false
  pub in_time : ltb now block.inner.timestamp ≡ false
  pub below : contains h.invalid_blocks block.inner.prev_id ≡ true

module _ {S : Type 0} ⦃x : External⦄ (net : Network S) where
  same_pool : IsIndifferent (λ s t. t.unconfirmed_blocks ≡ s.unconfirmed_blocks)
  same_pool = record { same = λ s. refl; pooled = λ s pool. refl; cashed = λ s cash. refl }

  postponed-pool :
      (root_fuel : ℕ) (h : HubState S) (from : Option NodeId) (block : Block) (r : Handled S)
      → Hub.after_validation net root_fuel
          (record h { chain = postpone h.chain block })
          from
          block
          []
        ≡ done r
      → get (Block.id block) r.state.unconfirmed_blocks ≡ some block
  unfolding postpone
  postponed-pool root_fuel h from block r e =
      let same : r.state.unconfirmed_blocks ≡ insert (Block.id block) block h.unconfirmed_blocks =
        subst
          (Keeps net (λ s t. t.unconfirmed_blocks ≡ s.unconfirmed_blocks) same_pool
            (postpone h.chain block))
          e
          (after_validation-Keeps net (λ s t. t.unconfirmed_blocks ≡ s.unconfirmed_blocks) same_pool
            root_fuel (postpone h.chain block) (record h { chain = postpone h.chain block }) from
            block [] refl) in
      ap (get (Block.id block)) same ∙ get-insert_self (Block.id block) block h.unconfirmed_blocks

  orphan-waits :
      (root_fuel : ℕ) (now : Timestamp) (h : HubState S) (from : Option NodeId) (block : Block)
      → IsTidy nothing h.chain
      → IsOrphan now h block
      → handle net root_fuel now h (Message.new_block from block)
        ≡ Hub.after_validation net root_fuel
            (record h { chain = postpone h.chain block })
            from
            block
            []
  unfolding handle Hub.new_block
  orphan-waits root_fuel now h from block tidy orphan =
      let missing = tidy.disjoint block.inner.prev_id orphan.below in
      rw
        (
          orphan.fine,
          orphan.new,
          orphan.in_time,
          missing-postpones (length h.unconfirmed_blocks) h.chain block missing,
        )
        refl

  -- In a tidy node, a block that is new, not from the future and on an invalid block is not
  -- rejected: when it has been handled it is in the pool, and it is still there after any steps of
  -- the actor and its users.
  pub orphan-stays :
      (root_fuel : ℕ) (now : Timestamp) (h : HubState S) (from : Option NodeId) (block : Block)
      (r : Handled S) (s t : System S)
      → IsTidy nothing h.chain
      → IsOrphan now h block
      → handle net root_fuel now h (Message.new_block from block) ≡ done r
      → s.hub ≡ r.state
      → Runs net s t
      → get (Block.id block) t.hub.unconfirmed_blocks ≡ some block
  orphan-stays root_fuel now h from block r s t tidy orphan e at runs =
      let waits = sym (orphan-waits root_fuel now h from block tidy orphan) ∙ e in
      let (tidy₁, kept₁) =
        handle-IsTidied net root_fuel now h (Message.new_block from block) r tidy e in
      let (tidy₂, kept₂) =
        Runs-IsTidied net s t runs
          (subst (λ (k : HubState S). IsTidy nothing k.chain) (sym at) tidy₁) in
      kept₂.orphan_stays (Block.id block) block
        (rw at (postponed-pool root_fuel h from block r waits))
        (rw at (kept₁.invalid_stays block.inner.prev_id orphan.below))
