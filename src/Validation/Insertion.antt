-- ===== src/Validation/Insertion.antt =====
-- About src/peerhub.rs: `add_valid_block`, where the block enters the store.
use ddcoin.Prelude.{
  ◌≤◌, ◌<◌, ◌≡◌, refl, sym, ap, ◌∙◌, ltb, ltb→lt, ltb_false→le, if◌then◌else◌, none, some, inl, inr,
  Bool-cases, arith,
}
use ddcoin.Prelude.Outcome.{done, Returns}
use ddcoin.Prelude.Bytes.{bytes_eq}
use ddcoin.HashMap.{get, insert}
use ddcoin.HashMap.Laws.{get-insert_cases, get-insert_fresh, get-insert_self, get-insert_ne}
use ddcoin.Data.{Block, BlockId}
use ddcoin.External.{External}
use ddcoin.Block
use ddcoin.Block.{zero_hash}
use ddcoin.Chain.{ChainState, BlockMap, leading_block_seqno}
use ddcoin.Chain.Linked.{IsLinked, Inv, HasPrev}
use ddcoin.Validation.{enter, retain_uncollected}
use ddcoin.Validation.Extends.{Extends, IsFresh}

module _ ⦃x : External⦄ (s : ChainState) (block : Block) (v : Inv s) (fresh : IsFresh s block) where
  -- The blocks with the new one.
  abbrev valid' : BlockMap
  valid' = insert (Block.id block) block s.valid_blocks

  kept : (k : BlockId) (b : Block) → get k s.valid_blocks ≡ some b → get k valid' ≡ some b
  kept k b h = get-insert_fresh (Block.id block) k block b s.valid_blocks fresh.not_valid h

  HasPrev-kept : {b : Block} → HasPrev s.valid_blocks b → HasPrev valid' b
  HasPrev-kept {b} p = record {
    prev = p.prev;
    prev_at = kept b.inner.prev_id p.prev p.prev_at;
    prev_seqno = p.prev_seqno;
    prev_time = p.prev_time;
  }

  no_zero' : get zero_hash valid' ≡ none
  no_zero' =
      get-insert_ne (Block.id block) zero_hash block s.valid_blocks fresh.admissible.id_nonzero
      ∙ v.no_zero

  pool_fresh' :
      (k : BlockId) (b : Block) → get k s.unconfirmed_blocks ≡ some b → get k valid' ≡ none
  pool_fresh' k b h =
      get-insert_ne (Block.id block) k block s.valid_blocks
        (λ p. ground (arith, fresh.not_pooled, h))
      ∙ v.pool_fresh k b h

  module _ (has_prev : HasPrev s.valid_blocks block) where
    -- The fields, whichever block leads.
    IsLinked-with :
        (leading : BlockId) (leader : Block)
        → get leading valid' ≡ some leader
        → ((k : BlockId) (b : Block) → get k valid' ≡ some b → b.inner.seqno ≤ leader.inner.seqno)
        → IsLinked s.genesis_id valid' s.unconfirmed_blocks leading s.cash_set.block_id
    IsLinked-with leading leader at max = record {
      root = v.root;
      root_at = kept s.genesis_id v.root v.root_at;
      root_seqno = v.root_seqno;
      root_prev = v.root_prev;
      no_zero = no_zero';
      keyed = λ k b h. elim (get-insert_cases (Block.id block) k block b s.valid_blocks h) [
        | inl (p, q) ↦ ap Block.id (sym q) ∙ p
        | inr old ↦ v.keyed k b old
      ];
      small = λ k b h. elim (get-insert_cases (Block.id block) k block b s.valid_blocks h) [
        | inl (p, q) ↦ rw (← q) fresh.admissible.seqno_small
        | inr old ↦ v.small k b old
      ];
      linked = λ k b h ne. elim (get-insert_cases (Block.id block) k block b s.valid_blocks h) [
        | inl (p, q) ↦ rw (← q) (HasPrev-kept has_prev)
        | inr old ↦ HasPrev-kept (v.linked k b old ne)
      ];
      leader = leader;
      leader_at = at;
      leader_max = max;
      pool_keyed = v.pool_keyed;
      pool_admissible = v.pool_admissible;
      pool_fresh = pool_fresh';
      cash_at_genesis = v.cash_at_genesis;
    }

    leads_max :
        v.leader.inner.seqno < block.inner.seqno
        → (k : BlockId) (b : Block) → get k valid' ≡ some b
        → b.inner.seqno ≤ block.inner.seqno
    leads_max h k b at = elim (get-insert_cases (Block.id block) k block b s.valid_blocks at) [
      | inl (p, q) ↦ rw (← q) (omega arith)
      | inr old ↦ omega (arith, v.leader_max k b old)
    ]

    follows_max :
        block.inner.seqno ≤ v.leader.inner.seqno
        → (k : BlockId) (b : Block) → get k valid' ≡ some b
        → b.inner.seqno ≤ v.leader.inner.seqno
    follows_max h k b at = elim (get-insert_cases (Block.id block) k block b s.valid_blocks at) [
      | inl (p, q) ↦ rw (← q) h
      | inr old ↦ v.leader_max k b old
    ]

    unfoldable pub leading' : BlockId
    leading' =
        if ltb v.leader.inner.seqno block.inner.seqno then Block.id block else s.leading_block

    linked' : IsLinked s.genesis_id valid' s.unconfirmed_blocks leading' s.cash_set.block_id
    unfolding leading'
    linked' = elim (Bool-cases (ltb v.leader.inner.seqno block.inner.seqno)) [
      | inl higher ↦ rw higher (
          IsLinked-with (Block.id block) block
            (get-insert_self (Block.id block) block s.valid_blocks) (leads_max (ltb→lt _ _ higher)))
      | inr lower ↦ rw lower (
          IsLinked-with s.leading_block v.leader (kept s.leading_block v.leader v.leader_at)
            (follows_max (ltb_false→le _ _ lower)))
    ]

    -- What a block that enters has changed.
    pub record IsEntered (t : ChainState) : Type 0 where
      pub inv : Inv t
      pub extends : Extends s t
      pub same_pool : t.unconfirmed_blocks ≡ s.unconfirmed_blocks
      pub in_valid : get (Block.id block) t.valid_blocks ≡ some block
      pub leads : t.leading_block ≡ leading'

    leading_block_seqno-kept :
        (t : ChainState)
        → t.valid_blocks ≡ valid'
        → t.leading_block ≡ s.leading_block
        → leading_block_seqno t ≡ done v.leader.inner.seqno
    unfolding leading_block_seqno
    leading_block_seqno-kept t e f = rw (e, f, kept s.leading_block v.leader v.leader_at)

    entered : ChainState
    entered = record s {
      mempool = retain_uncollected block.inner.transactions s.mempool;
      valid_blocks = valid';
      leading_block = leading';
    }

    -- An admissible, new block whose predecessor is valid, one lower and no later, enters a linked
    -- store without a panic; the store stays linked and keeps its valid blocks and its pool, the
    -- block is found under its id, and it is the leading block exactly if it is higher than the
    -- one before.
    pub enter-IsEntered : Returns IsEntered (enter s block)
    unfolding enter leading' entered
    enter-IsEntered =
        let before = record s {
          mempool = retain_uncollected block.inner.transactions s.mempool;
          valid_blocks = valid';
        } in
        (
          entered,
          rw (leading_block_seqno-kept before refl refl),
          record {
            inv = linked';
            extends = record { same_config = refl; same_genesis = refl; keeps_valid = kept };
            same_pool = refl;
            in_valid = get-insert_self (Block.id block) block s.valid_blocks;
            leads = refl;
          },
        )
