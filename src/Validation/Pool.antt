-- ===== src/Validation/Pool.antt =====
-- Blocks that join and leave the pool of unconfirmed blocks.
use ddcoin.Prelude.{◌≡◌, sym, ap, ◌∙◌, some, inl, inr, arith, []}
use ddcoin.Prelude.Bytes.{bytes_eq}
use ddcoin.HashMap.{get, remove}
use ddcoin.HashMap.Laws.{get-insert_cases, get-remove_self, get-remove-some, length-insert-le}
use ddcoin.Data.{Block, BlockId}
use ddcoin.External.{External}
use ddcoin.Block
use ddcoin.Chain.{ChainState}
use ddcoin.Chain.Linked.{Inv}
use ddcoin.Validation.{postpone}
use ddcoin.Validation.Extends.{Extends-refl, IsFresh, IsStep}

module _ ⦃x : External⦄ where
  -- A block whose predecessor is missing joins the pool.
  pub postpone-IsStep :
      (s : ChainState) (block : Block) → Inv s → IsFresh s block → IsStep 1 s (postpone s block, [])
  unfolding postpone
  postpone-IsStep s block v fresh = record {
    inv = record {
      root = v.root;
      root_at = v.root_at;
      root_seqno = v.root_seqno;
      root_prev = v.root_prev;
      no_zero = v.no_zero;
      keyed = v.keyed;
      small = v.small;
      linked = v.linked;
      leader = v.leader;
      leader_at = v.leader_at;
      leader_max = v.leader_max;
      pool_keyed = λ k b h.
          elim (get-insert_cases (Block.id block) k block b s.unconfirmed_blocks h) [
            | inl (p, q) ↦ ap Block.id (sym q) ∙ p
            | inr old ↦ v.pool_keyed k b old
          ];
      pool_admissible = λ k b h.
          elim (get-insert_cases (Block.id block) k block b s.unconfirmed_blocks h) [
            | inl (p, q) ↦ rw (← q) fresh.admissible
            | inr old ↦ v.pool_admissible k b old
          ];
      pool_fresh = λ k b h.
          elim (get-insert_cases (Block.id block) k block b s.unconfirmed_blocks h) [
            | inl (p, q) ↦ rw (← p) fresh.not_valid
            | inr old ↦ v.pool_fresh k b old
          ];
      cash_at_genesis = v.cash_at_genesis;
    };
    extends = Extends-refl s;
    pool = omega (arith, length-insert-le (Block.id block) block s.unconfirmed_blocks);
    all_valid = tt;
  }

  -- The store stays linked when a block is taken out of the pool, and the block is fresh then.
  pub taken-Inv :
      (s : ChainState) (id : BlockId)
      → Inv s
      → Inv (record s { unconfirmed_blocks = remove id s.unconfirmed_blocks })
  taken-Inv s id v = record {
    root = v.root;
    root_at = v.root_at;
    root_seqno = v.root_seqno;
    root_prev = v.root_prev;
    no_zero = v.no_zero;
    keyed = v.keyed;
    small = v.small;
    linked = v.linked;
    leader = v.leader;
    leader_at = v.leader_at;
    leader_max = v.leader_max;
    pool_keyed = λ k b h. v.pool_keyed k b (get-remove-some id k b s.unconfirmed_blocks h);
    pool_admissible =
        λ k b h. v.pool_admissible k b (get-remove-some id k b s.unconfirmed_blocks h);
    pool_fresh = λ k b h. v.pool_fresh k b (get-remove-some id k b s.unconfirmed_blocks h);
    cash_at_genesis = v.cash_at_genesis;
  }

  pub taken-IsFresh :
      (s : ChainState) (id : BlockId) (b : Block)
      → Inv s
      → get id s.unconfirmed_blocks ≡ some b
      → IsFresh (record s { unconfirmed_blocks = remove id s.unconfirmed_blocks }) b
  taken-IsFresh s id b v h = record {
    admissible = v.pool_admissible id b h;
    not_valid = rw (v.pool_keyed id b h) (v.pool_fresh id b h);
    not_pooled = rw (v.pool_keyed id b h) (get-remove_self id s.unconfirmed_blocks);
  }
