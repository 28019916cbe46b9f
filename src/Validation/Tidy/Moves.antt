-- ===== src/Validation/Tidy/Moves.antt =====
-- About src/peerhub.rs: a block that joins the pool, is taken out of it, or becomes valid.
use ddcoin.Prelude.{◌≡◌, ◌≢◌, sym, ap, subst, ◌∙◌, true, false, none, List, inl, inr, ◌⊎◌}
use ddcoin.Prelude.Bytes.{bytes_eq}
use ddcoin.HashMap.{get, insert, contains, set_insert}
use ddcoin.HashMap.Laws.{
  get-insert_cases, get-insert_fresh, get-insert_self, get-insert_ne, contains-set_insert_cases,
  contains-set_insert_kept, contains-set_insert_self,
}
use ddcoin.Data.{Block, BlockId}
use ddcoin.External.{External}
use ddcoin.Block
use ddcoin.Chain.{ChainState}
use ddcoin.Validation.{children, postpone}
use ddcoin.Validation.Tidy.{NextBlocks, Waits, IsTidy, nothing, Retains}

children-insert_self :
    (q : BlockId) (ids : List BlockId) (next : NextBlocks) → children q (insert q ids next) ≡ ids
children-insert_self q ids next = rw (get-insert_self q ids next, children)

children-insert_ne :
    (q p : BlockId) (ids : List BlockId) (next : NextBlocks)
    → q ≢ p
    → children p (insert q ids next) ≡ children p next
children-insert_ne q p ids next ne = rw (get-insert_ne q p ids next ne, children)

-- After a block is noted to wait, what waits is that block or waited before.
Waits-insert :
    (q id p k : BlockId) (next : NextBlocks)
    → Waits (insert q (set_insert id (children q next)) next) p k
    → ((q ≡ p) × (id ≡ k)) ⊎ Waits next p k
Waits-insert q id p k next w = elim (bytes_eq.discrete q p) [
  | yes same ↦
      let at : contains (set_insert id (children q next)) k ≡ true =
        ap (λ ids. contains ids k)
          (sym (children-insert_self q (set_insert id (children q next)) next))
        ∙ subst (λ r. Waits (insert q (set_insert id (children q next)) next) r k) (sym same) w in
      elim (contains-set_insert_cases id k (children q next) at) [
        | inl own ↦ inl (same, own)
        | inr old ↦ inr (subst (λ r. Waits next r k) same old)
      ]
  | no ne ↦ inr (
      ap (λ ids. contains ids k)
        (sym (children-insert_ne q p (set_insert id (children q next)) next ne))
      ∙ w)
]

Waits-insert_kept :
    (q id p k : BlockId) (next : NextBlocks)
    → Waits next p k
    → Waits (insert q (set_insert id (children q next)) next) p k
Waits-insert_kept q id p k next w = elim (bytes_eq.discrete q p) [
  | yes same ↦
      subst (λ r. Waits (insert q (set_insert id (children q next)) next) r k) same
        (ap (λ ids. contains ids k) (children-insert_self q (set_insert id (children q next)) next)
          ∙ contains-set_insert_kept id k (children q next)
              (subst (λ r. Waits next r k) (sym same) w))
  | no ne ↦
      ap (λ ids. contains ids k) (children-insert_ne q p (set_insert id (children q next)) next ne)
      ∙ w
]

Waits-insert_self :
    (q id : BlockId) (next : NextBlocks)
    → Waits (insert q (set_insert id (children q next)) next) q id
Waits-insert_self q id next =
    ap (λ ids. contains ids id) (children-insert_self q (set_insert id (children q next)) next)
    ∙ contains-set_insert_self id (children q next)

module _ ⦃x : External⦄ where
  -- The block is unknown.
  pub record IsNew (s : ChainState) (id : BlockId) : Type 0 where
    pub not_valid : get id s.valid_blocks ≡ none
    pub not_pooled : get id s.unconfirmed_blocks ≡ none
    pub not_invalid : contains s.invalid_blocks id ≡ false

  pub postpone-IsTidy :
      (s : ChainState) (block : Block)
      → IsTidy nothing s
      → IsNew s (Block.id block)
      → get block.inner.prev_id s.valid_blocks ≡ none
      → IsTidy nothing (postpone s block)
  unfolding postpone
  postpone-IsTidy s block t new missing = record {
    pool_keyed = λ k b at.
        elim (get-insert_cases (Block.id block) k block b s.unconfirmed_blocks at) [
          | inl (p, q) ↦ ap Block.id (sym q) ∙ p
          | inr old ↦ t.pool_keyed k b old
        ];
    waiting = λ p k w.
        elim (Waits-insert block.inner.prev_id (Block.id block) p k s.next_blocks w) [
          | inl (q, same) ↦ record {
            block = block;
            pooled = rw (← same) (get-insert_self (Block.id block) block s.unconfirmed_blocks);
            below = q;
            missing = rw (← q) missing;
            not_valid = rw (← same) new.not_valid;
            not_invalid = rw (← same) new.not_invalid;
          }
          | inr old ↦
              let i = t.waiting p k old in
              record {
                block = i.block;
                pooled =
                    get-insert_fresh (Block.id block) k block i.block s.unconfirmed_blocks
                      new.not_pooled i.pooled;
                below = i.below;
                missing = i.missing;
                not_valid = i.not_valid;
                not_invalid = i.not_invalid;
              }
        ];
    reason = λ k b at. elim (get-insert_cases (Block.id block) k block b s.unconfirmed_blocks at) [
      | inl (p, q) ↦
          inl (rw (← p, ← q) (Waits-insert_self block.inner.prev_id (Block.id block) s.next_blocks))
      | inr old ↦ elim (t.reason k b old) [
        | inl w ↦ inl (
            Waits-insert_kept block.inner.prev_id (Block.id block) b.inner.prev_id k s.next_blocks
              w)
        | inr (inl bad) ↦ inr (inl bad)
        | inr (inr left) ↦ inr (inr left)
      ]
    ];
    disjoint = t.disjoint;
    looked_at = λ k b left at. cc left;
  }

  pub postpone-Retains :
      (s : ChainState) (block : Block) → IsNew s (Block.id block) → Retains s (postpone s block)
  unfolding postpone
  postpone-Retains s block new = record {
    invalid_stays = λ k bad. bad;
    orphan_stays = λ k b at bad.
        get-insert_fresh (Block.id block) k block b s.unconfirmed_blocks new.not_pooled at;
  }
