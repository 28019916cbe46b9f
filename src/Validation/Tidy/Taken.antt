-- ===== src/Validation/Tidy/Taken.antt =====
-- About src/peerhub.rs: a block is taken out of the pool to be looked at.
use ddcoin.Prelude.{
  ◌≡◌, ◌≢◌, ◌||◌, sym, ap, subst, ◌∙◌, arith, Bool, true, none, some, List, ◌∷◌, inl, inr,
}
use ddcoin.Prelude.Bytes.{bytes_eq}
use ddcoin.HashMap.{get, remove, contains}
use ddcoin.HashMap.Laws.{get-remove_ne, get-remove_self, get-remove_cases}
use ddcoin.Data.{Block, BlockId}
use ddcoin.External.{External}
use ddcoin.Block
use ddcoin.Chain.{ChainState}
use ddcoin.Validation.Tidy.{Waits, IsTidy, Retains}
use ddcoin.Validation.Tidy.Moves.{IsNew}

module _ ⦃x : External⦄ where
  -- A block leaves the pool to be looked at.
  abbrev pub taken : ChainState → BlockId → ChainState
  taken s id = record s { unconfirmed_blocks = remove id s.unconfirmed_blocks }

  -- The ids of the loop, and those of the loops around it.
  abbrev pub pend : List BlockId → (BlockId → Bool) → BlockId → Bool
  pend ids pending k = contains ids k || pending k

  left_over :
      (id : BlockId) (ids : List BlockId) (pending : BlockId → Bool) (k : BlockId)
      → id ≢ k
      → pend (id ∷ ids) pending k ≡ true
      → pend ids pending k ≡ true
  unfolding contains
  left_over id ids pending k ne left = ground arith

  still_left :
      (id : BlockId) (ids : List BlockId) (pending : BlockId → Bool) (k : BlockId)
      → pend ids pending k ≡ true
      → pend (id ∷ ids) pending k ≡ true
  unfolding contains
  still_left id ids pending k left = ground arith

  first_left :
      (id : BlockId) (ids : List BlockId) (pending : BlockId → Bool)
      → pend (id ∷ ids) pending id ≡ true
  unfolding contains
  first_left id ids pending = ground arith

  -- An id whose block is gone from the pool.
  pub skipped-IsTidy :
      (ids : List BlockId) (pending : BlockId → Bool) (s : ChainState) (id : BlockId)
      → IsTidy (pend (id ∷ ids) pending) s
      → get id s.unconfirmed_blocks ≡ none
      → IsTidy (pend ids pending) s
  skipped-IsTidy ids pending s id t gone = record {
    pool_keyed = t.pool_keyed;
    waiting = t.waiting;
    reason = λ k b at. elim (t.reason k b at) [
      | inl w ↦ inl w
      | inr (inl bad) ↦ inr (inl bad)
      | inr (inr left) ↦ inr (
          inr (
            left_over id ids pending k (λ p. cc (ap (λ i. get i s.unconfirmed_blocks) p, at, gone))
              left))
    ];
    disjoint = t.disjoint;
    looked_at = λ k b left at. t.looked_at k b (still_left id ids pending k left) at;
  }

  pub taken-IsTidy :
      (ids : List BlockId) (pending : BlockId → Bool) (s : ChainState) (id : BlockId) (b : Block)
      → IsTidy (pend (id ∷ ids) pending) s
      → get id s.unconfirmed_blocks ≡ some b
      → IsTidy (pend ids pending) (taken s id)
  taken-IsTidy ids pending s id b t at = record {
    pool_keyed = λ k c e. t.pool_keyed k c (get-remove_cases id k c s.unconfirmed_blocks e).1;
    waiting = λ p k w.
        let i = t.waiting p k w in
        record {
          block = i.block;
          pooled =
              get-remove_ne id k s.unconfirmed_blocks (λ same.
                (t.looked_at id b (first_left id ids pending) at).not_waiting p
                  (subst (Waits s.next_blocks p) (sym same) w))
              ∙ i.pooled;
          below = i.below;
          missing = i.missing;
          not_valid = i.not_valid;
          not_invalid = i.not_invalid;
        };
    reason = λ k c e.
        let (ne, old) = get-remove_cases id k c s.unconfirmed_blocks e in
        elim (t.reason k c old) [
          | inl w ↦ inl w
          | inr (inl bad) ↦ inr (inl bad)
          | inr (inr left) ↦ inr (inr (left_over id ids pending k ne left))
        ];
    disjoint = t.disjoint;
    looked_at = λ k c left e.
        t.looked_at k c (still_left id ids pending k left)
          (get-remove_cases id k c s.unconfirmed_blocks e).1;
  }

  -- The block is new then, and its predecessor is valid.
  pub taken-IsNew :
      (ids : List BlockId) (pending : BlockId → Bool) (s : ChainState) (id : BlockId) (b : Block)
      → IsTidy (pend (id ∷ ids) pending) s
      → get id s.unconfirmed_blocks ≡ some b
      → IsNew (taken s id) (Block.id b)
        × ((prev : Block) × (get b.inner.prev_id s.valid_blocks ≡ some prev))
  taken-IsNew ids pending s id b t at =
      let i = t.looked_at id b (first_left id ids pending) at in
      let key : Block.id b ≡ id = t.pool_keyed id b at in
      (
        record {
          not_valid = rw key i.not_valid;
          not_pooled = rw key (get-remove_self id s.unconfirmed_blocks);
          not_invalid = rw key i.not_invalid;
        },
        (i.prev, i.prev_at),
      )

  pub taken-Retains :
      (ids : List BlockId) (pending : BlockId → Bool) (s : ChainState) (id : BlockId) (b : Block)
      → IsTidy (pend (id ∷ ids) pending) s
      → get id s.unconfirmed_blocks ≡ some b
      → Retains s (taken s id)
  taken-Retains ids pending s id b t at = record {
    invalid_stays = λ k bad. bad;
    orphan_stays = λ k c e bad.
        get-remove_ne id k s.unconfirmed_blocks (λ same.
          let own : get k s.unconfirmed_blocks ≡ some b =
            ap (λ i. get i s.unconfirmed_blocks) (sym same) ∙ at in
          let (_, (prev, prev_at)) = taken-IsNew ids pending s id b t at in
          let one : b ≡ c = cc (own, e) in
          cc (
            prev_at,
            ap (λ (d : Block). get d.inner.prev_id s.valid_blocks) one,
            t.disjoint c.inner.prev_id bad,
          ))
        ∙ e;
  }
