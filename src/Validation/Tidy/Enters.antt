-- ===== src/Validation/Tidy/Enters.antt =====
-- About src/peerhub.rs: a new block becomes valid, and those that wait for it are to be looked at.
use ddcoin.Prelude.{◌≡◌, ◌≢◌, sym, ap, subst, ◌∙◌, arith, Bool, true, some, inl, inr, ◌⊎◌}
use ddcoin.Prelude.Bytes.{bytes_eq}
use ddcoin.HashMap.{get, insert, remove}
use ddcoin.HashMap.Laws.{get-insert_fresh, get-insert_self, get-insert_ne}
use ddcoin.Data.{Block, BlockId}
use ddcoin.External.{External}
use ddcoin.Block
use ddcoin.Chain.{ChainState}
use ddcoin.Validation.{children}
use ddcoin.Validation.Tidy.{Waits, IsPending, IsTidyIn, IsTidy}
use ddcoin.Validation.Tidy.Rejects.{Waits-remove, Waits-remove_ne}
use ddcoin.Validation.Tidy.Moves.{IsNew}
use ddcoin.Validation.Tidy.Taken.{pend}

module _ ⦃x : External⦄ (s : ChainState) (block : Block) (pending : BlockId → Bool)
    (t : IsTidy pending s) (new : IsNew s (Block.id block)) where
  abbrev id : BlockId
  id = Block.id block

  here :
      (k : BlockId) → Waits s.next_blocks id k → pend (children id s.next_blocks) pending k ≡ true
  here k w = ground (arith, w)

  around : (k : BlockId) → pending k ≡ true → pend (children id s.next_blocks) pending k ≡ true
  around k left = ground (arith, left)

  sides :
      (k : BlockId)
      → pend (children id s.next_blocks) pending k ≡ true
      → Waits s.next_blocks id k ⊎ (pending k ≡ true)
  sides k left = ground (arith, left)

  other : (k : BlockId) (b : Block) → get k s.unconfirmed_blocks ≡ some b → id ≢ k
  other k b at same = cc (same, new.not_pooled, at)

  found :
      (p : BlockId) (prev : Block)
      → get p s.valid_blocks ≡ some prev
      → (q : Block) × (get p (insert id block s.valid_blocks) ≡ some q)
  found p prev at = (prev, get-insert_fresh id p block prev s.valid_blocks new.not_valid at)

  child :
      (k : BlockId) (b : Block)
      → Waits s.next_blocks id k
      → get k s.unconfirmed_blocks ≡ some b
      → IsPending (insert id block s.valid_blocks) s.invalid_blocks (remove id s.next_blocks) k b
  child k b w at =
      let i = t.waiting id k w in
      let one : i.block ≡ b = cc (i.pooled, at) in
      let below : b.inner.prev_id ≡ id = ap (λ (c : Block). c.inner.prev_id) (sym one) ∙ i.below in
      record {
        prev = block;
        prev_at = rw below (get-insert_self id block s.valid_blocks);
        not_valid = get-insert_ne id k block s.valid_blocks (other k b at) ∙ i.not_valid;
        not_invalid = i.not_invalid;
        not_waiting = λ p w'.
            let (ne, old) = Waits-remove id p k s.next_blocks w' in
            let j = t.waiting p k old in
            let two : j.block ≡ b = cc (j.pooled, at) in
            ne (sym below ∙ ap (λ (c : Block). c.inner.prev_id) (sym two) ∙ j.below);
      }

  -- The fields that matter, when the block is in.
  pub IsTidyIn-enter :
      IsTidyIn
        (insert id block s.valid_blocks)
        s.unconfirmed_blocks
        s.invalid_blocks
        (remove id s.next_blocks)
        (pend (children id s.next_blocks) pending)
  IsTidyIn-enter = record {
    pool_keyed = t.pool_keyed;
    waiting = λ p k w.
        let (ne, old) = Waits-remove id p k s.next_blocks w in
        let i = t.waiting p k old in
        record {
          block = i.block;
          pooled = i.pooled;
          below = i.below;
          missing = get-insert_ne id p block s.valid_blocks ne ∙ i.missing;
          not_valid =
              get-insert_ne id k block s.valid_blocks (other k i.block i.pooled) ∙ i.not_valid;
          not_invalid = i.not_invalid;
        };
    reason = λ k b at. elim (t.reason k b at) [
      | inl w ↦ elim (bytes_eq.discrete id b.inner.prev_id) [
        | yes same ↦ inr (inr (here k (subst (λ p. Waits s.next_blocks p k) (sym same) w)))
        | no ne ↦ inl (Waits-remove_ne id b.inner.prev_id k s.next_blocks ne w)
      ]
      | inr (inl bad) ↦ inr (inl bad)
      | inr (inr left) ↦ inr (inr (around k left))
    ];
    disjoint = λ k bad.
        get-insert_ne id k block s.valid_blocks (λ same. cc (same, new.not_invalid, bad))
        ∙ t.disjoint k bad;
    looked_at = λ k b left at. elim (sides k left) [
      | inl w ↦ child k b w at
      | inr old ↦
          let i = t.looked_at k b old at in
          let (prev, prev_at) = found b.inner.prev_id i.prev i.prev_at in
          record {
            prev = prev;
            prev_at = prev_at;
            not_valid = get-insert_ne id k block s.valid_blocks (other k b at) ∙ i.not_valid;
            not_invalid = i.not_invalid;
            not_waiting = λ p w. i.not_waiting p (Waits-remove id p k s.next_blocks w).1;
          }
    ];
  }
