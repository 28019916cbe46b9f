-- ===== src/Validation/Tidy/Rejects.antt =====
-- About src/peerhub.rs, `add_invalid_block`: the blocks that wait for an invalid one become invalid.
use ddcoin.Prelude.{
  ℕ, zero, suc, ◌≡◌, sym, ap, subst, ◌≢◌, ◌∙◌, arith, Bool, true, length, none, some, List, [], ◌∷◌,
  inl, inr,
}
use ddcoin.Prelude.Outcome.{Outcome, done, >>=-eq-done}
use ddcoin.Prelude.Bytes.{bytes_eq}
use ddcoin.HashMap.{get, remove, contains, set_insert}
use ddcoin.HashMap.Laws.{
  get-remove, get-remove_ne, contains-head, contains-set_insert_ne, contains-set_insert_self,
  contains-set_insert_kept, contains-set_insert_cases,
}
use ddcoin.Data.{Block, BlockId}
use ddcoin.External.{External}
use ddcoin.Chain.{BlockMap, ChainState}
use ddcoin.Validation.{Rejected, children, add_invalid_all, add_invalid_block, reject}
use ddcoin.Validation.Tidy.{NextBlocks, Waits, IsTidyIn, IsTidy, Retains}

-- What waits after a removal waited before, for another block.
pub Waits-remove :
    (id p k : BlockId) (next : NextBlocks) → Waits (remove id next) p k → (id ≢ p) × Waits next p k
unfolding contains
Waits-remove id p k next w =
    (λ q. ground (arith, get-remove id p next), ground (arith, get-remove id p next))

pub Waits-remove_ne :
    (id p k : BlockId) (next : NextBlocks) → id ≢ p → Waits next p k → Waits (remove id next) p k
unfolding contains
Waits-remove_ne id p k next ne w = ground (arith, get-remove_ne id p next ne)

module _ ⦃x : External⦄ (valid pool : BlockMap) (pending : BlockId → Bool) where
  abbrev Tidy : Rejected → Type 0
  Tidy r = IsTidyIn valid pool r.invalid r.next pending

  -- A block that may become invalid.
  record IsDoomed (r : Rejected) (id : BlockId) : Type 0 where
    not_valid : get id valid ≡ none
    not_waiting : (p : BlockId) → ¬ (Waits r.next p id)
    not_pending : (b : Block) → pending id ≡ true → ¬ (get id pool ≡ some b)

  record IsRejected (r r' : Rejected) : Type 0 where
    tidy : Tidy r'
    fewer : (p k : BlockId) → Waits r'.next p k → Waits r.next p k
    more : (k : BlockId) → contains r.invalid k ≡ true → contains r'.invalid k ≡ true

  IsDoomed-IsRejected :
      (r r' : Rejected) (id : BlockId) → IsRejected r r' → IsDoomed r id → IsDoomed r' id
  IsDoomed-IsRejected r r' id s d = record {
    not_valid = d.not_valid;
    not_waiting = λ p w. d.not_waiting p (s.fewer p id w);
    not_pending = d.not_pending;
  }

  IsRejected-trans : (r s t : Rejected) → IsRejected r s → IsRejected s t → IsRejected r t
  IsRejected-trans r s t a b = record {
    tidy = b.tidy;
    fewer = λ p k w. a.fewer p k (b.fewer p k w);
    more = λ k e. b.more k (a.more k e);
  }

  abbrev without : Rejected → BlockId → Rejected
  without r id = record { invalid = set_insert id r.invalid; next = remove id r.next }

  without-IsRejected :
      (r : Rejected) (id : BlockId) → Tidy r → IsDoomed r id → IsRejected r (without r id)
  without-IsRejected r id t d = record {
    tidy = record {
      pool_keyed = t.pool_keyed;
      waiting = λ p k w.
          let (ne, w') = Waits-remove id p k r.next w in
          let q = t.waiting p k w' in
          record {
            block = q.block;
            pooled = q.pooled;
            below = q.below;
            missing = q.missing;
            not_valid = q.not_valid;
            not_invalid = contains-set_insert_ne id k r.invalid (apart k p w') ∙ q.not_invalid;
          };
      reason = λ k b at. elim (t.reason k b at) [
        | inl w ↦ elim (bytes_eq.discrete id b.inner.prev_id) [
          | yes p ↦ inr (inl (rw (← p) (contains-set_insert_self id r.invalid)))
          | no ne ↦ inl (Waits-remove_ne id b.inner.prev_id k r.next ne w)
        ]
        | inr (inl bad) ↦ inr (inl (contains-set_insert_kept id b.inner.prev_id r.invalid bad))
        | inr (inr left) ↦ inr (inr left)
      ];
      disjoint = λ k bad. elim (contains-set_insert_cases id k r.invalid bad) [
        | inl p ↦ rw (← p) d.not_valid
        | inr old ↦ t.disjoint k old
      ];
      looked_at = λ k b left at.
          let q = t.looked_at k b left at in
          record {
            prev = q.prev;
            prev_at = q.prev_at;
            not_valid = q.not_valid;
            not_invalid =
                contains-set_insert_ne id k r.invalid (λ p. d.not_pending b (rw p left) (rw p at))
                ∙ q.not_invalid;
            not_waiting = λ p w. q.not_waiting p (Waits-remove id p k r.next w).1;
          };
    };
    fewer = λ p k w. (Waits-remove id p k r.next w).1;
    more = λ k bad. contains-set_insert_kept id k r.invalid bad;
  }
    where
      apart : (k p : BlockId) → Waits r.next p k → id ≢ k
      apart k p w q = d.not_waiting p (subst (Waits r.next p) (sym q) w)

  child-IsDoomed :
      (r : Rejected) (id k : BlockId) → Tidy r → Waits r.next id k → IsDoomed (without r id) k
  child-IsDoomed r id k t w =
      let q = t.waiting id k w in
      record {
        not_valid = q.not_valid;
        not_waiting = λ p w'.
            let (ne, old) = Waits-remove id p k r.next w' in
            let q' = t.waiting p k old in
            let same : q.block ≡ q'.block = cc (q.pooled, q'.pooled) in
            ne (sym q.below ∙ ap (λ (b : Block). b.inner.prev_id) same ∙ q'.below);
        not_pending = λ b left at. (t.looked_at k b left at).not_waiting id w;
      }

  -- The contract of `add_invalid_block`, and of its loop over waiting ids.
  abbrev Rejects : (Rejected → BlockId → Outcome Rejected) → Type 0
  Rejects add =
      (r : Rejected) (id : BlockId) (r' : Rejected)
      → Tidy r
      → IsDoomed r id
      → add r id ≡ done r'
      → IsRejected r r'

  IsRejected-refl : (r : Rejected) → Tidy r → IsRejected r r
  IsRejected-refl r t = record { tidy = t; fewer = λ p k w. w; more = λ k e. e }

  add_invalid_all-IsRejected :
      (add : Rejected → BlockId → Outcome Rejected)
      → Rejects add
      → (ids : List BlockId) (r r' : Rejected) → Tidy r
      → ((k : BlockId) → contains ids k ≡ true → IsDoomed r k)
      → add_invalid_all add r ids ≡ done r'
      → IsRejected r r'
  unfolding add_invalid_all contains
  add_invalid_all-IsRejected add one [] r r' t all e =
      subst (IsRejected r) (cc e) (IsRejected-refl r t)
  add_invalid_all-IsRejected add one (id ∷ ids) r r' t all e =
      let (q, f, g) = >>=-eq-done (add r id) _ e in
      let first = one r id q t (all id (contains-head id ids)) f in
      IsRejected-trans r q r' first (
        add_invalid_all-IsRejected add one ids q r' first.tidy
          (λ k h. IsDoomed-IsRejected r q k first (all k (ground arith))) g)

  add_invalid_block-IsRejected : (fuel : ℕ) → Rejects (add_invalid_block fuel)
  unfolding add_invalid_block
  add_invalid_block-IsRejected zero r id r' t d e = cc e
  add_invalid_block-IsRejected (suc fuel) r id r' t d e =
      let first = without-IsRejected r id t d in
      IsRejected-trans r (without r id) r' first (
        add_invalid_all-IsRejected (add_invalid_block fuel) (add_invalid_block-IsRejected fuel)
          (children id r.next) (without r id) r' first.tidy (λ k w. child-IsDoomed r id k t w) e)

module _ ⦃x : External⦄ where
  -- A block that is neither valid nor in the pool is rejected.
  pub reject-IsTidy :
      (pending : BlockId → Bool) (s : ChainState) (id : BlockId) (t : ChainState)
      → IsTidy pending s
      → get id s.valid_blocks ≡ none
      → get id s.unconfirmed_blocks ≡ none
      → reject s id ≡ done t
      → IsTidy pending t × Retains s t
  unfolding reject
  reject-IsTidy pending s id t tidy not_valid not_pooled e =
      let r : Rejected = record { invalid = s.invalid_blocks; next = s.next_blocks } in
      let fuel = suc (length s.next_blocks) in
      let (q, f, g) = >>=-eq-done (add_invalid_block fuel r id) _ e in
      let rejected =
        add_invalid_block-IsRejected s.valid_blocks s.unconfirmed_blocks pending fuel r id q tidy
          (record {
            not_valid = not_valid;
            not_waiting = λ p w. cc ((tidy.waiting p id w).pooled, not_pooled);
            not_pending = λ b left at. cc (at, not_pooled);
          })
          f in
      let same : record s { invalid_blocks = q.invalid; next_blocks = q.next } ≡ t = cc g in
      subst (λ u. IsTidy pending u × Retains s u) same
        (rejected.tidy, record { invalid_stays = rejected.more; orphan_stays = λ k b at bad. at })
