-- ===== src/Validation/Tidy/Validates.antt =====
-- About src/peerhub.rs, `validate_block` and `add_valid_block`: they leave everything tidy.
use ddcoin.Prelude.{
  ℕ, zero, suc, ◌≡◌, ℕ_eq, ltb, sym, subst, ◌∙◌, Bool, true, false, none, some, List, [], ◌∷◌, ◌++◌,
  inl, inr, if◌then◌else◌, Option-cases,
}
use ddcoin.Prelude.Outcome.{Outcome, done, ◌>>=◌, >>=-eq-done}
use ddcoin.Prelude.Bytes.{bytes_eq}
use ddcoin.HashMap.{get, insert, remove, contains}
use ddcoin.Data.{Block, BlockId}
use ddcoin.External.{External}
use ddcoin.Block
use ddcoin.Chain.{ChainState, leading_block_seqno}
use ddcoin.Validation.{
  children, postpone, reject, check_block, enter, retain_uncollected, validate_next,
  add_valid_block, validate_block,
}
use ddcoin.Validation.Tidy.{IsTidy, nothing, Retains, Retains-refl, Retains-trans}
use ddcoin.Validation.Tidy.Rejects.{reject-IsTidy}
use ddcoin.Validation.Tidy.Moves.{IsNew, postpone-IsTidy, postpone-Retains}
use ddcoin.Validation.Tidy.Taken.{
  pend, taken, skipped-IsTidy, taken-IsTidy, taken-IsNew, taken-Retains,
}
use ddcoin.Validation.Tidy.Enters.{IsTidyIn-enter}
use ddcoin.Validation.Tidy.SameBut.{check_block-SameBut}

module _ ⦃x : External⦄ where
  -- What a call of validation promises, if it returns.
  abbrev pub IsTidied : (BlockId → Bool) → ChainState → ChainState → Type 0
  IsTidied pending s t = IsTidy pending t × Retains s t

  IsTidied-trans :
      (pending : BlockId → Bool) (s t u : ChainState)
      → Retains s t
      → IsTidied pending t u
      → IsTidied pending s u
  IsTidied-trans pending s t u kept (tidy, more) = (tidy, Retains-trans s t u kept more)

  -- `validate_block` on a new block whose predecessor is valid, whatever is still to be looked at.
  abbrev Tidies : (ChainState → Block → Outcome (ChainState × List BlockId)) → Type 0
  Tidies validate =
      (pending : BlockId → Bool) (s : ChainState) (block prev : Block)
      (r : ChainState × List BlockId)
      → IsTidy pending s
      → IsNew s (Block.id block)
      → get block.inner.prev_id s.valid_blocks ≡ some prev
      → validate s block ≡ done r
      → IsTidied pending s r.0

  module _ (validate : ChainState → Block → Outcome (ChainState × List BlockId))
      (tidies : Tidies validate) where
    skips :
        (id : BlockId) (ids : List BlockId) (s : ChainState)
        → get id s.unconfirmed_blocks ≡ none
        → validate_next validate s (id ∷ ids) ≡ validate_next validate s ids
    unfolding validate_next
    skips id ids s gone = rw (gone, validate_next)

    takes :
        (id : BlockId) (ids : List BlockId) (s : ChainState) (b : Block)
        → get id s.unconfirmed_blocks ≡ some b
        → validate_next validate s (id ∷ ids) ≡ (
            validate (taken s id) b >>= λ r.
            validate_next validate r.0 ids >>= λ q. done (q.0, r.1 ++ q.1))
    unfolding validate_next
    takes id ids s b at = rw (at, validate_next)

    validate_next-IsTidied :
        (ids : List BlockId) (pending : BlockId → Bool) (s : ChainState)
        (r : ChainState × List BlockId)
        → IsTidy (pend ids pending) s
        → validate_next validate s ids ≡ done r
        → IsTidied pending s r.0
    unfolding validate_next contains
    validate_next-IsTidied [] pending s r t e =
        let same : (s, []) ≡ r = cc e in
        subst (λ (u : ChainState × List BlockId). IsTidied pending s u.0) same (t, Retains-refl s)
    validate_next-IsTidied (id ∷ ids) pending s r t e =
        elim (Option-cases (get id s.unconfirmed_blocks)) [
          | inl gone ↦
              validate_next-IsTidied ids pending s r (skipped-IsTidy ids pending s id t gone)
                (sym (skips id ids s gone) ∙ e)
          | inr (b, at) ↦
              let (r₁, f, g) =
                >>=-eq-done (validate (taken s id) b) _ (sym (takes id ids s b at) ∙ e) in
              let (q, h, j) =
                >>=-eq-done (validate_next validate r₁.0 ids) (λ q. done (q.0, r₁.1 ++ q.1)) g in
              let (new, (prev, prev_at)) = taken-IsNew ids pending s id b t at in
              let (tidy₁, kept₁) =
                tidies (pend ids pending) (taken s id) b prev r₁
                  (taken-IsTidy ids pending s id b t at) new prev_at f in
              let (tidy₂, kept₂) = validate_next-IsTidied ids pending r₁.0 q tidy₁ h in
              let same : (q.0, r₁.1 ++ q.1) ≡ r = cc j in
              subst (λ (u : ChainState × List BlockId). IsTidied pending s u.0) same
                (
                  tidy₂,
                  Retains-trans s (taken s id) q.0 (taken-Retains ids pending s id b t at)
                      (Retains-trans (taken s id) r₁.0 q.0 kept₁ kept₂),
                )
        ]

    -- The block enters, and what waits for it is to be looked at.
    entered-IsTidy :
        (pending : BlockId → Bool) (s : ChainState) (block : Block) (t : ChainState)
        → IsTidy pending s
        → IsNew s (Block.id block)
        → enter s block ≡ done t
        → IsTidy
            (pend (children (Block.id block) t.next_blocks) pending)
            (record t { next_blocks = remove (Block.id block) t.next_blocks })
          × Retains s t
    unfolding enter
    entered-IsTidy pending s block t tidy new e =
        let s' : ChainState = record s {
          mempool = retain_uncollected block.inner.transactions s.mempool;
          valid_blocks = insert (Block.id block) block s.valid_blocks;
        } in
        let (seqno, _, g) = >>=-eq-done (leading_block_seqno s') _ e in
        let same : record s' {
          leading_block = if ltb seqno block.inner.seqno then Block.id block else s'.leading_block;
        }
            ≡ t =
          cc g in
        subst
          (λ (u : ChainState).
            IsTidy (pend (children (Block.id block) u.next_blocks) pending)
              (record u { next_blocks = remove (Block.id block) u.next_blocks })
            × Retains s u)
          same
          (
            IsTidyIn-enter s block pending tidy new,
            record { invalid_stays = λ k bad. bad; orphan_stays = λ k b at bad. at },
          )

    add_valid_block-IsTidied :
        (pending : BlockId → Bool) (s : ChainState) (block : Block) (r : ChainState × List BlockId)
        → IsTidy pending s
        → IsNew s (Block.id block)
        → add_valid_block validate s block ≡ done r
        → IsTidied pending s r.0
    unfolding add_valid_block
    add_valid_block-IsTidied pending s block r tidy new e =
        let (t, f, g) = >>=-eq-done (enter s block) _ e in
        let left = record t { next_blocks = remove (Block.id block) t.next_blocks } in
        let ids = children (Block.id block) t.next_blocks in
        let (q, h, j) =
          >>=-eq-done (validate_next validate left ids) (λ q. done (q.0, Block.id block ∷ q.1)) g in
        let (ready, kept) = entered-IsTidy pending s block t tidy new f in
        let (tidied, more) = validate_next-IsTidied ids pending left q ready h in
        let same : (q.0, Block.id block ∷ q.1) ≡ r = cc j in
        subst (λ (u : ChainState × List BlockId). IsTidied pending s u.0) same
          (tidied, Retains-trans s left q.0 kept more)

  -- The rest of `validate_block` after the checks.
  after_checks-IsTidied :
      (fuel : ℕ) (tidies : Tidies (validate_block fuel)) (pending : BlockId → Bool) (s : ChainState)
      (block : Block) (c : Bool) (r : ChainState × List BlockId)
      → IsTidy pending s
      → IsNew s (Block.id block)
      → (if c
          then add_valid_block (validate_block fuel) s block
          else (reject s (Block.id block) >>= λ s'. done (s', [])))
        ≡ done r
      → IsTidied pending s r.0
  after_checks-IsTidied fuel tidies pending s block true r t new e =
      add_valid_block-IsTidied (validate_block fuel) tidies pending s block r t new e
  after_checks-IsTidied fuel tidies pending s block false r t new e =
      let (s', f, g) = >>=-eq-done (reject s (Block.id block)) (λ u. done (u, [])) e in
      let same : (s', []) ≡ r = cc g in
      subst (λ (u : ChainState × List BlockId). IsTidied pending s u.0) same
        (reject-IsTidy pending s (Block.id block) s' t new.not_valid new.not_pooled f)

  checked_form :
      (fuel : ℕ) (s : ChainState) (block prev : Block)
      → get block.inner.prev_id s.valid_blocks ≡ some prev
      → validate_block (suc fuel) s block ≡ (
          check_block s block prev >>= λ c.
          if c.1
          then add_valid_block (validate_block fuel) c.0 block
          else (reject c.0 (Block.id block) >>= λ s'. done (s', [])))
  unfolding validate_block
  checked_form fuel s block prev at = rw (at, validate_block)

  validate_block-Tidies : (fuel : ℕ) → Tidies (validate_block fuel)
  unfolding validate_block
  validate_block-Tidies zero pending s block prev r t new at e = cc e
  validate_block-Tidies (suc fuel) pending s block prev r t new at e =
      let (c, f, g) =
        >>=-eq-done (check_block s block prev) _ (sym (checked_form fuel s block prev at) ∙ e) in
      let (cash, same) = check_block-SameBut s block prev c f in
      let (tidied, kept) =
        after_checks-IsTidied fuel (validate_block-Tidies fuel) pending c.0 block c.1 r
          (subst (IsTidy pending) (sym same) t)
          (subst (λ (u : ChainState). IsNew u (Block.id block)) (sym same)
            (record {
              not_valid = new.not_valid;
              not_pooled = new.not_pooled;
              not_invalid = new.not_invalid;
            }))
          g in
      (tidied, subst (λ (u : ChainState). Retains u r.0) same kept)

  pub missing-postpones :
      (fuel : ℕ) (s : ChainState) (block : Block)
      → get block.inner.prev_id s.valid_blocks ≡ none
      → validate_block (suc fuel) s block ≡ done (postpone s block, [])
  unfolding validate_block
  missing-postpones fuel s block missing = rw (missing, validate_block)

  -- On a new block, `validate_block` leaves a tidy node tidy, and takes nothing back.
  pub validate_block-IsTidied :
      (fuel : ℕ) (s : ChainState) (block : Block) (r : ChainState × List BlockId)
      → IsTidy nothing s
      → IsNew s (Block.id block)
      → validate_block fuel s block ≡ done r
      → IsTidied nothing s r.0
  unfolding validate_block
  validate_block-IsTidied zero s block r t new e = cc e
  validate_block-IsTidied (suc fuel) s block r t new e =
      elim (Option-cases (get block.inner.prev_id s.valid_blocks)) [
        | inr (prev, at) ↦ validate_block-Tidies (suc fuel) nothing s block prev r t new at e
        | inl missing ↦
            let same : (postpone s block, []) ≡ r =
              cc (missing-postpones fuel s block missing, e) in
            subst (λ (u : ChainState × List BlockId). IsTidied nothing s u.0) same
              (postpone-IsTidy s block t new missing, postpone-Retains s block new)
      ]
