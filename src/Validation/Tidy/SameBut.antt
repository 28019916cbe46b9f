-- ===== src/Validation/Tidy/SameBut.antt =====
-- About src/peerhub.rs, the checks of `validate_block`: they write the cash set at most.
use ddcoin.Prelude.{
  ◌≡◌, ◌==◌, ℕ_eq, ltb, not, ◌&&◌, sym, ap, Bool, true, false, List, if◌then◌else◌, add_u64,
}
use ddcoin.Prelude.Outcome.{Outcome, done, ◌>>=◌, >>=-eq-done}
use ddcoin.Prelude.Bytes.{bytes_eq}
use ddcoin.Data.{Cash, Block}
use ddcoin.External.{External}
use ddcoin.Chain.{ChainState}
use ddcoin.CashSet.{cash_set_at}
use ddcoin.Validation.{
  with_cash, check_block, expected_difficulty, all_inputs_known, reward_is_valid,
}

module _ ⦃x : External⦄ where
  -- The checks change the cash set at most.
  abbrev pub SameBut : ChainState → Outcome (ChainState × Bool) → Type 0
  SameBut s o = (c : ChainState × Bool) → o ≡ done c → (cash : List Cash) × (c.0 ≡ with_cash s cash)

  stopped : (s : ChainState) (b : Bool) → SameBut s (done (s, b))
  stopped s b c e =
      let same : (s, b) ≡ c = cc e in
      (s.cash_set.cash, sym (ap (λ (d : ChainState × Bool). d.0) same))

  either-SameBut :
      (s : ChainState) (b : Bool) (o o' : Outcome (ChainState × Bool))
      → SameBut s o
      → SameBut s o'
      → SameBut s (if b then o else o')
  either-SameBut s true o o' p q = p
  either-SameBut s false o o' p q = q

  bind-SameBut :
      {A : Type 0} (s : ChainState) (m : Outcome A) (f : A → Outcome (ChainState × Bool))
      → ((a : A) → SameBut s (f a))
      → SameBut s (m >>= f)
  bind-SameBut s m f all c e = let (a, _, g) = >>=-eq-done m f e in all a c g

  moved_to : (s : ChainState) (cash : List Cash) (b : Bool) → SameBut s (done (with_cash s cash, b))
  moved_to s cash b c e =
      let same : (with_cash s cash, b) ≡ c = cc e in
      (cash, sym (ap (λ (d : ChainState × Bool). d.0) same))

  pub check_block-SameBut :
      (s : ChainState) (block prev : Block) → SameBut s (check_block s block prev)
  unfolding check_block
  check_block-SameBut s block prev =
      either-SameBut s (ltb block.inner.timestamp prev.inner.timestamp) _ _ (stopped s false) (
        either-SameBut s (not (block.inner.seqno == add_u64 prev.inner.seqno 1)) _ _
          (stopped s false)
          (bind-SameBut s (expected_difficulty s block prev) _ λ expected.
            either-SameBut s (not (block.inner.difficulty == expected)) _ _ (stopped s false) (
              bind-SameBut s (cash_set_at s block.inner.prev_id) _ λ moved.
                either-SameBut s
                  (not (moved.known && all_inputs_known moved.cash block.inner.transactions)) _ _
                  (moved_to s moved.cash false)
                  (bind-SameBut s (reward_is_valid (with_cash s moved.cash) block) _
                    λ good. moved_to s moved.cash good))))
