-- ===== src/System/Mining.antt =====
-- About src/bin/miner.rs: the miner goes on well beside any other users.
use ddcoin.Prelude.{
  ℕ, suc, ◌<◌, ◌≡◌, ◌≢◌, refl, ap, arith, ◌==◌, ℕ_eq, Option, none, some, List, [], ◌∷◌, ◌%◌,
  Option-cases, inl, inr, add_u64, add_u64-suc, u64_mod, rem_checked-pos,
}
use ddcoin.Prelude.Outcome.{Outcome, done, panic, out_of_fuel}
use ddcoin.Prelude.Result.{Result, ok, err}
use ddcoin.Prelude.Bytes.{Bytes, bytes_eq}
use ddcoin.Data.{Transaction, Block, UnconfirmedBlock, Timestamp}
use ddcoin.External.{External}
use ddcoin.Util.Difficulty.{IsUsable}
use ddcoin.Block
use ddcoin.Block.{
  BlockValidationError, zero_hash, subsidy_at, subsidy_at-pos, next_difficulty, find_nouce_from,
  find_nouce, with_nonce, try_confirm,
}
use ddcoin.Hub.Messages.{Message}
use ddcoin.Hub.Client.{Client, ret, fail, crash, stuck, cast, refused_block}
use ddcoin.Hub.Ledger.{Ledger, IsGrowth}
use ddcoin.Miner.{MinerConfig, flatten, top_ids, confirm, draft, mine_on, mine, mine_loop}
use ddcoin.System.Programs.{IsProper, Behaves, and_then-Behaves}
use ddcoin.System.Asks.{
  Later, IsReached, leading_block-Behaves, ask_mem_pool-Behaves, ask_transactions-Behaves,
  ask_time-Behaves, either-Behaves,
}
use ddcoin.Miner.Made.{try_confirm-no_panic, try_confirm-seqno, new-Returns}

module _ ⦃x : External⦄ where
  -- No block that the miner makes has the hash of zeros for its id.
  abbrev pub NoneZero : ℕ → MinerConfig → Type 0
  NoneZero fuel miner =
      (u : UnconfirmedBlock) (b : Block)
      → try_confirm fuel u miner.signing_key ≡ done (ok b)
      → Block.id b ≢ zero_hash

module _ (S : Type 0) ⦃x : External⦄ (fuel : ℕ) (miner : MinerConfig)
    (none_zero : NoneZero fuel miner) where
  -- The rest of a round once the search has stopped.
  found-Behaves :
      (l : Ledger) (o : Outcome (Result BlockValidationError Block))
      → ¬ (o ≡ panic)
      → ((b : Block) → o ≡ done (ok b) → suc b.inner.seqno < u64_mod)
      → ((b : Block) → o ≡ done (ok b) → Block.id b ≢ zero_hash)
      → Behaves l (elim o as (λ _. Client S (Unit {0})) [
        | panic ↦ crash
        | out_of_fuel ↦ stuck
        | done confirmed ↦ elim confirmed [
          | err e ↦ fail refused_block
          | ok block ↦ cast (Message.new_block none block) (ret tt)
        ]
      ])
  found-Behaves l panic ne small nonzero = ne refl
  found-Behaves l out_of_fuel ne small nonzero = tt
  found-Behaves l (done (err e)) ne small nonzero = tt
  found-Behaves l (done (ok b)) ne small nonzero =
      (λ l' g low. record { seqno_small = small b refl; id_nonzero = nonzero b refl }, tt)

  confirm-Behaves :
      (l : Ledger) (u : UnconfirmedBlock)
      → suc u.seqno < u64_mod
      → Behaves l (confirm {S = S} fuel miner u)
  unfolding confirm
  confirm-Behaves l u small =
      found-Behaves l (try_confirm fuel u miner.signing_key)
        (try_confirm-no_panic fuel u miner.signing_key)
        (λ b e. omega (arith, try_confirm-seqno fuel u miner.signing_key b e, small)) (none_zero u)

  module _ (usable : IsUsable miner.peerhub_config) where
    draft-Behaves :
        (l : Ledger) (now : Timestamp) (reward_id : Bytes) (leading : Block)
        (txns : List Transaction) (time : Option Timestamp)
        → suc (suc leading.inner.seqno) < u64_mod
        → Behaves l (draft {S = S} fuel now reward_id miner leading txns time)
    unfolding draft
    draft-Behaves l now reward_id leading txns time small =
        let (found, e, above) =
          new-Returns miner.peerhub_config usable now reward_id leading miner.miner txns time in
        elim (Option-cases found) [
          | inl refused ↦ rw (e, refused, draft) tt
          | inr (u, at) ↦
              let height = add_u64-suc leading.inner.seqno (omega (arith, small)) in
              rw (e, at, draft) (confirm-Behaves l u (omega (arith, above u at, height, small)))
        ]

    -- The height above a leading block is asked about as long as it is at most one above the one that
    -- leads now.
    asked-IsProper :
        (l : Ledger) (leading : Block)
        → IsReached l leading
        → suc (suc leading.inner.seqno) < u64_mod
        → Later l (λ l'.
          IsProper {S = S} l'
            (Message.query_difficulty_adjust_time (add_u64 leading.inner.seqno 1)))
    asked-IsProper l leading reached small l' g low =
        let height = add_u64-suc leading.inner.seqno (omega (arith, small)) in
        let same : g.old_leader ≡ reached.leader = cc (g.led, reached.leads) in
        (
          omega (arith, height),
          omega (arith, height, small),
          (
            g.new_leader,
            g.leads,
            omega (
              arith,
              height,
              reached.not_higher,
              g.not_lower,
              ap (λ (b : Block). b.inner.seqno) same,
            ),
          ),
        )

    mine_on-Behaves :
        (l : Ledger) (now : Timestamp) (reward_id : Bytes) (leading : Block)
        (txns : List Transaction)
        → IsReached l leading
        → suc (suc leading.inner.seqno) < u64_mod
        → Behaves l (mine_on {S = S} fuel now reward_id miner leading txns)
    unfolding mine_on
    mine_on-Behaves l now reward_id leading txns reached small =
        let new_seqno = add_u64 leading.inner.seqno 1 in
        let period = miner.peerhub_config.difficulty_adjustment_period in
        rw (rem_checked-pos new_seqno period usable.period_pos, mine_on)
          (either-Behaves l (new_seqno % period == 0) _ _
            (ask_time-Behaves l (Message.query_difficulty_adjust_time new_seqno)
              (asked-IsProper l leading reached small) _
              λ l' g low t. draft-Behaves l' now reward_id leading txns (some t) small)
            (draft-Behaves l now reward_id leading txns none small))

    IsReached-grows : (l l' : Ledger) (b : Block) → IsGrowth l l' → IsReached l b → IsReached l' b
    IsReached-grows l l' b g reached =
        let same : g.old_leader ≡ reached.leader = cc (g.led, reached.leads) in
        record {
          leader = g.new_leader;
          leads = g.leads;
          not_higher =
              omega
                (arith, reached.not_higher, g.not_lower, ap (λ (c : Block). c.inner.seqno) same);
        }

    mine-Behaves :
        (l : Ledger) (now : Timestamp) (reward_id : Bytes)
        → Behaves l (mine {S = S} fuel now reward_id miner)
    unfolding mine
    mine-Behaves l now reward_id = leading_block-Behaves l _ λ l₁ g₁ low₁ leading reached.
        ask_mem_pool-Behaves l₁ Message.query_mem_pool (λ l' g low. tt) _
          λ l₂ g₂ low₂ fees.
            ask_transactions-Behaves l₂
              (Message.query_transactions (top_ids miner.peerhub_config fees)) (λ l' g low. tt) _
              λ l₃ g₃ low₃ txns.
                let reached₃ =
                  IsReached-grows l₂ l₃ leading g₃ (IsReached-grows l₁ l₂ leading g₂ reached) in
                let small = low₃ reached₃.leader reached₃.leads in
                mine_on-Behaves l₃ now reward_id leading (flatten txns) reached₃
                  (omega (arith, reached₃.not_higher, small))

    -- A miner with usable settings sends proper messages and does not panic, however many rounds it
    -- makes, if no block that it makes has the hash of zeros for its id.
    pub mine_loop-Behaves :
        (rounds : List (Timestamp × Bytes)) (l : Ledger)
        → Behaves l (mine_loop {S = S} fuel miner rounds)
    unfolding mine_loop
    mine_loop-Behaves [] l = tt
    mine_loop-Behaves (round ∷ rounds) l =
        and_then-Behaves l (mine fuel round.0 round.1 miner) (λ _. mine_loop fuel miner rounds)
          (mine-Behaves l round.0 round.1) (λ l' _. mine_loop-Behaves rounds l')
