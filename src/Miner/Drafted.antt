-- ===== src/Miner/Drafted.antt =====
-- About src/block.rs, `UnconfirmedBlock::new` on the leading block, and the rules of src/peerhub.rs that
-- the block that comes of it meets.
use ddcoin.Prelude.{
  ℕ, suc, ◌≤◌, ◌<◌, ◌≡◌, refl, sym, ap, ◌∙◌, subst, arith, Option, some, List, add_u64, add_u64-suc,
  u64_mod, ℕ_eq,
}
use ddcoin.Prelude.Outcome.{done}
use ddcoin.Prelude.Bytes.{Bytes, bytes_eq}
use ddcoin.Data.{
  CoinAddress, Transaction, Block, BlockInner, UnconfirmedBlock, Difficulty, Timestamp,
}
use ddcoin.External.{External, with_nonce_field}
use ddcoin.Config.{Config}
use ddcoin.Util.Difficulty.{IsUsable}
use ddcoin.Transaction.{new_cash}
use ddcoin.Block
use ddcoin.Block.{subsidy_at, subsidy_at-pos, fees, next_difficulty}
use ddcoin.Chain.{ChainState}
use ddcoin.Chain.Linked.{Inv}
use ddcoin.CashSet.{Moved, cash_set_at}
use ddcoin.CashSet.Current.{cash_set_at-IsBroughtTo}
use ddcoin.Validation.{expected_difficulty}
use ddcoin.Validation.Checks.{AllSpendable, IsAccepted}

add_u64_comm : (a b : ℕ) → add_u64 a b ≡ add_u64 b a
unfolding add_u64
add_u64_comm a b = omega arith

module _ ⦃x : External⦄ (clock : Timestamp) (reward_id : Bytes) (prev : Block) (miner : CoinAddress)
    (txns : List Transaction) where
  -- The draft, for a difficulty and a subsidy.
  abbrev pub drafted : Difficulty → ℕ → UnconfirmedBlock
  drafted d subsidy = record {
    seqno = add_u64 prev.inner.seqno 1;
    difficulty = d;
    prev_id = Block.id prev;
    transactions = txns;
    reward = new_cash reward_id (add_u64 subsidy (fees txns)) miner;
    miner = miner;
    timestamp = clock;
  }

  pub new-drafted :
      (time : Option Timestamp) (config : Config) (d : Difficulty) (subsidy : ℕ)
      → next_difficulty prev (add_u64 prev.inner.seqno 1) clock time config ≡ done (some d)
      → subsidy_at config (add_u64 prev.inner.seqno 1) ≡ done subsidy
      → Block.new clock reward_id prev miner txns time config ≡ done (some (drafted d subsidy))
  unfolding Block.new
  new-drafted time config d subsidy e f = rw (e, f)

  module _ (s : ChainState) (v : Inv s) (usable : IsUsable s.config) (leading : prev ≡ v.leader)
      (room : suc (suc prev.inner.seqno) < u64_mod) where
    seqno_lem : add_u64 prev.inner.seqno 1 ≡ suc prev.inner.seqno
    seqno_lem = add_u64-suc prev.inner.seqno (omega arith)

    id_lem : Block.id prev ≡ s.leading_block
    id_lem = ap Block.id leading ∙ v.keyed s.leading_block v.leader v.leader_at

    -- The difficulty that the draft takes is the one that validation asks for.
    abbrev pub Expected : Difficulty → Type 0
    Expected d =
        (b : Block)
        → b.inner.seqno ≡ suc prev.inner.seqno
        → b.inner.timestamp ≡ clock
        → expected_difficulty s b prev ≡ done d

    pub drafted-IsAccepted :
        (d : Difficulty) (subsidy nonce : ℕ) (b : Block)
        → subsidy_at s.config (add_u64 prev.inner.seqno 1) ≡ done subsidy
        → Expected d
        → prev.inner.timestamp ≤ clock
        → ((m : Moved) → cash_set_at s s.leading_block ≡ done m → AllSpendable m.cash txns)
        → b.inner ≡ with_nonce_field (drafted d subsidy) nonce
        → IsAccepted s b prev
    unfolding new_cash add_u64
    drafted-IsAccepted d subsidy nonce b paid expected in_time spendable fields =
        let (m, e, _) = cash_set_at-IsBroughtTo s v s.leading_block v.leader v.leader_at in
        subst
          (λ (i : BlockInner). IsAccepted s (record { inner = i; signature = b.signature }) prev)
          (sym fields)
          (record {
            in_time = in_time;
            next_seqno = seqno_lem;
            right_difficulty =
                expected
                  (record {
                    inner = with_nonce_field (drafted d subsidy) nonce;
                    signature = b.signature;
                  })
                  seqno_lem refl;
            moved = m;
            brought = rw id_lem e;
            spendable = spendable m e;
            subsidy = subsidy;
            subsidy_right = paid;
            reward_right = add_u64_comm subsidy (fees txns);
          })
