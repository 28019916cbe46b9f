-- ===== src/System/Asks.antt =====
-- About src/hub_helper.rs and `ractor::call!`: what a program that asks needs to go on well beside other users.
use ddcoin.Prelude.{ℕ, ◌≤◌, ◌≡◌, Bool, true, false, if◌then◌else◌, Option, none, some, List}
use ddcoin.Prelude.Bytes.{bytes_eq}
use ddcoin.Data.{Cash, Transaction, TransactionId, Block, Timestamp}
use ddcoin.External.{External}
use ddcoin.Hub.Messages.{Message, Reply}
use ddcoin.Hub.Client.{
  Client, fail, crash, no_reply, ask_block_id, ask_block, ask_cash_set, ask_mem_pool,
  ask_transactions, ask_time, ask_decision,
}
use ddcoin.Hub.Helper.{leading_block}
use ddcoin.Hub.Ledger.{Ledger, IsGrowth, IsGrowth-trans}
use ddcoin.System.Programs.{IsLow, IsProper, Behaves}

-- From this ledger on, and as long as the leading block is low.
abbrev pub Later : Ledger → (Ledger → Type 0) → Type 0
Later l P = (l' : Ledger) → IsGrowth l l' → IsLow l' → P l'

-- The block is no higher than the leading one.
pub record IsReached (l : Ledger) (b : Block) : Type 0 where
  pub leader : Block
  pub leads : l.blocks l.leading ≡ some leader
  pub not_higher : b.inner.seqno ≤ leader.inner.seqno

module _ {S A : Type 0} ⦃x : External⦄ where
  pub either-Behaves :
      (l : Ledger) (c : Bool) (p q : Client S A)
      → Behaves l p
      → Behaves l q
      → Behaves l (if c then p else q)
  either-Behaves l true p q a b = a
  either-Behaves l false p q a b = b

  module _ (l : Ledger) (m : Message S) (proper : Later l (λ l'. IsProper l' m)) where
    pub ask_mem_pool-Behaves :
        (k : List (TransactionId × ℕ) → Client S A)
        → Later l (λ l'. (fees : List (TransactionId × ℕ)) → Behaves l' (k fees))
        → Behaves l (ask_mem_pool m k)
    unfolding ask_mem_pool
    ask_mem_pool-Behaves k b = (
      proper,
      λ l' g low p a.
          elim p
            as (λ q. Behaves l' (elim q [ Reply.mem_pool fees ↦ k fees | _ ↦ fail no_reply ])) [
              | Reply.mem_pool fees ↦ b l' g low fees
              | _ ↦ tt
            ],
    )

    pub ask_transactions-Behaves :
        (k : List (Option Transaction) → Client S A)
        → Later l (λ l'. (txns : List (Option Transaction)) → Behaves l' (k txns))
        → Behaves l (ask_transactions m k)
    unfolding ask_transactions
    ask_transactions-Behaves k b = (
      proper,
      λ l' g low p a.
          elim p
            as (λ q. Behaves l' (elim q [ Reply.transactions txns ↦ k txns | _ ↦ fail no_reply ])) [
              | Reply.transactions txns ↦ b l' g low txns
              | _ ↦ tt
            ],
    )

    pub ask_time-Behaves :
        (k : Timestamp → Client S A)
        → Later l (λ l'. (t : Timestamp) → Behaves l' (k t))
        → Behaves l (ask_time m k)
    unfolding ask_time
    ask_time-Behaves k b = (
      proper,
      λ l' g low p a.
          elim p as (λ q. Behaves l' (elim q [ Reply.time t ↦ k t | _ ↦ fail no_reply ])) [
            | Reply.time t ↦ b l' g low t
            | _ ↦ tt
          ],
    )

    pub ask_cash_set-Behaves :
        (k : List Cash → Client S A)
        → Later l (λ l'. (set : List Cash) → Behaves l' (k set))
        → Behaves l (ask_cash_set m k)
    unfolding ask_cash_set
    ask_cash_set-Behaves k b = (
      proper,
      λ l' g low p a.
          elim p as (λ q. Behaves l' (elim q [ Reply.cash_set set ↦ k set | _ ↦ fail no_reply ])) [
            | Reply.cash_set set ↦ b l' g low set
            | _ ↦ tt
          ],
    )

    pub ask_decision-Behaves :
        (k : Bool → Client S A)
        → Later l (λ l'. (c : Bool) → Behaves l' (k c))
        → Behaves l (ask_decision m k)
    unfolding ask_decision
    ask_decision-Behaves k b = (
      proper,
      λ l' g low p a.
          elim p as (λ q. Behaves l' (elim q [ Reply.decision c ↦ k c | _ ↦ fail no_reply ])) [
            | Reply.decision c ↦ b l' g low c
            | _ ↦ tt
          ],
    )

  -- The block that leads stays where it is, so that it is found when it is asked for.
  found-Behaves :
      (l l' : Ledger) (k : Block → Client S A)
      → IsGrowth l l'
      → ((b : Block) → IsReached l' b → Behaves l' (k b))
      → Behaves l' (elim (l'.blocks l.leading) [ none ↦ crash | some b ↦ k b ])
  found-Behaves l l' k g b =
      rw (g.kept l.leading g.old_leader g.led) (
        b g.old_leader
          (record { leader = g.new_leader; leads = g.leads; not_higher = g.not_lower }))

  pub leading_block-Behaves :
      (l : Ledger) (k : Block → Client S A)
      → Later l (λ l'. (b : Block) → IsReached l' b → Behaves l' (k b))
      → Behaves l (leading_block k)
  unfolding leading_block ask_block_id ask_block
  leading_block-Behaves l k b = (
    λ l₁ g₁ low₁. tt,
    λ l₁ g₁ low₁ p a. rw a (
      λ l₂ g₂ low₂. tt,
      λ l₂ g₂ low₂ q c. rw c (found-Behaves l₁ l₂ k g₂ (b l₂ (IsGrowth-trans l l₁ l₂ g₁ g₂) low₂)),
    ),
  )
