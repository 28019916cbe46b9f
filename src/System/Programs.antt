-- ===== src/System/Programs.antt =====
-- About the users of src/peerhub.rs: what their messages have to meet, whatever the other users do
-- between two of them.
use ddcoin.Prelude.{ℕ, suc, ◌≤◌, ◌<◌, ◌≡◌, ap, arith, some, u64_mod}
use ddcoin.Prelude.Outcome.{done}
use ddcoin.Prelude.Bytes.{bytes_eq}
use ddcoin.Data.{Block, Timestamp}
use ddcoin.External.{External}
use ddcoin.Chain.Linked.{IsAdmissible}
use ddcoin.Hub.{HubState, Handled}
use ddcoin.Hub.Messages.{Network, Message, Reply}
use ddcoin.Hub.Handle.{handle, answer}
use ddcoin.Hub.Client.{Client, ret, fail, crash, stuck, ask, cast, and_then}
use ddcoin.Hub.Safe.{IsWellFormed}
use ddcoin.Hub.Ledger.{Ledger, ledger, IsGrowth, IsGrowth-trans}
use ddcoin.System.{discard}

-- The leading block is two below the last u64 at least.
abbrev pub IsLow : Ledger → Type 0
IsLow l = (b : Block) → l.blocks l.leading ≡ some b → suc (suc b.inner.seqno) < u64_mod

pub IsGrowth-refl : (l : Ledger) (b : Block) → l.blocks l.leading ≡ some b → IsGrowth l l
IsGrowth-refl l b e = record {
  kept = λ id block q. q;
  old_leader = b;
  new_leader = b;
  led = e;
  leads = e;
  not_lower = omega arith;
}

module _ {S : Type 0} ⦃x : External⦄ where
  -- A message that is well-formed for every node with this ledger.
  abbrev pub IsProper : Ledger → Message S → Type 0
  IsProper l (Message.new_block from block) = IsAdmissible block
  IsProper l (Message.query_difficulty_adjust_time n) =
      (0 < n)
      × (n < u64_mod)
      × ((b : Block) × (l.blocks l.leading ≡ some b) × (n ≤ suc b.inner.seqno))
  IsProper l _ = Unit

  -- What a reply says of the ledger.
  abbrev pub Answers : Ledger → Message S → Reply → Type 0
  Answers l Message.query_leading_block p = p ≡ Reply.block_id l.leading
  Answers l (Message.query_block id) p = p ≡ Reply.block (l.blocks id)
  Answers l _ p = Unit

  -- From this ledger on, and as long as its leading block is low, the program sends proper messages and
  -- does not panic.
  abbrev pub Behaves : {A : Type 0} → Ledger → Client S A → Type 0
  Behaves l (ret a) = Unit
  Behaves l (fail e) = Unit
  Behaves l crash = ⊥
  Behaves l stuck = Unit
  Behaves l (ask m k) =
      ((l' : Ledger) → IsGrowth l l' → IsLow l' → IsProper l' m)
      × ((l' : Ledger) → IsGrowth l l' → IsLow l' → (p : Reply) → Answers l' m p → Behaves l' (k p))
  Behaves l (cast m c) = ((l' : Ledger) → IsGrowth l l' → IsLow l' → IsProper l' m) × Behaves l c

  pub Behaves-grows :
      {A : Type 0} (l l' : Ledger) (c : Client S A) → IsGrowth l l' → Behaves l c → Behaves l' c
  Behaves-grows l l' (ret a) g b = tt
  Behaves-grows l l' (fail e) g b = tt
  Behaves-grows l l' crash g b = b
  Behaves-grows l l' stuck g b = tt
  Behaves-grows l l' (ask m k) g b = (
    λ l₂ g₂ low. b.0 l₂ (IsGrowth-trans l l' l₂ g g₂) low,
    λ l₂ g₂ low p a. b.1 l₂ (IsGrowth-trans l l' l₂ g g₂) low p a,
  )
  Behaves-grows l l' (cast m c) g b =
      (λ l₂ g₂ low. b.0 l₂ (IsGrowth-trans l l' l₂ g g₂) low, Behaves-grows l l' c g b.1)

  pub discard-Behaves :
      {A : Type 0} (l : Ledger) (c : Client S A) → Behaves l c → Behaves l (discard c)
  unfolding discard
  discard-Behaves l (ret a) b = tt
  discard-Behaves l (fail e) b = tt
  discard-Behaves l crash b = b
  discard-Behaves l stuck b = tt
  discard-Behaves l (ask m k) b = (b.0, λ l' g low p a. discard-Behaves l' (k p) (b.1 l' g low p a))
  discard-Behaves l (cast m c) b = (b.0, discard-Behaves l c b.1)

  pub IsProper-grows :
      (l l' : Ledger) (m : Message S) → IsGrowth l l' → IsProper l m → IsProper l' m
  IsProper-grows l l' (Message.new_block from block) g p = p
  IsProper-grows l l' (Message.query_difficulty_adjust_time n) g (pos, small, (b, at, near)) =
      let same : g.old_leader ≡ b = cc (g.led, at) in
      (
        pos,
        small,
        (
          g.new_leader,
          g.leads,
          omega (arith, near, g.not_lower, ap (λ (l : Block). l.inner.seqno) same),
        ),
      )
  IsProper-grows l l' _ g p = tt

  pub IsProper-IsWellFormed :
      (h : HubState S) (m : Message S) → IsProper (ledger h) m → IsWellFormed h m
  IsProper-IsWellFormed h (Message.new_block from block) p = p
  IsProper-IsWellFormed h (Message.query_difficulty_adjust_time n) p = p
  IsProper-IsWellFormed h _ p = tt

  pub handle-Answers :
      (net : Network S) (root_fuel : ℕ) (now : Timestamp) (h : HubState S) (m : Message S)
      (r : Handled S) (p : Reply)
      → handle net root_fuel now h m ≡ done r
      → r.reply ≡ some p
      → Answers (ledger h) m p
  unfolding handle answer
  handle-Answers net root_fuel now h Message.query_leading_block r p e q = cc (e, q)
  handle-Answers net root_fuel now h (Message.query_block id) r p e q = cc (e, q)
  handle-Answers net root_fuel now h _ r p e q = tt

module _ {S A B : Type 0} ⦃x : External⦄ where
  pub and_then-Behaves :
      (l : Ledger) (c : Client S A) (k : A → Client S B)
      → Behaves l c
      → ((l' : Ledger) (a : A) → Behaves l' (k a))
      → Behaves l (and_then c k)
  unfolding and_then
  and_then-Behaves l (ret a) k b next = next l a
  and_then-Behaves l (fail e) k b next = tt
  and_then-Behaves l crash k b next = b
  and_then-Behaves l stuck k b next = tt
  and_then-Behaves l (ask m c) k b next =
      (b.0, λ l' g low p a. and_then-Behaves l' (c p) k (b.1 l' g low p a) next)
  and_then-Behaves l (cast m c) k b next = (b.0, and_then-Behaves l c k b.1 next)
