-- ===== src/Hub/Client.antt =====
-- The users of the hub: `ractor::call!` and `ractor::cast!` on the actor of src/peerhub.rs. A program
-- of a user is the messages that it sends, what it does with each reply, and how it ends.
use ddcoin.Prelude.{ℕ, Bool, true, false, Option, none, some, List}
use ddcoin.Prelude.Outcome.{Outcome, done, panic, out_of_fuel, ◌>>=◌}
use ddcoin.Prelude.Result.{Result, ok, err}
use ddcoin.Data.{Cash, Transaction, TransactionId, Block, BlockId, Timestamp}
use ddcoin.External.{External}
use ddcoin.Hub.{HubState}
use ddcoin.Hub.Messages.{Network, Message, Reply}
use ddcoin.Hub.Handle.{handle}

-- `no_reply` is an actor that has stopped, or a reply port that was dropped; the others are those of
-- the users.
pub data ClientError : Type 0 where
  no_reply insufficient_cash refused_transaction refused_draft refused_block : ClientError
  lost_connection nothing_left : ClientError

pub data Client (S A : Type 0) : Type 0 where
  ret : A → Client S A
  -- an early return by `?` or `bail!`
  fail : ClientError → Client S A
  crash : Client S A
  -- a loop of the user that the model bounds is still running
  stuck : Client S A
  ask : Message S → (Reply → Client S A) → Client S A
  cast : Message S → Client S A → Client S A

unfoldable pub and_then : {S A B : Type 0} → Client S A → (A → Client S B) → Client S B
and_then (ret a) k = k a
and_then (fail e) k = fail e
and_then crash k = crash
and_then stuck k = stuck
and_then (ask m next) k = ask m (λ p. and_then (next p) k)
and_then (cast m c) k = cast m (and_then c k)

module _ {S A : Type 0} where
  -- The rest of a program when the actor has stopped.
  unfoldable pub run_stopped : Client S A → Outcome (Result ClientError A)
  run_stopped (ret a) = done (ok a)
  run_stopped (fail e) = done (err e)
  run_stopped crash = panic
  run_stopped stuck = out_of_fuel
  run_stopped (ask m k) = done (err no_reply)
  run_stopped (cast m c) = done (err no_reply)

  -- The program alone with the actor, whose handler stops it by an error. `now` and `root_fuel` are
  -- those of the handler.
  unfoldable pub run :
      Network S
      → ⦃x : External⦄ → ℕ
      → Timestamp
      → HubState S
      → Client S A
      → Outcome (HubState S × Result ClientError A)
  run net root_fuel now h (ret a) = done (h, ok a)
  run net root_fuel now h (fail e) = done (h, err e)
  run net root_fuel now h crash = panic
  run net root_fuel now h stuck = out_of_fuel
  run net root_fuel now h (ask m k) = handle net root_fuel now h m >>= λ r. elim r.reply [
    | none ↦ done (r.state, err no_reply)
    | some p ↦ run net root_fuel now r.state (k p)
  ]
  run net root_fuel now h (cast m c) = handle net root_fuel now h m >>= λ r. elim r.failed [
    | true ↦ (run_stopped c >>= λ a. done (r.state, a))
    | false ↦ run net root_fuel now r.state c
  ]

  -- A reply port takes replies of one type, so that the other cases do not come.
  unfoldable pub ask_block_id : Message S → (BlockId → Client S A) → Client S A
  ask_block_id m k = ask m λ r. elim r [ Reply.block_id id ↦ k id | _ ↦ fail no_reply ]

  unfoldable pub ask_block : Message S → (Option Block → Client S A) → Client S A
  ask_block m k = ask m λ r. elim r [ Reply.block b ↦ k b | _ ↦ fail no_reply ]

  unfoldable pub ask_cash_set : Message S → (List Cash → Client S A) → Client S A
  ask_cash_set m k = ask m λ r. elim r [ Reply.cash_set set ↦ k set | _ ↦ fail no_reply ]

  unfoldable pub ask_mem_pool : Message S → (List (TransactionId × ℕ) → Client S A) → Client S A
  ask_mem_pool m k = ask m λ r. elim r [ Reply.mem_pool fees ↦ k fees | _ ↦ fail no_reply ]

  unfoldable pub ask_transactions :
      Message S → (List (Option Transaction) → Client S A) → Client S A
  ask_transactions m k = ask m λ r. elim r [ Reply.transactions txns ↦ k txns | _ ↦ fail no_reply ]

  unfoldable pub ask_time : Message S → (Timestamp → Client S A) → Client S A
  ask_time m k = ask m λ r. elim r [ Reply.time t ↦ k t | _ ↦ fail no_reply ]

  unfoldable pub ask_decision : Message S → (Bool → Client S A) → Client S A
  ask_decision m k = ask m λ r. elim r [ Reply.decision b ↦ k b | _ ↦ fail no_reply ]
