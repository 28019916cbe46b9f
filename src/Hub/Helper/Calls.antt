-- ===== src/Hub/Helper/Calls.antt =====
-- About src/hub_helper.rs: what a user gets who is alone with the actor.
use ddcoin.Prelude.{
  ℕ, ◌+◌, ◌≤◌, ◌<◌, ◌≡◌, ap, ◌∙◌, List, if-true, if-false, arith, true, inl, inr, Bool-cases,
  u64_mod,
}
use ddcoin.Prelude.Outcome.{done}
use ddcoin.Prelude.Result.{ok, err}
use ddcoin.Prelude.Bytes.{Bytes, bytes_eq}
use ddcoin.HashMap.{HashMap, insert, contains_key}
use ddcoin.HashMap.Laws.{get-insert_self}
use ddcoin.Data.{Cash, CoinAddress, Transaction, TransactionId, Block, Timestamp}
use ddcoin.External.{External, SignsCorrectly}
use ddcoin.Transaction
use ddcoin.CashSet.{Moved, cash_set_at}
use ddcoin.CashSet.Current.{cash_set_at-IsBroughtTo}
use ddcoin.Validation.{with_cash}
use ddcoin.Hub
use ddcoin.Hub.{HubState, Handled, replied, forget}
use ddcoin.Hub.Messages.{Network, Message, Reply}
use ddcoin.Hub.Handle.{answer, handle, reply_cash}
use ddcoin.Hub.Safe.{HubInv}
use ddcoin.Hub.Client.{
  Client, run, run_stopped, ret, ask_cash_set, ask_block_id, ask_block, insufficient_cash,
}
use ddcoin.Hub.Helper.{send_transfer, new_transfer, leading_block, transfer_outputs}
use ddcoin.Hub.Helper.Gather.{owned, value}
use ddcoin.Hub.Helper.Transfer.{
  too_little, goes_on, made, IsTransfer, transfer, transfer-IsTransfer, inputs,
}

module _ {S : Type 0} ⦃x : External⦄ (net : Network S) (root_fuel : ℕ) (now : Timestamp)
    (h : HubState S) (i : HubInv h) where
  -- In its invariant the actor gives its leading block.
  pub leading_block-leader :
      {A : Type 0} (k : Block → Client S A)
      → run net root_fuel now h (leading_block k) ≡ run net root_fuel now h (k i.0.leader)
  unfolding run leading_block ask_block_id ask_block handle answer
  leading_block-leader k = rw i.0.leader_at

  module _ (m : Moved) (at : cash_set_at h.chain h.leading_block ≡ done m) where
    abbrev pub moved : HubState S
    moved = record h { chain = with_cash h.chain m.cash }

    known : m.known ≡ true
    known =
        let (m', e, brought) =
          cash_set_at-IsBroughtTo h.chain i.0 h.leading_block i.0.leader i.0.leader_at in
        cc (at, e, brought.known)

    reply_cash-known :
        (m : Moved)
        → m.known ≡ true
        → reply_cash h m
          ≡ done (replied (record h { chain = with_cash h.chain m.cash }) (Reply.cash_set m.cash))
    reply_cash-known m e = rw e

    asked_cash :
        handle net root_fuel now h Message.query_leading_cash_set
        ≡ done (replied moved (Reply.cash_set m.cash))
    unfolding handle answer
    asked_cash = rw at (reply_cash-known m known)

    module _ (signs : SignsCorrectly x) (signer : Bytes) (receiver : CoinAddress)
        (amount paid_fee : ℕ) (transfer_id rest_id : Bytes)
        (small : value (owned (x.verifying_key signer) m.cash) < u64_mod)
        (fits : amount + paid_fee < u64_mod) where
      -- Alone with a node in its invariant, and where signatures verify, a user whose cash in the
      -- leading cash set is worth less than the amount and the fee gets the error of insufficient
      -- cash, and the node has only brought its cash set to the leading block. The amount and the
      -- fee together, and the user's cash, are below 2 ^ 64.
      pub new_transfer-insufficient :
          value (owned (x.verifying_key signer) m.cash) < amount + paid_fee
          → run net root_fuel now h
              (new_transfer signer receiver amount paid_fee transfer_id rest_id)
            ≡ done (moved, err insufficient_cash)
      unfolding run new_transfer ask_cash_set
      new_transfer-insufficient short =
          let found =
            inputs signs signer receiver amount paid_fee transfer_id rest_id m.cash small fits in
          let test =
            too_little signs signer receiver amount paid_fee transfer_id rest_id m.cash small fits
              short in
          rw asked_cash (
            ap (run net root_fuel now moved) (
              if-true test (Client.fail insufficient_cash) (
                send_transfer signer found (
                  transfer_outputs (x.verifying_key signer) receiver amount paid_fee transfer_id
                    rest_id found))))

      -- The transfer is sent.
      pub record IsSent (r : HubState S) (t : Transaction) : Type 0 where
        pub is_transfer :
            IsTransfer signs signer receiver amount paid_fee transfer_id rest_id m.cash small fits t
        pub in_mempool : contains_key (Transaction.id t) r.mempool ≡ true

      get-insert-known :
          (k : TransactionId) (t : Transaction) (m : HashMap TransactionId Transaction)
          → contains_key k (insert k t m) ≡ true
      get-insert-known k t m = let e = get-insert_self k t m in ground arith

      forget-known :
          (k : TransactionId) (r : Handled S)
          → contains_key k r.state.mempool ≡ true
          → contains_key k (forget net k r).state.mempool ≡ true
      forget-known k r e = elim (Bool-cases r.failed) [ inl stop ↦ rw stop e | inr on ↦ rw on e ]

      new_transaction-known :
          (t : Transaction)
          → contains_key (Transaction.id t) (Hub.new_transaction net moved t).state.mempool ≡ true
      unfolding Hub.new_transaction
      new_transaction-known t = elim (Bool-cases (contains_key (Transaction.id t) moved.mempool)) [
        | inl old ↦ rw old old
        | inr new ↦ rw new (
            forget-known (Transaction.id t) _ (get-insert-known (Transaction.id t) t moved.mempool))
      ]

      cast_lem :
          (t : Transaction)
          → run net root_fuel now moved
              (Client.cast (Message.new_transaction t) (ret (Transaction.id t)))
            ≡ done ((Hub.new_transaction net moved t).state, ok (Transaction.id t))
      unfolding run run_stopped handle
      cast_lem t = elim (Bool-cases (Hub.new_transaction net moved t).failed) [
        | inl stop ↦ rw stop
        | inr on ↦ rw on
      ]

      sent_lem :
          (t : Transaction) (ins outs : List Cash)
          → Transaction.new signer ins outs ≡ ok t
          → run net root_fuel now moved (send_transfer signer ins outs)
            ≡ done ((Hub.new_transaction net moved t).state, ok (Transaction.id t))
      unfolding send_transfer
      sent_lem t ins outs e =
          let program : send_transfer signer ins outs
              ≡ Client.cast (Message.new_transaction t) (ret (Transaction.id t)) =
            rw (e, send_transfer) in
          ap (run net root_fuel now moved) program ∙ cast_lem t

      -- Alone with a node in its invariant, and where signatures verify, a user whose cash in the
      -- leading cash set covers a positive amount and fee sends a transfer: its transaction spends
      -- cash of the user from that set, pays the receiver the amount and the user the rest, leaves
      -- the fee, is accepted by a receiver, and is in the pool of the node. The amount and the fee
      -- together, and the user's cash, are below 2 ^ 64.
      pub new_transfer-IsSent :
          0 < amount + paid_fee
          → amount + paid_fee ≤ value (owned (x.verifying_key signer) m.cash)
          → (r : HubState S) × (t : Transaction) × (run net root_fuel now h
                (new_transfer signer receiver amount paid_fee transfer_id rest_id)
              ≡ done (r, ok (Transaction.id t)))
            × IsSent r t
      unfolding run new_transfer ask_cash_set
      new_transfer-IsSent some_needed enough =
          let t =
            transfer signs signer receiver amount paid_fee transfer_id rest_id m.cash small fits
              some_needed enough in
          let found =
            inputs signs signer receiver amount paid_fee transfer_id rest_id m.cash small fits in
          let more =
            goes_on signs signer receiver amount paid_fee transfer_id rest_id m.cash small fits
              some_needed enough in
          (
            (Hub.new_transaction net moved t).state,
            t,
            rw asked_cash (
                ap (run net root_fuel now moved) (
                  if-false more (Client.fail insufficient_cash) (
                    send_transfer signer found (
                      transfer_outputs (x.verifying_key signer) receiver amount paid_fee transfer_id
                        rest_id found)))
                ∙ sent_lem t _ _ (
                    made signs signer receiver amount paid_fee transfer_id rest_id m.cash small fits
                      some_needed enough)),
            record {
              is_transfer =
                  transfer-IsTransfer signs signer receiver amount paid_fee transfer_id rest_id
                    m.cash small fits some_needed enough;
              in_mempool = new_transaction-known t;
            },
          )
