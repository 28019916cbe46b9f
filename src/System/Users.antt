-- ===== src/System/Users.antt =====
-- About src/hub_helper.rs, src/new_peer_watcher.rs and src/peer.rs: the programs of the repository's users go
-- on well beside any others.
use ddcoin.Prelude.{ℕ, Bool, true, false, not, List, [], ◌∷◌, ltb, add_u64}
use ddcoin.Prelude.Result.{Result, ok, err}
use ddcoin.Prelude.Bytes.{Bytes, bytes_eq}
use ddcoin.HashMap.{contains}
use ddcoin.Data.{Cash, Transaction, TransactionId}
use ddcoin.External.{External}
use ddcoin.Transaction
use ddcoin.Transaction.{TransactionError}
use ddcoin.Hub.Messages.{NodeId, Message}
use ddcoin.Hub.Client.{Client, ret, fail, cast, refused_transaction}
use ddcoin.Hub.Helper.{worth, gather, transfer_outputs, send_transfer, new_transfer}
use ddcoin.Hub.Ledger.{Ledger}
use ddcoin.Watcher.{
  Dial, Incoming, Subscriber, introduce, dialled, discovered, accepted, subscribe, listen,
}
use ddcoin.System.Programs.{Behaves}
use ddcoin.System.Asks.{either-Behaves, ask_cash_set-Behaves, ask_decision-Behaves}

module _ (S : Type 0) ⦃x : External⦄ where
  made-Behaves :
      (l : Ledger) (made : Result TransactionError Transaction)
      → Behaves l (elim made as (λ _. Client S TransactionId) [
        | err e ↦ fail refused_transaction
        | ok t ↦ cast (Message.new_transaction t) (ret (Transaction.id t))
      ])
  made-Behaves l (err e) = tt
  made-Behaves l (ok t) = (λ l' g low. tt, tt)

  send_transfer-Behaves :
      (l : Ledger) (signer : Bytes) (inputs outputs : List Cash)
      → Behaves l (send_transfer {S = S} signer inputs outputs)
  unfolding send_transfer
  send_transfer-Behaves l signer inputs outputs =
      made-Behaves l (Transaction.new signer inputs outputs)

  -- `new_transfer` sends proper messages and does not panic, whoever else uses the actor.
  pub new_transfer-Behaves :
      (l : Ledger) (signer receiver : Bytes) (amount fee : ℕ) (transfer_id rest_id : Bytes)
      → Behaves l (new_transfer {S = S} signer receiver amount fee transfer_id rest_id)
  unfolding new_transfer
  new_transfer-Behaves l signer receiver amount fee transfer_id rest_id =
      ask_cash_set-Behaves l Message.query_leading_cash_set (λ l' g low. tt) _
        λ l' g low set.
          let inputs = gather (x.verifying_key signer) (add_u64 amount fee) [] set in
          either-Behaves l' (ltb (worth inputs) (add_u64 amount fee)) _ _ tt (
            send_transfer-Behaves l' signer inputs (
              transfer_outputs (x.verifying_key signer) receiver amount fee transfer_id rest_id
                inputs))

module _ {S : Type 0} (A : Type 0) ⦃x : External⦄ where
  -- What follows is well whatever the ledger is.
  abbrev Anywhere : {T : Type 0} → (T → Client S A) → Type 0
  Anywhere {T = T} k = (l : Ledger) (t : T) → Behaves l (k t)

  introduce-Behaves :
      (l : Ledger) (id : NodeId) (stream : S) (connecting : Bool) (tasks : List NodeId)
      (k : List NodeId → Client S A)
      → Anywhere k
      → Behaves l (introduce id stream connecting tasks k)
  unfolding introduce
  introduce-Behaves l id stream connecting tasks k b =
      ask_decision-Behaves l (Message.new_peer id stream connecting) (λ l' g low. tt) _
        λ l' g low c. either-Behaves l' c _ _ (b l' (id ∷ tasks)) (b l' tasks)

  dialled-Behaves :
      (l : Ledger) (d : Dial S) (id : NodeId) (s : Subscriber) (k : Subscriber → Client S A)
      → Anywhere k
      → Behaves l (dialled d id s k)
  unfolding dialled
  dialled-Behaves l Dial.unreachable id s k b = b l s
  dialled-Behaves l Dial.broken id s k b = tt
  dialled-Behaves l (Dial.opened tx) id s k b =
      introduce-Behaves l id tx true s.tasks _ (λ l' tasks. b l' (record s { tasks = tasks }))

  discovered-Behaves :
      (l : Ledger) (connect : NodeId → Dial S) (s : Subscriber) (id : NodeId)
      (k : Subscriber → Client S A)
      → Anywhere k
      → Behaves l (discovered connect s id k)
  unfolding discovered
  discovered-Behaves l connect s id k b = either-Behaves l (contains s.known_ids id) _ _ (b l s) (
      ask_decision-Behaves l (Message.should_connect id) (λ l' g low. tt) _
        λ l' g low c.
          either-Behaves l' (not c) _ _ (b l' _) (dialled-Behaves l' (connect id) id _ k b))

  -- The loop over the discovered ids sends proper messages and does not panic.
  pub subscribe-Behaves :
      (connect : NodeId → Dial S) (ids : List NodeId) (l : Ledger) (s : Subscriber)
      → Behaves l (subscribe {A = A} connect ids s)
  unfolding subscribe
  subscribe-Behaves connect [] l s = tt
  subscribe-Behaves connect (id ∷ ids) l s =
      discovered-Behaves l connect s id _ (subscribe-Behaves connect ids)

  accepted-Behaves :
      (l : Ledger) (i : Incoming S) (tasks : List NodeId) (k : List NodeId → Client S A)
      → Anywhere k
      → Behaves l (accepted i tasks k)
  unfolding accepted
  accepted-Behaves l Incoming.failed tasks k b = b l tasks
  accepted-Behaves l Incoming.garbled tasks k b = tt
  accepted-Behaves l (Incoming.announced id tx) tasks k b =
      introduce-Behaves l id tx false tasks k b

  -- The loop over the incoming connections sends proper messages and does not panic.
  pub listen-Behaves :
      (incoming : List (Incoming S)) (l : Ledger) (tasks : List NodeId)
      → Behaves l (listen {A = A} incoming tasks)
  unfolding listen
  listen-Behaves [] l tasks = tt
  listen-Behaves (i ∷ rest) l tasks = accepted-Behaves l i tasks _ (listen-Behaves rest)
