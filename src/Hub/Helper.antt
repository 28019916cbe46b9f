-- ===== src/Hub/Helper.antt =====
-- src/hub_helper.rs: `HubHelper`, what a user does with the actor. A program takes what comes after it
-- as an argument; `Cash::new` draws the two ids of `new_transfer`.
pub mod Gather
pub mod Calls
pub mod Depth
pub mod Transfer
use ddcoin.Prelude.{
  ℕ, ◌==◌, leb, ltb, not, if◌then◌else◌, Option, none, some, List, [], ◌∷◌, ◌++◌, add_u64, sub_u64,
  sum_u64,
}
use ddcoin.Prelude.Result.{ok, err}
use ddcoin.Prelude.Bytes.{Bytes, bytes_eq}
use ddcoin.Data.{Cash, CoinAddress, Transaction, TransactionId, Block, BlockId}
use ddcoin.External.{External}
use ddcoin.Transaction
use ddcoin.Transaction.{new_cash, amounts}
use ddcoin.Hub.Messages.{NodeId, Message, Reply}
use ddcoin.Hub.Client.{
  ClientError, Client, ret, fail, crash, ask, cast, no_reply, insufficient_cash,
  refused_transaction, ask_block_id, ask_block, ask_cash_set,
}

-- `inputs.iter().map(|c| c.amount()).sum::<u64>()`
abbrev pub worth : List Cash → ℕ
worth cash = sum_u64 (amounts cash)

-- The loop over the cash set: `inputs` are found, and `needed` is `amount + fee`.
unfoldable pub gather : CoinAddress → ℕ → List Cash → List Cash → List Cash
gather sender needed inputs [] = inputs
gather sender needed inputs (cash ∷ set) =
    let skipped = gather sender needed inputs set in
    let inputs' = inputs ++ cash ∷ [] in
    let more = gather sender needed inputs' set in
    if not (cash.owner == sender)
    then skipped
    else if leb needed (worth inputs')
    then inputs'
    else more

module _ {S A : Type 0} where
  unfoldable pub leading_block : (Block → Client S A) → Client S A
  unfolding ask_block_id ask_block
  leading_block k =
      ask_block_id Message.query_leading_block
        λ id. ask_block (Message.query_block id) λ block. elim block [ none ↦ crash | some b ↦ k b ]

  unfoldable pub transaction_depth : TransactionId → (Option ℕ → Client S A) → Client S A
  transaction_depth id k =
      ask (Message.query_transaction_depth id)
        λ r. elim r [ Reply.depth d ↦ k d | _ ↦ fail no_reply ]

  unfoldable pub get_transaction : TransactionId → (Option Transaction → Client S A) → Client S A
  get_transaction id k =
      ask (Message.query_transaction id)
        λ r. elim r [ Reply.transaction t ↦ k t | _ ↦ fail no_reply ]

  unfoldable pub get_block : BlockId → (Option Block → Client S A) → Client S A
  get_block id k = ask_block (Message.query_block id) k

  unfoldable pub peers : (List NodeId → Client S A) → Client S A
  peers k = ask Message.query_peers λ r. elim r [ Reply.node_ids ids ↦ k ids | _ ↦ fail no_reply ]

  unfoldable pub id : (NodeId → Client S A) → Client S A
  id k = ask Message.query_local_node_id λ r. elim r [ Reply.node_id n ↦ k n | _ ↦ fail no_reply ]

-- The outputs: the amount for the receiver, and what is left for the sender.
unfoldable pub transfer_outputs :
    CoinAddress → CoinAddress → ℕ → ℕ → Bytes → Bytes → List Cash → List Cash
transfer_outputs sender receiver amount fee transfer_id rest_id inputs =
    new_cash transfer_id amount receiver
    ∷ new_cash rest_id (sub_u64 (sub_u64 (worth inputs) amount) fee) sender
    ∷ []

module _ {S : Type 0} ⦃x : External⦄ where
  -- The transaction, made and sent.
  unfoldable pub send_transfer : Bytes → List Cash → List Cash → Client S TransactionId
  send_transfer signer inputs outputs = elim (Transaction.new signer inputs outputs) [
    | err e ↦ fail refused_transaction
    | ok t ↦ cast (Message.new_transaction t) (ret (Transaction.id t))
  ]

  unfoldable pub new_transfer : Bytes → CoinAddress → ℕ → ℕ → Bytes → Bytes → Client S TransactionId
  unfolding ask_cash_set
  new_transfer signer receiver amount fee transfer_id rest_id =
      ask_cash_set Message.query_leading_cash_set λ cash_set.
        let sender = x.verifying_key signer in
        let inputs = gather sender (add_u64 amount fee) [] cash_set in
        if ltb (worth inputs) (add_u64 amount fee)
        then fail insufficient_cash
        else send_transfer signer inputs
            (transfer_outputs sender receiver amount fee transfer_id rest_id inputs)
