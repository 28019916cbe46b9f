-- ===== src/Display/Kinds.antt =====
-- About src/peerhub.rs: the kind of a message to the actor is read from its text.
use ddcoin.Prelude.{
  ℕ, suc, ◌==◌, ℕ_eq, ◌≡◌, refl, sym, ap, ◌∙◌, if◌then◌else◌, Option, none, some, List, [], ◌∷◌,
  ℕ_discrete,
}
use ddcoin.Prelude.Bytes.{Bytes, bytes_eq, Bytes-discrete, ascii_bytes}
use ddcoin.External.{External}
use ddcoin.Hub.Messages.{Message}
use ddcoin.Display.{Formats}
use ddcoin.Display.Messages.{message_text}

-- The part of a text before the first parenthesis.
name_of : Bytes → Bytes
name_of [] = []
name_of (c ∷ s) = let rest = name_of s in if c == b'(' then [] else c ∷ rest

abbrev names : List Bytes
names =
    ascii_bytes "ShouldConnect"
    ∷ ascii_bytes "NewPeer"
    ∷ ascii_bytes "AnnounceTransaction"
    ∷ ascii_bytes "AnnounceBlock"
    ∷ ascii_bytes "GetTransaction"
    ∷ ascii_bytes "GetBlock"
    ∷ ascii_bytes "NewTransaction"
    ∷ ascii_bytes "NewBlock"
    ∷ ascii_bytes "QueryTransaction"
    ∷ ascii_bytes "QueryTransactions"
    ∷ ascii_bytes "QueryTransactionDepth"
    ∷ ascii_bytes "QueryTransactionDepths"
    ∷ ascii_bytes "QueryBlock"
    ∷ ascii_bytes "QueryPeers"
    ∷ ascii_bytes "QueryLocalNodeId"
    ∷ ascii_bytes "QueryMemPool"
    ∷ ascii_bytes "QueryLeadingBlock"
    ∷ ascii_bytes "QueryDifficultyAdjustTime"
    ∷ ascii_bytes "QueryLeadingCashSet"
    ∷ []

-- The place of a name in a list that begins at `n`.
place : ℕ → Bytes → List Bytes → Option ℕ
place n name [] = none
place n name (k ∷ ks) = let rest = place (suc n) name ks in if name == k then some n else rest

module _ {S : Type 0} where
  -- The constructors of `PeerHubActorMessage`, in the order of `names`.
  kind : Message S → ℕ
  kind (Message.should_connect id) = 0
  kind (Message.new_peer id stream connecting) = 1
  kind (Message.announce_transaction id txn_id) = 2
  kind (Message.announce_block id block_id) = 3
  kind (Message.get_transaction id txn_id) = 4
  kind (Message.get_block id block_id) = 5
  kind (Message.new_transaction txn) = 6
  kind (Message.new_block from block) = 7
  kind (Message.query_transaction txn_id) = 8
  kind (Message.query_transactions ids) = 9
  kind (Message.query_transaction_depth txn_id) = 10
  kind (Message.query_transaction_depths ids) = 11
  kind (Message.query_block block_id) = 12
  kind Message.query_peers = 13
  kind Message.query_local_node_id = 14
  kind Message.query_mem_pool = 15
  kind Message.query_leading_block = 16
  kind (Message.query_difficulty_adjust_time seqno) = 17
  kind Message.query_leading_cash_set = 18

  module _ (formats : Formats) ⦃x : External⦄ where
    kind-read : (m : Message S) → place 0 (name_of (message_text formats m)) names ≡ some (kind m)
    unfolding message_text name_of place kind ℕ_discrete Bytes-discrete
    kind-read (Message.should_connect id) = refl
    kind-read (Message.new_peer id stream connecting) = refl
    kind-read (Message.announce_transaction id txn_id) = refl
    kind-read (Message.announce_block id block_id) = refl
    kind-read (Message.get_transaction id txn_id) = refl
    kind-read (Message.get_block id block_id) = refl
    kind-read (Message.new_transaction txn) = refl
    kind-read (Message.new_block from block) = refl
    kind-read (Message.query_transaction txn_id) = refl
    kind-read (Message.query_transactions ids) = refl
    kind-read (Message.query_transaction_depth txn_id) = refl
    kind-read (Message.query_transaction_depths ids) = refl
    kind-read (Message.query_block block_id) = refl
    kind-read Message.query_peers = refl
    kind-read Message.query_local_node_id = refl
    kind-read Message.query_mem_pool = refl
    kind-read Message.query_leading_block = refl
    kind-read (Message.query_difficulty_adjust_time seqno) = refl
    kind-read Message.query_leading_cash_set = refl

    -- Two messages to the actor that have one text are of one kind.
    message_text-kind :
        (m n : Message S) → message_text formats m ≡ message_text formats n → kind m ≡ kind n
    message_text-kind m n same =
        let read =
          sym (kind-read m) ∙ ap (λ text. place 0 (name_of text) names) same ∙ kind-read n in
        cc read
