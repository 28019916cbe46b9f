-- ===== src/Hub/Messages.antt =====
-- The messages: src/peer.rs `BroadcastMessage` and `PeerMessage`, which travel between nodes, and
-- src/peerhub.rs `PeerHubActorMessage`, which the actor receives. A reply port is left out of the
-- message; what is sent to it is a `Reply`.
use ddcoin.Prelude.{ℕ, Bool, Option, List}
use ddcoin.Prelude.Bytes.{Bytes}
use ddcoin.Data.{Transaction, TransactionId, Block, BlockId, SequenceNo, Timestamp, Cash}

-- The public key of an iroh endpoint, 32 bytes.
abbrev pub NodeId : Type 0
NodeId = Bytes

pub data BroadcastMessage : Type 0 where
  announce_transaction : TransactionId → BroadcastMessage
  announce_block : BlockId → BroadcastMessage

pub data PeerMessage : Type 0 where
  broadcast : BroadcastMessage → PeerMessage
  get_transaction_request : TransactionId → PeerMessage
  get_transaction_response : Transaction → PeerMessage
  get_block_request : BlockId → PeerMessage
  get_block_response : NodeId → Block → PeerMessage

-- What the hub uses of other packages: the streams of iroh, on which a write may fail half way, the
-- order of node ids, and the encoding of `serdes::transport`.
pub record Network (S : Type 0) : Type 0 where
  pub write_all : S → Bytes → S × Bool
  pub flush : S → S × Bool
  pub encode : PeerMessage → Option Bytes
  pub node_lt : NodeId → NodeId → Bool

-- `PeerHubActorMessage`
pub data Message (S : Type 0) : Type 0 where
  should_connect : NodeId → Message S
  new_peer : NodeId → S → Bool → Message S
  announce_transaction announce_block : NodeId → Bytes → Message S
  get_transaction get_block : NodeId → Bytes → Message S
  new_transaction : Transaction → Message S
  new_block : Option NodeId → Block → Message S
  query_transaction : TransactionId → Message S
  query_transactions : List TransactionId → Message S
  query_transaction_depth : TransactionId → Message S
  query_transaction_depths : List TransactionId → Message S
  query_block : BlockId → Message S
  query_peers query_local_node_id query_mem_pool query_leading_block : Message S
  query_difficulty_adjust_time : SequenceNo → Message S
  query_leading_cash_set : Message S

pub data Reply : Type 0 where
  decision : Bool → Reply
  transaction : Option Transaction → Reply
  transactions : List (Option Transaction) → Reply
  depth : Option ℕ → Reply
  depths : List (Option ℕ) → Reply
  block : Option Block → Reply
  node_ids : List NodeId → Reply
  node_id : NodeId → Reply
  mem_pool : List (TransactionId × ℕ) → Reply
  block_id : BlockId → Reply
  time : Timestamp → Reply
  cash_set : List Cash → Reply
