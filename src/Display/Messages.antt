-- ===== src/Display/Messages.antt =====
-- The `Display` of the messages of src/peer.rs and src/peerhub.rs.
use ddcoin.Prelude.{Option, none, some, List, ◌++◌}
use ddcoin.Prelude.Bytes.{Bytes, ascii_bytes}
use ddcoin.Data.{Sha256Hash}
use ddcoin.External.{External}
use ddcoin.Hub.Messages.{NodeId, BroadcastMessage, PeerMessage, Message}
use ddcoin.Display.{Formats, hash_text, ids_text, transaction_text, block_text}

-- `Name(argument)` and `Name(first, second)`
abbrev pub call_text : Bytes → Bytes → Bytes
call_text name argument = name ++ (ascii_bytes "(" ++ (argument ++ ascii_bytes ")"))

abbrev pub pair_text : Bytes → Bytes → Bytes → Bytes
pair_text name first second = call_text name (first ++ (ascii_bytes ", " ++ second))

-- `Name([ids])`
abbrev pub list_text : Bytes → List Sha256Hash → Bytes
list_text name ids = call_text name (ascii_bytes "[" ++ (ids_text ids ++ ascii_bytes "]"))

unfoldable pub broadcast_text : BroadcastMessage → Bytes
unfolding hash_text
broadcast_text (BroadcastMessage.announce_transaction txn_id) =
    call_text (ascii_bytes "AnnounceTransaction") (hash_text txn_id)
broadcast_text (BroadcastMessage.announce_block block_id) =
    call_text (ascii_bytes "AnnounceBlock") (hash_text block_id)

module _ (formats : Formats) ⦃x : External⦄ where
  unfoldable pub peer_message_text : PeerMessage → Bytes
  unfolding broadcast_text hash_text transaction_text block_text
  peer_message_text (PeerMessage.broadcast msg) =
      call_text (ascii_bytes "Broadcast") (broadcast_text msg)
  peer_message_text (PeerMessage.get_transaction_request txn_id) =
      call_text (ascii_bytes "GetTransactionRequest") (hash_text txn_id)
  peer_message_text (PeerMessage.get_transaction_response txn) =
      call_text (ascii_bytes "GetTransactionResponse") (transaction_text formats txn)
  peer_message_text (PeerMessage.get_block_request block_id) =
      call_text (ascii_bytes "GetBlockRequest") (hash_text block_id)
  peer_message_text (PeerMessage.get_block_response node_id block) =
      pair_text (ascii_bytes "GetBlockResponse") (formats.node_id node_id)
        (block_text formats block)

  sender_text : Option NodeId → Bytes
  sender_text none = ascii_bytes "self"
  sender_text (some id) = formats.node_id id

  unfoldable pub message_text : {S : Type 0} → Message S → Bytes
  unfolding hash_text ids_text transaction_text block_text sender_text
  message_text (Message.should_connect id) =
      call_text (ascii_bytes "ShouldConnect") (formats.node_id id)
  message_text (Message.new_peer id stream connecting) =
      call_text (ascii_bytes "NewPeer") (formats.node_id id)
  message_text (Message.announce_transaction id txn_id) =
      pair_text (ascii_bytes "AnnounceTransaction") (formats.node_id id) (hash_text txn_id)
  message_text (Message.get_transaction id txn_id) =
      pair_text (ascii_bytes "GetTransaction") (formats.node_id id) (hash_text txn_id)
  message_text (Message.new_transaction txn) =
      call_text (ascii_bytes "NewTransaction") (transaction_text formats txn)
  message_text (Message.query_transaction txn_id) =
      call_text (ascii_bytes "QueryTransaction") (hash_text txn_id)
  message_text Message.query_peers = ascii_bytes "QueryPeers"
  message_text (Message.announce_block id block_id) =
      pair_text (ascii_bytes "AnnounceBlock") (formats.node_id id) (hash_text block_id)
  message_text (Message.get_block id block_id) =
      pair_text (ascii_bytes "GetBlock") (formats.node_id id) (hash_text block_id)
  message_text (Message.new_block from block) =
      pair_text (ascii_bytes "NewBlock") (sender_text from) (block_text formats block)
  message_text (Message.query_block block_id) =
      call_text (ascii_bytes "QueryBlock") (hash_text block_id)
  message_text Message.query_local_node_id = ascii_bytes "QueryLocalNodeId"
  message_text Message.query_mem_pool = ascii_bytes "QueryMemPool"
  message_text (Message.query_transactions ids) = list_text (ascii_bytes "QueryTransactions") ids
  message_text Message.query_leading_block = ascii_bytes "QueryLeadingBlock"
  message_text (Message.query_transaction_depth txn_id) =
      call_text (ascii_bytes "QueryTransactionDepth") (hash_text txn_id)
  message_text (Message.query_transaction_depths ids) =
      list_text (ascii_bytes "QueryTransactionDepths") ids
  message_text (Message.query_difficulty_adjust_time seqno) =
      call_text (ascii_bytes "QueryDifficultyAdjustTime") (formats.integer seqno)
  message_text Message.query_leading_cash_set = ascii_bytes "QueryLeadingCashSet"
