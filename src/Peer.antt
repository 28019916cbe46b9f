-- ===== src/Peer.antt =====
-- src/peer.rs: `Peer::run`, which reads the frames that a peer writes and casts what they say to the
-- actor. A stream is the bytes that come before the connection ends; `decode` is `serdes::transport`'s,
-- and `running` says whether the actor still runs at each cast. The loop ends only by an error.
pub mod Frames
pub mod Written
pub mod Delivery
pub mod Stops
pub mod Fetch
use mathlib.Core.List.{reverse}
use ddcoin.Prelude.{ℕ, zero, suc, Bool, true, false, Option, none, some, List, [], ◌∷◌}
use ddcoin.Prelude.Outcome.{Outcome, done, out_of_fuel, ◌>>=◌}
use ddcoin.Prelude.Bytes.{Bytes, from_le_bytes}
use ddcoin.Hub.Messages.{NodeId, PeerMessage, BroadcastMessage, Message}

pub data PeerError : Type 0 where
  stream_ended undecodable actor_stopped : PeerError

-- `read_exact`: the bytes, and the rest of the stream.
unfoldable pub read_exact : ℕ → Bytes → Option (Bytes × Bytes)
read_exact zero stream = some ([], stream)
read_exact (suc n) [] = none
read_exact (suc n) (b ∷ stream) = elim (read_exact n stream) [
  | none ↦ none
  | some r ↦ some (b ∷ r.0, r.1)
]

-- `u32::from_be_bytes`
unfoldable pub from_be_bytes : Bytes → ℕ
from_be_bytes bytes = from_le_bytes (reverse bytes)

-- The two reads of a round.
unfoldable pub read_frame : Bytes → Option (Bytes × Bytes)
read_frame stream = elim (read_exact 4 stream) [
  | none ↦ none
  | some r ↦ read_exact (from_be_bytes r.0) r.1
]

module _ {S : Type 0} where
  -- What a message of the peer `id` becomes.
  unfoldable pub forward : NodeId → PeerMessage → Message S
  forward id (PeerMessage.broadcast (BroadcastMessage.announce_transaction txn_id)) =
      Message.announce_transaction id txn_id
  forward id (PeerMessage.broadcast (BroadcastMessage.announce_block block_id)) =
      Message.announce_block id block_id
  forward id (PeerMessage.get_transaction_request txn_id) = Message.get_transaction id txn_id
  forward id (PeerMessage.get_transaction_response txn) = Message.new_transaction txn
  forward id (PeerMessage.get_block_request block_id) = Message.get_block id block_id
  forward id (PeerMessage.get_block_response node_id block) = Message.new_block (some node_id) block

  -- The messages that were cast, and what ended the loop. `casts` counts those before.
  unfoldable pub run :
      (Bytes → Option PeerMessage)
      → (ℕ → Bool)
      → ℕ
      → NodeId
      → ℕ
      → Bytes
      → Outcome (List (Message S) × PeerError)
  run decode running zero id casts stream = out_of_fuel
  run decode running (suc fuel) id casts stream = elim (read_frame stream) [
    | none ↦ done ([], stream_ended)
    | some r ↦ elim (decode r.0) [
      | none ↦ done ([], undecodable)
      | some msg ↦ elim (running casts) [
        | false ↦ done ([], actor_stopped)
        | true ↦ run decode running fuel id (suc casts) r.1 >>= λ more.
            done (forward id msg ∷ more.0, more.1)
      ]
    ]
  ]
