-- ===== src/Samples/Fetching.antt =====
-- The theorem on two nodes of which the one asks the other for a block, applied to a node that has the first
-- block and one that has the second block as well.
use ddcoin.Prelude.{
  zero, suc, ◌≡◌, refl, true, false, Option, none, some, [], ◌∷◌, ◌++◌, arith, ℕ_discrete,
}
use ddcoin.Prelude.Outcome.{Returns}
use ddcoin.Prelude.Bytes.{Bytes, Bytes-discrete, bytes_eq, to_le_bytes}
use ddcoin.HashMap.{get, insert}
use ddcoin.Block
use ddcoin.Hub.{HubState}
use ddcoin.Hub.Messages.{Network, PeerMessage}
use ddcoin.Hub.Send.{length_prefix}
use ddcoin.Hub.Grows.{HasBlock}
use ddcoin.Peer.Written.{IsBuffered}
use ddcoin.Peer.Fetch.{IsOffered, AreConnected, fetch, fetch-HasBlock}
use ddcoin.Samples.{
  toy, genesis, second, one_block, one_block-Inv, two_blocks, second-IsFresh, small_config-IsUsable,
}
use ddcoin.Samples.Users.{second-IsAccepted, second-unknown}

abbrev wire : Network Bytes
wire = record {
  write_all = λ s m. (s ++ m, true);
  flush = λ s. (s, true);
  encode = λ m. elim m [
    | PeerMessage.get_block_request id ↦ some (0 ∷ id)
    | PeerMessage.get_block_response id block ↦ some (1 ∷ [])
    | _ ↦ none
  ];
  node_lt = λ a b. false;
}

-- The only block on the wire is the second one.
abbrev decoded : Bytes → Option PeerMessage
decoded [] = none
decoded (zero ∷ id) = some (PeerMessage.get_block_request id)
decoded (suc _ ∷ rest) = some (PeerMessage.get_block_response (5 ∷ []) second)

abbrev behind : HubState Bytes
behind = record {
  chain = one_block;
  peers = ((5 ∷ []), []) ∷ [];
  annoucements = [];
  local_node_id = 4 ∷ [];
}

abbrev ahead : HubState Bytes
ahead = record {
  chain = two_blocks;
  peers = ((4 ∷ []), []) ∷ [];
  annoucements = [];
  local_node_id = 5 ∷ [];
}

wire-IsBuffered : IsBuffered wire
wire-IsBuffered = record { appends = λ s m. refl; flushes = λ s. refl }

connected : AreConnected wire decoded 1 (λ k. 2000) 40 behind ahead second
unfolding get length_prefix to_le_bytes Block.id Bytes-discrete ℕ_discrete
connected = record {
  to_answerer = refl;
  to_asker = refl;
  request = record {
    encoded = 0 ∷ 2 ∷ 1001 ∷ [];
    is_encoded = refl;
    decoded = refl;
    short = omega arith;
  };
  response = record { encoded = 1 ∷ []; is_encoded = refl; decoded = refl; short = omega arith };
  request_short = omega arith;
  response_short = omega arith;
}

offered : IsOffered wire decoded 1 (λ k. 2000) behind ahead second
unfolding get insert Block.id Bytes-discrete ℕ_discrete
offered = record {
  inv = (one_block-Inv, small_config-IsUsable, omega arith);
  admissible = second-IsFresh.admissible;
  unknown = second-unknown;
  in_time = omega arith;
  prev = genesis;
  prev_at = refl;
  accepted = second-IsAccepted;
  held = refl;
}

fetch-HasBlock_example :
    Returns
      (λ r. HasBlock wire second r.0 × (r.1.chain ≡ two_blocks))
      (fetch wire decoded 1 (λ k. 2000) 40 (Block.id second) behind ahead)
fetch-HasBlock_example =
    fetch-HasBlock wire decoded 1 (λ k. 2000) 40 behind ahead second wire-IsBuffered connected
      offered
