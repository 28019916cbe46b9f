-- ===== src/Samples/Peers.antt =====
-- The theorems on frames and on what a peer sends applied to the small node of Samples.antt.
use ddcoin.Prelude.{
  ℕ, ◌≡◌, ◌↔◌, refl, subst, true, false, Option, none, some, List, [], ◌∷◌, ◌++◌, arith, ℕ_discrete,
  Bool,
}
use ddcoin.Prelude.Outcome.{done}
use ddcoin.Prelude.Bytes.{Bytes, Bytes-discrete, bytes_eq}
use ddcoin.HashMap.{get, contains_key}
use ddcoin.Transaction
use ddcoin.Chain.Linked.{IsAdmissible}
use ddcoin.Hub
use ddcoin.Hub.{HubState}
use ddcoin.Hub.Messages.{NodeId, Network, PeerMessage}
use ddcoin.Hub.Send.{PeerMap}
use ddcoin.Peer.{forward}
use ddcoin.Peer.Written.{IsBuffered, AllTravel, IsWritten, send_messages, send_messages-IsWritten}
use ddcoin.Peer.Delivery.{SendsAdmissible, deliver}
use ddcoin.Peer.Stops.{SomeRefuses, new_transaction-fails_iff, unknown_request-stops}
use ddcoin.Samples.{toy, second, second-IsFresh}
use ddcoin.Samples.Examples.{quiet_net}
use ddcoin.Samples.Users.{pooled, pay}

-- Every frame asks for the block of its bytes.
abbrev asking : Bytes → Option PeerMessage
asking bytes = some (PeerMessage.get_block_request bytes)

abbrev always : ℕ → Bool
always n = true

abbrev written_to : Network Bytes
written_to = record {
  write_all = λ s m. (s ++ m, true);
  flush = λ s. (s, true);
  encode = λ m. elim m [ PeerMessage.get_block_request id ↦ some id | _ ↦ none ];
  node_lt = λ a b. false;
}

written_to-IsBuffered : IsBuffered written_to
written_to-IsBuffered = record { appends = λ s m. refl; flushes = λ s. refl }

abbrev questions : List PeerMessage
questions = PeerMessage.get_block_request (1 ∷ 2 ∷ []) ∷ PeerMessage.get_block_request (3 ∷ []) ∷ []

questions-AllTravel : AllTravel written_to asking questions
questions-AllTravel = (
  record { encoded = 1 ∷ 2 ∷ []; is_encoded = refl; decoded = refl; short = omega arith },
  (record { encoded = 3 ∷ []; is_encoded = refl; decoded = refl; short = omega arith }, tt),
)

abbrev one_peer : PeerMap Bytes
one_peer = ((9 ∷ []), (4 ∷ [])) ∷ []

one_peer-at : get (9 ∷ []) one_peer ≡ some (4 ∷ [])
unfolding get Bytes-discrete ℕ_discrete
one_peer-at = refl

send_messages-IsWritten_example :
    IsWritten written_to asking
      (9 ∷ [])
      (4 ∷ [])
      (4 ∷ [])
      questions
      (send_messages written_to asking (9 ∷ []) questions one_peer)
send_messages-IsWritten_example =
    send_messages-IsWritten written_to asking (9 ∷ []) (4 ∷ []) questions one_peer (4 ∷ [])
      written_to-IsBuffered questions-AllTravel one_peer-at

-- A frame without bytes carries the second block.
abbrev pub decode : Bytes → Option PeerMessage
decode [] = some (PeerMessage.get_block_response (9 ∷ []) second)
decode (_ ∷ rest) = none

abbrev pub second_frame : Bytes
second_frame = 0 ∷ 0 ∷ 0 ∷ 0 ∷ []

pub second_frame-SendsAdmissible : SendsAdmissible decode second_frame
second_frame-SendsAdmissible [] n b at e =
    let same : second ≡ b = cc e in subst IsAdmissible same second-IsFresh.admissible
second_frame-SendsAdmissible (c ∷ rest) n b at e = cc e

no_block : get (9 ∷ []) pooled.valid_blocks ≡ none
unfolding get Bytes-discrete ℕ_discrete
no_block = refl

unknown_request-stops_example :
    deliver quiet_net 1
      (λ k. 2000)
      0
      pooled
      (forward (9 ∷ []) (PeerMessage.get_block_request (9 ∷ [])) ∷ Hub.Messages.query_peers ∷ [])
    ≡ done pooled
unknown_request-stops_example =
    unknown_request-stops quiet_net 1 (λ k. 2000) 0 pooled (9 ∷ [])
      (PeerMessage.get_block_request (9 ∷ [])) (Hub.Messages.query_peers ∷ []) no_block

-- The peer has gone.
abbrev broken_net : Network ℕ
broken_net = record quiet_net { write_all = λ s m. (s, false) }

pay-new : contains_key (Transaction.id pay) pooled.mempool ≡ false
unfolding get Bytes-discrete ℕ_discrete Transaction.id
pay-new = refl

new_transaction-fails_iff_example :
    ((Hub.new_transaction broken_net pooled pay).failed ≡ true)
    ↔ SomeRefuses broken_net (4 ∷ []) (1 ∷ []) (((9 ∷ []), 0) ∷ [])
new_transaction-fails_iff_example =
    new_transaction-fails_iff broken_net pooled pay (1 ∷ []) pay-new refl
