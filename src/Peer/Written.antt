-- ===== src/Peer/Written.antt =====
-- About src/peerhub.rs and src/peer.rs: messages that are sent one after the other, and the loop of the
-- receiver.
use mathlib.Core.List.{append-nil, append_assoc}
use ddcoin.Prelude.{
  ℕ, zero, suc, ◌^◌, ◌<◌, ◌≡◌, refl, ap, arith, Bool, true, Option, some, List, [], ◌∷◌, ◌++◌, map,
  length, length-append, if◌then◌else◌,
}
use ddcoin.Prelude.Outcome.{done}
use ddcoin.Prelude.Bytes.{Bytes, bytes_eq}
use ddcoin.HashMap.{get, insert}
use ddcoin.HashMap.Laws.{get-insert_self}
use ddcoin.Hub.Messages.{NodeId, Network, PeerMessage}
use ddcoin.Hub.Send.{PeerMap, length_prefix, send_frame, send_to_peer}
use ddcoin.Peer.{stream_ended, read_exact, read_frame, forward, run}
use ddcoin.Peer.Frames.{read_frame-written, length-length_prefix}

-- A stream that keeps what is written to it, in order.
pub record IsBuffered (net : Network Bytes) : Type 0 where
  pub appends : (stream m : Bytes) → net.write_all stream m ≡ (stream ++ m, true)
  pub flushes : (stream : Bytes) → net.flush stream ≡ (stream, true)

module _ (net : Network Bytes) (decode : Bytes → Option PeerMessage) where
  -- A message whose encoding decodes to it, and has a length that is a u32.
  pub record Travels (msg : PeerMessage) : Type 0 where
    pub encoded : Bytes
    pub is_encoded : net.encode msg ≡ some encoded
    pub decoded : decode encoded ≡ some msg
    pub short : length encoded < 2 ^ 32

  abbrev pub AllTravel : List PeerMessage → Type 0
  AllTravel [] = Unit
  AllTravel (msg ∷ msgs) = Travels msg × AllTravel msgs

  -- Sending one message after the other, until one fails.
  unfoldable pub send_messages : NodeId → List PeerMessage → PeerMap Bytes → PeerMap Bytes × Bool
  send_messages id [] peers = (peers, true)
  send_messages id (msg ∷ msgs) peers =
      let sent = send_to_peer net msg id peers in
      let more = send_messages id msgs sent.0 in if sent.1 then more else sent

  send_frame-written :
      IsBuffered net
      → (stream encoded : Bytes)
      → send_frame net stream encoded ≡ (stream ++ (length_prefix encoded ++ encoded), true)
  unfolding send_frame
  send_frame-written b stream encoded = rw (b.appends, b.appends, b.flushes, append_assoc) refl

  -- What the loop of the receiver makes of `written`.
  abbrev pub Receives : NodeId → List PeerMessage → Bytes → Type 0
  Receives sender msgs written =
      (running : ℕ → Bool) (fuel casts : ℕ)
      → ((n : ℕ) → running n ≡ true)
      → length written < fuel
      → run {S = Bytes} decode running fuel sender casts written
        ≡ done (map (forward sender) msgs, stream_ended)

  pub run-empty : (sender : NodeId) → Receives sender [] []
  unfolding run read_frame read_exact
  run-empty sender running zero casts on h = absurd (omega arith)
  run-empty sender running (suc fuel) casts on h = refl

  pub run-cons :
      (sender : NodeId) (msg : PeerMessage) (msgs : List PeerMessage) (t : Travels msg)
      (written : Bytes)
      → Receives sender msgs written
      → Receives sender (msg ∷ msgs) (length_prefix t.encoded ++ t.encoded ++ written)
  unfolding run forward
  run-cons sender msg msgs t written again running zero casts on h = absurd (omega arith)
  run-cons sender msg msgs t written again running (suc fuel) casts on h =
      let grouped = append_assoc (length_prefix t.encoded) t.encoded written in
      let shorter : length written < fuel = omega (
        arith,
        length-append (length_prefix t.encoded ++ t.encoded) written,
        length-append (length_prefix t.encoded) t.encoded,
        length-length_prefix t.encoded,
      ) in
      rw
        (
          grouped,
          read_frame-written t.encoded written t.short,
          t.decoded,
          on casts,
          again running fuel (suc casts) on shorter,
          run,
        )
        refl

  abbrev pub frame : {msg : PeerMessage} → Travels msg → Bytes
  frame t = length_prefix t.encoded ++ t.encoded

  pub send_to_peer-written :
      (id : NodeId) (msg : PeerMessage) (peers : PeerMap Bytes) (before : Bytes)
      → IsBuffered net
      → (t : Travels msg) → get id peers ≡ some before
      → send_to_peer net msg id peers ≡ (insert id (before ++ frame t) peers, true)
  unfolding send_to_peer
  send_to_peer-written id msg peers before b t at =
      rw (at, t.is_encoded, send_frame-written b before t.encoded, send_to_peer)

  -- What a stream has got since it was `before`.
  pub record IsWritten (id sender : NodeId) (before : Bytes) (msgs : List PeerMessage)
      (after : PeerMap Bytes × Bool) : Type 0 where
    pub written : Bytes
    pub stream : get id after.0 ≡ some (before ++ written)
    pub all_sent : after.1 ≡ true
    pub received : Receives sender msgs written

  -- Messages that `send_to_peer` writes one after the other to a stream that keeps what is written
  -- are read by the loop of the receiver as the same messages in the same order, each cast to its
  -- actor, and then the stream has ended. Every message has an encoding that decodes to it and is
  -- shorter than 2 ^ 32, the actor of the receiver runs, and the fuel is above the number of
  -- bytes.
  pub send_messages-IsWritten :
      (id sender : NodeId) (msgs : List PeerMessage) (peers : PeerMap Bytes) (before : Bytes)
      → IsBuffered net
      → AllTravel msgs
      → get id peers ≡ some before
      → IsWritten id sender before msgs (send_messages id msgs peers)
  unfolding send_messages send_to_peer insert
  send_messages-IsWritten id sender [] peers before b all at = record {
    written = [];
    stream = rw append-nil at;
    all_sent = refl;
    received = run-empty sender;
  }
  send_messages-IsWritten id sender (msg ∷ msgs) peers before b (t, all) at =
      let peers' = insert id (before ++ frame t) peers in
      let rest =
        send_messages-IsWritten id sender msgs peers' (before ++ frame t) b all
          (get-insert_self id (before ++ frame t) peers) in
      let sent = send_to_peer-written id msg peers before b t at in
      rw sent (record {
        written = frame t ++ rest.written;
        stream = rw rest.stream (ap some (append_assoc before (frame t) rest.written));
        all_sent = rest.all_sent;
        received = run-cons sender msg msgs t rest.written rest.received;
      })
