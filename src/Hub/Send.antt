-- ===== src/Hub/Send.antt =====
-- src/peerhub.rs: `send_to_peer` and `broadcast`, and the frame that they write: the length of the
-- encoding as a big-endian u32, and the encoding.
use mathlib.Core.List.{reverse}
use ddcoin.Prelude.{
  ◌%◌, ◌^◌, ◌==◌, if◌then◌else◌, Bool, true, false, not, none, some, [], ◌∷◌, length,
}
use ddcoin.Prelude.Bytes.{Bytes, bytes_eq, to_le_bytes}
use ddcoin.HashMap.{HashMap, get, insert}
use ddcoin.Hub.Messages.{NodeId, Network, PeerMessage, BroadcastMessage}

abbrev pub PeerMap : Type 0 → Type 0
PeerMap S = HashMap NodeId S

-- `(encoded.len() as u32).to_be_bytes()`
unfoldable pub length_prefix : Bytes → Bytes
length_prefix encoded = reverse (to_le_bytes 4 (length encoded % 2 ^ 32))

module _ {S : Type 0} (net : Network S) where
  -- Three calls, each followed by `?`.
  unfoldable pub send_frame : S → Bytes → S × Bool
  send_frame stream encoded =
      let (stream₁, sent_length) = net.write_all stream (length_prefix encoded) in
      let (stream₂, sent) = net.write_all stream₁ encoded in
      if not sent_length
      then (stream₁, false)
      else if not sent
      then (stream₂, false)
      else net.flush stream₂

  unfoldable pub send_to_peer : PeerMessage → NodeId → PeerMap S → PeerMap S × Bool
  unfolding send_frame
  send_to_peer msg id peers = elim (get id peers) [
    | none ↦ (peers, false)
    | some stream ↦ elim (net.encode msg) [
      | none ↦ (peers, false)
      | some encoded ↦
          let (stream', sent) = send_frame stream encoded in (insert id stream' peers, sent)
    ]
  ]

  -- The loop of `broadcast`: to every peer but `skipped`, until one write fails.
  unfoldable pub send_to_all : NodeId → Bytes → PeerMap S → PeerMap S × Bool
  unfolding send_frame
  send_to_all skipped encoded [] = ([], true)
  send_to_all skipped encoded ((id, stream) ∷ peers) =
      let (stream', sent) = send_frame stream encoded in
      let (rest, all_sent) = send_to_all skipped encoded peers in
      if id == skipped
      then ((id, stream) ∷ rest, all_sent)
      else if sent
      then ((id, stream') ∷ rest, all_sent)
      else ((id, stream') ∷ peers, false)

  unfoldable pub broadcast : NodeId → BroadcastMessage → PeerMap S → PeerMap S × Bool
  unfolding send_to_all
  broadcast skipped msg peers = elim (net.encode (PeerMessage.broadcast msg)) [
    | none ↦ (peers, false)
    | some encoded ↦ send_to_all skipped encoded peers
  ]
