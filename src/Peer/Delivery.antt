-- ===== src/Peer/Delivery.antt =====
-- About src/peer.rs and src/peerhub.rs: the actor handles, one after the other, what the loop of a peer
-- casts to it. `now` is the clock at each message.
use ddcoin.Prelude.{
  ℕ, zero, suc, ◌<◌, ◌≡◌, refl, arith, Bool, true, false, Option, some, List, [], ◌∷◌, length, inl,
  inr, Bool-cases, Option-cases,
}
use ddcoin.Prelude.Outcome.{Outcome, done, panic, out_of_fuel, ◌>>=◌, Returns}
use ddcoin.Prelude.Bytes.{Bytes}
use ddcoin.Data.{Block, Timestamp}
use ddcoin.External.{External}
use ddcoin.Chain.Linked.{IsAdmissible}
use ddcoin.Hub.{HubState}
use ddcoin.Hub.Messages.{NodeId, Network, PeerMessage, Message}
use ddcoin.Hub.Handle.{handle}
use ddcoin.Hub.Safe.{HubInv}
use ddcoin.Peer.{PeerError, stream_ended, read_frame, forward, run}
use ddcoin.Peer.Frames.{length-read_frame}

module _ ⦃x : External⦄ where
  -- The blocks of a message are admissible.
  abbrev pub CarriesAdmissible : PeerMessage → Type 0
  CarriesAdmissible (PeerMessage.get_block_response id block) = IsAdmissible block
  CarriesAdmissible _ = Unit

module _ {S : Type 0} ⦃x : External⦄ where
  -- As `IsSafe`, of a state.
  abbrev pub IsKept : Outcome (HubState S) → Type 0
  IsKept (done h) = HubInv h
  IsKept panic = ⊥
  IsKept out_of_fuel = Unit

  -- The messages that a peer may cause.
  abbrev pub AllCaused : NodeId → List (Message S) → Type 0
  AllCaused id [] = Unit
  AllCaused id (m ∷ ms) =
      ((msg : PeerMessage) × (m ≡ forward id msg) × CarriesAdmissible msg) × AllCaused id ms

-- The frames that a stream begins with, one after the other.
pub data IsFrame : Bytes → Bytes → Type 0 where
  first :
      (stream frame rest : Bytes) → read_frame stream ≡ some (frame, rest) → IsFrame frame stream
  later :
      (stream frame bytes rest : Bytes)
      → read_frame stream ≡ some (frame, rest)
      → IsFrame bytes rest
      → IsFrame bytes stream

module _ ⦃x : External⦄ (decode : Bytes → Option PeerMessage) where
  -- Every block that a frame of the stream carries is admissible.
  abbrev pub SendsAdmissible : Bytes → Type 0
  SendsAdmissible stream =
      (bytes : Bytes) (n : NodeId) (b : Block)
      → IsFrame bytes stream
      → decode bytes ≡ some (PeerMessage.get_block_response n b)
      → IsAdmissible b

  frame-CarriesAdmissible :
      (stream bytes rest : Bytes) (msg : PeerMessage)
      → SendsAdmissible stream
      → read_frame stream ≡ some (bytes, rest)
      → decode bytes ≡ some msg
      → CarriesAdmissible msg
  frame-CarriesAdmissible stream bytes rest (PeerMessage.broadcast m) sends at e = tt
  frame-CarriesAdmissible stream bytes rest (PeerMessage.get_transaction_request t) sends at e = tt
  frame-CarriesAdmissible stream bytes rest (PeerMessage.get_transaction_response t) sends at e = tt
  frame-CarriesAdmissible stream bytes rest (PeerMessage.get_block_request b) sends at e = tt
  frame-CarriesAdmissible stream bytes rest (PeerMessage.get_block_response n b) sends at e =
      sends bytes n b (IsFrame.first stream bytes rest at) e

module _ (S : Type 0) ⦃x : External⦄ (decode : Bytes → Option PeerMessage) (running : ℕ → Bool)
    (id : NodeId) where
  pub run-AllCaused :
      (fuel casts : ℕ) (stream : Bytes)
      → length stream < fuel
      → SendsAdmissible decode stream
      → Returns (λ r. AllCaused id r.0) (run {S = S} decode running fuel id casts stream)
  unfolding run
  run-AllCaused zero casts stream h sends = absurd (omega arith)
  run-AllCaused (suc fuel) casts stream h sends = elim (Option-cases (read_frame stream)) [
    | inl ended ↦ rw (ended, run) (([], stream_ended), refl, tt)
    | inr (r, e) ↦ elim (Option-cases (decode r.0)) [
      | inl bad ↦ rw (e, bad, run) (([], PeerError.undecodable), refl, tt)
      | inr (msg, d) ↦ elim (Bool-cases (running casts)) [
        | inr stopped ↦ rw (e, d, stopped, run) (([], PeerError.actor_stopped), refl, tt)
        | inl on ↦
            let shorter = length-read_frame stream r e in
            let (more, again, all) =
              run-AllCaused fuel (suc casts) r.1 (omega (arith, shorter))
                (λ bytes n b at d'. sends bytes n b (IsFrame.later stream r.0 bytes r.1 e at) d') in
            rw (e, d, on, again, run)
              (
                (forward id msg ∷ more.0, more.1),
                refl,
                ((msg, refl, frame-CarriesAdmissible decode stream r.0 r.1 msg sends e d), all),
              )
      ]
    ]
  ]

module _ {S : Type 0} ⦃x : External⦄ (net : Network S) (root_fuel : ℕ) (now : ℕ → Timestamp) where
  -- The actor stops when its handler fails.
  unfoldable pub deliver : ℕ → HubState S → List (Message S) → Outcome (HubState S)
  deliver k h [] = done h
  deliver k h (m ∷ ms) = handle net root_fuel (now k) h m >>= λ r. elim r.failed [
    | true ↦ done r.state
    | false ↦ deliver (suc k) r.state ms
  ]
