-- ===== src/Peer/Fetch.antt =====
-- About src/peerhub.rs and src/peer.rs, two nodes: the one asks the other for a block that it announces.
use mathlib.Core.List.{append-nil}
use ddcoin.Prelude.{
  ℕ, ◌<◌, ◌≤◌, ◌≡◌, refl, sym, subst, ◌∙◌, true, false, Option, none, some, [], ◌∷◌, ◌++◌, length,
  inl, inr, Bool-cases,
}
use ddcoin.Prelude.Outcome.{Outcome, done, ◌>>=◌, Returns}
use ddcoin.Prelude.Bytes.{Bytes, bytes_eq}
use ddcoin.HashMap.{get, insert}
use ddcoin.HashMap.Laws.{get-insert_self}
use ddcoin.Data.{Block, BlockId, Timestamp}
use ddcoin.External.{External}
use ddcoin.Block
use ddcoin.Chain.{knows_block}
use ddcoin.Chain.Linked.{IsAdmissible}
use ddcoin.Validation.Checks.{IsAccepted}
use ddcoin.Hub
use ddcoin.Hub.{HubState, Handled}
use ddcoin.Hub.Messages.{NodeId, Network, PeerMessage, Message}
use ddcoin.Hub.Handle.{handle}
use ddcoin.Hub.Safe.{HubInv, IsSafe}
use ddcoin.Hub.Kept.{handle-IsSafe}
use ddcoin.Hub.Grows.{HasBlock, new_block-HasBlock}
use ddcoin.Peer.{stream_ended, forward, run}
use ddcoin.Peer.Written.{IsBuffered, Travels, frame, send_to_peer-written, run-empty, run-cons}
use ddcoin.Peer.Delivery.{deliver}

module _ ⦃x : External⦄ (net : Network Bytes) (decode : Bytes → Option PeerMessage) (root_fuel : ℕ)
    (now : ℕ → Timestamp) where
  -- What has been written for a peer.
  abbrev outgoing : NodeId → HubState Bytes → Bytes
  outgoing id h = elim (get id h.peers) [ none ↦ [] | some stream ↦ stream ]

  -- The loop that reads from `sender` gets what was written, and the actor handles what it casts.
  receive : ℕ → NodeId → Bytes → HubState Bytes → Outcome (HubState Bytes)
  receive fuel sender written h =
      run decode (λ n. true) fuel sender 0 written >>= λ r. deliver net root_fuel now 0 h r.0

  -- `asker` hears from `answerer` of a block, then `answerer` gets what `asker` writes to it, and then
  -- `asker` what `answerer` writes.
  pub fetch :
      ℕ → BlockId → HubState Bytes → HubState Bytes → Outcome (HubState Bytes × HubState Bytes)
  unfolding receive
  fetch fuel id asker answerer = do
    asked ←
        deliver net root_fuel now 0 asker (Message.announce_block answerer.local_node_id id ∷ [])
    answered ← receive fuel asker.local_node_id (outgoing answerer.local_node_id asked) answerer
    got ← receive fuel answerer.local_node_id (outgoing asker.local_node_id answered) asked
    done (got, answered)

  deliver-one :
      (h : HubState Bytes) (m : Message Bytes) (r : Handled Bytes)
      → handle net root_fuel (now 0) h m ≡ done r
      → deliver net root_fuel now 0 h (m ∷ []) ≡ done r.state
  unfolding deliver
  deliver-one h m r e = elim (Bool-cases r.failed) [
    | inl stop ↦ rw (e, stop, deliver) refl
    | inr on ↦ rw (e, on, deliver) refl
  ]

  receive-frame :
      (fuel : ℕ) (sender : NodeId) (msg : PeerMessage) (t : Travels net decode msg)
      (h : HubState Bytes)
      → length (frame net decode t) < fuel
      → receive fuel sender (frame net decode t) h
        ≡ deliver net root_fuel now 0 h (forward sender msg ∷ [])
  unfolding receive
  receive-frame fuel sender msg t h enough =
      let one = run-cons net decode sender msg [] t [] (run-empty net decode sender) in
      let same : frame net decode t ++ [] ≡ frame net decode t = append-nil (frame net decode t) in
      let read : run {S = Bytes} decode (λ n. true) fuel sender 0 (frame net decode t)
          ≡ done (forward sender msg ∷ [], stream_ended) =
        subst
          (λ written.
            run {S = Bytes} decode (λ n. true) fuel sender 0 written
            ≡ done (forward sender msg ∷ [], stream_ended))
          same
          (one (λ n. true) fuel 0 (λ n. refl)
            (subst (λ written. length written < fuel) (sym same) enough)) in
      rw read refl

  -- The node after `written` has gone to the stream of `id`, to which nothing had been written.
  abbrev wrote : NodeId → Bytes → HubState Bytes → HubState Bytes
  wrote id written h = record h { peers = insert id written h.peers }

  outgoing-wrote :
      (id : NodeId) (written : Bytes) (h : HubState Bytes)
      → outgoing id (wrote id written h) ≡ written
  outgoing-wrote id written h = rw (get-insert_self id written h.peers, outgoing) refl

  asks-wrote :
      (h : HubState Bytes) (peer : NodeId) (id : BlockId)
      → IsBuffered net
      → (t : Travels net decode (PeerMessage.get_block_request id)) → get peer h.peers ≡ some []
      → knows_block h.chain id ≡ false
      → handle net root_fuel (now 0) h (Message.announce_block peer id)
        ≡ done (record { state = wrote peer (frame net decode t) h; reply = none; failed = false })
  unfolding handle Hub.announce_block
  asks-wrote h peer id b t at unknown =
      rw (unknown, send_to_peer-written net decode peer _ h.peers [] b t at) refl

  answers-wrote :
      (h : HubState Bytes) (peer : NodeId) (block : Block)
      → IsBuffered net
      → (t : Travels net decode (PeerMessage.get_block_response h.local_node_id block))
      → get peer h.peers ≡ some []
      → get (Block.id block) h.valid_blocks ≡ some block
      → handle net root_fuel (now 0) h (Message.get_block peer (Block.id block))
        ≡ done (record { state = wrote peer (frame net decode t) h; reply = none; failed = false })
  unfolding handle Hub.get_block
  answers-wrote h peer block b t at found =
      rw (found, send_to_peer-written net decode peer _ h.peers [] b t at, Hub.get_block) refl

  -- What a block has to be for `asker` to take it from `answerer`.
  pub record IsOffered (asker answerer : HubState Bytes) (block : Block) : Type 0 where
    pub inv : HubInv asker
    pub admissible : IsAdmissible block
    pub unknown : knows_block asker.chain (Block.id block) ≡ false
    pub in_time : block.inner.timestamp ≤ now 0
    pub prev : Block
    pub prev_at : get block.inner.prev_id asker.valid_blocks ≡ some prev
    pub accepted : IsAccepted asker.chain block prev
    pub held : get (Block.id block) answerer.valid_blocks ≡ some block

  -- The two are connected, nothing has been written yet, and the two messages have encodings.
  pub record AreConnected (fuel : ℕ) (asker answerer : HubState Bytes) (block : Block)
      : Type 0 where
    pub to_answerer : get answerer.local_node_id asker.peers ≡ some []
    pub to_asker : get asker.local_node_id answerer.peers ≡ some []
    pub request : Travels net decode (PeerMessage.get_block_request (Block.id block))
    pub response : Travels net decode (PeerMessage.get_block_response answerer.local_node_id block)
    pub request_short : length (frame net decode request) < fuel
    pub response_short : length (frame net decode response) < fuel

  taken-HasBlock :
      (asker answerer : HubState Bytes) (block : Block) (h : HubState Bytes)
      → IsOffered asker answerer block
      → HubInv h
      → h.chain ≡ asker.chain
      → Returns (HasBlock net block) (
          deliver net root_fuel now 0 h
            (Message.new_block (some answerer.local_node_id) block ∷ []))
  taken-HasBlock asker answerer block h offered inv same =
      let (r, e, has) =
        new_block-HasBlock net root_fuel (now 0) h (some answerer.local_node_id) block offered.prev
          inv offered.admissible (rw same offered.unknown) offered.in_time (rw same offered.prev_at)
          (rw same offered.accepted) in
      (r.state, deliver-one h (Message.new_block (some answerer.local_node_id) block) r e, has)

  -- Two connected nodes whose streams keep what is written, and a block that the one has: when the
  -- other hears of it, it asks for it, the first reads the request and answers, and the other
  -- reads the answer and then has the block as a valid one, is in its invariant, and has a leading
  -- block as high at least; no valid block of the first changes. The block is admissible, unknown
  -- to the other, not from the future, and meets the rules after a predecessor that is valid
  -- there; the two messages have encodings that decode to them; nothing has been written before;
  -- and the fuel is above the bytes of each.
  pub fetch-HasBlock :
      (fuel : ℕ) (asker answerer : HubState Bytes) (block : Block)
      → IsBuffered net
      → AreConnected fuel asker answerer block
      → IsOffered asker answerer block
      → Returns
          (λ r. HasBlock net block r.0 × (r.1.chain ≡ answerer.chain))
          (fetch fuel (Block.id block) asker answerer)
  unfolding fetch forward
  fetch-HasBlock fuel asker answerer block b connected offered =
      let asks =
        asks-wrote asker answerer.local_node_id (Block.id block) b connected.request
          connected.to_answerer offered.unknown in
      let asked = wrote answerer.local_node_id (frame net decode connected.request) asker in
      let answered = wrote asker.local_node_id (frame net decode connected.response) answerer in
      let inv : HubInv asked = subst IsSafe asks (
        handle-IsSafe net root_fuel (now 0) asker
          (Message.announce_block answerer.local_node_id (Block.id block)) offered.inv tt) in
      let (got, e, has) = taken-HasBlock asker answerer block asked offered inv refl in
      let answers =
        answers-wrote answerer asker.local_node_id block b connected.response connected.to_asker
          offered.held in
      let first =
        deliver-one asker (Message.announce_block answerer.local_node_id (Block.id block))
          (record { state = asked; reply = none; failed = false }) asks in
      let second : receive fuel asker.local_node_id (outgoing answerer.local_node_id asked) answerer
          ≡ done answered =
        rw (outgoing-wrote answerer.local_node_id (frame net decode connected.request) asker) (
          receive-frame fuel asker.local_node_id _ connected.request answerer
            connected.request_short
          ∙ deliver-one answerer (Message.get_block asker.local_node_id (Block.id block))
              (record { state = answered; reply = none; failed = false }) answers) in
      let third : receive fuel answerer.local_node_id (outgoing asker.local_node_id answered) asked
          ≡ done got =
        rw (outgoing-wrote asker.local_node_id (frame net decode connected.response) answerer) (
          receive-frame fuel answerer.local_node_id _ connected.response asked
            connected.response_short
          ∙ e) in
      ((got, answered), rw (first, second, third) refl, (has, refl))
