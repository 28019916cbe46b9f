-- ===== src/Hub/Safe.antt =====
-- About src/peerhub.rs, `PeerHubActor::handle`: the invariant of a node, and the messages that bring a block
-- or a transaction.
use ddcoin.Prelude.{
  ℕ, suc, ◌≤◌, ◌<◌, ◌≡◌, refl, arith, Bool, true, false, Option, none, some, List, [], ◌∷◌, length,
  ltb, if◌then◌else◌, Bool-cases, inl, inr, u64_mod,
}
use ddcoin.Prelude.Outcome.{Outcome, done, panic, out_of_fuel, ◌>>=◌}
use ddcoin.Prelude.Bytes.{bytes_eq}
use ddcoin.HashMap.{get, insert, remove, contains_key, contains}
use ddcoin.Data.{Block, BlockId, Timestamp, Transaction, TransactionId}
use ddcoin.External.{External}
use ddcoin.Util.Difficulty.{IsUsable}
use ddcoin.Transaction
use ddcoin.Block
use ddcoin.Chain.{knows_block, block_root}
use ddcoin.Chain.Linked.{Inv, IsAdmissible}
use ddcoin.Chain.Root.{block_root-no_panic}
use ddcoin.Validation.Extends.{IsFresh}
use ddcoin.Validation.Rejecting.{reject-total}
use ddcoin.Validation.Total.{validate_block-IsStep}
use ddcoin.Hub
use ddcoin.Hub.{HubState, Handled, peer_size_limit, quiet, sent, announce_blocks, forget}
use ddcoin.Hub.Messages.{NodeId, Network, PeerMessage, BroadcastMessage, Message}
use ddcoin.Hub.Send.{send_to_peer, broadcast}
use ddcoin.Hub.Peers.{length-send_to_peer, length-broadcast}

module _ {S : Type 0} ⦃x : External⦄ where
  abbrev pub HubInv : HubState S → Type 0
  HubInv h = Inv h.chain × IsUsable h.chain.config × (length h.peers ≤ peer_size_limit)

  -- A call may go on for ever (in `block_root`), but it does not panic, and it keeps the invariant.
  abbrev pub IsSafe : Outcome (Handled S) → Type 0
  IsSafe (done r) = HubInv r.state
  IsSafe panic = ⊥
  IsSafe out_of_fuel = Unit

  -- What a message has to meet: a block is admissible, and a height that is asked about is above 0
  -- and at most one above the leading block.
  abbrev pub IsWellFormed : HubState S → Message S → Type 0
  IsWellFormed h (Message.new_block from block) = IsAdmissible block
  IsWellFormed h (Message.query_difficulty_adjust_time n) =
      (0 < n)
      × (n < u64_mod)
      × ((b : Block) × (get h.leading_block h.valid_blocks ≡ some b) × (n ≤ suc b.inner.seqno))
  IsWellFormed h _ = Unit

  either_state :
      (c : Bool) (a b : Handled S)
      → HubInv a.state
      → HubInv b.state
      → HubInv (if c then a else b).state
  either_state true a b p q = p
  either_state false a b p q = q

  module _ (net : Network S) where
    pub sent_to-HubInv :
        (h : HubState S) (msg : PeerMessage) (id : NodeId)
        → HubInv h
        → HubInv (sent h (send_to_peer net msg id h.peers)).state
    sent_to-HubInv h msg id (v, usable, le) =
        (v, usable, rw (length-send_to_peer net msg id h.peers) le)

    pub broadcast-HubInv :
        (h : HubState S) (skipped : NodeId) (msg : BroadcastMessage)
        → HubInv h
        → HubInv (sent h (broadcast net skipped msg h.peers)).state
    broadcast-HubInv h skipped msg (v, usable, le) =
        (v, usable, rw (length-broadcast net skipped msg h.peers) le)

    announce_blocks-HubInv :
        (ids : List BlockId) (h : HubState S) → HubInv h → HubInv (announce_blocks net h ids).state
    unfolding announce_blocks
    announce_blocks-HubInv [] h i = i
    announce_blocks-HubInv (id ∷ ids) h i =
        let first = broadcast-HubInv h h.local_node_id (BroadcastMessage.announce_block id) i in
        either_state _ _ _ first (announce_blocks-HubInv ids _ first)

    forget-HubInv :
        (id : TransactionId) (r : Handled S) → HubInv r.state → HubInv (forget net id r).state
    forget-HubInv id r i =
        either_state r.failed r
          (record r { state = record (r.state) { annoucements = remove id r.state.annoucements } })
          i i

    pub new_transaction-HubInv :
        (h : HubState S) (txn : Transaction)
        → HubInv h
        → HubInv (Hub.new_transaction net h txn).state
    unfolding Hub.new_transaction
    new_transaction-HubInv h txn i =
        let id = Transaction.id txn in
        let h' = record h { chain = record (h.chain) { mempool = insert id txn h.mempool } } in
        let kept =
          broadcast-HubInv h' h.local_node_id (BroadcastMessage.announce_transaction id) i in
        elim (Bool-cases (contains_key id h.mempool)) [
          | inl known ↦ rw known i
          | inr new ↦ rw new (forget-HubInv id _ kept)
        ]

    -- The missing block is asked for, if it is known which.
    ask-IsSafe :
        (h : HubState S) (from : Option NodeId) (root : Outcome BlockId)
        → ¬ (root ≡ panic)
        → HubInv h
        → IsSafe (
            root >>= λ missing_root. elim from [
              | none ↦ done (quiet h)
              | some id ↦ done (
                  sent h (send_to_peer net (PeerMessage.get_block_request missing_root) id h.peers))
            ])
    ask-IsSafe h none (done missing) ne i = i
    ask-IsSafe h (some id) (done missing) ne i =
        sent_to-HubInv h (PeerMessage.get_block_request missing) id i
    ask-IsSafe h from panic ne i = ne refl
    ask-IsSafe h from out_of_fuel ne i = tt

    after_validation-IsSafe :
        (root_fuel : ℕ) (h : HubState S) (from : Option NodeId) (block : Block) (ids : List BlockId)
        → HubInv h
        → IsSafe (Hub.after_validation net root_fuel h from block ids)
    unfolding Hub.after_validation
    after_validation-IsSafe root_fuel h from block (id ∷ ids) i =
        announce_blocks-HubInv (id ∷ ids) h i
    after_validation-IsSafe root_fuel h from block [] i =
        elim (Bool-cases (contains_key (Block.id block) h.unconfirmed_blocks)) [
          | inl waiting ↦ rw waiting (
              ask-IsSafe h from (block_root root_fuel h.chain block.inner.prev_id)
                (block_root-no_panic root_fuel h.chain block.inner.prev_id) i)
          | inr gone ↦ rw gone i
        ]

    pub new_block-fresh :
        (h : HubState S) (block : Block)
        → IsAdmissible block
        → knows_block h.chain (Block.id block) ≡ false
        → IsFresh h.chain block
    unfolding knows_block
    new_block-fresh h block a e = record {
      admissible = a;
      not_valid = ground arith;
      not_pooled = ground arith;
    }

    pub new_block-IsSafe :
        (root_fuel : ℕ) (now : Timestamp) (h : HubState S) (from : Option NodeId) (block : Block)
        → HubInv h
        → IsAdmissible block
        → IsSafe (Hub.new_block net root_fuel now h from block)
    unfolding Hub.new_block
    new_block-IsSafe root_fuel now h from block i a =
        let (v, usable, le) = i in
        elim (Bool-cases (contains h.invalid_blocks (Block.id block))) [
          | inl bad ↦ rw bad i
          | inr fine ↦ elim (Bool-cases (knows_block h.chain (Block.id block))) [
            | inl known ↦ rw (fine, known) i
            | inr new ↦ elim (Bool-cases (ltb now block.inner.timestamp)) [
              | inl late ↦
                  let (t, e, (r, shape)) = reject-total h.chain (Block.id block) in
                  rw (fine, new, late, e, shape) (v, usable, le)
              | inr in_time ↦
                  let (r, e, step) =
                    validate_block-IsStep (suc (length h.unconfirmed_blocks)) h.chain block v usable
                      (new_block-fresh h block a new) (omega arith) in
                  rw (fine, new, in_time, e)
                    (after_validation-IsSafe root_fuel (record h { chain = r.0 }) from block r.1
                      (step.inv, rw step.extends.same_config usable, le))
            ]
          ]
        ]
