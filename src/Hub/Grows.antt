-- ===== src/Hub/Grows.antt =====
-- About src/peerhub.rs, the message `NewBlock`: a block that meets the rules.
use ddcoin.Prelude.{
  ℕ, suc, ◌≤◌, ◌≡◌, refl, sym, subst, arith, false, Option, some, List, [], ◌∷◌, length,
  le→ltb_false, Bool-cases, inl, inr,
}
use ddcoin.Prelude.Outcome.{done, Returns}
use ddcoin.Prelude.Bytes.{bytes_eq}
use ddcoin.HashMap.{get, contains}
use ddcoin.Data.{Block, BlockId, Timestamp}
use ddcoin.External.{External}
use ddcoin.Block
use ddcoin.Chain.{ChainState, knows_block}
use ddcoin.Chain.Linked.{IsAdmissible}
use ddcoin.Validation.{validate_block}
use ddcoin.Validation.Checks.{IsAccepted}
use ddcoin.Validation.Accepted.{IsIn, validate_block-IsIn}
use ddcoin.Hub
use ddcoin.Hub.{HubState, Handled, sent, announce_blocks}
use ddcoin.Hub.Messages.{NodeId, Network, Message, BroadcastMessage}
use ddcoin.Hub.Send.{broadcast}
use ddcoin.Hub.Handle.{handle}
use ddcoin.Hub.Safe.{HubInv, IsSafe, new_block-fresh}
use ddcoin.Hub.Kept.{handle-IsSafe}

module _ {S : Type 0} ⦃x : External⦄ (net : Network S) where
  pub announce_blocks-same_chain :
      (ids : List BlockId) (h : HubState S) → (announce_blocks net h ids).state.chain ≡ h.chain
  unfolding announce_blocks
  announce_blocks-same_chain [] h = refl
  announce_blocks-same_chain (id ∷ ids) h =
      let r = sent h (broadcast net h.local_node_id (BroadcastMessage.announce_block id) h.peers) in
      elim (Bool-cases r.failed) [
        | inl stop ↦ rw stop
        | inr on ↦ rw on (announce_blocks-same_chain ids r.state)
      ]

  -- The node afterwards: in its invariant, with the block, and with a leading block as high at least.
  pub record HasBlock (block : Block) (h : HubState S) : Type 0 where
    pub inv : HubInv h
    pub in_valid : get (Block.id block) h.valid_blocks ≡ some block
    pub leads : block.inner.seqno ≤ inv.0.leader.inner.seqno

  unknown-not_invalid :
      (s : ChainState) (id : BlockId)
      → knows_block s id ≡ false
      → contains s.invalid_blocks id ≡ false
  unfolding knows_block
  unknown-not_invalid s id e = ground arith

  new_block-announced :
      (root_fuel : ℕ) (now : Timestamp) (h : HubState S) (from : Option NodeId) (block : Block)
      (r : ChainState × List BlockId) (is_in : IsIn block r)
      → knows_block h.chain (Block.id block) ≡ false
      → block.inner.timestamp ≤ now
      → validate_block (suc (length h.unconfirmed_blocks)) h.chain block ≡ done r
      → handle net root_fuel now h (Message.new_block from block)
        ≡ done (announce_blocks net (record h { chain = r.0 }) (Block.id block ∷ is_in.others))
  unfolding handle Hub.new_block Hub.after_validation
  new_block-announced root_fuel now h from block r is_in unknown in_time e = rw (
    unknown-not_invalid h.chain (Block.id block) unknown,
    unknown,
    le→ltb_false now block.inner.timestamp in_time,
    e,
    is_in.reported,
  )

  -- A node whose store is linked, whose settings are usable and whose table of peers is within its
  -- limit takes an admissible, unknown block that is not from the future and meets the rules after
  -- its valid predecessor: the handler returns, the block is valid under its id, the leading block
  -- is as high at least, and the three hold again.
  pub new_block-HasBlock :
      (root_fuel : ℕ) (now : Timestamp) (h : HubState S) (from : Option NodeId) (block prev : Block)
      → HubInv h
      → IsAdmissible block
      → knows_block h.chain (Block.id block) ≡ false
      → block.inner.timestamp ≤ now
      → get block.inner.prev_id h.valid_blocks ≡ some prev
      → IsAccepted h.chain block prev
      → Returns
          (λ r. HasBlock block r.state)
          (handle net root_fuel now h (Message.new_block from block))
  new_block-HasBlock root_fuel now h from block prev i a unknown in_time at accepted =
      let (r, e, is_in) =
        validate_block-IsIn (suc (length h.unconfirmed_blocks)) h.chain block prev i.0 i.1
          (new_block-fresh net h block a unknown) (omega arith) at accepted in
      let announced =
        announce_blocks net (record h { chain = r.0 }) (Block.id block ∷ is_in.others) in
      let handled = new_block-announced root_fuel now h from block r is_in unknown in_time e in
      let inv : HubInv announced.state =
        subst IsSafe handled
          (handle-IsSafe net root_fuel now h (Message.new_block from block) i a) in
      let same =
        announce_blocks-same_chain (Block.id block ∷ is_in.others) (record h { chain = r.0 }) in
      let found : get (Block.id block) announced.state.valid_blocks ≡ some block =
        subst (λ c. get (Block.id block) c.valid_blocks ≡ some block) (sym same) is_in.in_valid in
      (
        announced,
        handled,
        record {
          inv = inv;
          in_valid = found;
          leads = inv.0.leader_max (Block.id block) block found;
        },
      )
