-- ===== src/Hub/Keeps.antt =====
-- About src/peerhub.rs, `PeerHubActor::handle`: the valid blocks under every message.
use ddcoin.Prelude.{ℕ, suc, ◌≡◌, subst, List, arith, false, length}
use ddcoin.Prelude.Outcome.{done}
use ddcoin.Data.{Block, BlockId, Timestamp}
use ddcoin.Block
use ddcoin.Chain.Linked.{IsAdmissible}
use ddcoin.External.{External}
use ddcoin.Chain.{ChainState, knows_block}
use ddcoin.Validation.Rejecting.{reject-total}
use ddcoin.Validation.Extends.{Extends, Extends-refl}
use ddcoin.Validation.Total.{validate_block-IsStep}
use ddcoin.Hub.{HubState, Handled}
use ddcoin.Hub.Messages.{Network, Message}
use ddcoin.Hub.Handle.{handle}
use ddcoin.Hub.Safe.{HubInv, IsWellFormed, new_block-fresh}
use ddcoin.Hub.Changes.{IsIndifferent, Relates, Keeps, handle-Keeps}

Extends-IsIndifferent : IsIndifferent Extends
Extends-IsIndifferent = record {
  same = Extends-refl;
  pooled = λ s pool. Extends-refl s;
  cashed = λ s cash. Extends-refl s;
}

module _ {S : Type 0} ⦃x : External⦄ (net : Network S) where
  new_block-Relates :
      (h : HubState S) (block : Block)
      → HubInv h
      → IsAdmissible block
      → knows_block h.chain (Block.id block) ≡ false
      → Relates Extends h.chain block
  new_block-Relates h block i a new = record {
    rejected = λ t e.
        let (u, f, (r, shape)) = reject-total h.chain (Block.id block) in
        let same : u ≡ t = cc (e, f) in
        subst (Extends h.chain) same (rw shape (Extends-refl h.chain));
    validated = λ r e.
        let (q, f, step) =
          validate_block-IsStep (suc (length h.unconfirmed_blocks)) h.chain block i.0 i.1
            (new_block-fresh net h block a new) (omega arith) in
        let same : q ≡ r = cc (e, f) in
        subst (λ (u : ChainState × List BlockId). Extends h.chain u.0) same step.extends;
  }

  pub handle-Extends :
      (root_fuel : ℕ) (now : Timestamp) (h : HubState S) (m : Message S) (r : Handled S)
      → HubInv h
      → IsWellFormed h m
      → handle net root_fuel now h m ≡ done r
      → Extends h.chain r.state.chain
  handle-Extends root_fuel now h m r i w e =
      subst (Keeps net Extends Extends-IsIndifferent h.chain) e (
        handle-Keeps net Extends Extends-IsIndifferent root_fuel now h m λ from block same fine new.
          new_block-Relates h block i (subst (IsWellFormed h) same w) new)
