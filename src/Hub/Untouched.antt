-- ===== src/Hub/Untouched.antt =====
-- About src/peerhub.rs: the messages whose handlers leave every block where it is.
use ddcoin.Prelude.{◌≡◌, refl, arith, Bool-cases, inl, inr}
use ddcoin.Prelude.Bytes.{bytes_eq}
use ddcoin.Data.{BlockId, TransactionId}
use ddcoin.External.{External}
use ddcoin.Hub
use ddcoin.Hub.{HubState, Handled, quiet, sent, announce_blocks, forget}
use ddcoin.Hub.Messages.{NodeId, Network}

module _ {S : Type 0} ⦃x : External⦄ (net : Network S) where
  pub should_connect-same_chain :
      (h : HubState S) (id : NodeId) → (Hub.should_connect h id).state.chain ≡ h.chain
  unfolding Hub.should_connect
  should_connect-same_chain h id = ground arith

  pub announce_transaction-same_chain :
      (h : HubState S) (id : NodeId) (txn_id : TransactionId)
      → (Hub.announce_transaction net h id txn_id).state.chain ≡ h.chain
  unfolding Hub.announce_transaction
  announce_transaction-same_chain h id txn_id = ground arith

  pub announce_block-same_chain :
      (h : HubState S) (id : NodeId) (block_id : BlockId)
      → (Hub.announce_block net h id block_id).state.chain ≡ h.chain
  unfolding Hub.announce_block
  announce_block-same_chain h id block_id = ground arith

  pub get_transaction-same_chain :
      (h : HubState S) (id : NodeId) (txn_id : TransactionId)
      → (Hub.get_transaction net h id txn_id).state.chain ≡ h.chain
  unfolding Hub.get_transaction
  get_transaction-same_chain h id txn_id = ground arith

  pub get_block-same_chain :
      (h : HubState S) (id : NodeId) (block_id : BlockId)
      → (Hub.get_block net h id block_id).state.chain ≡ h.chain
  unfolding Hub.get_block
  get_block-same_chain h id block_id = ground arith

  pub forget-same_chain :
      (id : TransactionId) (r : Handled S) → (forget net id r).state.chain ≡ r.state.chain
  forget-same_chain id r = elim (Bool-cases r.failed) [
    | inl stop ↦ rw stop refl
    | inr on ↦ rw on refl
  ]
