-- ===== src/System/Settled.antt =====
-- About src/peerhub.rs and src/config.rs: what has become of every block that a node has seen, whatever its
-- users do.
use ddcoin.Prelude.{ℕ, ◌≡◌, sym, subst, true, List, [], none, some, inl, inr, ◌⊎◌}
use ddcoin.Prelude.Outcome.{done, >>=-eq-done}
use ddcoin.Prelude.Bytes.{bytes_eq}
use ddcoin.HashMap.{get, contains}
use ddcoin.HashMap.Laws.{get-nil}
use ddcoin.Data.{Block, BlockId}
use ddcoin.External.{External}
use ddcoin.Config.{Config}
use ddcoin.Chain.{ChainState}
use ddcoin.Chain.Start
use ddcoin.Chain.Start.{start}
use ddcoin.Block.{create_genesis}
use ddcoin.Validation.Tidy.{IsTidy, nothing, Waits, Retains, Retains-refl, Retains-trans}
use ddcoin.Validation.Tidy.Validates.{IsTidied}
use ddcoin.Hub
use ddcoin.Hub.{HubState, Handled}
use ddcoin.Hub.Messages.{NodeId, Network}
use ddcoin.Hub.Tidy.{handle-IsTidied}
use ddcoin.System.{System, Step}
use ddcoin.System.Runs.{Runs}

-- The valid, the invalid and the waiting blocks are told apart.
pub record IsSettled (s : ChainState) : Type 0 where
  -- no block is valid and invalid
  pub disjoint : (k : BlockId) → contains s.invalid_blocks k ≡ true → get k s.valid_blocks ≡ none
  -- a block whose predecessor is valid is not left in the pool
  pub judged :
      (k : BlockId) (b : Block)
      → get k s.unconfirmed_blocks ≡ some b
      → get b.inner.prev_id s.valid_blocks ≡ none
  -- a block in the pool is noted to wait for its predecessor, if that is not invalid
  pub noted :
      (k : BlockId) (b : Block)
      → get k s.unconfirmed_blocks ≡ some b
      → Waits s.next_blocks b.inner.prev_id k ⊎ (contains s.invalid_blocks b.inner.prev_id ≡ true)

module _ ⦃x : External⦄ where
  IsTidy-IsSettled : (s : ChainState) → IsTidy nothing s → IsSettled s
  IsTidy-IsSettled s t = record {
    disjoint = t.disjoint;
    judged = λ k b at. elim (t.reason k b at) [
      | inl w ↦ (t.waiting b.inner.prev_id k w).missing
      | inr (inl bad) ↦ t.disjoint b.inner.prev_id bad
      | inr (inr left) ↦ cc left
    ];
    noted = λ k b at. elim (t.reason k b at) [
      | inl w ↦ inl w
      | inr (inl bad) ↦ inr bad
      | inr (inr left) ↦ cc left
    ];
  }

  -- A node that has only its genesis block is tidy.
  start-IsTidy : (config : Config) (g : Block) → IsTidy nothing (start config g)
  unfolding contains
  start-IsTidy config g = record {
    pool_keyed = λ k b at. cc (at, get-nil {V = Block} k);
    waiting = λ p k w. cc (w, get-nil {V = List BlockId} p);
    reason = λ k b at. cc (at, get-nil {V = Block} k);
    disjoint = λ k bad. cc bad;
    looked_at = λ k b left at. cc left;
  }

  new-IsTidy :
      (fuel : ℕ) (config : Config) (c : ChainState)
      → Start.new fuel config ≡ done c
      → IsTidy nothing c
  unfolding Start.new
  new-IsTidy fuel config c e =
      let (g, _, f) = >>=-eq-done (create_genesis fuel _ _ _) _ e in
      let same : start config g ≡ c = cc f in subst (IsTidy nothing) same (start-IsTidy config g)

  -- So is the state that a node's actor starts with.
  pub pre_start-IsTidy :
      {S : Type 0} (fuel : ℕ) (node_id : NodeId) (config : Config) (h : HubState S)
      → Hub.pre_start fuel (node_id, config) ≡ done h
      → IsTidy nothing h.chain
  unfolding Hub.pre_start Hub.new
  pre_start-IsTidy {S = S} fuel node_id config h e =
      let (c, f, g) = >>=-eq-done (Start.new fuel config) _ e in
      let same : record { chain = c; peers = []; annoucements = []; local_node_id = node_id } ≡ h =
        cc g in
      subst (λ (k : HubState S). IsTidy nothing k.chain) same (new-IsTidy fuel config c f)

module _ {S : Type 0} ⦃x : External⦄ (net : Network S) where
  Step-IsTidied :
      (s t : System S)
      → Step net s t
      → IsTidy nothing s.hub.chain
      → IsTidied nothing s.hub.chain t.hub.chain
  Step-IsTidied s t (Step.asks i m k up at q) tidy = rw q (tidy, Retains-refl s.hub.chain)
  Step-IsTidied s t (Step.casts i m c up at q) tidy = rw q (tidy, Retains-refl s.hub.chain)
  Step-IsTidied s t (Step.handles root_fuel now e rest r up at ran q) tidy =
      rw q (handle-IsTidied net root_fuel now s.hub e.message r tidy ran)
  Step-IsTidied s t (Step.refuses_ask i m k down at q) tidy = rw q (tidy, Retains-refl s.hub.chain)
  Step-IsTidied s t (Step.refuses_cast i m c down at q) tidy = rw q (tidy, Retains-refl s.hub.chain)
  Step-IsTidied s t (Step.drops e rest down at q) tidy = rw q (tidy, Retains-refl s.hub.chain)

  pub Runs-IsTidied :
      (s t : System S)
      → Runs net s t
      → IsTidy nothing s.hub.chain
      → IsTidied nothing s.hub.chain t.hub.chain
  Runs-IsTidied _ _ (Runs.here s) tidy = (tidy, Retains-refl s.hub.chain)
  Runs-IsTidied _ _ (Runs.next s t u low step rest) tidy =
      let (tidy₁, kept) = Step-IsTidied s t step tidy in
      let (tidy₂, more) = Runs-IsTidied t u rest tidy₁ in
      (tidy₂, Retains-trans s.hub.chain t.hub.chain u.hub.chain kept more)

  -- From the state that a node's actor starts with, however the steps of its users and of the
  -- actor interleave, no block is both valid and invalid, a block whose predecessor is valid is
  -- not left in the pool, and a block in the pool is noted to wait for its predecessor unless that
  -- is invalid. Between any two states on the way, an invalid block stays invalid, and a block of
  -- the pool on an invalid one stays in the pool. It is assumed that the leading block is two
  -- below the last u64 at least at every step.
  pub Runs-IsSettled :
      (fuel : ℕ) (node_id : NodeId) (config : Config) (h : HubState S) (s t u : System S)
      → Hub.pre_start fuel (node_id, config) ≡ done h
      → s.hub ≡ h
      → Runs net s t
      → Runs net t u
      → IsSettled u.hub.chain × Retains t.hub.chain u.hub.chain
  Runs-IsSettled fuel node_id config h s t u e at runs more =
      let first =
        subst (λ (k : HubState S). IsTidy nothing k.chain) (sym at)
          (pre_start-IsTidy fuel node_id config h e) in
      let (tidy₁, _) = Runs-IsTidied s t runs first in
      let (tidy₂, kept) = Runs-IsTidied t u more tidy₁ in (IsTidy-IsSettled u.hub.chain tidy₂, kept)
