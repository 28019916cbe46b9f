-- ===== src/Chain/Start.antt =====
-- `PeerHubActorState::new`, the part of it that concerns blocks, and the state that it gives.
use ddcoin.Prelude.{ℕ, ◌<◌, ◌≡◌, ◌≢◌, refl, sym, ap, ◌∙◌, some, inl, inr, [], arith, true, length}
use ddcoin.Prelude.Outcome.{Outcome, Returns, done, ◌>>=◌}
use ddcoin.Prelude.Bytes.{bytes_eq}
use ddcoin.HashMap.{get, insert}
use ddcoin.HashMap.Laws.{get-insert_cases, get-insert_self, get-insert_ne, get-nil}
use ddcoin.Data.{Block, BlockId}
use ddcoin.External.{External, SignsCorrectly, EncodesInOrder}
use ddcoin.Config.{Config}
use ddcoin.Block
use ddcoin.Block.{zero_hash}
use ddcoin.Block.Genesis.{IsGenesis, genesis_key, create_genesis-Returns}
use ddcoin.Block.{genesis_draft}
use ddcoin.Block.Mining.{meets}
use ddcoin.Chain.{ChainState}
use ddcoin.Chain.Linked.{Inv}

module _ ⦃x : External⦄ where
  -- The state around a genesis block.
  abbrev pub start : Config → Block → ChainState
  start config genesis = record {
    cash_set = record { block_id = Block.id genesis; cash = [] };
    config = config;
    genesis_id = Block.id genesis;
    mempool = [];
    valid_blocks = insert (Block.id genesis) genesis [];
    unconfirmed_blocks = [];
    invalid_blocks = [];
    next_blocks = [];
    leading_block = Block.id genesis;
  }

  -- `fuel` bounds the search for the nonce of the genesis block.
  unfoldable pub new : ℕ → Config → Outcome ChainState
  new fuel config = do
    genesis_block ←
        Block.create_genesis fuel config.genesis_difficulty config.genesis_timestamp
          config.initial_block_subsidy
    done (start config genesis_block)

  one_genesis : (config : Config) (g : Block) → length (start config g).valid_blocks ≡ 1
  unfolding insert
  one_genesis config g = refl

  module _ (config : Config) (g : Block)
      (root : IsGenesis config.genesis_difficulty config.genesis_timestamp g)
      (nonzero : Block.id g ≢ zero_hash) where
    only_genesis :
        (k : BlockId) (b : Block)
        → get k (insert (Block.id g) g []) ≡ some b
        → (Block.id g ≡ k) × (g ≡ b)
    only_genesis k b h = elim (get-insert_cases (Block.id g) k g b [] h) [
      | inl found ↦ found
      | inr old ↦ cc (old, get-nil {V = Block} k)
    ]

    pub start-Inv : Inv (start config g)
    start-Inv = record {
      root = g;
      root_at = get-insert_self (Block.id g) g [];
      root_seqno = root.seqno;
      root_prev = root.prev;
      no_zero = get-insert_ne (Block.id g) zero_hash g [] nonzero ∙ get-nil zero_hash;
      keyed = λ k b h. let (p, q) = only_genesis k b h in ap Block.id (sym q) ∙ p;
      small = λ k b h.
          let (_, q) = only_genesis k b h in
          omega (arith, ap (λ (y : Block). y.inner.seqno) q, root.seqno);
      linked = λ k b h ne. absurd (ne (sym (only_genesis k b h).0));
      leader = g;
      leader_at = get-insert_self (Block.id g) g [];
      leader_max = λ k b h. omega (arith, ap (λ (y : Block). y.inner.seqno) (only_genesis k b h).1);
      pool_keyed = λ k b h. cc (h, get-nil {V = Block} k);
      pool_admissible = λ k b h. cc (h, get-nil {V = Block} k);
      pool_fresh = λ k b h. cc (h, get-nil {V = Block} k);
      cash_at_genesis = refl;
    }

  -- Where signatures verify and the nonce is encoded last, and a nonce below the bound meets the
  -- level of the genesis block, `PeerHubActorState::new` returns a state whose store is linked and
  -- has one valid block. It is assumed that the genesis block does not have the hash of zeros for its id.
  pub new-Inv :
      (signs : SignsCorrectly x) (encodes : EncodesInOrder x) (fuel n : ℕ) (config : Config)
      → meets
          (genesis_draft config.genesis_difficulty config.genesis_timestamp
            config.initial_block_subsidy
            (x.verifying_key genesis_key))
          n
        ≡ true
      → n < fuel
      → ((g : Block)
          → Block.create_genesis fuel config.genesis_difficulty config.genesis_timestamp
              config.initial_block_subsidy
            ≡ done g
          → Block.id g ≢ zero_hash)
      → Returns (λ s. Inv s × (length s.valid_blocks ≡ 1)) (new fuel config)
  unfolding new
  new-Inv signs encodes fuel n config met enough nonzero =
      let (g, e, root) =
        create_genesis-Returns signs encodes config.genesis_difficulty config.genesis_timestamp
          config.initial_block_subsidy fuel n met enough in
      (start config g, rw e, (start-Inv config g root (nonzero g e), one_genesis config g))
