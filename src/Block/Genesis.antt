-- ===== src/Block/Genesis.antt =====
-- About src/block.rs: the block that `Block::create_genesis` makes.
use ddcoin.Prelude.{◌≡◌, ap, refl, arith, []}
use ddcoin.Prelude.Outcome.{done, panic, Returns, >>=-eq-done}
use ddcoin.Prelude.Result.{Result, ok, err}
use ddcoin.Prelude.Bytes.{Bytes, bytes_eq}
use ddcoin.Util.Hex.{hex_to_bytes, hex_loop, byte_at, is_ascii, ascii_to_num, join_digits}
use ddcoin.Block.Mining.{meets, try_confirm-IsMined}
use ddcoin.Data.{Block, BlockInner, UnconfirmedBlock, Difficulty, Timestamp}
use ddcoin.External.{External, SignsCorrectly, EncodesInOrder, with_nonce_field}
use ddcoin.Block.{
  zero_hash, BlockValidationError, with_nonce, find_nouce, try_confirm, create_genesis,
  genesis_secret, genesis_draft,
}
use ddcoin.Prelude.{ℕ, ◌<◌, true, ◌∷◌, ℕ_discrete}

-- The bytes of `genesis_secret`.
abbrev pub genesis_key : Bytes
genesis_key =
    1 ∷ 164 ∷ 178 ∷ 154 ∷ 127 ∷ 198 ∷ 18 ∷ 112 ∷ 128 ∷ 185 ∷ 235 ∷ 150 ∷ 46 ∷ 196 ∷ 241 ∷ 138 ∷ 58
    ∷ 97 ∷ 213 ∷ 224 ∷ 17 ∷ 204 ∷ 63 ∷ 168 ∷ 33 ∷ 213 ∷ 209 ∷ 209 ∷ 243 ∷ 13 ∷ 13 ∷ 219 ∷ []

genesis_key_lem : hex_to_bytes 32 genesis_secret ≡ done genesis_key
unfolding hex_to_bytes hex_loop byte_at is_ascii ascii_to_num join_digits ℕ_discrete
genesis_key_lem = refl

module _ ⦃x : External⦄ where
  pub with_nonce-inner :
      (u : UnconfirmedBlock) (key : Bytes) (n : ℕ) (b : Block)
      → with_nonce u key n ≡ ok b
      → b.inner ≡ with_nonce_field u n
  unfolding with_nonce
  with_nonce-inner u key n b h = ground arith

  unwrapped :
      (r : Result BlockValidationError Block) (b : Block)
      → elim r [ ok c ↦ done c | err _ ↦ panic ] ≡ done b
      → r ≡ ok b
  unwrapped (ok c) b h = cc
  unwrapped (err e) b h = cc

  -- The genesis block that is created has height 0, the zero hash for its predecessor, the configured
  -- time and difficulty, and no transactions.
  pub record IsGenesis (difficulty : Difficulty) (timestamp : Timestamp) (b : Block) : Type 0 where
    pub seqno : b.inner.seqno ≡ 0
    pub prev : b.inner.prev_id ≡ zero_hash
    pub at : b.inner.timestamp ≡ timestamp
    pub level : b.inner.difficulty ≡ difficulty
    pub empty : b.inner.transactions ≡ []

  draft-IsGenesis :
      (difficulty : Difficulty) (timestamp : Timestamp) (subsidy : ℕ) (miner key : Bytes) (n : ℕ)
      (r : Result BlockValidationError Block) (b : Block)
      → done (with_nonce (genesis_draft difficulty timestamp subsidy miner) key n) ≡ done r
      → r ≡ ok b
      → IsGenesis difficulty timestamp b
  draft-IsGenesis difficulty timestamp subsidy miner key n r b h e =
      let same =
        with_nonce-inner (genesis_draft difficulty timestamp subsidy miner) key n b (cc (h, e)) in
      record {
        seqno = ap (λ (i : BlockInner). i.seqno) same;
        prev = ap (λ (i : BlockInner). i.prev_id) same;
        at = ap (λ (i : BlockInner). i.timestamp) same;
        level = ap (λ (i : BlockInner). i.difficulty) same;
        empty = ap (λ (i : BlockInner). i.transactions) same;
      }

  create_genesis-IsGenesis :
      (fuel : ℕ) (difficulty : Difficulty) (timestamp : Timestamp) (subsidy : ℕ) (b : Block)
      → create_genesis fuel difficulty timestamp subsidy ≡ done b
      → IsGenesis difficulty timestamp b
  unfolding create_genesis try_confirm
  create_genesis-IsGenesis fuel difficulty timestamp subsidy b h =
      let (key, _, h₁) = >>=-eq-done (hex_to_bytes 32 genesis_secret) _ h in
      let (r, e, h₂) = >>=-eq-done (try_confirm fuel _ key) _ h₁ in
      let (n, _, f) = >>=-eq-done (find_nouce fuel _) _ e in
      draft-IsGenesis difficulty timestamp subsidy _ key n r b f (unwrapped r b h₂)

  -- Where a nonce below the bound meets the level, the genesis block is made.
  pub create_genesis-Returns :
      (signs : SignsCorrectly x) (encodes : EncodesInOrder x) (difficulty : Difficulty)
      (timestamp : Timestamp) (subsidy fuel n : ℕ)
      → meets (genesis_draft difficulty timestamp subsidy (x.verifying_key genesis_key)) n ≡ true
      → n < fuel
      → Returns (IsGenesis difficulty timestamp) (create_genesis fuel difficulty timestamp subsidy)
  unfolding create_genesis
  create_genesis-Returns signs encodes difficulty timestamp subsidy fuel n met enough =
      let u = genesis_draft difficulty timestamp subsidy (x.verifying_key genesis_key) in
      let (b, e, _) = try_confirm-IsMined signs encodes u genesis_key fuel n refl met enough in
      let made : create_genesis fuel difficulty timestamp subsidy ≡ done b =
        rw (genesis_key_lem, e) in
      (b, made, create_genesis-IsGenesis fuel difficulty timestamp subsidy b made)
