-- ===== src/Block/Mining.antt =====
-- About src/block.rs: `find_nouce`, `with_nonce` and `try_confirm`, and the block that they make.
use ddcoin.Prelude.{
  ℕ, zero, suc, ◌+◌, ◌≤◌, ◌<◌, ◌≡◌, refl, ap, Bool, true, false, ◌++◌, arith, Bool-cases, inl, inr,
}
use ddcoin.Prelude.Outcome.{done, Returns}
use ddcoin.Prelude.Result.{ok}
use ddcoin.Prelude.Bytes.{Bytes, bytes_eq, to_le_bytes}
use ddcoin.Data.{Block, UnconfirmedBlock}
use ddcoin.External.{External, SignsCorrectly, EncodesInOrder, with_nonce_field}
use ddcoin.Util.Difficulty.{is_met}
use ddcoin.Block.{try_from, with_nonce, find_nouce_from, find_nouce, try_confirm}

module _ ⦃x : External⦄ where
  -- Whether `nonce` meets the level, on the bytes that the search hashes.
  abbrev pub meets : UnconfirmedBlock → ℕ → Bool
  meets u nonce = is_met u.difficulty (x.sha256 (x.encode_unconfirmed u ++ to_le_bytes 8 nonce))

  -- The first nonce that meets the level.
  pub record IsFirstNonce (u : UnconfirmedBlock) (from n : ℕ) : Type 0 where
    pub started : from ≤ n
    pub met : meets u n ≡ true
    pub first : (m : ℕ) → from ≤ m → m < n → meets u m ≡ false

  IsFirstNonce-back :
      (u : UnconfirmedBlock) (from n : ℕ)
      → meets u from ≡ false
      → IsFirstNonce u (suc from) n
      → IsFirstNonce u from n
  IsFirstNonce-back u from n miss v = record {
    started = omega (arith, v.started);
    met = v.met;
    first = λ m a b. ground (arith, v.first m);
  }

  after_miss :
      (u : UnconfirmedBlock) (from n : ℕ)
      → meets u n ≡ true
      → meets u from ≡ false
      → from ≤ n
      → suc from ≤ n
  after_miss u from n h miss p = grind arith

  find_nouce_from-IsFirstNonce :
      (u : UnconfirmedBlock) (fuel from n : ℕ)
      → meets u n ≡ true
      → from ≤ n
      → n < from + fuel
      → Returns
          (IsFirstNonce u from)
          (find_nouce_from fuel (x.encode_unconfirmed u) u.difficulty from)
  unfolding find_nouce_from
  find_nouce_from-IsFirstNonce u zero from n h p q = absurd (omega arith)
  find_nouce_from-IsFirstNonce u (suc fuel) from n h p q = elim (Bool-cases (meets u from)) [
    | inl hit ↦ (
      from,
      rw (hit, find_nouce_from),
      record { started = omega arith; met = hit; first = λ m a b. absurd (omega arith) },
    )
    | inr miss ↦
        rw (miss, find_nouce_from)
          (let (m, e, v) =
              find_nouce_from-IsFirstNonce u fuel (suc from) n h (after_miss u from n h miss p)
                (omega arith) in
            (m, e, IsFirstNonce-back u from m miss v))
  ]

  -- If a nonce below the bound meets the level, `find_nouce` returns, and it returns the first
  -- nonce that meets it.
  pub find_nouce-IsFirstNonce :
      (u : UnconfirmedBlock) (fuel n : ℕ)
      → meets u n ≡ true
      → n < fuel
      → Returns (IsFirstNonce u 0) (find_nouce fuel u)
  unfolding find_nouce
  find_nouce-IsFirstNonce u fuel n h q =
      find_nouce_from-IsFirstNonce u fuel 0 n h (omega arith) (omega arith)

  -- Every block that `with_nonce` returns passes the validation of a receiver unchanged.
  pub try_from-with_nonce :
      (laws : SignsCorrectly x) (u : UnconfirmedBlock) (key : Bytes) (nonce : ℕ) (b : Block)
      → with_nonce u key nonce ≡ ok b
      → try_from b.inner b.signature ≡ ok b
  unfolding with_nonce try_from
  try_from-with_nonce laws u key nonce b h = ground (
    arith,
    laws.own_key key,
    laws.own_signature key (x.encode_block_inner (with_nonce_field u nonce)),
  )

  confirmed : UnconfirmedBlock → Bytes → ℕ → Block
  confirmed u key nonce = record {
    inner = with_nonce_field u nonce;
    signature = x.sign key (x.encode_block_inner (with_nonce_field u nonce));
  }

  with_nonce-confirmed :
      (encodes : EncodesInOrder x) (u : UnconfirmedBlock) (key : Bytes) (nonce : ℕ)
      → u.miner ≡ x.verifying_key key
      → meets u nonce ≡ true
      → with_nonce u key nonce ≡ ok (confirmed u key nonce)
  unfolding with_nonce confirmed
  with_nonce-confirmed encodes u key nonce own met =
      let met' : is_met u.difficulty (x.sha256 (x.encode_block_inner (with_nonce_field u nonce)))
          ≡ true =
        rw encodes.nonce_last met in
      ground arith

  -- A block mined under one's own key: the nonce that the search found is accepted, the block has
  -- the fields of the draft, and receivers accept it.
  pub record IsMined (u : UnconfirmedBlock) (b : Block) : Type 0 where
    pub nonce : ℕ
    pub fields : b.inner ≡ with_nonce_field u nonce
    pub accepted : try_from b.inner b.signature ≡ ok b

  -- Where signatures verify and the nonce is encoded last, and a nonce below the bound meets the
  -- level, `try_confirm` with the miner's key returns a block, which has the fields of the
  -- unconfirmed one and which every receiver's `try_from` accepts unchanged.
  pub try_confirm-IsMined :
      (signs : SignsCorrectly x) (encodes : EncodesInOrder x) (u : UnconfirmedBlock) (key : Bytes)
      (fuel n : ℕ)
      → u.miner ≡ x.verifying_key key
      → meets u n ≡ true
      → n < fuel
      → (b : Block) × (try_confirm fuel u key ≡ done (ok b)) × IsMined u b
  unfolding try_confirm confirmed
  try_confirm-IsMined signs encodes u key fuel n own h q =
      let (nonce, found, v) = find_nouce-IsFirstNonce u fuel n h q in
      let b = confirmed u key nonce in
      let e = with_nonce-confirmed encodes u key nonce own v.met in
      (
        b,
        rw found (ap done e),
        record {
          nonce = nonce;
          fields = refl;
          accepted = try_from-with_nonce signs u key nonce b e;
        },
      )
