-- ===== src/Chain/Heights.antt =====
-- About src/peerhub.rs: heights along a chain, and `prev_difficulty_adjusted_block`.
use ddcoin.Prelude.{
  ℕ, zero, suc, ◌+◌, ◌-◌, ◌%◌, ◌≤◌, ◌<◌, ◌≡◌, ◌≢◌, sym, ap, ◌∙◌, ◌*◌, ◌/◌, arith, some, inl, inr,
  List, [], ◌∷◌, length, length-append, get_elem?, get_elem?_below, get_elem?-snoc, rem_checked-pos,
  sub_u64-le, if◌then◌else◌, ◌==◌, ℕ_eq, u64_mod, Bool-cases, ==→eq, ==_false→ne,
}
use native.Mathlib.Nat.{mod-lt, mod-le, mod-eq_of_lt, mod-eq-sub-mod, mul-mod_right, div-add-mod}
use ddcoin.Prelude.Outcome.{Returns}
use ddcoin.Prelude.Bytes.{bytes_eq}
use ddcoin.HashMap.{get}
use ddcoin.Data.{Block, BlockId}
use ddcoin.External.{External}
use ddcoin.Chain.{ChainState, prev_difficulty_adjusted_block}
use ddcoin.Chain.Linked.{Inv}
use ddcoin.Chain.Confirmed.{IsChain, root, link, IsConfirmed, confirmed_chain-IsConfirmed}

unfoldable rewind_number : ℕ → ℕ → ℕ
rewind_number period r = if r == 0 then period else r

-- How far `prev_difficulty_adjusted_block` goes back.
record IsRewind (period seqno r : ℕ) : Type 0 where
  pos : 0 < r
  le_seqno : r ≤ seqno
  le_period : r ≤ period
  multiple : (seqno - r) % period ≡ 0

rewind_number-IsRewind :
    (period seqno : ℕ)
    → 0 < period
    → 0 < seqno
    → IsRewind period seqno (rewind_number period (seqno % period))
unfolding rewind_number
rewind_number-IsRewind period seqno p q = elim (Bool-cases ((seqno % period) == 0)) [
  | inl at_end ↦
      let z : seqno % period ≡ 0 = ==→eq (seqno % period) 0 at_end in
      let le : period ≤ seqno = grind (arith, mod-eq_of_lt) in
      rw at_end (record {
        pos = p;
        le_seqno = le;
        le_period = omega arith;
        multiple = sym (mod-eq-sub-mod le) ∙ z;
      })
  | inr within ↦
      let ne : seqno % period ≢ 0 = ==_false→ne (seqno % period) 0 within in
      let whole : seqno - seqno % period ≡ period * (seqno / period) =
        omega (arith, div-add-mod seqno period) in
      rw within (record {
        pos = omega arith;
        le_seqno = mod-le seqno period;
        le_period = omega (arith, mod-lt seqno p);
        multiple = rw whole (mul-mod_right period (seqno / period));
      })
]

module _ ⦃x : External⦄ (s : ChainState) (v : Inv s) where
  -- The height of the block that a chain ends at is the length before it.
  chain-length :
      {id : BlockId} {chain : List Block} (b : Block)
      → IsChain s.genesis_id s.valid_blocks id chain
      → get id s.valid_blocks ≡ some b
      → length chain ≡ suc b.inner.seqno
  chain-length b (root d at') at =
      let e : d ≡ v.root = cc (at', v.root_at) in
      let f : d ≡ b = cc in
      omega (
        arith,
        ap (λ (y : Block). y.inner.seqno) e,
        ap (λ (y : Block). y.inner.seqno) f,
        v.root_seqno,
      )
  chain-length {id} b (link {chain = chain} d at' ne h) at =
      let e : d ≡ b = cc in
      let p = v.linked id d at' ne in
      omega (
        arith,
        ap (λ (y : Block). y.inner.seqno) e,
        p.prev_seqno,
        chain-length p.prev h p.prev_at,
        length-append chain (d ∷ []),
      )

  -- The block at index `i` of a chain has height `i`.
  pub chain-heights :
      {id : BlockId} {chain : List Block}
      → IsChain s.genesis_id s.valid_blocks id chain
      → (i : ℕ) (b : Block) → get_elem? chain i ≡ some b
      → b.inner.seqno ≡ i
  chain-heights (root d at) zero b h =
      let e : d ≡ v.root = cc (at, v.root_at) in
      let f : d ≡ b = ground arith in
      omega (
        arith,
        ap (λ (y : Block). y.inner.seqno) e,
        ap (λ (y : Block). y.inner.seqno) f,
        v.root_seqno,
      )
  chain-heights (root d at) (suc i) b h = cc
  chain-heights {id} (link {chain = chain} d at ne h) i b g = elim (get_elem?-snoc chain d i g) [
    | inl old ↦ chain-heights h i b old
    | inr (p, q) ↦
        let e = v.linked id d at ne in
        omega (
          arith,
          ap (λ (y : Block). y.inner.seqno) q,
          e.prev_seqno,
          chain-length e.prev h e.prev_at,
        )
  ]

  -- The first block of the period that the blocks up to height `seqno` fill: at the greatest multiple
  -- of the period below `seqno`, on the leading chain.
  pub record IsPeriodStart (seqno : ℕ) (b : Block) : Type 0 where
    pub chain : List Block
    pub confirmed : IsConfirmed s v chain
    pub on_chain : get_elem? chain b.inner.seqno ≡ some b
    pub multiple : b.inner.seqno % s.config.difficulty_adjustment_period ≡ 0
    pub below : b.inner.seqno < seqno
    pub close : seqno ≤ b.inner.seqno + s.config.difficulty_adjustment_period

  -- In a linked store, for a positive period and a height above 0 that is a u64 and at most one
  -- above the leading block, `prev_difficulty_adjusted_block` returns a block of the confirmed
  -- chain whose height is a multiple of the period, below the height asked about and at most a
  -- period below it.
  pub prev_difficulty_adjusted_block-IsPeriodStart :
      (seqno : ℕ)
      → 0 < s.config.difficulty_adjustment_period
      → 0 < seqno
      → seqno < u64_mod
      → seqno ≤ suc v.leader.inner.seqno
      → Returns (IsPeriodStart seqno) (prev_difficulty_adjusted_block s seqno)
  unfolding prev_difficulty_adjusted_block rewind_number
  prev_difficulty_adjusted_block-IsPeriodStart seqno period pos small le =
      let (chain, e, c) = confirmed_chain-IsConfirmed s v in
      let r = rewind_number period' (seqno % period') in
      let w = rewind_number-IsRewind period' seqno period pos in
      let (b, at) = get_elem?_below chain (seqno - r) (omega (arith, c.full, w.pos)) in
      let height : b.inner.seqno ≡ seqno - r = chain-heights c.is_chain (seqno - r) b at in
      (
        b,
        rw (e, rem_checked-pos seqno period' period, sub_u64-le seqno r w.le_seqno small) (rw at),
        record {
          chain = chain;
          confirmed = c;
          on_chain = rw height at;
          multiple = rw height w.multiple;
          below = omega (arith, w.pos, w.le_seqno);
          close = omega (arith, w.le_period, w.le_seqno);
        },
      )
    where
      period' : ℕ
      period' = s.config.difficulty_adjustment_period
