-- ===== src/Chain/Confirmed.antt =====
-- About src/peerhub.rs: the loop of `confirmed_chain`, with its slots that begin uninitialised.
use ddcoin.Prelude.{
  ℕ, zero, suc, ◌<◌, ◌≡◌, ◌≢◌, refl, sym, ap, subst, ◌∙◌, arith, Option, none, some, List, [], ◌∷◌,
  ◌++◌, map, length, set, replicate, length-append, ==_refl, ne→==_false, lt→ltb, add_u64-suc,
}
use mathlib.Core.List.{append-nil}
use ddcoin.Prelude.Outcome.{done, Returns}
use ddcoin.Prelude.Bytes.{bytes_eq}
use ddcoin.HashMap.{get}
use ddcoin.Data.{Block, BlockId}
use ddcoin.External.{External}
use ddcoin.Chain.{
  BlockMap, ChainState, leading_block_seqno, write_slot, fill_slots, assume_init, confirmed_chain,
}
use ddcoin.Chain.Linked.{Inv}

-- The blocks from the genesis block up to the block `id`, each the predecessor of the next.
pub data IsChain (genesis_id : BlockId) (valid : BlockMap) : BlockId → List Block → Type 0 where
  root : (b : Block) → get genesis_id valid ≡ some b → IsChain genesis_id valid genesis_id (b ∷ [])
  link :
      {id : BlockId} {chain : List Block} (b : Block)
      → get id valid ≡ some b
      → id ≢ genesis_id
      → IsChain genesis_id valid b.inner.prev_id chain
      → IsChain genesis_id valid id (chain ++ b ∷ [])

set-replicate :
    (n : ℕ) (slots : List (Option Block)) (v : Option Block)
    → set (replicate (suc n) none ++ slots) n v ≡ replicate n none ++ v ∷ slots
set-replicate zero slots v = refl
set-replicate (suc n) slots v = ap (λ l. none ∷ l) (set-replicate n slots v)

length-replicate : (n : ℕ) → length (replicate {A = Option Block} n none) ≡ n
length-replicate zero = refl
length-replicate (suc n) = ap suc (length-replicate n)

write_slot-last :
    (n : ℕ) (slots : List (Option Block)) (b : Block)
    → write_slot (replicate (suc n) none ++ slots) n b ≡ done (replicate n none ++ some b ∷ slots)
unfolding write_slot
write_slot-last n slots b =
    let room : n < length (replicate {A = Option Block} (suc n) none ++ slots) = omega (
      arith,
      length-append (replicate {A = Option Block} (suc n) none) slots,
      length-replicate (suc n),
    ) in
    rw (lt→ltb n _ room, set-replicate n slots (some b))

assume_init-map : (chain : List Block) → assume_init (map some chain) ≡ done chain
unfolding assume_init
assume_init-map [] = refl
assume_init-map (b ∷ chain) = rw (assume_init-map chain)

-- One round of the loop, at the genesis block and at any other.
module _ (s : ChainState) (fuel : ℕ) (id : BlockId) (b : Block)
    (at : get id s.valid_blocks ≡ some b) where
  fill_slots-genesis :
      (slots : List (Option Block))
      → id ≡ s.genesis_id
      → fill_slots (suc fuel) s id (replicate (suc b.inner.seqno) none ++ slots)
        ≡ done (replicate b.inner.seqno none ++ some b ∷ slots)
  unfolding fill_slots
  fill_slots-genesis slots e =
      rw (at, write_slot-last b.inner.seqno slots b, e, ==_refl s.genesis_id)

  fill_slots-next :
      (slots : List (Option Block))
      → id ≢ s.genesis_id
      → fill_slots (suc fuel) s id (replicate (suc b.inner.seqno) none ++ slots)
        ≡ fill_slots fuel s b.inner.prev_id (replicate b.inner.seqno none ++ some b ∷ slots)
  unfolding fill_slots
  fill_slots-next slots e =
      rw (at, write_slot-last b.inner.seqno slots b, ne→==_false id s.genesis_id e)

map-snoc :
    (chain : List Block) (b : Block) (slots : List (Option Block))
    → map some chain ++ some b ∷ slots ≡ map some (chain ++ b ∷ []) ++ slots
map-snoc [] b slots = refl
map-snoc (c ∷ chain) b slots = ap (λ l. some c ∷ l) (map-snoc chain b slots)

module _ ⦃x : External⦄ (s : ChainState) (v : Inv s) where
  -- A block above height 0 is not the genesis block.
  pub not_genesis :
      (n : ℕ) (id : BlockId) (b : Block)
      → get id s.valid_blocks ≡ some b
      → b.inner.seqno ≡ suc n
      → id ≢ s.genesis_id
  not_genesis n id b at e p = grind (arith, v.root_at, v.root_seqno)

  -- The walk from a block of height `n`, with the slots above it written.
  abbrev Fills : ℕ → BlockId → List Block → Type 0
  Fills n id chain =
      IsChain s.genesis_id s.valid_blocks id chain
      × (length chain ≡ suc n)
      × ((slots : List (Option Block))
          → fill_slots (suc n) s id (replicate (suc n) none ++ slots)
            ≡ done (map some chain ++ slots))

  Fills-genesis :
      (b : Block)
      → get s.genesis_id s.valid_blocks ≡ some b
      → b.inner.seqno ≡ 0
      → Fills 0 s.genesis_id (b ∷ [])
  Fills-genesis b at e = (
    root b at,
    refl,
    λ slots.
        subst
          (λ n.
            fill_slots 1 s s.genesis_id (replicate (suc n) none ++ slots)
            ≡ done (replicate n none ++ some b ∷ slots))
          e (fill_slots-genesis s 0 s.genesis_id b at slots refl),
  )

  Fills-next :
      (n : ℕ) (id : BlockId) (b : Block) (chain : List Block)
      → get id s.valid_blocks ≡ some b
      → b.inner.seqno ≡ suc n
      → id ≢ s.genesis_id
      → Fills n b.inner.prev_id chain
      → Fills (suc n) id (chain ++ b ∷ [])
  Fills-next n id b chain at e ne (c, l, fills) = (
    link b at ne c,
    omega (arith, length-append chain (b ∷ [])),
    λ slots.
        subst
          (λ m.
            fill_slots (suc (suc n)) s id (replicate (suc m) none ++ slots)
            ≡ fill_slots (suc n) s b.inner.prev_id (replicate m none ++ some b ∷ slots))
          e (fill_slots-next s (suc n) id b at slots ne)
        ∙ fills (some b ∷ slots)
        ∙ ap done (map-snoc chain b slots),
  )

  fill_slots-Fills :
      (n : ℕ) (id : BlockId) (b : Block)
      → get id s.valid_blocks ≡ some b
      → b.inner.seqno ≡ n
      → (chain : List Block) × Fills n id chain
  fill_slots-Fills zero id b at e = elim (bytes_eq.discrete id s.genesis_id) [
    | yes p ↦ (b ∷ [], subst (λ k. Fills 0 k (b ∷ [])) (sym p) (Fills-genesis b (rw (← p) at) e))
    | no q ↦ absurd (omega (arith, (v.linked id b at q).prev_seqno))
  ]
  fill_slots-Fills (suc n) id b at e =
      let ne = not_genesis n id b at e in
      let p = v.linked id b at ne in
      let (chain, f) =
        fill_slots-Fills n b.inner.prev_id p.prev p.prev_at (omega (arith, p.prev_seqno)) in
      (chain ++ b ∷ [], Fills-next n id b chain at e ne f)

  -- Every valid block has its chain, one block for each height.
  pub IsChain-of :
      (id : BlockId) (b : Block)
      → get id s.valid_blocks ≡ some b
      → (chain : List Block) × IsChain s.genesis_id s.valid_blocks id chain
        × (length chain ≡ suc b.inner.seqno)
  IsChain-of id b at =
      let (chain, f) = fill_slots-Fills b.inner.seqno id b at refl in (chain, f.0, f.1)

  -- What `confirmed_chain` promises: the chain of the leading block, one block for each height.
  pub record IsConfirmed (chain : List Block) : Type 0 where
    pub is_chain : IsChain s.genesis_id s.valid_blocks s.leading_block chain
    pub full : length chain ≡ suc v.leader.inner.seqno

  leading_block_seqno_lem : leading_block_seqno s ≡ done v.leader.inner.seqno
  unfolding leading_block_seqno
  leading_block_seqno_lem = rw v.leader_at

  slots_filled :
      (n : ℕ) (id : BlockId) (chain : List Block)
      → Fills n id chain
      → fill_slots (suc n) s id (replicate (suc n) none) ≡ done (map some chain)
  slots_filled n id chain f =
      subst (λ l. fill_slots (suc n) s id l ≡ done (map some chain)) (append-nil _)
        (f.2 [] ∙ ap done (append-nil _))

  -- In a linked store `confirmed_chain` returns the chain from the genesis block to the leading
  -- one, as long as the leading height and one more: every slot of the array that begins
  -- uninitialised has been written when it is read.
  pub confirmed_chain-IsConfirmed : Returns IsConfirmed (confirmed_chain s)
  unfolding confirmed_chain
  confirmed_chain-IsConfirmed =
      let n = v.leader.inner.seqno in
      let (chain, f) = fill_slots-Fills n s.leading_block v.leader v.leader_at refl in
      (
        chain,
        rw
            (
              leading_block_seqno_lem,
              add_u64-suc n (v.small s.leading_block v.leader v.leader_at),
              slots_filled n s.leading_block chain f,
            )
            (assume_init-map chain),
        record { is_chain = f.0; full = f.1 },
      )
