-- ===== src/Hub/Helper/Depth.antt =====
-- About src/hub_helper.rs and src/peerhub.rs, `BlockChain`: the depth of a transaction.
use ddcoin.Prelude.{
  ℕ, zero, suc, ◌+◌, ◌-◌, ◌<◌, ◌≡◌, refl, subst, arith, Bool, true, false, Option, none, some, List,
  [], ◌∷◌, length, get_elem?, Bool-cases, inl, inr,
}
use ddcoin.Prelude.Outcome.{done}
use ddcoin.Prelude.Result.{ok}
use ddcoin.Data.{Block, TransactionId, Timestamp}
use ddcoin.External.{External}
use ddcoin.Chain.{find_index, has_transaction, confirmed_chain}
use ddcoin.Chain
use ddcoin.Chain.Confirmed.{IsConfirmed, confirmed_chain-IsConfirmed}
use ddcoin.Hub.{HubState}
use ddcoin.Hub.Messages.{Network}
use ddcoin.Hub.Handle.{handle, answer}
use ddcoin.Hub.Safe.{HubInv}
use ddcoin.Hub.Client.{Client, run}
use ddcoin.Hub.Helper

module _ ⦃x : External⦄ (id : TransactionId) where
  -- Whether the block has the transaction.
  abbrev pub has : Block → Bool
  has block = has_transaction id block.inner.transactions

  -- The first block of the chain that has it.
  pub record IsFirst (chain : List Block) (i : ℕ) : Type 0 where
    pub block : Block
    pub at : get_elem? chain i ≡ some block
    pub has_it : has block ≡ true
    pub first : (j : ℕ) (b : Block) → j < i → get_elem? chain j ≡ some b → has b ≡ false

  abbrev pub HasNone : List Block → Type 0
  HasNone chain = (j : ℕ) (b : Block) → get_elem? chain j ≡ some b → has b ≡ false

  -- The number of blocks above the first that has it, if one has.
  abbrev pub IsDepth : List Block → Option ℕ → Type 0
  IsDepth chain none = HasNone chain
  IsDepth chain (some d) = (i : ℕ) × IsFirst chain i × (suc (i + d) ≡ length chain)

  -- What `find_index` gives, from `n` on.
  abbrev Finds : ℕ → List Block → Option ℕ → Type 0
  Finds n chain none = HasNone chain
  Finds n chain (some k) = (i : ℕ) × IsFirst chain i × (k ≡ n + i) × (i < length chain)

  nth-none : (j : ℕ) (b : Block) → get_elem? [] j ≡ some b → has b ≡ false
  nth-none j b e = cc

  -- One more block in front that does not have it.
  one_before :
      (block : Block) (chain : List Block)
      → has block ≡ false
      → (j : ℕ) (b : Block) → ((i : ℕ) → j ≡ suc i → get_elem? chain i ≡ some b → has b ≡ false)
      → get_elem? (block ∷ chain) j ≡ some b
      → has b ≡ false
  one_before block chain e zero b rest q =
      let same : block ≡ b = cc in subst (λ c. has c ≡ false) same e
  one_before block chain e (suc j) b rest q = rest j refl q

  Finds-later :
      (n : ℕ) (block : Block) (chain : List Block) (o : Option ℕ)
      → has block ≡ false
      → Finds (suc n) chain o
      → Finds n (block ∷ chain) o
  Finds-later n block chain none e f = λ j b q. one_before block chain e j b (λ i p q'. f i b q') q
  Finds-later n block chain (some k) e (i, v, q, l) = (
    suc i,
    record {
      block = v.block;
      at = v.at;
      has_it = v.has_it;
      first =
          λ j b l' q'. one_before block chain e j b (λ i' p q''. v.first i' b (omega arith) q'') q';
    },
    omega arith,
    omega arith,
  )

  find_index-Finds : (n : ℕ) (chain : List Block) → Finds n chain (find_index id n chain)
  unfolding find_index
  find_index-Finds n [] = nth-none
  find_index-Finds n (block ∷ chain) = elim (Bool-cases (has block)) [
    | inl found ↦ rw found (
      0,
      record { block = block; at = refl; has_it = found; first = λ j b l e. absurd (omega arith) },
      omega arith,
      omega arith,
    )
    | inr missing ↦ rw missing (
        Finds-later n block chain (find_index id (suc n) chain) missing
          (find_index-Finds (suc n) chain))
  ]

  pub transaction_depth-IsDepth :
      (chain : List Block) → IsDepth chain (Chain.transaction_depth chain id)
  unfolding Chain.transaction_depth
  transaction_depth-IsDepth chain = from_index (find_index id 0 chain) (find_index-Finds 0 chain)
    where
      from_index :
          (o : Option ℕ)
          → Finds 0 chain o
          → IsDepth chain (elim o [ none ↦ none | some i ↦ some (length chain - 1 - i) ])
      from_index none f = f
      from_index (some k) (i, v, q, l) = (i, v, omega arith)

module _ {S : Type 0} ⦃x : External⦄ where
  -- The answer, of a chain that is confirmed.
  pub record IsAnswer (h : HubState S) (i : HubInv h) (id : TransactionId) (d : Option ℕ)
      : Type 0 where
    pub chain : List Block
    pub confirmed : IsConfirmed h.chain i.0 chain
    pub depth : IsDepth id chain d

module _ {S : Type 0} ⦃x : External⦄ (net : Network S) (root_fuel : ℕ) (now : Timestamp) where
  -- Alone with a node in its invariant, a user who asks for the depth of a transaction gets the
  -- number of blocks that the confirmed chain has above the first block with the transaction, or
  -- nothing exactly where no block of it has the transaction; the node is unchanged.
  pub transaction_depth-IsAnswer :
      (h : HubState S) (i : HubInv h) (id : TransactionId)
      → (d : Option ℕ) × (run net root_fuel now h (Helper.transaction_depth id Client.ret)
          ≡ done (h, ok d))
        × IsAnswer h i id d
  unfolding run Helper.transaction_depth handle answer
  transaction_depth-IsAnswer h i id =
      let (chain, e, confirmed) = confirmed_chain-IsConfirmed h.chain i.0 in
      (
        Chain.transaction_depth chain id,
        rw e refl,
        record { chain = chain; confirmed = confirmed; depth = transaction_depth-IsDepth id chain },
      )
