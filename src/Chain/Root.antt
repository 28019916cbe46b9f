-- ===== src/Chain/Root.antt =====
-- What `block_root` of src/peerhub.rs gives.
use ddcoin.Prelude.{
  ℕ, zero, suc, ◌<◌, ◌≡◌, ◌≢◌, ◌==◌, arith, none, some, inl, inr, Option-cases, Bool-cases,
  if◌then◌else◌, ne→==_false,
}
use ddcoin.Prelude.Outcome.{done, panic}
use ddcoin.Prelude.Bytes.{bytes_eq}
use ddcoin.HashMap.{get}
use ddcoin.Data.{Block, BlockId}
use ddcoin.Chain.{ChainState, block_root, block_root_loop}

-- From `id`, `n` blocks of the pool lead back to `root`.
pub data WaitsOn (s : ChainState) : BlockId → BlockId → ℕ → Type 0 where
  here : (id : BlockId) → WaitsOn s id id 0
  back :
      (id root : BlockId) (n : ℕ) (b : Block)
      → id ≢ s.genesis_id
      → get id s.unconfirmed_blocks ≡ some b
      → WaitsOn s b.inner.prev_id root n
      → WaitsOn s id root (suc n)

block_root_loop-WaitsOn :
    (fuel : ℕ) (s : ChainState) (start id root : BlockId) (n : ℕ)
    → WaitsOn s id root n
    → get root s.unconfirmed_blocks ≡ none
    → n < fuel
    → block_root_loop fuel s start id ≡ done (if root == s.genesis_id then s.genesis_id else start)
unfolding block_root_loop
block_root_loop-WaitsOn zero s start id root n w missing h = absurd (omega arith)
block_root_loop-WaitsOn (suc fuel) s start _ _ _ (here id) missing h =
    elim (Bool-cases (id == s.genesis_id)) [ inl g ↦ rw g | inr o ↦ rw (o, missing) ]
block_root_loop-WaitsOn (suc fuel) s start _ _ _ (back id root m b ne at rest) missing h =
    rw (ne→==_false id s.genesis_id ne, at)
      (block_root_loop-WaitsOn fuel s start b.inner.prev_id root m rest missing (omega arith))

-- Where blocks of the pool lead back from an id to one that is not in the pool, and the fuel is
-- above their number, `block_root` returns: the genesis id if they lead back to it, and otherwise
-- the id that it was asked about, not the missing one.
pub block_root-own :
    (fuel : ℕ) (s : ChainState) (id root : BlockId) (n : ℕ)
    → WaitsOn s id root n
    → get root s.unconfirmed_blocks ≡ none
    → n < fuel
    → block_root fuel s id ≡ done (if root == s.genesis_id then s.genesis_id else id)
unfolding block_root
block_root-own fuel s id root n = block_root_loop-WaitsOn fuel s id id root n

loop-no_panic :
    (fuel : ℕ) (s : ChainState) (start id : BlockId) → ¬ (block_root_loop fuel s start id ≡ panic)
unfolding block_root_loop
loop-no_panic zero s start id h = cc
loop-no_panic (suc fuel) s start id h = elim (Bool-cases (id == s.genesis_id)) [
  | inl g ↦ (let k = rw g at h in cc)
  | inr o ↦ elim (Option-cases (get id s.unconfirmed_blocks)) [
    | inl gone ↦ (let k = rw (o, gone) at h in cc)
    | inr (b, at) ↦ loop-no_panic fuel s start b.inner.prev_id (rw (o, at) at h)
  ]
]

pub block_root-no_panic :
    (fuel : ℕ) (s : ChainState) (id : BlockId) → ¬ (block_root fuel s id ≡ panic)
unfolding block_root
block_root-no_panic fuel s id = loop-no_panic fuel s id id
