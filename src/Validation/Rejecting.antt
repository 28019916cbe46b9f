-- ===== src/Validation/Rejecting.antt =====
-- About src/peerhub.rs: `add_invalid_block`.
use ddcoin.Prelude.{
  ℕ, zero, suc, ◌≤◌, ◌<◌, ◌≡◌, refl, ap, ◌∙◌, none, some, inl, inr, Option-cases, arith, List, [],
  ◌∷◌, length,
}
use ddcoin.Prelude.Outcome.{Outcome, Returns}
use ddcoin.Prelude.Bytes.{bytes_eq}
use ddcoin.HashMap.{HashMap, get, remove, set_insert}
use ddcoin.HashMap.Laws.{length-remove-le, length-remove-lt}
use ddcoin.Data.{BlockId}
use ddcoin.Chain.{ChainState}
use ddcoin.Validation.{Rejected, children, add_invalid_all, add_invalid_block, reject}

-- What `next_blocks` loses, it never gets back.
abbrev Shrinks : Rejected → Rejected → Type 0
Shrinks r r' = length r'.next ≤ length r.next

add_invalid_all-total :
    (add : Rejected → BlockId → Outcome Rejected) (fuel : ℕ)
    → ((r : Rejected) (id : BlockId) → length r.next < fuel → Returns (Shrinks r) (add r id))
    → (ids : List BlockId) (r : Rejected) → length r.next < fuel
    → Returns (Shrinks r) (add_invalid_all add r ids)
unfolding add_invalid_all
add_invalid_all-total add fuel one [] r h = (r, refl, omega arith)
add_invalid_all-total add fuel one (id ∷ ids) r h =
    let (r', e, le) = one r id h in
    let (r'', f, le') = add_invalid_all-total add fuel one ids r' (omega arith) in
    (r'', rw e f, omega arith)

pub children-some :
    (id : BlockId) (ids : List BlockId) (next : HashMap BlockId (List BlockId))
    → get id next ≡ some ids
    → children id next ≡ ids
children-some id ids next e = rw (e, children)

pub children-none :
    (id : BlockId) (next : HashMap BlockId (List BlockId))
    → get id next ≡ none
    → children id next ≡ []
children-none id next e = rw (e, children)

-- With more fuel than `next_blocks` has entries, `add_invalid_block` returns, also where entries
-- form a cycle, and `next_blocks` has no more entries than before.
pub add_invalid_block-total :
    (fuel : ℕ) (r : Rejected) (id : BlockId)
    → length r.next < fuel
    → Returns (Shrinks r) (add_invalid_block fuel r id)
unfolding add_invalid_block add_invalid_all
add_invalid_block-total zero r id h = absurd (omega arith)
add_invalid_block-total (suc fuel) r id h = elim (Option-cases (get id r.next)) [
  | inl none_waiting ↦ (
    without,
    ap (add_invalid_all (add_invalid_block fuel) without) (children-none id r.next none_waiting),
    length-remove-le id r.next,
  )
  | inr (ids, waiting) ↦
      let shorter = length-remove-lt id ids r.next waiting in
      let (r', e, le) =
        add_invalid_all-total (add_invalid_block fuel) fuel (add_invalid_block-total fuel) ids
          without (omega arith) in
      (
        r',
        ap (add_invalid_all (add_invalid_block fuel) without) (children-some id ids r.next waiting)
            ∙ e,
        omega arith,
      )
]
  where
    without : Rejected
    without = record { invalid = set_insert id r.invalid; next = remove id r.next }

pub reject-total :
    (s : ChainState) (id : BlockId)
    → Returns
        (λ t. (r : Rejected) × (t ≡ record s { invalid_blocks = r.invalid; next_blocks = r.next }))
        (reject s id)
unfolding reject
reject-total s id =
    let (r, e, _) =
      add_invalid_block-total (suc (length s.next_blocks))
        (record { invalid = s.invalid_blocks; next = s.next_blocks }) id (omega arith) in
    (record s { invalid_blocks = r.invalid; next_blocks = r.next }, rw e, (r, refl))
