-- ===== src/CashSet/Undone.antt =====
-- About src/peerhub.rs, `cash_set_at`: its backward loop takes back what its forward loop does.
use mathlib.Core.List.{reverse, reverse-cons, foldl-append, append_assoc, append-nil, map-append}
use ddcoin.Prelude.{
  ◌==◌, if◌then◌else◌, not, Bool, true, false, List, [], ◌∷◌, ◌++◌, foldl, ◌≡◌, refl, sym, ap,
  subst, ◌∙◌, inl, inr, Bool-cases, arith,
}
use ddcoin.HashMap.{contains, set_insert, set_remove}
use ddcoin.HashMap.Laws.{contains-set_insert, contains-set_remove}
use ddcoin.Data.{Cash, cash_eq, Transaction, Block}
use ddcoin.CashSet.{apply_block, undo_transaction, undo_block, remove_all}
use ddcoin.CashSet.Writes.{
  Write, written, transaction_writes, block_writes, after, after-append, contains-remove_all,
  contains-insert_all, contains-apply_block,
}

-- The opposite writes, the last one first.
abbrev pub undone : List Write → List Write
undone [] = []
undone ((d, v) ∷ ws) = undone ws ++ (d, not v) ∷ []

abbrev write : Write → List Cash → List Cash
write (d, true) set = set_insert d set
write (d, false) set = set_remove d set

-- Every write changes the set that it comes to: what is taken out is there, and what is put in is not.
abbrev pub AllChange : List Write → List Cash → Type 0
AllChange [] set = Unit
AllChange ((d, v) ∷ ws) set = (contains set d ≡ not v) × AllChange ws (write (d, v) set)

undone-append : (ws us : List Write) → undone (ws ++ us) ≡ undone us ++ undone ws
undone-append [] us = sym (append-nil (undone us))
undone-append ((d, v) ∷ ws) us =
    ap (λ r. r ++ (d, not v) ∷ []) (undone-append ws us)
    ∙ append_assoc (undone us) (undone ws) ((d, not v) ∷ [])

undone-written : (v : Bool) (cs : List Cash) → undone (written v cs) ≡ written (not v) (reverse cs)
undone-written v [] = refl
undone-written v (d ∷ cs) =
    ap (λ r. r ++ (d, not v) ∷ []) (undone-written v cs)
    ∙ sym (map-append (λ c. (c, not v)) (reverse cs) (d ∷ []))
    ∙ ap (written (not v)) (sym (reverse-cons d cs))

contains-write :
    (w : Write) (set : List Cash) (c : Cash)
    → contains (write w set) c ≡ (if w.0 == c then w.1 else contains set c)
contains-write (d, true) set c = contains-set_insert d c set
contains-write (d, false) set c = contains-set_remove d c set

after-undone :
    (c : Cash) (ws : List Write) (set : List Cash)
    → AllChange ws set
    → after c (undone ws) (after c ws (contains set c)) ≡ contains set c
after-undone c [] set all = refl
after-undone c ((d, v) ∷ ws) set (changes, all) =
    let later : after c (undone ws) (after c ws (if d == c then v else contains set c))
        ≡ (if d == c then v else contains set c) =
      subst (λ i. after c (undone ws) (after c ws i) ≡ i) (contains-write (d, v) set c)
        (after-undone c ws (write (d, v) set) all) in
    after-append c (undone ws) ((d, not v) ∷ []) _
    ∙ ap (λ i. if d == c then not v else i) later
    ∙ elim (Bool-cases (d == c)) [
      | inl same ↦ let eq : d ≡ c = ground arith in rw same (sym changes ∙ ap (contains set) eq)
      | inr other ↦ rw other
    ]

-- What the backward loop does to one transaction and to the transactions of a block.
contains-undo_transaction :
    (set : List Cash) (t : Transaction) (c : Cash)
    → contains (undo_transaction set t) c
      ≡ after c (undone (transaction_writes (t ∷ []))) (contains set c)
unfolding undo_transaction
contains-undo_transaction set t c =
    let ins = t.inner.inputs in
    let outs = t.inner.outputs in
    contains-insert_all (remove_all set (reverse outs)) (reverse ins) c
    ∙ ap (after c (written true (reverse ins))) (contains-remove_all set (reverse outs) c)
    ∙ sym (
        after-append c (written false (reverse outs)) (written true (reverse ins)) (contains set c))
    ∙ ap (λ ws. after c ws (contains set c))
        (sym (
          undone-append (written false ins) (written true outs ++ [])
          ∙ ap (λ ws. ws ++ undone (written false ins))
              (ap undone (append-nil (written true outs)) ∙ undone-written true outs)
          ∙ ap (λ ws. written false (reverse outs) ++ ws) (undone-written false ins)))

contains-undo_transactions :
    (set : List Cash) (ts : List Transaction) (c : Cash)
    → contains (foldl undo_transaction set (reverse ts)) c
      ≡ after c (undone (transaction_writes ts)) (contains set c)
contains-undo_transactions set [] c = refl
contains-undo_transactions set (t ∷ ts) c =
    let back = foldl undo_transaction set (reverse ts) in
    let one = transaction_writes (t ∷ []) in
    let rest = transaction_writes ts in
    let ins = written false t.inner.inputs in
    let outs = written true t.inner.outputs in
    ap (λ u. contains u c)
      (ap (foldl undo_transaction set) (reverse-cons t ts)
        ∙ foldl-append undo_transaction set (reverse ts) (t ∷ []))
    ∙ contains-undo_transaction back t c
    ∙ ap (after c (undone one)) (contains-undo_transactions set ts c)
    ∙ sym (after-append c (undone rest) (undone one) (contains set c))
    ∙ ap (λ ws. after c ws (contains set c))
        (sym (undone-append one rest)
          ∙ ap undone (
              append_assoc ins (outs ++ []) rest
              ∙ ap (λ ws. ins ++ (ws ++ rest)) (append-nil outs)))

pub contains-undo_block :
    (set : List Cash) (b : Block) (c : Cash)
    → contains (undo_block set b) c ≡ after c (undone (block_writes b)) (contains set c)
unfolding undo_block
contains-undo_block set b c =
    let reward = b.inner.reward in
    let writes = transaction_writes b.inner.transactions in
    contains-undo_transactions (set_remove reward set) b.inner.transactions c
    ∙ ap (after c (undone writes)) (contains-set_remove reward c set)
    ∙ ap (λ ws. after c ws (contains set c)) (sym (undone-append writes ((reward, true) ∷ [])))

-- Rewinding a block from a set to which it has been applied gives the set before, as to which cash
-- is in it, if every write of the block changed the set that it came to: what it took out was
-- there, and what it put in was not.
pub undo_block-apply_block :
    (set : List Cash) (b : Block)
    → AllChange (block_writes b) set
    → (c : Cash) → contains (undo_block (apply_block set b) b) c ≡ contains set c
undo_block-apply_block set b all c =
    contains-undo_block (apply_block set b) b c
    ∙ ap (after c (undone (block_writes b))) (contains-apply_block set b c)
    ∙ after-undone c (block_writes b) set all
