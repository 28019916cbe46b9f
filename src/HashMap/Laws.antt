-- ===== src/HashMap/Laws.antt =====
-- Laws of the maps and sets of HashMap.antt.
use ddcoin.Prelude.{
  suc, ◌≤◌, ◌<◌, ◌==◌, Eq, if◌then◌else◌, true, false, none, some, ◌⊎◌, inl, inr, ◌≢◌, List, [],
  ◌∷◌, ◌≡◌, refl, length, arith,
}
use ddcoin.HashMap.{HashMap, get, insert, remove, contains, set_insert, set_remove}

module _ {ℓ κ} {K : Type ℓ} {V : Type κ} ⦃e : Eq K⦄ where
  pub get-insert :
      (k j : K) (v : V) (m : HashMap K V)
      → get j (insert k v m) ≡ (if k == j then some v else get j m)
  unfolding get insert
  get-insert k j v [] = refl
  get-insert k j v ((i, w) ∷ m) = ground (arith, get-insert k j v m)

  pub get-remove :
      (k j : K) (m : HashMap K V) → get j (remove k m) ≡ (if k == j then none else get j m)
  unfolding get remove
  get-remove k j [] = ground arith
  get-remove k j ((i, w) ∷ m) = ground (arith, get-remove k j m)

  pub length-insert-le : (k : K) (v : V) (m : HashMap K V) → length (insert k v m) ≤ suc (length m)
  unfolding insert
  length-insert-le k v [] = omega arith
  length-insert-le k v ((i, w) ∷ m) = ground (arith, length-insert-le k v m)

  pub length-remove-le : (k : K) (m : HashMap K V) → length (remove k m) ≤ length m
  unfolding remove
  length-remove-le k [] = omega arith
  length-remove-le k ((i, w) ∷ m) = ground (arith, length-remove-le k m)

  pub length-remove-lt :
      (k : K) (v : V) (m : HashMap K V) → get k m ≡ some v → length (remove k m) < length m
  unfolding remove get
  length-remove-lt k v [] h = ground arith
  length-remove-lt k v ((i, w) ∷ m) h = ground (arith, length-remove-le k m, length-remove-lt k v m)

module _ {ℓ} {A : Type ℓ} ⦃e : Eq A⦄ where
  pub contains-set_insert :
      (a b : A) (xs : List A)
      → contains (set_insert a xs) b ≡ (if a == b then true else contains xs b)
  unfolding set_insert contains
  contains-set_insert a b xs = ground arith

  pub contains-set_remove :
      (a b : A) (xs : List A)
      → contains (set_remove a xs) b ≡ (if a == b then false else contains xs b)
  unfolding set_remove contains
  contains-set_remove a b [] = ground arith
  contains-set_remove a b (x ∷ xs) = ground (arith, contains-set_remove a b xs)

  pub contains-set_insert_cases :
      (a b : A) (xs : List A)
      → contains (set_insert a xs) b ≡ true
      → (a ≡ b) ⊎ (contains xs b ≡ true)
  contains-set_insert_cases a b xs h = elim (e.discrete a b) [
    | yes p ↦ inl p
    | no q ↦ inr (ground (arith, contains-set_insert a b xs))
  ]

  pub contains-set_insert_kept :
      (a b : A) (xs : List A) → contains xs b ≡ true → contains (set_insert a xs) b ≡ true
  contains-set_insert_kept a b xs h = ground (arith, contains-set_insert a b xs)

  pub contains-set_insert_self : (a : A) (xs : List A) → contains (set_insert a xs) a ≡ true
  contains-set_insert_self a xs = ground (arith, contains-set_insert a a xs)

  pub contains-set_insert_ne :
      (a b : A) (xs : List A) → a ≢ b → contains (set_insert a xs) b ≡ contains xs b
  contains-set_insert_ne a b xs h = ground (arith, contains-set_insert a b xs)

  pub contains-head : (a : A) (xs : List A) → contains (a ∷ xs) a ≡ true
  unfolding contains
  contains-head a xs = ground arith

module _ {ℓ κ} {K : Type ℓ} {V : Type κ} ⦃e : Eq K⦄ where
  -- What a lookup after an insertion found is the new entry or an old one.
  pub get-insert_cases :
      (k j : K) (v w : V) (m : HashMap K V)
      → get j (insert k v m) ≡ some w
      → ((k ≡ j) × (v ≡ w)) ⊎ (get j m ≡ some w)
  get-insert_cases k j v w m h = elim (e.discrete k j) [
    | yes p ↦ inl (p, ground (arith, get-insert k j v m))
    | no q ↦ inr (ground (arith, get-insert k j v m))
  ]

  -- An insertion under a new key keeps every entry.
  pub get-insert_fresh :
      (k j : K) (v w : V) (m : HashMap K V)
      → get k m ≡ none
      → get j m ≡ some w
      → get j (insert k v m) ≡ some w
  get-insert_fresh k j v w m new h = ground (arith, get-insert k j v m)

  pub get-insert_self : (k : K) (v : V) (m : HashMap K V) → get k (insert k v m) ≡ some v
  get-insert_self k v m = ground (arith, get-insert k k v m)

  pub get-insert_ne : (k j : K) (v : V) (m : HashMap K V) → k ≢ j → get j (insert k v m) ≡ get j m
  get-insert_ne k j v m h = ground (arith, get-insert k j v m)

  pub get-remove_self : (k : K) (m : HashMap K V) → get k (remove k m) ≡ none
  get-remove_self k m = ground (arith, get-remove k k m)

  -- What is found after a removal was there, under another key.
  pub get-remove-some :
      (k j : K) (v : V) (m : HashMap K V) → get j (remove k m) ≡ some v → get j m ≡ some v
  get-remove-some k j v m h = ground (arith, get-remove k j m)

  pub get-remove_ne : (k j : K) (m : HashMap K V) → k ≢ j → get j (remove k m) ≡ get j m
  get-remove_ne k j m h = ground (arith, get-remove k j m)

  pub get-remove_cases :
      (k j : K) (v : V) (m : HashMap K V)
      → get j (remove k m) ≡ some v
      → (k ≢ j) × (get j m ≡ some v)
  get-remove_cases k j v m h = (λ p. ground (arith, get-remove k j m), get-remove-some k j v m h)

  pub get-nil : (k : K) → get {V = V} k [] ≡ none
  unfolding get
  get-nil k = refl

  -- Replacing an entry adds none.
  pub length-insert-some :
      (k : K) (w v : V) (m : HashMap K V) → get k m ≡ some w → length (insert k v m) ≡ length m
  unfolding insert get
  length-insert-some k w v [] h = cc
  length-insert-some k w v ((i, u) ∷ m) h = ground (arith, length-insert-some k w v m)
