-- ===== src/Prelude/Outcome.antt =====
-- What a call does: it returns (`done`), it panics, or (where the model bounds a loop by fuel) it is still
-- running when the fuel is spent.
use mathlib.Core.Path.{◌≡◌, refl}
use mathlib.Core.Option.{Option, none, some}

pub data Outcome {ℓ} (A : Type ℓ) : Type ℓ where
  done : A → Outcome A
  panic : Outcome A
  out_of_fuel : Outcome A

infixl 5 ◌>>=◌
abbrev pub ◌>>=◌ {ℓ κ} : {A : Type ℓ} {B : Type κ} → Outcome A → (A → Outcome B) → Outcome B
done a >>= f = f a
panic >>= f = panic
out_of_fuel >>= f = out_of_fuel

-- `unwrap`
abbrev pub unwrap {ℓ} : {A : Type ℓ} → Option A → Outcome A
unwrap (some a) = done a
unwrap none = panic

-- The call returns, and what it returns satisfies `P`.
abbrev pub Returns {ℓ κ} : {A : Type ℓ} → (A → Type κ) → Outcome A → Type (ℓ ⊔ κ)
Returns {A = A} P m = (a : A) × (m ≡ done a) × P a

pub Returns-bind {ℓ κ μ} :
    {A : Type ℓ} {B : Type κ} {P : A → Type μ} {Q : B → Type μ} (m : Outcome A) (f : A → Outcome B)
    → Returns P m
    → ((a : A) → m ≡ done a → P a → Returns Q (f a))
    → Returns Q (m >>= f)
Returns-bind m f (a, e, p) k = rw e (k a e p)

-- Inversion of a bind that returned.
pub >>=-eq-done {ℓ κ} :
    {A : Type ℓ} {B : Type κ} (m : Outcome A) (f : A → Outcome B) {b : B}
    → (m >>= f) ≡ done b
    → (a : A) × (m ≡ done a) × (f a ≡ done b)
>>=-eq-done (done a) f h = (a, refl, h)
>>=-eq-done panic f h = cc
>>=-eq-done out_of_fuel f h = cc
