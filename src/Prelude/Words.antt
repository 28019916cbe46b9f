-- ===== src/Prelude/Words.antt =====
-- Unsigned machine words as native numbers. The arithmetic is that of a release build, which
-- wraps around.
use Prim.Native.Nat.{ℕ, suc, ◌+◌, ◌-◌, ◌/◌, ◌%◌, ◌^◌, ◌<◌, ◌≤◌}
use mathlib.Core.Path.{◌≡◌}
use mathlib.Core.List.{List, [], ◌∷◌, foldl}
use native.Mathlib.Omega.{arith}
use ddcoin.Prelude.Tests.{ℕ_eq, ◌==◌, if◌then◌else◌}
use ddcoin.Prelude.Outcome.{Outcome, done, panic}

abbrev pub u64_mod : ℕ
u64_mod = 2 ^ 64

abbrev pub u128_mod : ℕ
u128_mod = 2 ^ 128

abbrev pub u256_mod : ℕ
u256_mod = 2 ^ 256

unfoldable pub add_u64 : ℕ → ℕ → ℕ
add_u64 a b = (a + b) % u64_mod

unfoldable pub sub_u64 : ℕ → ℕ → ℕ
sub_u64 a b = (a + u64_mod - b) % u64_mod

-- `iter().sum::<u64>()`
unfoldable pub sum_u64 : List ℕ → ℕ
unfolding add_u64
sum_u64 = foldl add_u64 0

-- The sum with no bound.
abbrev pub total : List ℕ → ℕ
total [] = 0
total (x ∷ xs) = x + total xs

foldl-add_u64 :
    (acc : ℕ) (xs : List ℕ) → acc < u64_mod → foldl add_u64 acc xs ≡ (acc + total xs) % u64_mod
unfolding add_u64
foldl-add_u64 acc [] h = omega arith
foldl-add_u64 acc (x ∷ xs) h = omega (arith, foldl-add_u64 ((acc + x) % u64_mod) xs)

pub sum_u64-eq-total_mod : (xs : List ℕ) → sum_u64 xs ≡ total xs % u64_mod
unfolding sum_u64
sum_u64-eq-total_mod xs = omega (arith, foldl-add_u64 0 xs)

pub sum_u64-lt : (xs : List ℕ) → sum_u64 xs < u64_mod
sum_u64-lt xs = omega (arith, sum_u64-eq-total_mod xs)

pub sum_u64-eq-total : (xs : List ℕ) → total xs < u64_mod → sum_u64 xs ≡ total xs
sum_u64-eq-total xs h = omega (arith, sum_u64-eq-total_mod xs)

-- u128 subtraction
unfoldable pub sub_u128 : ℕ → ℕ → ℕ
sub_u128 a b = (a + u128_mod - b) % u128_mod

-- `>>` on u64, whose shift counts modulo 64
unfoldable pub shr_u64 : ℕ → ℕ → ℕ
shr_u64 a n = a / 2 ^ (n % 64)

-- `%` and `/`, which panic at a zero divisor
unfoldable pub rem_checked : ℕ → ℕ → Outcome ℕ
rem_checked a b = if b == 0 then panic else done (a % b)

unfoldable pub div_checked : ℕ → ℕ → Outcome ℕ
div_checked a b = if b == 0 then panic else done (a / b)

pub rem_checked-pos : (a b : ℕ) → 0 < b → rem_checked a b ≡ done (a % b)
unfolding rem_checked
rem_checked-pos a b h = ground arith

pub div_checked-pos : (a b : ℕ) → 0 < b → div_checked a b ≡ done (a / b)
unfolding div_checked
div_checked-pos a b h = ground arith

pub add_u64-suc : (a : ℕ) → suc a < u64_mod → add_u64 a 1 ≡ suc a
unfolding add_u64
add_u64-suc a h = omega arith

pub sub_u64-le : (a b : ℕ) → b ≤ a → a < u64_mod → sub_u64 a b ≡ a - b
unfolding sub_u64
sub_u64-le a b h k = omega arith

pub sub_u128-le : (a b : ℕ) → b ≤ a → a < u128_mod → sub_u128 a b ≡ a - b
unfolding sub_u128
sub_u128-le a b h k = omega arith
