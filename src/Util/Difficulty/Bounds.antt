-- ===== src/Util/Difficulty/Bounds.antt =====
-- About src/util.rs: the size of what `Difficulty::adjust_with_actual_span` gives.
use native.Mathlib.Nat.{lt-div-mul-add, mul-le-mul_left, mul-le-mul_right, div-mul-le_self}
use ddcoin.Prelude.{
  ℕ, ◌+◌, ◌*◌, ◌/◌, ◌≤◌, ◌<◌, ◌≡◌, arith, max, u256_mod, inl, inr, Bool-cases, ltb, ℕ_eq,
  ne→==_false, ltb_false→le,
}
use ddcoin.Prelude.Outcome.{Returns}
use ddcoin.Config.{Config}
use ddcoin.Util.Difficulty.{saturating_mul, expected_span, adjust_with_actual_span}

saturating_mul-le : (a b c : ℕ) → a * b ≤ c → saturating_mul a b ≤ c
unfolding saturating_mul
saturating_mul-le a b c h = omega arith

saturating_mul-lt : (a b : ℕ) → saturating_mul a b < u256_mod
unfolding saturating_mul
saturating_mul-lt a b = omega arith

le-saturating_mul : (a b c : ℕ) → c < u256_mod → c ≤ a * b → c ≤ saturating_mul a b
unfolding saturating_mul
le-saturating_mul a b c h k = omega arith

le-mul-saturating_mul : (a b c : ℕ) → c < u256_mod → c ≤ 14 * (a * b) → c ≤ 14 * saturating_mul a b
unfolding saturating_mul
le-mul-saturating_mul a b c h k = omega arith

mul_above : (q e a d : ℕ) → q * e ≤ d → a ≤ e * 4 → q * a ≤ 4 * d
mul_above q e a d h k = omega (arith, mul-le-mul_left q k)

mul_below : (q e a d : ℕ) → 1 ≤ q → d < q * e + e → e ≤ 7 * a → d ≤ 14 * (q * a)
mul_below q e a d one h k = omega (arith, mul-le-mul_left q k, mul-le-mul_right e one)

div_pos : (d e : ℕ) → 0 < e → e ≤ d → 1 ≤ d / e
div_pos d e p h = grind (arith, lt-div-mul-add)

-- The adjusted level is between a fourteenth and four times the old one, and fits its type.
abbrev pub IsNear : ℕ → ℕ → Type 0
IsNear d d' = (d' ≤ 4 * d) × (d ≤ 14 * d') × (d' < u256_mod)

scaled-IsNear :
    (d e a : ℕ)
    → d < u256_mod
    → 4 ≤ e
    → e ≤ d
    → a ≤ e * 4
    → e / 4 ≤ a
    → IsNear d (saturating_mul (max (d / e) 1) a)
scaled-IsNear d e a small p h k l =
    let one : 1 ≤ d / e = div_pos d e (omega arith) h in
    let whole : max (d / e) 1 ≡ d / e = omega arith in
    rw whole (
      saturating_mul-le (d / e) a (4 * d) (mul_above (d / e) e a d (div-mul-le_self d e) k),
      le-mul-saturating_mul (d / e) a d small
          (mul_below (d / e) e a d one (lt-div-mul-add (omega arith)) (omega arith)),
      saturating_mul-lt (d / e) a,
    )

quadrupled-IsNear : (d : ℕ) → d < u256_mod → IsNear d (saturating_mul d 4)
unfolding saturating_mul
quadrupled-IsNear d h = (omega arith, omega arith, omega arith)

-- For a 256-bit level and settings whose expected span is at least 4 and at most the level, the
-- adjusted level is a 256-bit number, at most 4 times the old one and at least a fourteenth of it.
pub adjust-IsNear :
    (config : Config) (d actual : ℕ)
    → d < u256_mod
    → 4 ≤ expected_span config
    → expected_span config ≤ d
    → Returns (IsNear d) (adjust_with_actual_span d actual config)
unfolding adjust_with_actual_span
adjust-IsNear config d actual small p h = elim (Bool-cases (ltb (e * 4) actual)) [
  | inl long ↦ (saturating_mul d 4, rw long, quadrupled-IsNear d small)
  | inr not_long ↦ elim (Bool-cases (ltb actual (e / 4))) [
    | inl short ↦ (max (d / 4) 1, rw (not_long, short), (omega arith, omega arith, omega arith))
    | inr not_short ↦ (
      saturating_mul (max (d / e) 1) actual,
      rw (not_long, not_short, ne→==_false e 0 (omega arith)),
      scaled-IsNear d e actual small p h (ltb_false→le (e * 4) actual not_long)
          (ltb_false→le actual (e / 4) not_short),
    )
  ]
]
  where
    e : ℕ
    e = expected_span config

-- With a positive expected span an adjustment returns.
pub adjust-Returns :
    (config : Config) (d actual : ℕ)
    → 0 < expected_span config
    → Returns (λ _. Unit {0}) (adjust_with_actual_span d actual config)
unfolding adjust_with_actual_span
adjust-Returns config d actual p = elim (Bool-cases (ltb (expected_span config * 4) actual)) [
  | inl long ↦ (saturating_mul d 4, rw long, tt)
  | inr not_long ↦ elim (Bool-cases (ltb actual (expected_span config / 4))) [
    | inl short ↦ (max (d / 4) 1, rw (not_long, short), tt)
    | inr not_short ↦ (
      saturating_mul (max (d / expected_span config) 1) actual,
      rw (not_long, not_short, ne→==_false (expected_span config) 0 (omega arith)),
      tt,
    )
  ]
]
