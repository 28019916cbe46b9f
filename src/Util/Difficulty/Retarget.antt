-- ===== src/Util/Difficulty/Retarget.antt =====
-- About src/util.rs, `Difficulty::adjust_with_actual_span`: the level that it gives.
use ddcoin.Prelude.{
  ℕ_eq, ℕ, ◌-◌, ◌*◌, ◌/◌, ◌^◌, ◌≤◌, ◌<◌, ◌≡◌, refl, sym, ◌∙◌, ne→==_false, lt→ltb, le→ltb_false,
  arith, min, max,
}
use ddcoin.Prelude.Outcome.{done}
use ddcoin.Config.{Config}
use ddcoin.Util.Difficulty.{expected_span, saturating_mul, adjust_with_actual_span}

-- The level after a period that took `actual` instead of `expected`: within a factor of 4 and a 256-bit
-- number, and at least 1 where it gets lower.
pub record IsRetargeted (expected old actual level : ℕ) : Type 0 where
  pub long : expected * 4 < actual → level ≡ min (old * 4) (2 ^ 256 - 1)
  pub short : actual ≤ expected * 4 → actual < expected / 4 → level ≡ max (old / 4) 1
  pub near :
      actual ≤ expected * 4
      → expected / 4 ≤ actual
      → level ≡ min (max (old / expected) 1 * actual) (2 ^ 256 - 1)

pub adjust-IsRetargeted :
    (c : Config) (old actual level : ℕ)
    → 0 < expected_span c
    → adjust_with_actual_span old actual c ≡ done level
    → IsRetargeted (expected_span c) old actual level
unfolding adjust_with_actual_span saturating_mul
adjust-IsRetargeted c old actual level pos e =
    let zero_no = ne→==_false (expected_span c) 0 (omega (arith, pos)) in
    record {
      long = λ h.
          let t = lt→ltb (expected_span c * 4) actual h in
          let same : done (min (old * 4) (2 ^ 256 - 1)) ≡ done level =
            sym (rw (t, adjust_with_actual_span) refl) ∙ e in
          sym (cc same);
      short = λ h k.
          let f = le→ltb_false (expected_span c * 4) actual h in
          let t = lt→ltb actual (expected_span c / 4) k in
          let same : done (max (old / 4) 1) ≡ done level =
            sym (rw (f, t, adjust_with_actual_span) refl) ∙ e in
          sym (cc same);
      near = λ h k.
          let f = le→ltb_false (expected_span c * 4) actual h in
          let g = le→ltb_false actual (expected_span c / 4) k in
          let same : done (min (max (old / expected_span c) 1 * actual) (2 ^ 256 - 1))
              ≡ done level =
            sym (rw (f, g, zero_no, adjust_with_actual_span) refl) ∙ e in
          sym (cc same);
    }
