-- ===== src/Util/Hex/RoundTrip.antt =====
-- About src/util.rs: `hex_to_bytes` on a text that `fmt_hex` wrote.
use ddcoin.Prelude.{
  ℕ, zero, suc, ◌+◌, ◌*◌, ◌/◌, ◌%◌, ◌<◌, ◌≡◌, refl, Bool, true, false, ◌≤◌, if◌then◌else◌, [], ◌∷◌,
  arith, length, ◌==◌, ℕ_eq, ℕ_discrete,
}
use ddcoin.Prelude.Outcome.{done}
use ddcoin.Prelude.Bytes.{Bytes, AreBytes}
use ddcoin.Util.Hex.{
  ascii_to_num, is_ascii, join_digits, byte_at, hex_loop, hex_to_bytes, hex_digit, fmt_hex,
}

ascii_to_num-hex_digit : (d : ℕ) → d < 16 → ascii_to_num (hex_digit d) ≡ done d
unfolding ascii_to_num hex_digit
ascii_to_num-hex_digit d h = ground arith

pub hex_digit-lt : (d : ℕ) → d < 16 → hex_digit d < 128
unfolding hex_digit
hex_digit-lt d h = ground arith

-- Whether each of `count` numbers from `first` on is made again of its two digits.
rejoins : (count first : ℕ) → Bool
rejoins zero first = true
rejoins (suc count) first =
    let others = rejoins count (suc first) in
    if join_digits (first / 16) (first % 16) == first then others else false

rejoins-at :
    (count first byte : ℕ)
    → rejoins count first ≡ true
    → first ≤ byte
    → byte < first + count
    → join_digits (byte / 16) (byte % 16) ≡ byte
unfolding rejoins
rejoins-at zero first byte good low high = absurd (omega arith)
rejoins-at (suc count) first byte good low high = ground (arith, rejoins-at count (suc first) byte)

every_byte : rejoins 256 0 ≡ true
unfolding rejoins join_digits ℕ_discrete
every_byte = refl

join_digits-split : (b : ℕ) → b < 256 → join_digits (b / 16) (b % 16) ≡ b
join_digits-split b h = rejoins-at 256 0 b every_byte (omega arith) h

byte_at-shift : (c d : ℕ) (s : Bytes) (i : ℕ) → byte_at (c ∷ d ∷ s) (i + 1) ≡ byte_at s i
unfolding byte_at
byte_at-shift c d s i =
    let even : (i + 1) * 2 ≡ suc (suc (i * 2)) = omega arith in
    let odd : (i + 1) * 2 + 1 ≡ suc (suc (i * 2 + 1)) = omega arith in rw (odd, even)

-- Two characters more in front move the loop on by one round.
hex_loop-shift :
    (n : ℕ) (c d : ℕ) (s : Bytes) (i : ℕ) → hex_loop n (c ∷ d ∷ s) (i + 1) ≡ hex_loop n s i
unfolding hex_loop
hex_loop-shift zero c d s i = refl
hex_loop-shift (suc n) c d s i = rw (byte_at-shift c d s i, hex_loop-shift n c d s (i + 1))

byte_at-fmt_hex : (b : ℕ) (bs : Bytes) → b < 256 → byte_at (fmt_hex (b ∷ bs)) 0 ≡ done b
unfolding byte_at fmt_hex
byte_at-fmt_hex b bs h = rw (
  ascii_to_num-hex_digit (b / 16) (omega arith),
  ascii_to_num-hex_digit (b % 16) (omega arith),
  join_digits-split b h,
)

is_ascii-fmt_hex : (bs : Bytes) → AreBytes bs → is_ascii (fmt_hex bs) ≡ true
unfolding is_ascii fmt_hex
is_ascii-fmt_hex [] h = refl
is_ascii-fmt_hex (b ∷ bs) h =
    ground (arith, is_ascii-fmt_hex bs h.1, hex_digit-lt (b / 16), hex_digit-lt (b % 16))

pub length-fmt_hex : (bs : Bytes) → length (fmt_hex bs) ≡ length bs * 2
unfolding fmt_hex
length-fmt_hex [] = refl
length-fmt_hex (b ∷ bs) = omega (arith, length-fmt_hex bs)

hex_loop-fmt_hex_cons :
    (n b : ℕ) (bs : Bytes) → hex_loop n (fmt_hex (b ∷ bs)) 1 ≡ hex_loop n (fmt_hex bs) 0
unfolding fmt_hex
hex_loop-fmt_hex_cons n b bs = hex_loop-shift n _ _ (fmt_hex bs) 0

hex_loop-fmt_hex : (bs : Bytes) → AreBytes bs → hex_loop (length bs) (fmt_hex bs) 0 ≡ done bs
unfolding hex_loop
hex_loop-fmt_hex [] h = refl
hex_loop-fmt_hex (b ∷ bs) h =
    rw (byte_at-fmt_hex b bs h.0, hex_loop-fmt_hex_cons (length bs) b bs, hex_loop-fmt_hex bs h.1)

-- The text that `fmt_hex` writes for an array of bytes is read back as that array by
-- `hex_to_bytes`.
pub hex_to_bytes-fmt_hex :
    (bs : Bytes) → AreBytes bs → hex_to_bytes (length bs) (fmt_hex bs) ≡ done bs
unfolding hex_to_bytes
hex_to_bytes-fmt_hex bs h =
    ground (arith, is_ascii-fmt_hex bs h, length-fmt_hex bs, hex_loop-fmt_hex bs h)
