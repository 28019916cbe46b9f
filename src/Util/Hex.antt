-- ===== src/Util/Hex.antt =====
-- src/util.rs: `hex_to_bytes` and `fmt_hex`. A text is the list of its bytes.
pub mod RoundTrip
use Prim.Native.Nat.{bit_or}
use ddcoin.Prelude.{
  ℕ, zero, suc, ◌+◌, ◌-◌, ◌*◌, ◌/◌, ◌%◌, Bool, true, false, ◌&&◌, not, List, [], ◌∷◌, leb, ltb,
  if◌then◌else◌, ◌==◌, ℕ_eq, length, get_elem?, ◌++◌,
}
use ddcoin.Prelude.Outcome.{Outcome, done, panic, unwrap, ◌>>=◌}
use ddcoin.Prelude.Bytes.{Bytes}

-- u8 arithmetic; the ranges of the match keep the subtraction from stopping at 0.
unfoldable pub ascii_to_num : ℕ → Outcome ℕ
ascii_to_num c =
    if leb b'0' c && leb c b'9'
    then done (c - b'0')
    else if leb b'a' c && leb c b'f'
    then done (c - b'a' + 10)
    else if leb b'A' c && leb c b'F'
    then done (c - b'A' + 10)
    else panic

unfoldable pub is_ascii : Bytes → Bool
is_ascii [] = true
is_ascii (c ∷ s) = ltb c 128 && is_ascii s

-- `(high << 4) | low`, a u8
unfoldable pub join_digits : ℕ → ℕ → ℕ
join_digits high low = bit_or (high * 16 % 256) low

-- The body of the loop: the byte at index `i`.
unfoldable pub byte_at : Bytes → ℕ → Outcome ℕ
unfolding ascii_to_num join_digits
byte_at s i = do
  c ← unwrap (get_elem? s (i * 2))
  high ← ascii_to_num c
  d ← unwrap (get_elem? s (i * 2 + 1))
  low ← ascii_to_num d
  done (join_digits high low)

-- The loop, with `n` bytes still to come from index `i` on.
unfoldable pub hex_loop : ℕ → Bytes → ℕ → Outcome Bytes
unfolding byte_at
hex_loop zero s i = done []
hex_loop (suc n) s i = do byte ← byte_at s i; rest ← hex_loop n s (i + 1); done (byte ∷ rest)

-- `hex_to_bytes::<N>(s)`
unfoldable pub hex_to_bytes : ℕ → Bytes → Outcome Bytes
unfolding hex_loop is_ascii
hex_to_bytes n s =
    if not (is_ascii s) then panic else if not (length s == n * 2) then panic else hex_loop n s 0

-- a digit of the format `x`
unfoldable pub hex_digit : ℕ → ℕ
hex_digit d = if ltb d 10 then b'0' + d else b'a' + d - 10

-- `write!(f, "{:02x}", b)` for each byte
unfoldable pub fmt_hex : Bytes → Bytes
unfolding hex_digit
fmt_hex [] = []
fmt_hex (b ∷ bs) = hex_digit (b / 16) ∷ hex_digit (b % 16) ∷ fmt_hex bs
