-- ===== src/Display/Numbers.antt =====
-- About src/util.rs, the `Display` of `Difficulty`.
use mathlib.Core.List.{reverse, reverse-reverse, reverse-append}
use ddcoin.Prelude.{
  ℕ, zero, suc, ◌/◌, ◌^◌, ◌<◌, ◌≡◌, refl, subst, arith, [], ◌∷◌, ◌++◌, length, length-append,
}
use ddcoin.Prelude.Outcome.{done, ◌>>=◌}
use ddcoin.Prelude.Bytes.{Bytes, AreBytes, to_le_bytes, from_le_bytes-to_le_bytes}
use ddcoin.Data.{Difficulty}
use ddcoin.Util.Hex.{hex_to_bytes, fmt_hex}
use ddcoin.Util.Hex.RoundTrip.{hex_to_bytes-fmt_hex}
use ddcoin.Peer.{from_be_bytes}
use ddcoin.Display.{difficulty_text}

to_le_bytes-AreBytes : (k n : ℕ) → AreBytes (to_le_bytes k n)
unfolding to_le_bytes
to_le_bytes-AreBytes zero n = tt
to_le_bytes-AreBytes (suc k) n = (omega arith, to_le_bytes-AreBytes k (n / 256))

length-to_le_bytes : (k n : ℕ) → length (to_le_bytes k n) ≡ k
unfolding to_le_bytes
length-to_le_bytes zero n = refl
length-to_le_bytes (suc k) n = omega (arith, length-to_le_bytes k (n / 256))

AreBytes-append : (a b : Bytes) → AreBytes a → AreBytes b → AreBytes (a ++ b)
AreBytes-append [] b p q = q
AreBytes-append (x ∷ a) b p q = (p.0, AreBytes-append a b p.1 q)

AreBytes-reverse : (a : Bytes) → AreBytes a → AreBytes (reverse a)
AreBytes-reverse [] p = tt
AreBytes-reverse (x ∷ a) p =
    rw (reverse-append (x ∷ []) a)
      (AreBytes-append (reverse a) (x ∷ []) (AreBytes-reverse a p.1) (p.0, tt))

length-reverse : (a : Bytes) → length (reverse a) ≡ length a
length-reverse [] = refl
length-reverse (x ∷ a) =
    rw (reverse-append (x ∷ []) a)
      (omega (arith, length-append (reverse a) (x ∷ []), length-reverse a))

-- The text of a level is its 64 digits: `hex_to_bytes` reads back the bytes of the number.
difficulty_text-reads :
    (d : Difficulty)
    → d < 256 ^ 32
    → (hex_to_bytes 32 (difficulty_text d) >>= λ bytes. done (from_be_bytes bytes)) ≡ done d
unfolding difficulty_text from_be_bytes
difficulty_text-reads d small =
    let bytes = reverse (to_le_bytes 32 d) in
    let size : length bytes ≡ 32 =
      omega (arith, length-reverse (to_le_bytes 32 d), length-to_le_bytes 32 d) in
    let read : hex_to_bytes 32 (fmt_hex bytes) ≡ done bytes =
      subst (λ n. hex_to_bytes n (fmt_hex bytes) ≡ done bytes) size
        (hex_to_bytes-fmt_hex bytes
          (AreBytes-reverse (to_le_bytes 32 d) (to_le_bytes-AreBytes 32 d))) in
    rw (read, reverse-reverse (to_le_bytes 32 d), from_le_bytes-to_le_bytes 32 d small) refl
