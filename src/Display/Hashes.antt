-- ===== src/Display/Hashes.antt =====
-- About src/util.rs, `fmt_hex`: texts of hashes are told apart, also where more text follows.
use mathlib.Core.List.{append_assoc}
use ddcoin.Prelude.{◌/◌, ◌≡◌, refl, sym, ap, subst, ◌∙◌, arith, List, [], ◌∷◌, ◌++◌, length}
use ddcoin.Prelude.Outcome.{done}
use ddcoin.Prelude.Bytes.{Bytes, AreBytes, ascii_bytes}
use ddcoin.Data.{Sha256Hash}
use ddcoin.Util.Hex.{hex_to_bytes, fmt_hex, hex_digit}
use ddcoin.Util.Hex.RoundTrip.{length-fmt_hex, hex_to_bytes-fmt_hex}
use ddcoin.Display.{hash_text, ids_text}

-- `[u8; 32]`
pub record IsHash (hash : Sha256Hash) : Type 0 where
  pub bytes : AreBytes hash
  pub size : length hash ≡ 32

abbrev pub AreHashes : List Sha256Hash → Type 0
AreHashes [] = Unit
AreHashes (h ∷ hs) = IsHash h × AreHashes hs

pub fmt_hex-injective : (a b : Bytes) → AreBytes a → AreBytes b → fmt_hex a ≡ fmt_hex b → a ≡ b
fmt_hex-injective a b p q same =
    let as_long : length a ≡ length b =
      omega (arith, length-fmt_hex a, length-fmt_hex b, ap length same) in
    let read : hex_to_bytes (length b) (fmt_hex b) ≡ done a =
      subst (λ n. hex_to_bytes n (fmt_hex b) ≡ done a) as_long
        (subst (λ text. hex_to_bytes (length a) text ≡ done a) same (hex_to_bytes-fmt_hex a p)) in
    cc (read, hex_to_bytes-fmt_hex b q)

-- Two texts that begin with parts of one length are the same in both parts.
pub append-injective : (a b s t : Bytes) → length a ≡ length b → a ++ s ≡ b ++ t → (a ≡ b) × (s ≡ t)
append-injective [] [] s t as_long same = (refl, same)
append-injective [] (y ∷ b) s t as_long same = absurd (omega (arith, as_long))
append-injective (x ∷ a) [] s t as_long same = absurd (omega (arith, as_long))
append-injective (x ∷ a) (y ∷ b) s t as_long same =
    let head : x ≡ y = cc same in
    let tail : a ++ s ≡ b ++ t = cc same in
    let (p, q) = append-injective a b s t (omega (arith, as_long)) tail in (cc (head, p), q)

pub hash_text-injective :
    (a b : Sha256Hash) (s t : Bytes)
    → IsHash a
    → IsHash b
    → hash_text a ++ s ≡ hash_text b ++ t
    → (a ≡ b) × (s ≡ t)
unfolding hash_text
hash_text-injective a b s t p q same =
    let (texts, rest) =
      append-injective (fmt_hex a) (fmt_hex b) s t
        (omega (arith, length-fmt_hex a, length-fmt_hex b, p.size, q.size)) same in
    (fmt_hex-injective a b p.bytes q.bytes texts, rest)

-- No text of a hash begins with the bracket that ends a list.
hash_text-bracket :
    (a : Sha256Hash) (s t : Bytes) → IsHash a → ¬ (ascii_bytes "]" ++ s ≡ hash_text a ++ t)
unfolding hash_text fmt_hex hex_digit
hash_text-bracket [] s t p same = absurd (omega (arith, p.size))
hash_text-bracket (c ∷ a) s t p same =
    let digit : 93 ≡ hex_digit (c / 16) = cc same in ground (arith, p.bytes.0, digit)

pub ids_text-injective :
    (js ks : List Sha256Hash) (s t : Bytes)
    → AreHashes js
    → AreHashes ks
    → ids_text js ++ (ascii_bytes "]" ++ s) ≡ ids_text ks ++ (ascii_bytes "]" ++ t)
    → (js ≡ ks) × (s ≡ t)
unfolding ids_text
ids_text-injective [] [] s t p q same = (refl, cc same)
ids_text-injective [] (k ∷ ks) s t p q same =
    absurd (hash_text-bracket k s _ q.0 (same ∙ append_assoc (hash_text k) _ _))
ids_text-injective (j ∷ js) [] s t p q same =
    absurd (hash_text-bracket j t _ p.0 (sym same ∙ append_assoc (hash_text j) _ _))
ids_text-injective (j ∷ js) (k ∷ ks) s t p q same =
    let (first, rest) =
      hash_text-injective j k _ _ p.0 q.0
        (sym (append_assoc (hash_text j) _ _) ∙ same ∙ append_assoc (hash_text k) _ _) in
    let (others, after) = ids_text-injective js ks s t p.1 q.1 (cc rest) in
    (cc (first, others), after)
