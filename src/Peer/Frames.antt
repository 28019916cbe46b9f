-- ===== src/Peer/Frames.antt =====
-- About src/peer.rs and src/peerhub.rs: the frames that `send_to_peer` writes, and the loop that reads
-- them.
use mathlib.Core.List.{reverse-reverse}
use ddcoin.Prelude.{
  ℕ, zero, suc, ◌+◌, ◌*◌, ◌^◌, ◌%◌, ◌≤◌, ◌<◌, ◌≡◌, refl, sym, ap, ◌∙◌, arith, Bool, Option, none,
  some, [], ◌∷◌, ◌++◌, length, inl, inr, Bool-cases, Option-cases,
}
use ddcoin.Prelude.Outcome.{Returns}
use ddcoin.Prelude.Bytes.{Bytes, bytes_eq, to_le_bytes, from_le_bytes-to_le_bytes}
use ddcoin.Hub.Messages.{NodeId, PeerMessage}
use ddcoin.Hub.Send.{length_prefix}
use ddcoin.Peer.{PeerError, stream_ended, read_exact, from_be_bytes, read_frame, forward, run}

length-read_exact :
    (n : ℕ) (stream : Bytes) (r : Bytes × Bytes)
    → read_exact n stream ≡ some r
    → length r.1 + n ≡ length stream
unfolding read_exact
length-read_exact zero stream r e = let same : stream ≡ r.1 = cc in omega (arith, ap length same)
length-read_exact (suc n) [] r e = cc
length-read_exact (suc n) (b ∷ stream) r e = elim (Option-cases (read_exact n stream)) [
  | inl ended ↦ let f : read_exact (suc n) (b ∷ stream) ≡ none = rw ended in cc (e, f)
  | inr (r', e') ↦
      let f : read_exact (suc n) (b ∷ stream) ≡ some (b ∷ r'.0, r'.1) = rw e' in
      let same : r'.1 ≡ r.1 = cc (e, f) in
      omega (arith, length-read_exact n stream r' e', ap length same)
]

pub length-read_frame :
    (stream : Bytes) (r : Bytes × Bytes)
    → read_frame stream ≡ some r
    → length r.1 + 4 ≤ length stream
unfolding read_frame
length-read_frame stream r e = elim (Option-cases (read_exact 4 stream)) [
  | inl ended ↦ let f : read_frame stream ≡ none = rw (ended, read_frame) in cc (e, f)
  | inr (r', e') ↦
      let f : read_frame stream ≡ read_exact (from_be_bytes r'.0) r'.1 = rw (e', read_frame) in
      omega (
        arith,
        length-read_exact 4 stream r' e',
        length-read_exact (from_be_bytes r'.0) r'.1 r (sym f ∙ e),
      )
]

read_exact-append :
    (bytes rest : Bytes) → read_exact (length bytes) (bytes ++ rest) ≡ some (bytes, rest)
unfolding read_exact
read_exact-append [] rest = refl
read_exact-append (b ∷ bytes) rest = rw (read_exact-append bytes rest)

from_be_bytes-length_prefix :
    (encoded : Bytes)
    → length encoded < 2 ^ 32
    → from_be_bytes (length_prefix encoded) ≡ length encoded
unfolding from_be_bytes length_prefix
from_be_bytes-length_prefix encoded short =
    rw (reverse-reverse (to_le_bytes 4 (length encoded % 2 ^ 32)))
      (omega (arith, from_le_bytes-to_le_bytes 4 (length encoded % 2 ^ 32) (omega arith)))

pub length-length_prefix : (encoded : Bytes) → length (length_prefix encoded) ≡ 4
unfolding length_prefix to_le_bytes
length-length_prefix encoded = refl

read_exact-prefix :
    (n : ℕ) (bytes rest : Bytes)
    → length bytes ≡ n
    → read_exact n (bytes ++ rest) ≡ some (bytes, rest)
read_exact-prefix n bytes rest e = rw (← e) (read_exact-append bytes rest)

pub read_frame-written :
    (encoded rest : Bytes)
    → length encoded < 2 ^ 32
    → read_frame (length_prefix encoded ++ (encoded ++ rest)) ≡ some (encoded, rest)
unfolding read_frame
read_frame-written encoded rest short =
    rw
      (
        read_exact-prefix 4 (length_prefix encoded) (encoded ++ rest)
            (length-length_prefix encoded),
        from_be_bytes-length_prefix encoded short,
        read_frame,
      )
      (read_exact-append encoded rest)

module _ {S : Type 0} (decode : Bytes → Option PeerMessage) (running : ℕ → Bool) (id : NodeId) where
  -- With fuel above the length of the stream the loop that reads from a peer ends, and it has cast
  -- at most one message for every four bytes.
  pub run-Returns :
      (fuel casts : ℕ) (stream : Bytes)
      → length stream < fuel
      → Returns
          (λ r. 4 * length r.0 ≤ length stream)
          (run {S = S} decode running fuel id casts stream)
  unfolding run
  run-Returns zero casts stream h = absurd (omega arith)
  run-Returns (suc fuel) casts stream h = elim (Option-cases (read_frame stream)) [
    | inl ended ↦ rw (ended, run) (([], stream_ended), refl, omega arith)
    | inr (r, e) ↦ elim (Option-cases (decode r.0)) [
      | inl bad ↦ rw (e, bad, run) (([], PeerError.undecodable), refl, omega arith)
      | inr (msg, d) ↦ elim (Bool-cases (running casts)) [
        | inr stopped ↦ rw (e, d, stopped, run) (([], PeerError.actor_stopped), refl, omega arith)
        | inl on ↦
            let shorter = length-read_frame stream r e in
            let (more, again, few) = run-Returns fuel (suc casts) r.1 (omega (arith, shorter)) in
            rw (e, d, on, again, run)
              ((forward id msg ∷ more.0, more.1), refl, omega (arith, few, shorter))
      ]
    ]
  ]
