-- ===== src/Samples/Texts.antt =====
-- The theorem on the texts of messages applied to a concrete one, where an integer is written by that many
-- strokes and the ids of other crates are written in hexadecimal.
use ddcoin.Prelude.{ℕ, zero, suc, ◌≡◌, refl, arith, length, replicate}
use ddcoin.Prelude.Bytes.{Bytes, AreBytes}
use ddcoin.Util.Hex.{fmt_hex}
use ddcoin.Hub.Messages.{BroadcastMessage, PeerMessage}
use ddcoin.Display.{Formats}
use ddcoin.Display.Hashes.{IsHash}
use ddcoin.Display.Announcements.{peer_message_text-injective}
use ddcoin.Samples.{toy}

abbrev plain : Formats
plain = record {
  integer = λ n. replicate n 124;
  uuid = fmt_hex;
  node_id = fmt_hex;
  debug_cash = λ cs. replicate (length cs) 99;
}

abbrev hash : Bytes
hash = replicate 32 7

sevens-AreBytes : (n : ℕ) → AreBytes (replicate n 7)
sevens-AreBytes zero = tt
sevens-AreBytes (suc n) = (omega arith, sevens-AreBytes n)

hash-IsHash : IsHash hash
hash-IsHash = record { bytes = sevens-AreBytes 32; size = refl }

abbrev announced : PeerMessage
announced = PeerMessage.broadcast (BroadcastMessage.announce_block hash)

peer_message_text-injective_example : announced ≡ announced
peer_message_text-injective_example =
    peer_message_text-injective plain announced announced hash-IsHash hash-IsHash refl
