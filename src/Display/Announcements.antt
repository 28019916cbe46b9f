-- ===== src/Display/Announcements.antt =====
-- About src/peer.rs: the texts of the messages between peers that carry an id and no data.
use mathlib.Core.List.{append_assoc}
use ddcoin.Prelude.{ℕ, arith, some, get_elem?, ◌≡◌, refl, sym, ap, ◌∙◌, ◌++◌, []}
use ddcoin.Prelude.Bytes.{Bytes, ascii_bytes}
use ddcoin.Data.{Sha256Hash}
use ddcoin.External.{External}
use ddcoin.Hub.Messages.{BroadcastMessage, PeerMessage}
use ddcoin.Display.{Formats, hash_text}
use ddcoin.Display.Hashes.{IsHash, append-injective, hash_text-injective}
use ddcoin.Display.Messages.{call_text, broadcast_text, peer_message_text}

-- An announcement or a request, for an id of 32 bytes.
abbrev pub Announces : BroadcastMessage → Type 0
Announces (BroadcastMessage.announce_transaction id) = IsHash id
Announces (BroadcastMessage.announce_block id) = IsHash id

abbrev pub CarriesId : PeerMessage → Type 0
CarriesId (PeerMessage.broadcast msg) = Announces msg
CarriesId (PeerMessage.get_transaction_request id) = IsHash id
CarriesId (PeerMessage.get_transaction_response txn) = ⊥
CarriesId (PeerMessage.get_block_request id) = IsHash id
CarriesId (PeerMessage.get_block_response id block) = ⊥

-- Texts that are the same have the same byte at every place.
byte-injective :
    (k c d : ℕ) (s t : Bytes) → s ≡ t → get_elem? s k ≡ some c → get_elem? t k ≡ some d → c ≡ d
byte-injective k c d s t same p q =
    let at : get_elem? t k ≡ some c = sym (ap (λ u. get_elem? u k) same) ∙ p in cc (at, q)

-- Two calls of one name have one argument, as far as the argument is told apart from what follows it.
call_text-argument :
    (name a b s t : Bytes)
    → call_text name a ++ s ≡ call_text name b ++ t
    → a ++ (ascii_bytes ")" ++ s) ≡ b ++ (ascii_bytes ")" ++ t)
call_text-argument name a b s t same =
    let (_, rest) =
      append-injective name name _ _ refl
        (sym (append_assoc name _ _) ∙ same ∙ append_assoc name _ _) in
    let inner : (a ++ ascii_bytes ")") ++ s ≡ (b ++ ascii_bytes ")") ++ t = cc rest in
    sym (append_assoc a _ _) ∙ inner ∙ append_assoc b _ _

hash_call-injective :
    (name : Bytes) (i j : Sha256Hash) (s t : Bytes)
    → IsHash i
    → IsHash j
    → call_text name (hash_text i) ++ s ≡ call_text name (hash_text j) ++ t
    → i ≡ j
hash_call-injective name i j s t p q same =
    (hash_text-injective i j _ _ p q
      (call_text-argument name (hash_text i) (hash_text j) s t same)).0

broadcast_text-injective :
    (m n : BroadcastMessage) (s t : Bytes)
    → Announces m
    → Announces n
    → broadcast_text m ++ s ≡ broadcast_text n ++ t
    → m ≡ n
unfolding broadcast_text
broadcast_text-injective (BroadcastMessage.announce_transaction i)
      (BroadcastMessage.announce_transaction j) s t p q same =
    ap BroadcastMessage.announce_transaction
      (hash_call-injective (ascii_bytes "AnnounceTransaction") i j s t p q same)
broadcast_text-injective (BroadcastMessage.announce_block i) (BroadcastMessage.announce_block j) s t
      p q same =
    ap BroadcastMessage.announce_block
      (hash_call-injective (ascii_bytes "AnnounceBlock") i j s t p q same)
broadcast_text-injective (BroadcastMessage.announce_transaction i)
      (BroadcastMessage.announce_block j) s t p q same =
    absurd (omega (arith, byte-injective 8 84 66 _ _ same refl refl))
broadcast_text-injective (BroadcastMessage.announce_block i)
      (BroadcastMessage.announce_transaction j) s t p q same =
    absurd (omega (arith, byte-injective 8 66 84 _ _ same refl refl))

module _ (formats : Formats) ⦃x : External⦄ where
  -- Two messages between peers that only carry an id, which are the announcements and the
  -- requests, for ids of 32 bytes, and that have one text in the log are the same message.
  pub peer_message_text-injective :
      (m n : PeerMessage)
      → CarriesId m
      → CarriesId n
      → peer_message_text formats m ≡ peer_message_text formats n
      → m ≡ n
  unfolding peer_message_text
  peer_message_text-injective (PeerMessage.broadcast m) (PeerMessage.broadcast n) p q same =
      ap PeerMessage.broadcast (
        broadcast_text-injective m n _ _ p q (
          call_text-argument (ascii_bytes "Broadcast") (broadcast_text m) (broadcast_text n) [] []
            (ap (λ text. text ++ []) same)))
  peer_message_text-injective (PeerMessage.get_transaction_request i)
        (PeerMessage.get_transaction_request j) p q same =
      ap PeerMessage.get_transaction_request (
        hash_call-injective (ascii_bytes "GetTransactionRequest") i j [] [] p q
          (ap (λ text. text ++ []) same))
  peer_message_text-injective (PeerMessage.get_block_request i) (PeerMessage.get_block_request j) p
        q same =
      ap PeerMessage.get_block_request (
        hash_call-injective (ascii_bytes "GetBlockRequest") i j [] [] p q
          (ap (λ text. text ++ []) same))
  peer_message_text-injective (PeerMessage.broadcast m) (PeerMessage.get_transaction_request j) p q
        same =
      absurd (omega (arith, byte-injective 0 66 71 _ _ same refl refl))
  peer_message_text-injective (PeerMessage.broadcast m) (PeerMessage.get_block_request j) p q same =
      absurd (omega (arith, byte-injective 0 66 71 _ _ same refl refl))
  peer_message_text-injective (PeerMessage.get_transaction_request i) (PeerMessage.broadcast n) p q
        same =
      absurd (omega (arith, byte-injective 0 71 66 _ _ same refl refl))
  peer_message_text-injective (PeerMessage.get_transaction_request i)
        (PeerMessage.get_block_request n) p q same =
      absurd (omega (arith, byte-injective 3 84 66 _ _ same refl refl))
  peer_message_text-injective (PeerMessage.get_block_request i) (PeerMessage.broadcast n) p q same =
      absurd (omega (arith, byte-injective 0 71 66 _ _ same refl refl))
  peer_message_text-injective (PeerMessage.get_block_request i)
        (PeerMessage.get_transaction_request n) p q same =
      absurd (omega (arith, byte-injective 3 66 84 _ _ same refl refl))
  peer_message_text-injective (PeerMessage.get_transaction_response i) n p q same = absurd p
  peer_message_text-injective (PeerMessage.get_block_response i b) n p q same = absurd p
  peer_message_text-injective m (PeerMessage.get_transaction_response i) p q same = absurd q
  peer_message_text-injective m (PeerMessage.get_block_response i b) p q same = absurd q
