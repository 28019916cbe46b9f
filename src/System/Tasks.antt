-- ===== src/System/Tasks.antt =====
-- The tasks that use the actor of a node: those of src/new_peer_watcher.rs, which src/config.rs spawns, `run`
-- of src/peer.rs, which they spawn, and the miner and the transfers of those who run a node.
use ddcoin.Prelude.{ℕ, suc, arith, true, Option, List, [], ◌∷◌, length}
use ddcoin.Prelude.Outcome.{done, panic, out_of_fuel}
use ddcoin.Prelude.Bytes.{Bytes}
use ddcoin.Data.{CoinAddress, Timestamp}
use ddcoin.External.{External}
use ddcoin.Util.Difficulty.{IsUsable}
use ddcoin.Hub.Messages.{NodeId, PeerMessage, BroadcastMessage, Message}
use ddcoin.Hub.Client.{Client, fail, crash, stuck, cast, lost_connection}
use ddcoin.Hub.Helper.{new_transfer}
use ddcoin.Hub.Ledger.{Ledger}
use ddcoin.Miner.{MinerConfig, mine_loop}
use ddcoin.Peer
use ddcoin.Peer.{PeerError, forward}
use ddcoin.Peer.Delivery.{CarriesAdmissible, SendsAdmissible, AllCaused, run-AllCaused}
use ddcoin.Watcher.{Dial, Incoming, subscribe, listen}
use ddcoin.System.{discard}
use ddcoin.System.Programs.{IsProper, Behaves, discard-Behaves}
use ddcoin.System.Users.{new_transfer-Behaves, subscribe-Behaves, listen-Behaves}
use ddcoin.System.Mining.{NoneZero, mine_loop-Behaves}

module _ {S A : Type 0} where
  unfoldable pub cast_all : List (Message S) → Client S A → Client S A
  cast_all [] c = c
  cast_all (m ∷ ms) c = cast m (cast_all ms c)

  -- `Peer::run` as a task: the messages of the stream, and the error that ends it. Whether the actor
  -- still runs is found out at each cast.
  unfoldable pub reads : (Bytes → Option PeerMessage) → NodeId → Bytes → Client S A
  unfolding cast_all
  reads decode id stream =
      elim (Peer.run {S = S} decode (λ casts. true) (suc (length stream)) id 0 stream) [
        | done r ↦ cast_all r.0 (fail lost_connection)
        | panic ↦ crash
        | out_of_fuel ↦ stuck
      ]

-- `nonces` bounds the search of each block, and `draws` are the ids that `Cash::new` draws.
pub data Task (S : Type 0) : Type 0 where
  subscribes : (NodeId → Dial S) → List NodeId → Task S
  listens : List (Incoming S) → Task S
  reads_peer : NodeId → Bytes → Task S
  mines : ℕ → MinerConfig → List (Timestamp × Bytes) → Task S
  transfers : Bytes → CoinAddress → ℕ → ℕ → Bytes → Bytes → Task S

module _ {S : Type 0} ⦃x : External⦄ (decode : Bytes → Option PeerMessage) where
  unfoldable pub program : Task S → Client S (Unit {0})
  unfolding discard reads
  program (Task.subscribes connect ids) =
      subscribe connect ids (record { known_ids = []; tasks = [] })
  program (Task.listens incoming) = listen incoming []
  program (Task.reads_peer id stream) = reads decode id stream
  program (Task.mines nonces miner rounds) = mine_loop nonces miner rounds
  program (Task.transfers signer receiver amount fee transfer_id rest_id) =
      discard (new_transfer signer receiver amount fee transfer_id rest_id)

-- A miner has usable settings and makes no block with the hash of zeros, and the blocks that a peer sends
-- are admissible; there is no condition on the others.
abbrev pub IsFit : {S : Type 0} → ⦃x : External⦄ → (Bytes → Option PeerMessage) → Task S → Type 0
IsFit decode (Task.mines nonces miner rounds) =
    IsUsable miner.peerhub_config × NoneZero nonces miner
IsFit decode (Task.reads_peer id stream) = SendsAdmissible decode stream
IsFit decode _ = Unit

module _ (S : Type 0) ⦃x : External⦄ where
  forward-IsProper :
      (l : Ledger) (id : NodeId) (msg : PeerMessage)
      → CarriesAdmissible msg
      → IsProper {S = S} l (forward id msg)
  unfolding forward
  forward-IsProper l id (PeerMessage.broadcast (BroadcastMessage.announce_transaction t)) c = tt
  forward-IsProper l id (PeerMessage.broadcast (BroadcastMessage.announce_block b)) c = tt
  forward-IsProper l id (PeerMessage.get_transaction_request t) c = tt
  forward-IsProper l id (PeerMessage.get_transaction_response t) c = tt
  forward-IsProper l id (PeerMessage.get_block_request b) c = tt
  forward-IsProper l id (PeerMessage.get_block_response n b) c = c

module _ {S A : Type 0} ⦃x : External⦄ where
  cast_all-Behaves :
      (l : Ledger) (id : NodeId) (ms : List (Message S)) (c : Client S A)
      → AllCaused id ms
      → Behaves l c
      → Behaves l (cast_all ms c)
  unfolding cast_all
  cast_all-Behaves l id [] c all b = b
  cast_all-Behaves l id (m ∷ ms) c ((msg, e, carries), all) b =
      (λ l' g low. rw e (forward-IsProper S l' id msg carries), cast_all-Behaves l id ms c all b)

module _ (S : Type 0) ⦃x : External⦄ (decode : Bytes → Option PeerMessage) where
  reads-Behaves :
      (A : Type 0) (l : Ledger) (id : NodeId) (stream : Bytes)
      → SendsAdmissible decode stream
      → Behaves l (reads {S = S} {A = A} decode id stream)
  unfolding reads
  reads-Behaves A l id stream sends =
      let (r, e, all) =
        run-AllCaused S decode (λ casts. true) id (suc (length stream)) 0 stream (omega arith)
          sends in
      rw (e, reads) (cast_all-Behaves l id r.0 _ all tt)

  -- The program of every task sends proper messages and does not panic, whatever the others do.
  pub program-Behaves :
      (l : Ledger) (task : Task S) → IsFit decode task → Behaves l (program decode task)
  unfolding program
  program-Behaves l (Task.subscribes connect ids) fit = subscribe-Behaves Unit connect ids l _
  program-Behaves l (Task.listens incoming) fit = listen-Behaves Unit incoming l []
  program-Behaves l (Task.reads_peer id stream) fit = reads-Behaves Unit l id stream fit
  program-Behaves l (Task.mines nonces miner rounds) fit =
      mine_loop-Behaves S nonces miner fit.1 fit.0 rounds l
  program-Behaves l (Task.transfers signer receiver amount fee transfer_id rest_id) fit =
      discard-Behaves l _ (new_transfer-Behaves S l signer receiver amount fee transfer_id rest_id)
