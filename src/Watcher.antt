-- ===== src/Watcher.antt =====
-- src/new_peer_watcher.rs: one round of `NewPeerStreamSubscriber::run` and of
-- `IncomingConnectionListener::run`, which are users of the actor, and the two loops. What the endpoint
-- of iroh does is an argument. The other branch of each `select!` only logs that a peer's task ended.
pub mod Watching
pub mod Dialled
pub mod Rounds
pub mod Listening
use ddcoin.Prelude.{Bool, true, false, not, if◌then◌else◌, List, [], ◌∷◌}
use ddcoin.Prelude.Bytes.{Bytes, bytes_eq}
use ddcoin.HashMap.{contains, set_insert}
use ddcoin.Hub.Messages.{NodeId, Message}
use ddcoin.Hub.Client.{Client, ret, fail, ask_decision, lost_connection, nothing_left}

-- What `connect`, `open_bi` and the writes of the own id come to.
pub data Dial (S : Type 0) : Type 0 where
  unreachable : Dial S
  -- `open_bi` or a write fails
  broken : Dial S
  opened : S → Dial S

-- What an incoming connection comes to.
pub data Incoming (S : Type 0) : Type 0 where
  -- `accept` or the handshake fails
  failed : Incoming S
  -- `accept_bi` or the read fails, or the 32 bytes are no id
  garbled : Incoming S
  announced : NodeId → S → Incoming S

-- `known_ids`, and the peers for which `Peer::run` was spawned.
pub record Subscriber : Type 0 where
  pub known_ids : List NodeId
  pub tasks : List NodeId

module _ {S A : Type 0} where
  -- The connection goes to the actor; `tasks` are those of the watcher.
  unfoldable pub introduce :
      NodeId → S → Bool → List NodeId → (List NodeId → Client S A) → Client S A
  introduce id stream connecting tasks k =
      ask_decision (Message.new_peer id stream connecting)
        λ not_exist. if not_exist then k (id ∷ tasks) else k tasks

  -- What follows the attempt to connect.
  unfoldable pub dialled : Dial S → NodeId → Subscriber → (Subscriber → Client S A) → Client S A
  dialled unreachable id s k = k s
  dialled broken id s k = fail lost_connection
  dialled (opened tx) id s k = introduce id tx true s.tasks λ tasks. k (record s { tasks = tasks })

  -- The own `known_ids` are kept before the actor is asked.
  unfoldable pub discovered :
      (NodeId → Dial S) → Subscriber → NodeId → (Subscriber → Client S A) → Client S A
  discovered connect s id k =
      if contains s.known_ids id
      then k s
      else let s' = record s { known_ids = set_insert id s.known_ids } in
        ask_decision (Message.should_connect id)
          λ should_connect. if not should_connect then k s' else dialled (connect id) id s' k

  unfoldable pub accepted : Incoming S → List NodeId → (List NodeId → Client S A) → Client S A
  accepted failed tasks k = k tasks
  accepted garbled tasks k = fail lost_connection
  accepted (announced id tx) tasks k = introduce id tx false tasks k

  -- The loop, over the discovered ids.
  unfoldable pub subscribe : (NodeId → Dial S) → List NodeId → Subscriber → Client S A
  subscribe connect [] s = fail nothing_left
  subscribe connect (id ∷ ids) s = discovered connect s id (subscribe connect ids)

  -- The loop, over the incoming connections.
  unfoldable pub listen : List (Incoming S) → List NodeId → Client S A
  listen [] tasks = fail nothing_left
  listen (i ∷ rest) tasks = accepted i tasks (listen rest)
