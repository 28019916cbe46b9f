-- ===== src/Watcher/Dialled.antt =====
-- About src/new_peer_watcher.rs: what follows the attempt to connect to a discovered peer.
use ddcoin.Prelude.{ℕ, ◌≡◌, ◌⊎◌, inl, inr, refl, arith, true, false, List, ◌∷◌}
use ddcoin.Prelude.Outcome.{done}
use ddcoin.Prelude.Result.{err}
use ddcoin.Prelude.Bytes.{bytes_eq}
use ddcoin.HashMap.{insert, contains, set_insert}
use ddcoin.HashMap.Laws.{contains-set_insert}
use ddcoin.Data.{Timestamp}
use ddcoin.External.{External}
use ddcoin.Hub.{HubState}
use ddcoin.Hub.Messages.{NodeId, Network, Message}
use ddcoin.Hub.Safe.{HubInv}
use ddcoin.Hub.Client.{Client, run, lost_connection}
use ddcoin.Watcher.{Dial, unreachable, broken, opened, Subscriber, introduce, dialled}
use ddcoin.Watcher.Watching.{
  IsWatching, IsWatching-known, IsWatching-opened, new_peer-replies, answered, new_peer-HubInv,
}

module _ {S : Type 0} ⦃x : External⦄ (net : Network S) (root_fuel : ℕ) (now : Timestamp) where
  -- The round goes on to `k`: the node is in its invariant, has the same blocks, and knows the id.
  pub record GoesOn (h : HubState S) (s : Subscriber) (id : NodeId) {A : Type 0}
      (program : Client S A) (k : Subscriber → Client S A) : Type 0 where
    pub hub : HubState S
    pub subscriber : Subscriber
    pub runs : run net root_fuel now h program ≡ run net root_fuel now hub (k subscriber)
    pub inv : HubInv hub
    pub same_chain : hub.chain ≡ h.chain
    pub watching : IsWatching hub subscriber
    pub known : contains subscriber.known_ids id ≡ true

  abbrev pub Ends : {A : Type 0} → HubState S → Client S A → Type 0
  Ends h program = run net root_fuel now h program ≡ done (h, err lost_connection)

  pub contains-set_insert_self :
      (id : NodeId) (ids : List NodeId) → contains (set_insert id ids) id ≡ true
  contains-set_insert_self id ids = ground (arith, contains-set_insert id id ids)

  module _ {A : Type 0} (k : Subscriber → Client S A) (h : HubState S) (s : Subscriber)
      (id : NodeId) (i : HubInv h) where
    opened-goes :
        (tx : S)
        → contains s.known_ids id ≡ true
        → IsWatching h s
        → IsWatching (record h { peers = insert id tx h.peers }) (record s { tasks = id ∷ s.tasks })
        → GoesOn h s id (dialled (opened tx) id s k) k
    unfolding dialled introduce
    opened-goes tx known w w' = elim (new_peer-replies net root_fuel now h id tx true) [
      | inl e ↦ record {
        hub = h;
        subscriber = s;
        runs = answered net root_fuel now h h (Message.new_peer id tx true) false _ e;
        inv = i;
        same_chain = refl;
        watching = w;
        known = known;
      }
      | inr e ↦ record {
        hub = record h { peers = insert id tx h.peers };
        subscriber = record s { tasks = id ∷ s.tasks };
        runs =
            answered net root_fuel now h (record h { peers = insert id tx h.peers })
              (Message.new_peer id tx true) true _ e;
        inv =
            new_peer-HubInv net root_fuel now h (record h { peers = insert id tx h.peers }) id tx
              true true i e;
        same_chain = refl;
        watching = w';
        known = known;
      }
    ]

  -- After the connection, for an id that was unknown when `s` was the subscriber.
  pub dialled-goes :
      {A : Type 0} (k : Subscriber → Client S A) (h : HubState S) (s : Subscriber) (id : NodeId)
      → HubInv h
      → IsWatching h s
      → contains s.known_ids id ≡ false
      → (dial : Dial S)
      → GoesOn h s id (dialled dial id (record s { known_ids = set_insert id s.known_ids }) k) k
        ⊎ Ends h (dialled dial id (record s { known_ids = set_insert id s.known_ids }) k)
  unfolding dialled run
  dialled-goes k h s id i w new unreachable = inl (record {
    hub = h;
    subscriber = record s { known_ids = set_insert id s.known_ids };
    runs = refl;
    inv = i;
    same_chain = refl;
    watching = IsWatching-known h s id w;
    known = contains-set_insert_self id s.known_ids;
  })
  dialled-goes k h s id i w new broken = inr refl
  dialled-goes k h s id i w new (opened tx) =
      let s' : Subscriber = record s { known_ids = set_insert id s.known_ids } in
      let goes =
        opened-goes k h s' id i tx (contains-set_insert_self id s.known_ids)
          (IsWatching-known h s id w) (IsWatching-opened h s id tx new w) in
      inl (record {
        hub = goes.hub;
        subscriber = goes.subscriber;
        runs = goes.runs;
        inv = goes.inv;
        same_chain = goes.same_chain;
        watching = goes.watching;
        known = goes.known;
      })
