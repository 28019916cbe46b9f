-- ===== src/Watcher/Watching.antt =====
-- About src/new_peer_watcher.rs and src/peerhub.rs: what a watcher keeps, and what the actor replies
-- to it.
use ddcoin.Prelude.{
  ℕ, ◌≡◌, ◌⊎◌, inl, inr, refl, subst, arith, Bool, true, false, not, xor, ◌==◌, ◌||◌, List, [], ◌∷◌,
  length, leb, Bool-cases, ==→eq,
}
use ddcoin.Prelude.Outcome.{done}
use ddcoin.Prelude.Result.{Result, err}
use ddcoin.Prelude.Bytes.{bytes_eq}
use ddcoin.HashMap.{HashMap, insert, contains, contains_key, set_insert}
use ddcoin.HashMap.Laws.{get-insert, contains-set_insert, get-insert_self}
use ddcoin.Data.{Timestamp}
use ddcoin.External.{External}
use ddcoin.Hub
use ddcoin.Hub.{HubState, Handled, replied, peer_size_limit}
use ddcoin.Hub.Messages.{NodeId, Network, Message, Reply}
use ddcoin.Hub.Handle.{handle}
use ddcoin.Hub.Safe.{HubInv, IsSafe}
use ddcoin.Hub.Kept.{handle-IsSafe}
use ddcoin.Hub.Client.{ClientError, Client, run, ask_decision, lost_connection, nothing_left}
use ddcoin.Watcher.{Subscriber}

-- No task twice.
abbrev pub NoTwice : List NodeId → Type 0
NoTwice [] = Unit
NoTwice (t ∷ tasks) = (contains tasks t ≡ false) × NoTwice tasks

pub contains_key-insert :
    {S : Type 0} (id t : NodeId) (stream : S) (peers : HashMap NodeId S)
    → contains_key t peers ≡ true
    → contains_key t (insert id stream peers) ≡ true
contains_key-insert id t stream peers e = ground (arith, get-insert id t stream peers)

contains_key-insert_self :
    {S : Type 0} (id : NodeId) (stream : S) (peers : HashMap NodeId S)
    → contains_key id (insert id stream peers) ≡ true
contains_key-insert_self id stream peers =
    let e = get-insert_self id stream peers in rw (e, contains_key) refl

module _ {S : Type 0} where
  -- Every peer from whom a task reads is in the table, is known, and has one task.
  pub record IsWatching (h : HubState S) (s : Subscriber) : Type 0 where
    pub in_table : (t : NodeId) → contains s.tasks t ≡ true → contains_key t h.peers ≡ true
    pub known : (t : NodeId) → contains s.tasks t ≡ true → contains s.known_ids t ≡ true
    pub once : NoTwice s.tasks

  -- The same, when the round knows one more id.
  pub IsWatching-known :
      (h : HubState S) (s : Subscriber) (id : NodeId)
      → IsWatching h s
      → IsWatching h (record s { known_ids = set_insert id s.known_ids })
  IsWatching-known h s id w = record {
    in_table = w.in_table;
    known = λ t e. ground (arith, contains-set_insert id t s.known_ids, w.known t e);
    once = w.once;
  }

  pub IsWatching-opened :
      (h : HubState S) (s : Subscriber) (id : NodeId) (tx : S)
      → contains s.known_ids id ≡ false
      → IsWatching h s
      → IsWatching
          (record h { peers = insert id tx h.peers })
          (record { known_ids = set_insert id s.known_ids; tasks = id ∷ s.tasks })
  unfolding contains
  IsWatching-opened h s id tx new w = record {
    in_table = λ t e. elim (Bool-cases (id == t)) [
      | inl same ↦
          let q : id ≡ t = ==→eq id t same in
          let self = contains_key-insert_self id tx h.peers in cc (q, self)
      | inr other ↦ contains_key-insert id t tx h.peers (w.in_table t (rw other at e))
    ];
    known = λ t e. elim (Bool-cases (id == t)) [
      | inl same ↦ ground (arith, contains-set_insert id t s.known_ids)
      | inr other ↦ ground (arith, contains-set_insert id t s.known_ids, w.known t (rw other at e))
    ];
    once = (
      elim (Bool-cases (contains s.tasks id)) [
        | inl twice ↦ let e = w.known id twice in cc (e, new)
        | inr unused ↦ unused
      ],
      w.once,
    );
  }

module _ {S : Type 0} ⦃x : External⦄ (net : Network S) (root_fuel : ℕ) (now : Timestamp) where
  pub should_connect-replies :
      (h : HubState S) (id : NodeId)
      → (b : Bool) × (handle net root_fuel now h (Message.should_connect id)
          ≡ done (replied h (Reply.decision b)))
  unfolding handle Hub.should_connect
  should_connect-replies h id = elim (Bool-cases (leb peer_size_limit (length h.peers))) [
    | inl full ↦ (false, rw full refl)
    | inr room ↦ (not (contains_key id h.peers), rw room refl)
  ]

  -- What `NewPeer` replies and leaves.
  pub new_peer-replies :
      (h : HubState S) (id : NodeId) (tx : S) (connecting : Bool)
      → (handle net root_fuel now h (Message.new_peer id tx connecting)
          ≡ done (replied h (Reply.decision false)))
        ⊎ (handle net root_fuel now h (Message.new_peer id tx connecting)
            ≡ done (replied (record h { peers = insert id tx h.peers }) (Reply.decision true)))
  unfolding handle Hub.new_peer
  new_peer-replies h id tx connecting = elim (Bool-cases (leb peer_size_limit (length h.peers))) [
    | inl full ↦ inl (rw full refl)
    | inr room ↦
        elim (Bool-cases (
          not (contains_key id h.peers) || not (xor (net.node_lt h.local_node_id id) connecting))) [
            | inl takes ↦ inr (rw (room, takes) refl)
            | inr refuses ↦ inl (rw (room, refuses) refl)
          ]
  ]

  pub answered :
      {A : Type 0} (h h' : HubState S) (m : Message S) (b : Bool) (k : Bool → Client S A)
      → handle net root_fuel now h m ≡ done (replied h' (Reply.decision b))
      → run net root_fuel now h (ask_decision m k) ≡ run net root_fuel now h' (k b)
  unfolding run ask_decision
  answered h h' m b k e = rw e refl

  pub new_peer-HubInv :
      (h h' : HubState S) (id : NodeId) (tx : S) (connecting b : Bool)
      → HubInv h
      → handle net root_fuel now h (Message.new_peer id tx connecting)
        ≡ done (replied h' (Reply.decision b))
      → HubInv h'
  new_peer-HubInv h h' id tx connecting b i e =
      subst IsSafe e (handle-IsSafe net root_fuel now h (Message.new_peer id tx connecting) i tt)

module _ {S : Type 0} ⦃x : External⦄ where
  -- How the loop ends.
  pub record IsSubscribed (h : HubState S) (r : HubState S × Result ClientError (Unit {0}))
      : Type 0 where
    pub inv : HubInv r.0
    pub same_chain : r.0.chain ≡ h.chain
    pub reason : (r.1 ≡ err lost_connection) ⊎ (r.1 ≡ err nothing_left)
