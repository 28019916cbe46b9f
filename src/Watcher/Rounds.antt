-- ===== src/Watcher/Rounds.antt =====
-- About src/new_peer_watcher.rs: what a round leaves, by a watcher who is alone with the actor.
use ddcoin.Prelude.{
  ℕ, ◌≡◌, ◌⊎◌, inl, inr, refl, ap, ◌∙◌, Bool, true, false, not, if◌then◌else◌, List, [], ◌∷◌,
  Bool-cases,
}
use ddcoin.Prelude.Outcome.{done, Returns}
use ddcoin.Prelude.Result.{ok, err}
use ddcoin.Prelude.Bytes.{bytes_eq}
use ddcoin.HashMap.{contains, set_insert}
use ddcoin.Data.{Timestamp}
use ddcoin.External.{External}
use ddcoin.Hub.{HubState}
use ddcoin.Hub.Messages.{NodeId, Network, Message}
use ddcoin.Hub.Safe.{HubInv}
use ddcoin.Hub.Client.{Client, run, ask_decision, lost_connection, nothing_left}
use ddcoin.Watcher.{Dial, Subscriber, dialled, discovered, subscribe}
use ddcoin.Watcher.Watching.{
  IsWatching, IsWatching-known, IsSubscribed, should_connect-replies, answered,
}
use ddcoin.Watcher.Dialled.{GoesOn, Ends, contains-set_insert_self, dialled-goes}

module _ {S : Type 0} ⦃x : External⦄ where
  -- What a round leaves.
  pub record IsRound (h : HubState S) (id : NodeId) (h' : HubState S) (s' : Subscriber)
      : Type 0 where
    pub inv : HubInv h'
    pub same_chain : h'.chain ≡ h.chain
    pub watching : IsWatching h' s'
    pub known : contains s'.known_ids id ≡ true

module _ {S : Type 0} ⦃x : External⦄ (net : Network S) (root_fuel : ℕ) (now : Timestamp) where
  -- A program that runs as another.
  goes_as :
      {A : Type 0} (k : Subscriber → Client S A) (h : HubState S) (s : Subscriber) (id : NodeId)
      (p q : Client S A)
      → run net root_fuel now h p ≡ run net root_fuel now h q
      → GoesOn net root_fuel now h s id q k ⊎ Ends net root_fuel now h q
      → GoesOn net root_fuel now h s id p k ⊎ Ends net root_fuel now h p
  goes_as k h s id p q e (inl goes) = inl (record {
    hub = goes.hub;
    subscriber = goes.subscriber;
    runs = e ∙ goes.runs;
    inv = goes.inv;
    same_chain = goes.same_chain;
    watching = goes.watching;
    known = goes.known;
  })
  goes_as k h s id p q e (inr ends) = inr (e ∙ ends)

  -- What follows the decision of the actor.
  abbrev decided :
      {A : Type 0}
      → (NodeId → Dial S)
      → (Subscriber → Client S A)
      → Subscriber
      → NodeId
      → Bool
      → Client S A
  decided connect k s id b =
      if not b
      then k (record s { known_ids = set_insert id s.known_ids })
      else dialled (connect id) id (record s { known_ids = set_insert id s.known_ids }) k

  decided-goes :
      {A : Type 0} (connect : NodeId → Dial S) (k : Subscriber → Client S A) (h : HubState S)
      (s : Subscriber) (id : NodeId)
      → HubInv h
      → IsWatching h s
      → contains s.known_ids id ≡ false
      → (b : Bool)
      → GoesOn net root_fuel now h s id (decided connect k s id b) k
        ⊎ Ends net root_fuel now h (decided connect k s id b)
  decided-goes connect k h s id i w new false = inl (record {
    hub = h;
    subscriber = record s { known_ids = set_insert id s.known_ids };
    runs = refl;
    inv = i;
    same_chain = refl;
    watching = IsWatching-known h s id w;
    known = contains-set_insert_self net root_fuel now id s.known_ids;
  })
  decided-goes connect k h s id i w new true =
      dialled-goes net root_fuel now k h s id i w new (connect id)

  discovered-again :
      {A : Type 0} (connect : NodeId → Dial S) (k : Subscriber → Client S A) (s : Subscriber)
      (id : NodeId)
      → contains s.known_ids id ≡ true
      → discovered connect s id k ≡ k s
  unfolding discovered
  discovered-again connect k s id old = rw (old, discovered) refl

  discovered-unknown :
      {A : Type 0} (connect : NodeId → Dial S) (k : Subscriber → Client S A) (s : Subscriber)
      (id : NodeId)
      → contains s.known_ids id ≡ false
      → discovered connect s id k
        ≡ ask_decision (Message.should_connect id) (decided connect k s id)
  unfolding discovered
  discovered-unknown connect k s id new = rw (new, discovered) refl

  discovered-goes :
      {A : Type 0} (connect : NodeId → Dial S) (k : Subscriber → Client S A) (h : HubState S)
      (s : Subscriber) (id : NodeId)
      → HubInv h
      → IsWatching h s
      → GoesOn net root_fuel now h s id (discovered connect s id k) k
        ⊎ Ends net root_fuel now h (discovered connect s id k)
  discovered-goes connect k h s id i w = elim (Bool-cases (contains s.known_ids id)) [
    | inl old ↦ inl (record {
      hub = h;
      subscriber = s;
      runs = ap (run net root_fuel now h) (discovered-again connect k s id old);
      inv = i;
      same_chain = refl;
      watching = w;
      known = old;
    })
    | inr new ↦
        let (b, e) = should_connect-replies net root_fuel now h id in
        goes_as k h s id (discovered connect s id k) (decided connect k s id b)
          (ap (run net root_fuel now h) (discovered-unknown connect k s id new)
            ∙ answered net root_fuel now h h (Message.should_connect id) b (decided connect k s id)
                e)
          (decided-goes connect k h s id i w new b)
  ]

  -- A round of the subscriber that is alone with a node in its invariant either ends by a lost
  -- connection with the node unchanged, or goes on: the node is in its invariant and has the same
  -- blocks, the id is known, and every peer from whom a task reads is in the table of peers, is
  -- known, and has one task, if that held before.
  pub discovered-IsRound :
      (connect : NodeId → Dial S) (h : HubState S) (s : Subscriber) (id : NodeId)
      → HubInv h
      → IsWatching h s
      → ((h' : HubState S) × (s' : Subscriber) × (run net root_fuel now h
              (discovered connect s id Client.ret)
            ≡ done (h', ok s'))
          × IsRound h id h' s')
        ⊎ (run net root_fuel now h (discovered connect s id Client.ret)
            ≡ done (h, err lost_connection))
  unfolding run
  discovered-IsRound connect h s id i w = elim (discovered-goes connect Client.ret h s id i w) [
    | inl goes ↦ inl (
      goes.hub,
      goes.subscriber,
      goes.runs,
      record {
        inv = goes.inv;
        same_chain = goes.same_chain;
        watching = goes.watching;
        known = goes.known;
      },
    )
    | inr ends ↦ inr ends
  ]

  -- Alone with a node in its invariant, the loop of the subscriber ends for every sequence of
  -- discovered ids, by a lost connection or at the end of the sequence, with the node in its
  -- invariant and its blocks unchanged. At the start every peer from whom a task reads is in the
  -- table, is known, and has one task.
  pub subscribe-IsSubscribed :
      (connect : NodeId → Dial S) (ids : List NodeId) (h : HubState S) (s : Subscriber)
      → HubInv h
      → IsWatching h s
      → Returns (IsSubscribed h) (run net root_fuel now h (subscribe connect ids s))
  unfolding subscribe run
  subscribe-IsSubscribed connect [] h s i w =
      ((h, err nothing_left), refl, record { inv = i; same_chain = refl; reason = inr refl })
  subscribe-IsSubscribed connect (id ∷ ids) h s i w =
      elim (discovered-goes connect (subscribe connect ids) h s id i w) [
        | inl goes ↦
            let (r, e, ended) =
              subscribe-IsSubscribed connect ids goes.hub goes.subscriber goes.inv goes.watching in
            (
              r,
              goes.runs ∙ e,
              record {
                inv = ended.inv;
                same_chain = ended.same_chain ∙ goes.same_chain;
                reason = ended.reason;
              },
            )
        | inr ends ↦ (
          (h, err lost_connection),
          ends,
          record { inv = i; same_chain = refl; reason = inl refl },
        )
      ]
