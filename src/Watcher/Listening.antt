-- ===== src/Watcher/Listening.antt =====
-- About src/new_peer_watcher.rs: the loop of the listener.
use ddcoin.Prelude.{ℕ, ◌≡◌, inl, inr, refl, ◌∙◌, Bool, true, false, List, [], ◌∷◌}
use ddcoin.Prelude.Outcome.{Returns}
use ddcoin.Prelude.Result.{err}
use ddcoin.Prelude.Bytes.{bytes_eq}
use ddcoin.HashMap.{insert}
use ddcoin.Data.{Timestamp}
use ddcoin.External.{External}
use ddcoin.Hub.{HubState}
use ddcoin.Hub.Messages.{NodeId, Network, Message}
use ddcoin.Hub.Safe.{HubInv}
use ddcoin.Hub.Client.{Client, run, lost_connection, nothing_left}
use ddcoin.Watcher.{Incoming, failed, garbled, announced, introduce, accepted, listen}
use ddcoin.Watcher.Watching.{IsSubscribed, new_peer-replies, answered, new_peer-HubInv}

module _ {S : Type 0} ⦃x : External⦄ (net : Network S) (root_fuel : ℕ) (now : Timestamp) where
  -- The connection is introduced, and `h'` is left.
  record IsIntroduced {A : Type 0} (h h' : HubState S) (program : Client S A)
      (k : List NodeId → Client S A) : Type 0 where
    tasks : List NodeId
    runs : run net root_fuel now h program ≡ run net root_fuel now h' (k tasks)
    inv : HubInv h'
    same_chain : h'.chain ≡ h.chain

  introduce-goes :
      {A : Type 0} (k : List NodeId → Client S A) (h : HubState S) (id : NodeId) (tx : S)
      (connecting : Bool) (tasks : List NodeId)
      → HubInv h
      → (h' : HubState S) × IsIntroduced h h' (introduce id tx connecting tasks k) k
  unfolding introduce
  introduce-goes k h id tx connecting tasks i =
      elim (new_peer-replies net root_fuel now h id tx connecting) [
        | inl e ↦ (
          h,
          record {
            tasks = tasks;
            runs = answered net root_fuel now h h (Message.new_peer id tx connecting) false _ e;
            inv = i;
            same_chain = refl;
          },
        )
        | inr e ↦ (
          record h { peers = insert id tx h.peers },
          record {
            tasks = id ∷ tasks;
            runs =
                answered net root_fuel now h (record h { peers = insert id tx h.peers })
                  (Message.new_peer id tx connecting) true _ e;
            inv =
                new_peer-HubInv net root_fuel now h (record h { peers = insert id tx h.peers }) id
                  tx connecting true i e;
            same_chain = refl;
          },
        )
      ]

  -- Alone with a node in its invariant, the loop of the listener ends for every sequence of
  -- incoming connections, by a lost connection or at the end of the sequence, with the node in its
  -- invariant and its blocks unchanged.
  pub listen-IsSubscribed :
      (incoming : List (Incoming S)) (tasks : List NodeId) (h : HubState S)
      → HubInv h
      → Returns (IsSubscribed h) (run net root_fuel now h (listen incoming tasks))
  unfolding listen accepted run
  listen-IsSubscribed [] tasks h i =
      ((h, err nothing_left), refl, record { inv = i; same_chain = refl; reason = inr refl })
  listen-IsSubscribed (failed ∷ rest) tasks h i = listen-IsSubscribed rest tasks h i
  listen-IsSubscribed (garbled ∷ rest) tasks h i =
      ((h, err lost_connection), refl, record { inv = i; same_chain = refl; reason = inl refl })
  listen-IsSubscribed (announced id tx ∷ rest) tasks h i =
      let (h', goes) = introduce-goes (listen rest) h id tx false tasks i in
      let (r, e, ended) = listen-IsSubscribed rest goes.tasks h' goes.inv in
      (
        r,
        goes.runs ∙ e,
        record {
          inv = ended.inv;
          same_chain = ended.same_chain ∙ goes.same_chain;
          reason = ended.reason;
        },
      )
