-- ===== src/Samples/Systems.antt =====
-- The theorems on the actor and its users applied to the small node of Samples.antt, with a miner and a peer
-- beside the tasks of every node.
use ddcoin.Prelude.{ℕ, zero, suc, ◌≡◌, refl, true, false, some, [], ◌∷◌, arith, ℕ_eq, ap, Option}
use ddcoin.Prelude.Outcome.{Returns}
use ddcoin.Data.{Block}
use ddcoin.Block
use ddcoin.HashMap.{contains}
use ddcoin.Hub.{HubState}
use ddcoin.Hub.Messages.{Message, Reply}
use ddcoin.Hub.Client.{Client, crash, ask_decision}
use ddcoin.Hub.Ledger.{ledger}
use ddcoin.Watcher.{Dial, discovered, subscribe}
use ddcoin.Hub
use ddcoin.Hub.Handle.{handle_call}
use ddcoin.System.{Port, answered, User, System, Step, set_user}
use ddcoin.System.Programs.{IsLow}
use ddcoin.System.Sound.{IsSound, Step-IsSound}
use ddcoin.System.Served.{IsServed, serves-IsServed}
use ddcoin.Hub.Callers.{IsEnded, handle_call-IsEnded}
use ddcoin.System.Runs.{Runs}
use ddcoin.System.Tasks.{Task, program, program-Behaves, IsFit}
use ddcoin.System.Launch
use ddcoin.System.Starts.{Endpoint, Starts}
use ddcoin.Samples.Peers.{decode, second_frame, second_frame-SendsAdmissible}
use ddcoin.System.Launch.{Discovery}
use ddcoin.System.Starts.{started, task_of}
use ddcoin.Miner.Grows.{miner_of}
use ddcoin.Samples.{second, toy, small_config, small_config-IsUsable}
use ddcoin.Samples.Examples.{quiet_net, second-at}
use ddcoin.Samples.Users.{pooled, pooled-HubInv}

abbrev others : ℕ → Task ℕ
others zero = Task.mines 1 (miner_of (7 ∷ []) small_config) (((1002, (6 ∷ []))) ∷ [])
others (suc i) = Task.reads_peer (9 ∷ []) second_frame

abbrev tasks : ℕ → Task ℕ
tasks = task_of (λ id. Dial.opened 5) ((9 ∷ []) ∷ []) [] others

abbrev before : System ℕ
before = started decode pooled tasks

others-IsFit : (i : ℕ) → IsFit decode (others i)
unfolding Block.id
others-IsFit zero = (small_config-IsUsable, λ u b e. ground arith)
others-IsFit (suc i) = second_frame-SendsAdmissible

tasks-IsFit : (i : ℕ) → IsFit decode (tasks i)
tasks-IsFit zero = tt
tasks-IsFit (suc zero) = tt
tasks-IsFit (suc (suc i)) = others-IsFit i

before-IsSound : IsSound before
before-IsSound = record {
  inv = pooled-HubInv;
  mail = tt;
  behaves = λ i. program-Behaves ℕ decode _ (tasks i) (tasks-IsFit i);
}

abbrev continuation : User ℕ → Reply → Client ℕ (Unit {0})
continuation (User.running (Client.ask m k)) = k
continuation _ = λ p. crash

-- The first task asks whether to connect to the node that was discovered.
abbrev asked : System ℕ
asked = record before {
  mailbox =
      record {
        message = Message.should_connect (9 ∷ []);
        port = some (record { user = 0; next = continuation (before.users 0) });
      }
      ∷ [];
  users = set_user 0 User.waiting before.users;
}

asks-asked : Step quiet_net before asked
unfolding program subscribe discovered ask_decision contains
asks-asked =
    Step.asks 0 (Message.should_connect (9 ∷ [])) (continuation (before.users 0)) refl refl refl

abbrev asked_port : Option (Port ℕ)
asked_port = some (record { user = 0; next = continuation (before.users 0) })

-- The actor answers that it has that peer.
abbrev served : System ℕ
served = record asked {
  mailbox = [];
  users = answered asked_port (some (Reply.decision false)) asked.users;
}

pooled-IsLow : IsLow (ledger pooled)
pooled-IsLow b at =
    let same : b ≡ second = cc (at, second-at) in
    omega (arith, ap (λ (c : Block). c.inner.seqno) same)

asked-IsSound : IsSound asked
asked-IsSound = Step-IsSound quiet_net before asked asks-asked pooled-IsLow before-IsSound

serves-IsServed_example :
    (t : System ℕ) × Step quiet_net asked t
    × IsServed
        (Message.should_connect (9 ∷ []))
        (record { user = 0; next = continuation (before.users 0) })
        []
        t
serves-IsServed_example =
    serves-IsServed quiet_net 1 2000 asked (Message.should_connect (9 ∷ []))
      (record { user = 0; next = continuation (before.users 0) }) [] asked-IsSound refl refl
      (Reply.decision true, (true, refl))

-- The caller has gone when it is answered.
handle_call-IsEnded_example :
    Returns
      (IsEnded quiet_net pooled pooled-HubInv Message.query_leading_cash_set false)
      (handle_call quiet_net false 1 2000 pooled Message.query_leading_cash_set)
handle_call-IsEnded_example =
    handle_call-IsEnded quiet_net pooled pooled-HubInv false 1 2000 Message.query_leading_cash_set
      tt (Reply.cash_set [], ([], refl))

-- A service for the local network that starts, and an endpoint that finds one node.
abbrev endpoint : Endpoint ℕ
endpoint = record {
  node_id = 4 ∷ [];
  discovery = some (some ((9 ∷ []) ∷ []));
  connect = λ id. Dial.opened 5;
  incoming = [];
}

abbrev iroh : Discovery ℕ ℕ
iroh = record {
  public = λ key. 4 ∷ [];
  publisher = λ key. 1;
  dns = 2;
  local_swarm = λ id. some 3;
  bind = λ key services alpn. some endpoint;
}
