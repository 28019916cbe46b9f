-- ===== src/System/Starts.antt =====
-- src/config.rs: `Config::run_with_secret_and_discovery`, and what its node comes to.
use ddcoin.Prelude.{
  ℕ, zero, suc, ◌<◌, ◌≡◌, ◌≢◌, refl, sym, ap, subst, arith, true, Option, none, some, List, [],
}
use ddcoin.Prelude.Outcome.{Outcome, done, panic, out_of_fuel, unwrap, Returns, ◌>>=◌, >>=-eq-done}
use ddcoin.Prelude.Bytes.{Bytes}
use ddcoin.Prelude.Result.{Result, ok, err}
use ddcoin.Data.{Block}
use ddcoin.External.{External, SignsCorrectly, EncodesInOrder}
use ddcoin.Config.{Config}
use ddcoin.Util.Difficulty.{IsUsable}
use ddcoin.Block
use ddcoin.Block.{genesis_draft, create_genesis, zero_hash}
use ddcoin.Block.Genesis.{genesis_key}
use ddcoin.Block.Mining.{meets}
use ddcoin.Chain.{ChainState}
use ddcoin.Chain.Start
use ddcoin.Chain.Start.{start, new-Inv}
use ddcoin.Hub
use ddcoin.Hub.{HubState}
use ddcoin.Hub.Messages.{NodeId, PeerMessage}
use ddcoin.Watcher.{Dial, Incoming}
use ddcoin.System.{User, System}
use ddcoin.System.Sound.{IsSound}
use ddcoin.System.Calls.{IsMatched}
use ddcoin.System.Tasks.{Task, program, IsFit, program-Behaves}

-- The two tasks that every node has, and those that come later, or use it from outside.
abbrev pub task_of :
    {S : Type 0} → (NodeId → Dial S) → List NodeId → List (Incoming S) → (ℕ → Task S) → ℕ → Task S
task_of connect ids incoming others zero = Task.subscribes connect ids
task_of connect ids incoming others (suc zero) = Task.listens incoming
task_of connect ids incoming others (suc (suc n)) = others n

-- What iroh gives: the id of the endpoint, what it finds by the discovery that it has, if it has one, and
-- what comes of opening and taking connections.
pub record Endpoint (S : Type 0) : Type 0 where
  pub node_id : NodeId
  pub discovery : Option (Option (List NodeId))
  pub connect : NodeId → Dial S
  pub incoming : List (Incoming S)

-- The two calls that are followed by `?`.
pub data StartError : Type 0 where
  unbound not_spawned : StartError

-- `Actor::spawn`, of which ractor says that an actor that panics in `pre_start` is an error of it.
unfoldable spawn : {A : Type 0} → Outcome A → Outcome (Result StartError A)
spawn (done hub) = done (ok hub)
spawn panic = done (err not_spawned)
spawn out_of_fuel = out_of_fuel

-- The endpoint is bound, and its discovery can be subscribed to.
pub record IsReady {D S : Type 0} (bind : Bytes → List D → Bytes → Option (Endpoint S))
    (secret_key : Bytes) (discovery : List D) (alpn : Bytes) : Type 0 where
  pub endpoint : Endpoint S
  pub binds : bind secret_key discovery alpn ≡ some endpoint
  pub peer_stream : List NodeId
  pub subscribes : endpoint.discovery ≡ some (some peer_stream)

module _ ⦃x : External⦄ where
  -- A node has started, and is sound.
  abbrev pub Starts : {S : Type 0} → Outcome (Result StartError (System S)) → Type 0
  Starts o = Returns (λ r. (s : System _) × (r ≡ ok s) × (IsSound s × IsMatched s)) o

  -- The genesis block that the settings make does not have the hash of zeros for its id.
  abbrev pub NonzeroGenesis : ℕ → Config → Type 0
  NonzeroGenesis fuel config =
      (g : Block)
      → create_genesis fuel config.genesis_difficulty config.genesis_timestamp
          config.initial_block_subsidy
        ≡ done g
      → Block.id g ≢ zero_hash

  new-config :
      (fuel : ℕ) (config : Config) (s : ChainState)
      → Start.new fuel config ≡ done s
      → s.config ≡ config
  unfolding Start.new
  new-config fuel config s h =
      let (g, _, e) = >>=-eq-done (create_genesis fuel _ _ _) _ h in
      let same : start config g ≡ s = cc e in sym (ap (λ (t : ChainState). t.config) same)

module _ {S : Type 0} ⦃x : External⦄ where
  abbrev pub started : (Bytes → Option PeerMessage) → HubState S → (ℕ → Task S) → System S
  started decode hub tasks = record {
    hub = hub;
    alive = true;
    mailbox = [];
    users = λ i. User.running (program decode (tasks i));
  }

  -- `fuel` bounds the search for the nonce of the genesis block.
  unfoldable pub run_with_secret_and_discovery :
      {D : Type 0}
      → (Bytes → List D → Bytes → Option (Endpoint S))
      → (Bytes → Option PeerMessage)
      → ℕ
      → Config
      → Bytes
      → List D
      → (ℕ → Task S)
      → Outcome (Result StartError (System S))
  unfolding Hub.pre_start program spawn
  run_with_secret_and_discovery bind decode fuel config secret_key discovery others =
      elim (bind secret_key discovery config.alpn) [
        | none ↦ done (err unbound)
        | some endpoint ↦ unwrap endpoint.discovery >>= λ service. unwrap service >>= λ peer_stream.
            spawn (Hub.pre_start fuel (endpoint.node_id, config)) >>= λ spawned. elim spawned [
              | err e ↦ done (err e)
              | ok hub ↦ done (
                  ok (
                    started decode hub
                      (task_of endpoint.connect peer_stream endpoint.incoming others)))
            ]
      ]

  task_of-IsFit :
      (decode : Bytes → Option PeerMessage) (connect : NodeId → Dial S) (ids : List NodeId)
      (incoming : List (Incoming S)) (others : ℕ → Task S)
      → ((i : ℕ) → IsFit decode (others i))
      → (i : ℕ) → IsFit decode (task_of connect ids incoming others i)
  task_of-IsFit decode connect ids incoming others fit zero = tt
  task_of-IsFit decode connect ids incoming others fit (suc zero) = tt
  task_of-IsFit decode connect ids incoming others fit (suc (suc n)) = fit n

  -- A node with usable settings whose endpoint is bound and can subscribe to its discovery starts.
  pub start-IsSound :
      {D : Type 0} (signs : SignsCorrectly x) (encodes : EncodesInOrder x)
      (bind : Bytes → List D → Bytes → Option (Endpoint S)) (decode : Bytes → Option PeerMessage)
      (fuel n : ℕ) (config : Config) (secret_key : Bytes) (discovery : List D)
      → IsUsable config
      → meets
          (genesis_draft config.genesis_difficulty config.genesis_timestamp
            config.initial_block_subsidy
            (x.verifying_key genesis_key))
          n
        ≡ true
      → n < fuel
      → NonzeroGenesis fuel config
      → (others : ℕ → Task S) → ((i : ℕ) → IsFit decode (others i))
      → IsReady bind secret_key discovery config.alpn
      → Starts (run_with_secret_and_discovery bind decode fuel config secret_key discovery others)
  unfolding run_with_secret_and_discovery Hub.pre_start Hub.new
  start-IsSound signs encodes bind decode fuel n config secret_key discovery usable met enough
        nonzero others fit ready =
      let (chain, e, (inv, _)) = new-Inv signs encodes fuel n config met enough nonzero in
      let endpoint = ready.endpoint in
      let s =
        started decode
          (record {
            chain = chain;
            peers = [];
            annoucements = [];
            local_node_id = endpoint.node_id;
          })
          (task_of endpoint.connect ready.peer_stream endpoint.incoming others) in
      (
        ok s,
        rw (ready.binds, ready.subscribes, e, run_with_secret_and_discovery) refl,
        (
          s,
          refl,
          (
            record {
              inv =
                  (inv, subst IsUsable (sym (new-config fuel config chain e)) usable, omega arith);
              mail = tt;
              behaves = λ i. program-Behaves S decode _ _ (
                  task_of-IsFit decode endpoint.connect ready.peer_stream endpoint.incoming others
                    fit i);
            },
            λ i. refl,
          ),
        ),
      )

  -- Where the endpoint is not bound, the start is an error; where it has no discovery to subscribe to,
  -- it panics.
  start-unbound :
      {D : Type 0} (bind : Bytes → List D → Bytes → Option (Endpoint S))
      (decode : Bytes → Option PeerMessage) (fuel : ℕ) (config : Config) (secret_key : Bytes)
      (discovery : List D) (others : ℕ → Task S)
      → bind secret_key discovery config.alpn ≡ none
      → run_with_secret_and_discovery bind decode fuel config secret_key discovery others
        ≡ done (err unbound)
  unfolding run_with_secret_and_discovery
  start-unbound bind decode fuel config secret_key discovery others failed =
      rw (failed, run_with_secret_and_discovery) refl
