-- ===== src/System/Launch.antt =====
-- src/config.rs: `Config::run` and `Config::run_with_local_discovery`, and src/lib.rs: `run`. What iroh makes of
-- a secret key and of the services that find other nodes is a parameter.
use ddcoin.Prelude.{ℕ, ◌<◌, ◌≡◌, refl, arith, true, Option, none, some, List, [], ◌∷◌}
use ddcoin.Prelude.Outcome.{Outcome, panic, unwrap, ◌>>=◌}
use ddcoin.Prelude.Bytes.{Bytes}
use ddcoin.External.{External, SignsCorrectly, EncodesInOrder}
use ddcoin.Config.{Config, default_config}
use ddcoin.Util.Difficulty.{IsUsable, expected_span}
use ddcoin.Block.{genesis_draft}
use ddcoin.Block.Genesis.{genesis_key}
use ddcoin.Block.Mining.{meets}
use ddcoin.Hub.Messages.{NodeId, PeerMessage}
use ddcoin.System.{System}
use ddcoin.System.Tasks.{Task, IsFit}
use ddcoin.System.Starts.{
  Endpoint, StartError, IsReady, Starts, NonzeroGenesis, run_with_secret_and_discovery,
  start-IsSound,
}
use ddcoin.Prelude.Result.{Result}

-- The public key of a secret one, the services, of which the one for the local network may fail to start,
-- and the endpoint that is bound with some of them for an ALPN, if that succeeds.
pub record Discovery (D S : Type 0) : Type 0 where
  pub public : Bytes → NodeId
  pub publisher : Bytes → D
  pub dns : D
  pub local_swarm : NodeId → Option D
  pub bind : Bytes → List D → Bytes → Option (Endpoint S)

module _ {D S : Type 0} ⦃x : External⦄ (discovery : Discovery D S)
    (decode : Bytes → Option PeerMessage) (fuel : ℕ) (secret_key : Bytes) (config : Config)
    (others : ℕ → Task S) where
  pub run_with_local_discovery : Outcome (Result StartError (System S))
  run_with_local_discovery = do
    local_swarm ← unwrap (discovery.local_swarm (discovery.public secret_key))
    run_with_secret_and_discovery discovery.bind decode fuel config secret_key (local_swarm ∷ [])
        others

  pub run : Outcome (Result StartError (System S))
  run = do
    local_swarm ← unwrap (discovery.local_swarm (discovery.public secret_key))
    run_with_secret_and_discovery discovery.bind decode fuel config secret_key
        (discovery.publisher secret_key ∷ discovery.dns ∷ local_swarm ∷ []) others

-- `run` of the crate.
run_default :
    {D S : Type 0}
    → ⦃x : External⦄ → Discovery D S
    → (Bytes → Option PeerMessage)
    → ℕ
    → Bytes
    → (ℕ → Task S)
    → Outcome (Result StartError (System S))
unfolding run
run_default discovery decode fuel secret_key others =
    run discovery decode fuel secret_key default_config others

default_config-IsUsable : IsUsable default_config
unfolding default_config expected_span
default_config-IsUsable = record {
  period_pos = omega arith;
  half_period_pos = omega arith;
  span_pos = omega arith;
}

module _ {D S : Type 0} ⦃x : External⦄ (signs : SignsCorrectly x) (encodes : EncodesInOrder x)
    (discovery : Discovery D S) (decode : Bytes → Option PeerMessage) (fuel n : ℕ)
    (enough : n < fuel) (secret_key : Bytes) (others : ℕ → Task S)
    (fit : (i : ℕ) → IsFit decode (others i)) where
  abbrev Meets : Config → Type 0
  Meets config =
      meets
        (genesis_draft config.genesis_difficulty config.genesis_timestamp
          config.initial_block_subsidy (x.verifying_key genesis_key))
        n
      ≡ true

  pub run-Starts :
      (config : Config)
      → IsUsable config
      → Meets config
      → NonzeroGenesis fuel config
      → (swarm : D) → discovery.local_swarm (discovery.public secret_key) ≡ some swarm
      → IsReady discovery.bind secret_key
          (discovery.publisher secret_key ∷ discovery.dns ∷ swarm ∷ [])
          config.alpn
      → IsReady discovery.bind secret_key (swarm ∷ []) config.alpn
      → Starts (run discovery decode fuel secret_key config others)
        × Starts (run_with_local_discovery discovery decode fuel secret_key config others)
  unfolding run run_with_local_discovery
  run-Starts config usable met nonzero swarm at ready ready_locally = (
    rw at (
        start-IsSound signs encodes discovery.bind decode fuel n config secret_key _ usable met
          enough nonzero others fit ready),
    rw at (
        start-IsSound signs encodes discovery.bind decode fuel n config secret_key _ usable met
          enough nonzero others fit ready_locally),
  )

  -- With the settings of the crate, which are usable.
  run_default-Starts :
      Meets default_config
      → NonzeroGenesis fuel default_config
      → (swarm : D) → discovery.local_swarm (discovery.public secret_key) ≡ some swarm
      → IsReady discovery.bind secret_key
          (discovery.publisher secret_key ∷ discovery.dns ∷ swarm ∷ [])
          default_config.alpn
      → IsReady discovery.bind secret_key (swarm ∷ []) default_config.alpn
      → Starts (run_default discovery decode fuel secret_key others)
  unfolding run_default
  run_default-Starts met nonzero swarm at ready ready_locally =
      (run-Starts default_config default_config-IsUsable met nonzero swarm at ready ready_locally).0

  -- Where the local service does not start, neither way returns.
  run-panics :
      (config : Config)
      → discovery.local_swarm (discovery.public secret_key) ≡ none
      → (run discovery decode fuel secret_key config others ≡ panic)
        × (run_with_local_discovery discovery decode fuel secret_key config others ≡ panic)
  unfolding run run_with_local_discovery
  run-panics config failed = (rw failed refl, rw failed refl)
