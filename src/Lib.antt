-- ===== src/Lib.antt =====
-- ddcoin, a small proof-of-work coin: the nodes exchange transactions and blocks, every node keeps the
-- tree of blocks that it has found valid, and the highest block leads.
--
-- The parts of the program, and the files that model them:
-- - src/util.rs: Util/Hex.antt (`hex_to_bytes`, `fmt_hex`) and Util/Difficulty.antt (`Difficulty`).
-- - src/transaction.rs: Transaction.antt; src/block.rs: Block.antt; the structs of both are in
--   Data.antt; src/config.rs, its settings: Config.antt.
-- - src/peerhub.rs, `PeerHubActorState`: Chain.antt has the store of blocks and the walks along it,
--   CashSet.antt `cash_set_at`, Validation.antt `validate_block` with `add_valid_block` and
--   `add_invalid_block`; Chain/Start.antt and Hub.antt its `new`.
-- - src/peerhub.rs, `PeerHubActor`: Hub.antt has one function per message that acts, Hub/Handle.antt
--   `handle`, Hub/Send.antt the writes to peers; Hub/Messages.antt has the messages of src/peerhub.rs
--   and src/peer.rs.
-- - The users of the actor: Hub/Client.antt has the programs of messages that they are and runs one
--   alone with the actor; src/hub_helper.rs: Hub/Helper.antt; src/bin/miner.rs: Miner.antt;
--   src/new_peer_watcher.rs, both loops: Watcher.antt.
-- - src/peer.rs, `Peer::run`, the loop that reads what Hub/Send.antt of another node writes: Peer.antt;
--   Peer/Delivery.antt lets the actor handle what it casts. src/config.rs, `HubHandle`:
--   Config/HubHandle.antt. Hub/Ledger.antt is the abstract view of a node.
-- - The actor and its users side by side: System.antt has the mailbox and the steps,
--   System/Tasks.antt the programs of the repository's tasks, System/Starts.antt
--   `run_with_secret_and_discovery` and System/Launch.antt `run` of src/config.rs. Of ractor it takes what
--   ractor documents: an actor handles one message at a time, in the order in which they were sent, until
--   its handler fails.
-- - `Display` of all of these: Display.antt, and of the messages Display/Messages.antt.
-- - Validation/Tidy.antt says how the pool, `next_blocks`, the invalid and the valid blocks of
--   src/peerhub.rs fit together, Hub/Changes.antt what every message does to them, and System/Settled.antt
--   what that comes to for a node and its users.
-- - Peer/Fetch.antt has two nodes that send to each other what src/peerhub.rs writes and src/peer.rs reads.
-- - A user of System.antt who calls waits until it is answered, so that `reply.send` succeeds there;
--   `handle_call` of Hub/Handle.antt is the handler for a caller that may have gone.
-- Definitions keep the names of the source. A method that changes `self` takes the state and gives the
-- new one. The hub calls validation, validation the cash set, and all of them the walks of Chain.antt.
--
-- Conventions. Outcome (Prelude/Outcome.antt) is what a call does: it returns, it panics, or it is
-- still running when its fuel is spent; a read of an uninitialised slot counts as a panic. Arithmetic
-- of machine integers is that of a release build: it wraps, as written out in Prelude/Words.antt; in a
-- debug build, as the justfile makes it, an overflow panics instead. A `HashMap` is an association list
-- and a `HashSet` a list (HashMap.antt), iterated in their order.
-- Fuel: walks along valid blocks have more than the height of the block, `validate_block` the size
-- of the pool and one more, `add_invalid_block` the size of `next_blocks` and one more, and these are
-- enough in every linked store. The loop of a peer has more than the length of its stream. The search
-- for a nonce is given a number of tries, and `block_root`, which has no bound of its own, is given
-- fuel by its caller. The loops of the watchers and of the miner go over what they are given.
--
-- Parameters: the texts of integers and of ids of other crates (Formats in Display.antt), SHA-256,
-- Ed25519 and the encoding that is hashed (External.antt), the streams, the order of node ids and the
-- encoding on the wire (Network in Hub/Messages.antt), its decoding, whether the endpoint of
-- iroh is bound, what it does with a connection and which nodes it finds, the handles of tokio, random ids and the clock.
-- A store is linked (Chain/Linked.antt) if its valid blocks are a tree over the genesis block, each
-- one higher than its predecessor and no earlier. A block is admissible if its height is not the
-- last u64 and its id is not the hash of zeros, which the genesis block has for its predecessor. A node
-- is in its invariant (Hub/Safe.antt) if its store is linked, no division by its settings is one by zero,
-- and its table of peers is within its limit; a message is well-formed if a block in it is admissible and
-- a height in it is above 0 and at most one above the leading block. A node is tidy
-- (Validation/Tidy.antt) if its pool is kept under the ids of its blocks, a block that is noted to wait is
-- in the pool on the one that it waits for, with neither of them valid and itself not invalid, a block of
-- the pool is noted to wait or is on an invalid one, and no block is valid and invalid.
--
-- A message is proper if it is well-formed for every node with the same ledger, and a state of actor and
-- users is sound if the node is in its invariant, the messages in the mailbox are proper, and every user
-- sends proper messages and does not panic, whatever the others do and as long as the leading block is
-- two below the last u64 at least (System/Programs.antt).
--
-- Not modelled: the moment at which a task is spawned, since a task that has not been spawned is one that
-- has not taken a step yet; the pause between the rounds of the miner; src/bin/propagator.rs, which
-- starts a node and waits; src/serdes.rs, two calls of bincode that are parameters; the derived `Debug`,
-- the logging itself, the tests and their utilities.
pub mod Prelude
pub mod HashMap
pub mod Data
pub mod Display
pub mod External
pub mod Config
pub mod Util
pub mod Transaction
pub mod Block
pub mod Chain
pub mod CashSet
pub mod Validation
pub mod Hub
pub mod Miner
pub mod Peer
pub mod Watcher
pub mod System
pub mod Samples
