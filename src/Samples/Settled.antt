-- ===== src/Samples/Settled.antt =====
-- The theorems on what has become of every block, applied to a node that starts, finds a block invalid and
-- gets a block on it.
use ddcoin.Prelude.{ℕ, ◌≡◌, refl, true, none, some, [], ◌∷◌, ◌++◌, arith, ℕ_eq, ℕ_discrete, ap}
use ddcoin.Prelude.Outcome.{done}
use ddcoin.Prelude.Bytes.{Bytes-discrete, bytes_eq, from_le_bytes, to_le_bytes}
use ddcoin.HashMap.{get, insert, remove, contains, set_insert}
use ddcoin.Util.Difficulty.{is_met}
use ddcoin.Util.Hex.{hex_to_bytes, ascii_to_num, is_ascii, join_digits, byte_at, hex_loop}
use ddcoin.Data.{Block}
use ddcoin.External.{with_nonce_field}
use ddcoin.Block
use ddcoin.Block.{
  create_genesis, find_nouce, find_nouce_from, try_confirm, with_nonce, genesis_draft,
}
use ddcoin.Block.Genesis.{genesis_key}
use ddcoin.Chain.{knows_block, block_root}
use ddcoin.Chain.Start
use ddcoin.Chain.Start.{start}
use ddcoin.Validation.{reject, postpone, add_invalid_block, validate_block}
use ddcoin.Validation.Tidy.{IsTidy, nothing, Retains}
use ddcoin.Hub
use ddcoin.Hub.{HubState, quiet}
use ddcoin.Hub.Messages.{Message}
use ddcoin.Hub.Handle.{handle}
use ddcoin.Hub.Ledger.{ledger}
use ddcoin.System.{answered, User, Envelope, System, Step}
use ddcoin.System.Programs.{IsLow}
use ddcoin.System.Runs.{Runs}
use ddcoin.Validation.Tidy.Validates.{IsTidied}
use ddcoin.Hub.Tidy.{handle-IsTidied}
use ddcoin.System.Orphans.{IsOrphan, orphan-stays}
use ddcoin.System.Settled.{IsSettled, Runs-IsSettled, pre_start-IsTidy}
use ddcoin.Samples.{toy, small_config}
use ddcoin.Samples.Examples.{quiet_net}

abbrev root : Block
root = record {
  inner = with_nonce_field (genesis_draft 100_000 1000 64 genesis_key) 0;
  signature = genesis_key ++ 1 ∷ to_le_bytes 8 0;
}

abbrev booted : HubState ℕ
booted = record {
  chain = start small_config root;
  peers = [];
  annoucements = [];
  local_node_id = 4 ∷ [];
}

booted_at : Hub.pre_start 1 ((4 ∷ []), small_config) ≡ done booted
unfolding Hub.pre_start Hub.new Start.new create_genesis try_confirm find_nouce find_nouce_from
    with_nonce is_met from_le_bytes to_le_bytes hex_to_bytes hex_loop byte_at is_ascii ascii_to_num
    join_digits ℕ_discrete Bytes-discrete
booted_at = refl

-- A block from the future, and a block on it.
abbrev late : Block
late = record (root) {
  inner = record (root.inner) { seqno = 1; prev_id = 1 ∷ 1000 ∷ []; timestamp = 5000 };
}

abbrev orphan : Block
orphan = record (root) {
  inner = record (root.inner) { seqno = 2; prev_id = 2 ∷ 5000 ∷ []; timestamp = 1001 };
}

abbrev rejecting : HubState ℕ
rejecting = record booted {
  chain = record (booted.chain) { invalid_blocks = (2 ∷ 5000 ∷ []) ∷ [] };
}

abbrev keeping : HubState ℕ
keeping = record rejecting {
  chain = record (rejecting.chain) {
    unconfirmed_blocks = ((3 ∷ 1001 ∷ []), orphan) ∷ [];
    next_blocks = ((2 ∷ 5000 ∷ []), ((3 ∷ 1001 ∷ []) ∷ [])) ∷ [];
  };
}

handles-late : handle quiet_net 1 2000 booted (Message.new_block none late) ≡ done (quiet rejecting)
unfolding handle Hub.new_block contains knows_block reject add_invalid_block get insert remove
    set_insert Block.id Bytes-discrete ℕ_discrete
handles-late = refl

handles-orphan :
    handle quiet_net 1 2000 rejecting (Message.new_block none orphan) ≡ done (quiet keeping)
unfolding handle Hub.new_block contains knows_block validate_block postpone Hub.after_validation
    block_root get insert set_insert Block.id Bytes-discrete ℕ_discrete
handles-orphan = refl

-- Both blocks are in the mailbox, and no task does anything.
abbrev mail : Block → Envelope ℕ
mail block = record { message = Message.new_block none block; port = none }

abbrev first : System ℕ
first = record {
  hub = booted;
  alive = true;
  mailbox = mail late ∷ mail orphan ∷ [];
  users = λ i. User.waiting;
}

abbrev then_rejecting : System ℕ
then_rejecting = record first { hub = rejecting; mailbox = mail orphan ∷ [] }

abbrev then_keeping : System ℕ
then_keeping = record first { hub = keeping; mailbox = [] }

booted-IsLow : IsLow (ledger booted)
unfolding Block.id get insert Bytes-discrete ℕ_discrete
booted-IsLow b at =
    let same : some root ≡ some b = at in
    let same : b ≡ root = cc same in omega (arith, ap (λ (c : Block). c.inner.seqno) same)

first-Runs : Runs quiet_net first then_rejecting
unfolding answered
first-Runs =
    Runs.next first then_rejecting then_rejecting booted-IsLow
      (Step.handles 1 2000 (mail late) (mail orphan ∷ []) (quiet rejecting) refl refl handles-late
        refl)
      (Runs.here then_rejecting)

rejecting-Runs : Runs quiet_net then_rejecting then_keeping
unfolding answered
rejecting-Runs =
    Runs.next then_rejecting then_keeping then_keeping booted-IsLow
      (Step.handles 1 2000 (mail orphan) [] (quiet keeping) refl refl handles-orphan refl)
      (Runs.here then_keeping)

Runs-IsSettled_example : IsSettled keeping.chain × Retains rejecting.chain keeping.chain
Runs-IsSettled_example =
    Runs-IsSettled quiet_net 1 (4 ∷ []) small_config booted first then_rejecting then_keeping
      booted_at refl first-Runs rejecting-Runs

handle-IsTidied_example : IsTidied nothing booted.chain rejecting.chain
handle-IsTidied_example =
    handle-IsTidied quiet_net 1 2000 booted (Message.new_block none late) (quiet rejecting)
      (pre_start-IsTidy 1 (4 ∷ []) small_config booted booted_at) handles-late

rejecting-IsTidy : IsTidy nothing rejecting.chain
rejecting-IsTidy =
    (handle-IsTidied quiet_net 1 2000 booted (Message.new_block none late) (quiet rejecting)
      (pre_start-IsTidy 1 (4 ∷ []) small_config booted booted_at) handles-late).0

orphan-IsOrphan : IsOrphan 2000 rejecting orphan
unfolding contains knows_block get insert Block.id Bytes-discrete ℕ_discrete
orphan-IsOrphan = record { fine = refl; new = refl; in_time = refl; below = refl }

orphan-stays_example : get (Block.id orphan) keeping.unconfirmed_blocks ≡ some orphan
orphan-stays_example =
    orphan-stays quiet_net 1 2000 rejecting none orphan (quiet keeping) then_keeping then_keeping
      rejecting-IsTidy orphan-IsOrphan handles-orphan refl (Runs.here then_keeping)
