-- ===== src/Samples/Examples.antt =====
-- Tests, and the theorems on the node applied to the small one of Samples.antt.
use ddcoin.Prelude.{
  ℕ, ◌+◌, ◌≤◌, ◌≡◌, ◌≢◌, refl, true, false, not, none, some, [], ◌∷◌, arith, length, ℕ_discrete,
}
use ddcoin.Prelude.Outcome.{done, Returns}
use ddcoin.Prelude.Bytes.{Bytes, Bytes-discrete, bytes_eq}
use ddcoin.HashMap.{get, insert}
use ddcoin.Samples.{
  toy, small_config-IsUsable, genesis, second, one_block, one_block-Inv, second-IsFresh,
  second-HasPrev, two_blocks, two_blocks-Inv,
}
use ddcoin.Data.{cash_eq, Block}
use ddcoin.Block
use ddcoin.Block.{with_nonce, try_confirm, find_nouce, create_genesis, zero_hash}
use ddcoin.Prelude.Bytes.{from_le_bytes}
use ddcoin.Validation.{Rejected, add_invalid_block}
use ddcoin.Validation.Rejecting.{add_invalid_block-total}
use ddcoin.Hub.{HubState, new_peer}
use ddcoin.Hub.Messages.{Network, Reply}
use ddcoin.Hub.Peers.{duplicates_agree}
use ddcoin.Prelude.Tests.{ltb}
use ddcoin.Block.{genesis_draft, find_nouce_from}
use ddcoin.Prelude.{if◌then◌else◌, ◌==◌, ℕ_eq, Bool}
use ddcoin.Chain.{ChainState, block_root}
use ddcoin.Chain.Root.{WaitsOn, block_root-own}
use ddcoin.Validation.{validate_block, check_block, enter}
use ddcoin.Validation.Extends.{IsStep}
use ddcoin.Validation.Total.{validate_block-IsStep}
use ddcoin.Validation.Rules.{check_block-IsJudged, IsJudged}
use ddcoin.Validation.Insertion.{enter-IsEntered, IsEntered}
use ddcoin.Chain.{confirmed_chain, prev_difficulty_adjusted_block}
use ddcoin.Chain.Confirmed.{confirmed_chain-IsConfirmed, IsConfirmed}
use ddcoin.Chain.Heights.{prev_difficulty_adjusted_block-IsPeriodStart, IsPeriodStart}
use ddcoin.Chain.Ancestors.{ancestors_id-HasWalk, HasWalk}
use ddcoin.CashSet.{cash_set_at}
use ddcoin.CashSet.Current.{cash_set_at-IsBroughtTo, IsBroughtTo}

genesis-at : get (1 ∷ 1000 ∷ []) one_block.valid_blocks ≡ some genesis
unfolding get insert Bytes-discrete ℕ_discrete Block.id
genesis-at = refl

validate_block-IsStep_example : Returns (IsStep 1 one_block) (validate_block 1 one_block second)
validate_block-IsStep_example =
    validate_block-IsStep 1 one_block second one_block-Inv small_config-IsUsable second-IsFresh
      (omega arith)

check_block-IsJudged_example :
    Returns
      (IsJudged one_block one_block-Inv small_config-IsUsable second genesis)
      (check_block one_block second genesis)
check_block-IsJudged_example =
    check_block-IsJudged one_block one_block-Inv small_config-IsUsable second genesis genesis-at

enter-IsEntered_example :
    Returns
      (IsEntered one_block second one_block-Inv second-IsFresh second-HasPrev)
      (enter one_block second)
enter-IsEntered_example =
    enter-IsEntered one_block second one_block-Inv second-IsFresh second-HasPrev

confirmed_chain-IsConfirmed_example :
    Returns (IsConfirmed two_blocks two_blocks-Inv) (confirmed_chain two_blocks)
confirmed_chain-IsConfirmed_example = confirmed_chain-IsConfirmed two_blocks two_blocks-Inv

pub second-at : get (2 ∷ 1001 ∷ []) two_blocks.valid_blocks ≡ some second
unfolding get Bytes-discrete ℕ_discrete
second-at = refl

cash_set_at-IsBroughtTo_example :
    Returns
      (IsBroughtTo two_blocks two_blocks-Inv (2 ∷ 1001 ∷ []))
      (cash_set_at two_blocks (2 ∷ 1001 ∷ []))
cash_set_at-IsBroughtTo_example =
    cash_set_at-IsBroughtTo two_blocks two_blocks-Inv (2 ∷ 1001 ∷ []) second second-at

ancestors_id-HasWalk_example : HasWalk two_blocks two_blocks-Inv (2 ∷ 1001 ∷ [])
ancestors_id-HasWalk_example =
    ancestors_id-HasWalk two_blocks two_blocks-Inv (2 ∷ 1001 ∷ []) second second-at

second_high : 1 ≤ two_blocks-Inv.leader.inner.seqno
second_high = two_blocks-Inv.leader_max (2 ∷ 1001 ∷ []) second second-at

prev_difficulty_adjusted_block-IsPeriodStart_example :
    Returns
      (IsPeriodStart two_blocks two_blocks-Inv 2)
      (prev_difficulty_adjusted_block two_blocks 2)
prev_difficulty_adjusted_block-IsPeriodStart_example =
    prev_difficulty_adjusted_block-IsPeriodStart two_blocks two_blocks-Inv 2 (omega arith)
      (omega arith) (omega arith) (omega (arith, second_high))

abbrev waiting : Rejected
waiting = record { invalid = []; next = ((1 ∷ []), ((2 ∷ []) ∷ [])) ∷ [] }

add_invalid_block-total_example :
    Returns (λ r. length r.next ≤ length waiting.next) (add_invalid_block 2 waiting (1 ∷ []))
add_invalid_block-total_example = add_invalid_block-total 2 waiting (1 ∷ []) (omega arith)

abbrev pub quiet_net : Network ℕ
quiet_net = record {
  write_all = λ s m. (s + length m, true);
  flush = λ s. (s, true);
  encode = λ m. some (1 ∷ []);
  node_lt = λ a b. ltb (from_le_bytes a) (from_le_bytes b);
}

abbrev pub hub : HubState ℕ
hub = record {
  chain = two_blocks;
  peers = ((9 ∷ []), 0) ∷ [];
  annoucements = [];
  local_node_id = 4 ∷ [];
}

abbrev caller : HubState ℕ
caller = record hub { local_node_id = 9 ∷ []; peers = ((4 ∷ []), 0) ∷ [] }

-- The order of the bytes, from the left.
less : Bytes → Bytes → Bool
less [] [] = false
less [] (y ∷ ys) = true
less (x ∷ xs) [] = false
less (x ∷ xs) (y ∷ ys) = let rest = less xs ys in if x == y then rest else ltb x y

less-total : (a b : Bytes) → a ≢ b → less b a ≡ not (less a b)
unfolding less
less-total [] [] ne = absurd (ne refl)
less-total [] (y ∷ ys) ne = refl
less-total (x ∷ xs) [] ne = refl
less-total (x ∷ xs) (y ∷ ys) ne = ground (arith, less-total xs ys)

abbrev ordered : Network ℕ
ordered = record quiet_net { node_lt = less }

hub-known : get (4 ∷ []) caller.peers ≡ some 0
unfolding get Bytes-discrete ℕ_discrete
hub-known = refl

caller-known : get (9 ∷ []) hub.peers ≡ some 0
unfolding get Bytes-discrete ℕ_discrete
caller-known = refl

duplicates_agree_example :
    ((new_peer ordered caller hub.local_node_id 1 true).reply
      ≡ some (Reply.decision (less (9 ∷ []) (4 ∷ []))))
    × ((new_peer ordered hub caller.local_node_id 2 false).reply
        ≡ some (Reply.decision (less (9 ∷ []) (4 ∷ []))))
duplicates_agree_example =
    duplicates_agree ordered less-total caller hub 1 2 0 0 (ground arith) (omega arith)
      (omega arith) hub-known caller-known

-- The second block comes to the node as a message.
abbrev young : HubState ℕ
young = record hub { chain = one_block }

-- A block of the pool waits on one that is missing.
abbrev second_child : Block
second_child = record {
  inner = record (second.inner) { seqno = 2; prev_id = 2 ∷ 1001 ∷ [] };
  signature = [];
}

abbrev expecting : ChainState
expecting = record one_block { unconfirmed_blocks = ((3 ∷ []), second_child) ∷ [] }

expecting-WaitsOn : WaitsOn expecting (3 ∷ []) (2 ∷ 1001 ∷ []) 1
unfolding get Bytes-discrete ℕ_discrete Block.id
expecting-WaitsOn =
    WaitsOn.back (3 ∷ []) (2 ∷ 1001 ∷ []) 0 second_child (ground arith) refl
      (WaitsOn.here (2 ∷ 1001 ∷ []))

missing : get (2 ∷ 1001 ∷ []) expecting.unconfirmed_blocks ≡ none
unfolding get Bytes-discrete ℕ_discrete
missing = refl

block_root-own_example :
    block_root 2 expecting (3 ∷ [])
    ≡ done (if (2 ∷ 1001 ∷ []) == expecting.genesis_id then expecting.genesis_id else (3 ∷ []))
block_root-own_example =
    block_root-own 2 expecting (3 ∷ []) (2 ∷ 1001 ∷ []) 1 expecting-WaitsOn missing (omega arith)
