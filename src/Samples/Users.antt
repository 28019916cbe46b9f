-- ===== src/Samples/Users.antt =====
-- The theorems on users applied to the small node of Samples.antt, whose second block paid its miner.
use ddcoin.Prelude.{
  ℕ, ◌<◌, ◌≡◌, ◌≢◌, refl, sym, ◌∙◌, ap, true, false, none, some, [], ◌∷◌, arith, ℕ_discrete, ℕ_eq,
  suc, u64_mod, sum_u64, add_u64, shr_u64, rem_checked, div_checked,
}
use ddcoin.Prelude.Outcome.{done, Returns}
use ddcoin.Prelude.Result.{ok, err}
use ddcoin.Prelude.Bytes.{Bytes-discrete, bytes_eq, from_le_bytes, to_le_bytes}
use ddcoin.HashMap.{get, insert, contains, set_insert}
use ddcoin.Data.{cash_eq, Cash-discrete, Block, Transaction, Difficulty}
use ddcoin.Util.Difficulty.{is_met}
use ddcoin.Transaction.{amounts, fee}
use ddcoin.Transaction
use ddcoin.Block
use ddcoin.Block.Mining.{try_confirm-IsMined}
use ddcoin.Block.{try_confirm}
use ddcoin.Block.{zero_hash, subsidy_at, fees}
use ddcoin.Block.Mining.{meets}
use ddcoin.Chain.{knows_block, ancestors_id}
use ddcoin.CashSet.{
  Moved, cash_set_at, apply_block, apply_transaction, common_ancestor, rewind, from_id, replay,
}
use ddcoin.Validation.{expected_difficulty}
use ddcoin.Validation.Checks.{AllSpendable, IsAccepted}
use ddcoin.Hub.{HubState}
use ddcoin.Hub.Client.{run, insufficient_cash}
use ddcoin.Hub.Helper.{new_transfer}
use ddcoin.Hub.Helper.Gather.{owned, value}
use ddcoin.Hub.Helper.Calls.{IsSent, moved, new_transfer-IsSent, new_transfer-insufficient}
use ddcoin.Hub.Messages.{Message}
use ddcoin.Hub.Handle.{handle}
use ddcoin.Hub.Grows.{HasBlock, new_block-HasBlock}
use ddcoin.Hub.Ledger.{IsGrowth, ledger, handle-IsGrowth}
use ddcoin.Hub.Safe.{HubInv}
use ddcoin.Miner.{mine, top_ids, sort_by_fee, insert_by_fee}
use ddcoin.Miner.Order.{IsCheapest, top_ids-IsCheapest}
use ddcoin.Miner.Grows.{IsGrown, mine-IsGrown, miner_of, collected, Expects, block_draft}
use ddcoin.Samples.{
  coin, toy, toy-SignsCorrectly, toy-EncodesInOrder, small_config, small_config-IsUsable, second,
  two_blocks, two_blocks-Inv, genesis, one_block, one_block-Inv, second-IsFresh,
}
use ddcoin.Samples.Examples.{quiet_net, hub, second-at}

abbrev pub pay : Transaction
pay = record {
  inner = record {
    inputs = second.inner.reward ∷ [];
    outputs = record { id = 3 ∷ []; amount = 30; owner = 8 ∷ [] } ∷ [];
  };
  signature = 7 ∷ 1 ∷ 1 ∷ [];
}

-- The node with a transaction in its pool.
abbrev pub pooled : HubState ℕ
pooled = record hub { chain = record two_blocks { mempool = ((5 ∷ []), pay) ∷ [] } }

pub pooled-HubInv : HubInv pooled
pooled-HubInv = (two_blocks-Inv, small_config-IsUsable, omega arith)

abbrev paid : Moved
paid = record { cash = second.inner.reward ∷ coin ∷ []; known = true }

paid-at : cash_set_at pooled.chain pooled.leading_block ≡ done paid
unfolding cash_set_at ancestors_id get Bytes-discrete ℕ_discrete contains common_ancestor rewind
    from_id replay apply_block apply_transaction Block.id set_insert Cash-discrete
paid-at = refl

leader-second : pooled-HubInv.0.leader ≡ second
leader-second = let e = pooled-HubInv.0.leader_at in cc (e, second-at)

leader_seqno : pooled-HubInv.0.leader.inner.seqno ≡ 1
leader_seqno = ap (λ (b : Block). b.inner.seqno) leader-second

room : suc (suc pooled-HubInv.0.leader.inner.seqno) < u64_mod
room = omega (arith, leader_seqno)

collected-pooled : collected pooled ≡ pay ∷ []
unfolding top_ids sort_by_fee insert_by_fee get Bytes-discrete ℕ_discrete
collected-pooled = refl

spendable :
    (m : Moved)
    → cash_set_at pooled.chain pooled.leading_block ≡ done m
    → AllSpendable m.cash (collected pooled)
unfolding contains Cash-discrete Bytes-discrete ℕ_discrete
spendable m at = let e : m ≡ paid = cc (at, paid-at) in rw (collected-pooled, e) ((refl, tt), tt)

mineable :
    (d : Difficulty)
    → Expects quiet_net 1 2000 pooled pooled-HubInv 1 1002 (6 ∷ []) (7 ∷ []) room d
    → (n : ℕ) × (meets
          (block_draft quiet_net 1 2000 pooled pooled-HubInv 1 1002 (6 ∷ []) (7 ∷ []) room d)
          n
        ≡ true)
      × (n < 1)
unfolding expected_difficulty is_met from_le_bytes to_le_bytes add_u64 rem_checked ℕ_discrete
mineable d e =
    let third : Block = record {
      inner = record (second.inner) { seqno = 2; timestamp = 1002 };
      signature = [];
    } in
    let level : expected_difficulty pooled.chain third pooled-HubInv.0.leader ≡ done d =
      e third (omega (arith, leader_seqno)) refl in
    let level' : expected_difficulty pooled.chain third second ≡ done d =
      rw leader-second at level in
    let computed : expected_difficulty pooled.chain third second ≡ done 100_000 = refl in
    let same : d ≡ 100_000 = cc (level', computed) in (0, rw (same, leader_seqno) refl, omega arith)

-- The block that is mined has the time and the height of its draft.
fresh :
    (d : Difficulty) (b : Block)
    → Expects quiet_net 1 2000 pooled pooled-HubInv 1 1002 (6 ∷ []) (7 ∷ []) room d
    → try_confirm 1
        (block_draft quiet_net 1 2000 pooled pooled-HubInv 1 1002 (6 ∷ []) (7 ∷ []) room d)
        (7 ∷ [])
      ≡ done (ok b)
    → (knows_block pooled.chain (Block.id b) ≡ false) × (Block.id b ≢ zero_hash)
unfolding knows_block Block.id contains get Bytes-discrete ℕ_discrete add_u64
fresh d b expects found =
    let u = block_draft quiet_net 1 2000 pooled pooled-HubInv 1 1002 (6 ∷ []) (7 ∷ []) room d in
    let (n, met, enough) = mineable d expects in
    let (c, e, mined) =
      try_confirm-IsMined toy-SignsCorrectly toy-EncodesInOrder u (7 ∷ []) 1 n refl met enough in
    let same : c ≡ b = cc (e, found) in
    let high : b.inner.seqno ≡ 2 =
      ap (λ (q : Block). q.inner.seqno) (sym same)
      ∙ ap (λ f. f.seqno) mined.fields
      ∙ ap (λ n. add_u64 n 1) leader_seqno in
    let time : b.inner.timestamp ≡ 1002 =
      ap (λ (q : Block). q.inner.timestamp) (sym same) ∙ ap (λ f. f.timestamp) mined.fields in
    rw (high, time) (refl, λ q. ground (arith, q))

mine-IsGrown_example :
    (r : HubState ℕ) × (run quiet_net 1 2000 pooled
        (mine 1 1002 (6 ∷ []) (miner_of (7 ∷ []) small_config))
      ≡ done (r, ok tt))
    × IsGrown quiet_net 1 2000 pooled pooled-HubInv 1 1002 (6 ∷ []) (7 ∷ []) room r
mine-IsGrown_example =
    mine-IsGrown quiet_net 1 2000 pooled pooled-HubInv 1 1002 (6 ∷ []) (7 ∷ []) room
      toy-SignsCorrectly toy-EncodesInOrder
      (omega (arith, ap (λ (b : Block). b.inner.timestamp) leader-second)) (omega arith) spendable
      mineable fresh

paid_value : value (owned (7 ∷ []) paid.cash) ≡ 69
unfolding value Bytes-discrete ℕ_discrete
paid_value = refl

paid_small : value (owned (7 ∷ []) paid.cash) < u64_mod
paid_small = omega (arith, paid_value)

-- The miner pays, and then wants to pay more than it has.
new_transfer-IsSent_example :
    (r : HubState ℕ) × (t : Transaction) × (run quiet_net 1 2000 pooled
        (new_transfer (7 ∷ []) (8 ∷ []) 60 5 (11 ∷ []) (12 ∷ []))
      ≡ done (r, ok (Transaction.id t)))
    × IsSent quiet_net 1 2000 pooled pooled-HubInv paid paid-at toy-SignsCorrectly
        (7 ∷ [])
        (8 ∷ [])
        60
        5
        (11 ∷ [])
        (12 ∷ [])
        paid_small
        (omega arith)
        r
        t
new_transfer-IsSent_example =
    new_transfer-IsSent quiet_net 1 2000 pooled pooled-HubInv paid paid-at toy-SignsCorrectly
      (7 ∷ []) (8 ∷ []) 60 5 (11 ∷ []) (12 ∷ []) paid_small (omega arith) (omega arith)
      (omega (arith, paid_value))

new_transfer-insufficient_example :
    run quiet_net 1 2000 pooled (new_transfer (7 ∷ []) (8 ∷ []) 60 15 (11 ∷ []) (12 ∷ []))
    ≡ done (moved quiet_net 1 2000 pooled pooled-HubInv paid paid-at, err insufficient_cash)
new_transfer-insufficient_example =
    new_transfer-insufficient quiet_net 1 2000 pooled pooled-HubInv paid paid-at toy-SignsCorrectly
      (7 ∷ []) (8 ∷ []) 60 15 (11 ∷ []) (12 ∷ []) paid_small (omega arith)
      (omega (arith, paid_value))

top_ids-IsCheapest_example :
    IsCheapest small_config
      (((1 ∷ []), 9) ∷ ((2 ∷ []), 4) ∷ [])
      (top_ids small_config (((1 ∷ []), 9) ∷ ((2 ∷ []), 4) ∷ []))
top_ids-IsCheapest_example = top_ids-IsCheapest small_config (((1 ∷ []), 9) ∷ ((2 ∷ []), 4) ∷ [])

-- The second block comes to a node that has the first.
abbrev pub fresh_node : HubState ℕ
fresh_node = record hub { chain = one_block }

one_block-at : get (1 ∷ 1000 ∷ []) fresh_node.valid_blocks ≡ some genesis
unfolding get insert Bytes-discrete ℕ_discrete Block.id
one_block-at = refl

pub second-IsAccepted : IsAccepted one_block second genesis
unfolding cash_set_at ancestors_id get insert Bytes-discrete ℕ_discrete contains common_ancestor
    rewind from_id replay apply_block apply_transaction Block.id set_insert Cash-discrete
    expected_difficulty rem_checked subsidy_at fees div_checked shr_u64 add_u64 sum_u64
second-IsAccepted = record {
  in_time = omega arith;
  next_seqno = refl;
  right_difficulty = refl;
  moved = record { cash = coin ∷ []; known = true };
  brought = refl;
  spendable = tt;
  subsidy = 64;
  subsidy_right = refl;
  reward_right = refl;
}

pub second-unknown : knows_block one_block (Block.id second) ≡ false
unfolding knows_block contains get insert Bytes-discrete ℕ_discrete Block.id
second-unknown = refl

new_block-HasBlock_example :
    Returns
      (λ r. HasBlock quiet_net second r.state)
      (handle quiet_net 1 2000 fresh_node (Message.new_block none second))
new_block-HasBlock_example =
    new_block-HasBlock quiet_net 1 2000 fresh_node none second genesis
      (one_block-Inv, small_config-IsUsable, omega arith) second-IsFresh.admissible second-unknown
      (omega arith) one_block-at second-IsAccepted

second-handled :
    Returns
      (λ r. HasBlock quiet_net second r.state)
      (handle quiet_net 1 2000 fresh_node (Message.new_block (some (9 ∷ [])) second))
second-handled =
    new_block-HasBlock quiet_net 1 2000 fresh_node (some (9 ∷ [])) second genesis
      (one_block-Inv, small_config-IsUsable, omega arith) second-IsFresh.admissible second-unknown
      (omega arith) one_block-at second-IsAccepted

handle-IsGrowth_example : IsGrowth (ledger fresh_node) (ledger (second-handled.0.state))
handle-IsGrowth_example =
    handle-IsGrowth quiet_net 1 2000 fresh_node (Message.new_block (some (9 ∷ [])) second)
      second-handled.0 (one_block-Inv, small_config-IsUsable, omega arith) second-IsFresh.admissible
      second-handled.1
