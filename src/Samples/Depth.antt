-- ===== src/Samples/Depth.antt =====
-- The theorem on the depth of a transaction applied to a node whose second block has one.
use ddcoin.Prelude.{ℕ, ◌≡◌, refl, subst, Option, [], ◌∷◌, arith, ℕ_discrete}
use ddcoin.Prelude.Outcome.{done}
use ddcoin.Prelude.Result.{ok}
use ddcoin.Prelude.Bytes.{Bytes-discrete, bytes_eq}
use ddcoin.HashMap.{get, insert}
use ddcoin.Data.{Block}
use ddcoin.Block
use ddcoin.Chain.{ChainState, leading_block_seqno}
use ddcoin.Chain.Linked.{Inv, HasPrev}
use ddcoin.Validation.{enter, retain_uncollected}
use ddcoin.Validation.Extends.{IsFresh}
use ddcoin.Validation.Insertion.{enter-IsEntered}
use ddcoin.Hub.{HubState}
use ddcoin.Hub.Safe.{HubInv}
use ddcoin.Hub.Client.{Client, run}
use ddcoin.Hub.Helper
use ddcoin.Hub.Helper.Depth.{IsAnswer, transaction_depth-IsAnswer}
use ddcoin.Samples.{toy, genesis, second, one_block, one_block-Inv, small_config-IsUsable}
use ddcoin.Samples.Examples.{quiet_net, hub}
use ddcoin.Samples.Users.{pay}

abbrev spending : Block
spending = record { inner = record (second.inner) { transactions = pay ∷ [] }; signature = [] }

spending-IsFresh : IsFresh one_block spending
unfolding Block.id get insert Bytes-discrete ℕ_discrete
spending-IsFresh = record {
  admissible = record { seqno_small = omega arith; id_nonzero = ground arith };
  not_valid = refl;
  not_pooled = refl;
}

spending-HasPrev : HasPrev one_block.valid_blocks spending
unfolding Block.id get insert Bytes-discrete ℕ_discrete
spending-HasPrev = record {
  prev = genesis;
  prev_at = refl;
  prev_seqno = refl;
  prev_time = omega arith;
}

abbrev spent : ChainState
spent = record one_block {
  valid_blocks = ((1 ∷ 1000 ∷ []), genesis) ∷ ((2 ∷ 1001 ∷ []), spending) ∷ [];
  leading_block = 2 ∷ 1001 ∷ [];
}

spent-Inv : Inv spent
unfolding Block.id get insert Bytes-discrete ℕ_discrete enter retain_uncollected leading_block_seqno
spent-Inv =
    let (t, e, entered) =
      enter-IsEntered ⦃x = toy⦄ one_block spending one_block-Inv spending-IsFresh
        spending-HasPrev in
    let found : enter one_block spending ≡ done spent = refl in
    let same : t ≡ spent = cc (e, found) in subst Inv same entered.inv

abbrev spent_node : HubState ℕ
spent_node = record hub { chain = spent }

spent_node-HubInv : HubInv spent_node
spent_node-HubInv = (spent-Inv, small_config-IsUsable, omega arith)

transaction_depth-IsAnswer_example :
    (d : Option ℕ) × (run quiet_net 1 2000 spent_node
        (Helper.transaction_depth (7 ∷ 1 ∷ 1 ∷ []) Client.ret)
      ≡ done (spent_node, ok d))
    × IsAnswer spent_node spent_node-HubInv (7 ∷ 1 ∷ 1 ∷ []) d
transaction_depth-IsAnswer_example =
    transaction_depth-IsAnswer quiet_net 1 2000 spent_node spent_node-HubInv (7 ∷ 1 ∷ 1 ∷ [])
