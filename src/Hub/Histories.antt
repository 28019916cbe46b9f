-- ===== src/Hub/Histories.antt =====
-- About src/peerhub.rs: the states that an actor goes through as it handles one message after another.
use ddcoin.Prelude.{ℕ, ◌≡◌, subst}
use ddcoin.Prelude.Outcome.{done}
use ddcoin.Data.{Timestamp}
use ddcoin.External.{External}
use ddcoin.Hub.{HubState, Handled}
use ddcoin.Hub.Messages.{Network, Message}
use ddcoin.Hub.Handle.{handle}
use ddcoin.Hub.Safe.{HubInv, IsSafe, IsWellFormed}
use ddcoin.Hub.Kept.{handle-IsSafe}

module _ {S : Type 0} ⦃x : External⦄ (net : Network S) where
  -- A history: each message is well-formed when it comes, and is handled to its end.
  pub data Reaches : HubState S → HubState S → Type 0 where
    here : (h : HubState S) → Reaches h h
    next :
        (root_fuel : ℕ) (now : Timestamp) (m : Message S) (h k : HubState S) (r : Handled S)
        → IsWellFormed h m
        → handle net root_fuel now h m ≡ done r
        → Reaches (r.state) k
        → Reaches h k

  -- From a state whose store is linked, whose settings are usable and whose table of peers is
  -- within its limit, every sequence of well-formed messages that are each handled to the end
  -- leads to such a state.
  pub Reaches-HubInv : (h k : HubState S) → Reaches h k → HubInv h → HubInv k
  Reaches-HubInv _ _ (here h) i = i
  Reaches-HubInv _ _ (next root_fuel now m h k r w e rest) i =
      Reaches-HubInv (r.state) k rest (subst IsSafe e (handle-IsSafe net root_fuel now h m i w))
