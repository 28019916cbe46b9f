-- ===== src/System/Runs.antt =====
-- About src/peerhub.rs: the states that the actor and its users come to, and what holds in each of them.
use ddcoin.Prelude.{ℕ, ◌≡◌, ℕ_eq, List, ◌∷◌}
use ddcoin.Data.{Timestamp}
use ddcoin.External.{External}
use ddcoin.Hub.Messages.{Network}
use ddcoin.Hub.Handle.{handle}
use ddcoin.Hub.Client.{crash}
use ddcoin.Hub.Safe.{HubInv, IsSafe}
use ddcoin.Hub.Ledger.{ledger, IsGrowth}
use ddcoin.System.{User, Envelope, System, Step}
use ddcoin.System.Programs.{IsLow}

module _ {S : Type 0} ⦃x : External⦄ (net : Network S) where
  -- Any number of steps, in any order, during which the leading block is low.
  pub data Runs : System S → System S → Type 0 where
    here : (s : System S) → Runs s s
    next : (s t u : System S) → IsLow (ledger s.hub) → Step net s t → Runs t u → Runs s u

  -- Nothing panics: the actor has its invariant, it handles the first message without a panic, and no
  -- user has panicked. And since `s` the ledger has only grown.
  pub record IsUnharmed (s t : System S) : Type 0 where
    pub inv : HubInv t.hub
    pub grown : IsGrowth (ledger s.hub) (ledger t.hub)
    pub handles :
        (root_fuel : ℕ) (now : Timestamp) (e : Envelope S) (rest : List (Envelope S))
        → t.mailbox ≡ e ∷ rest
        → IsSafe (handle net root_fuel now t.hub e.message)
    pub no_crash : (i : ℕ) → ¬ (t.users i ≡ User.running crash)
