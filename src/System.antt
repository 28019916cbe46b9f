-- ===== src/System.antt =====
-- The actor of src/peerhub.rs and its users as tasks that run side by side: a message goes to the end of
-- the actor's mailbox, and a user who calls waits for the reply while the others go on. A reply port is
-- the user who waits and what comes after. Every index has a user from the start; one who has not been
-- spawned yet takes no step.
pub mod Programs
pub mod Sound
pub mod Asks
pub mod Users
pub mod Mining
pub mod Runs
pub mod Calls
pub mod Waiting
pub mod Served
pub mod Tasks
pub mod Starts
pub mod Settled
pub mod Orphans
pub mod Launch
use ddcoin.Prelude.{
  ℕ, ◌≡◌, ◌==◌, ℕ_eq, Bool, true, false, not, if◌then◌else◌, Option, none, some, List, [], ◌∷◌,
  ◌++◌,
}
use ddcoin.Prelude.Outcome.{done}
use ddcoin.Data.{Timestamp}
use ddcoin.External.{External}
use ddcoin.Hub.{HubState, Handled}
use ddcoin.Hub.Messages.{Network, Message, Reply}
use ddcoin.Hub.Handle.{handle}
use ddcoin.Hub.Client.{Client, ret, fail, crash, stuck, ask, cast, no_reply}

pub data User (S : Type 0) : Type 0 where
  running : Client S (Unit {0}) → User S
  waiting : User S

-- `RpcReplyPort`
pub record Port (S : Type 0) : Type 0 where
  pub user : ℕ
  pub next : Reply → Client S (Unit {0})

pub record Envelope (S : Type 0) : Type 0 where
  pub message : Message S
  pub port : Option (Port S)

pub record System (S : Type 0) : Type 0 where
  pub hub : HubState S
  -- whether the actor still runs
  pub alive : Bool
  pub mailbox : List (Envelope S)
  pub users : ℕ → User S

module _ {S : Type 0} where
  -- What a task does whose result nobody looks at.
  unfoldable pub discard : {A : Type 0} → Client S A → Client S (Unit {0})
  discard (ret a) = ret tt
  discard (fail e) = fail e
  discard crash = crash
  discard stuck = stuck
  discard (ask m k) = ask m (λ p. discard (k p))
  discard (cast m c) = cast m (discard c)

  unfoldable pub set_user : ℕ → User S → (ℕ → User S) → ℕ → User S
  set_user i user users j = if i == j then user else users j

  -- The port gets the reply, or is dropped.
  unfoldable pub answered : Option (Port S) → Option Reply → (ℕ → User S) → ℕ → User S
  unfolding set_user
  answered none reply users = users
  answered (some port) none users = set_user port.user (User.running (fail no_reply)) users
  answered (some port) (some reply) users =
      set_user port.user (User.running (port.next reply)) users

  module _ ⦃x : External⦄ (net : Network S) where
    pub data Step : System S → System S → Type 0 where
      asks :
          {s t : System S} (i : ℕ) (m : Message S) (k : Reply → Client S (Unit {0}))
          → s.alive ≡ true
          → s.users i ≡ User.running (ask m k)
          → t ≡ record s {
            mailbox =
                s.mailbox
                ++ record { message = m; port = some (record { user = i; next = k }) } ∷ [];
            users = set_user i User.waiting s.users;
          }
          → Step s t
      casts :
          {s t : System S} (i : ℕ) (m : Message S) (c : Client S (Unit {0}))
          → s.alive ≡ true
          → s.users i ≡ User.running (cast m c)
          → t ≡ record s {
            mailbox = s.mailbox ++ record { message = m; port = none } ∷ [];
            users = set_user i (User.running c) s.users;
          }
          → Step s t
      -- The actor handles the first message, and stops if that fails.
      handles :
          {s t : System S} (root_fuel : ℕ) (now : Timestamp) (e : Envelope S)
          (rest : List (Envelope S)) (r : Handled S)
          → s.alive ≡ true
          → s.mailbox ≡ e ∷ rest
          → handle net root_fuel now s.hub e.message ≡ done r
          → t ≡ record {
            hub = r.state;
            alive = not r.failed;
            mailbox = rest;
            users = answered e.port r.reply s.users;
          }
          → Step s t
      -- After that it takes no message, and drops those that it has.
      refuses_ask :
          {s t : System S} (i : ℕ) (m : Message S) (k : Reply → Client S (Unit {0}))
          → s.alive ≡ false
          → s.users i ≡ User.running (ask m k)
          → t ≡ record s { users = set_user i (User.running (fail no_reply)) s.users }
          → Step s t
      refuses_cast :
          {s t : System S} (i : ℕ) (m : Message S) (c : Client S (Unit {0}))
          → s.alive ≡ false
          → s.users i ≡ User.running (cast m c)
          → t ≡ record s { users = set_user i (User.running (fail no_reply)) s.users }
          → Step s t
      drops :
          {s t : System S} (e : Envelope S) (rest : List (Envelope S))
          → s.alive ≡ false
          → s.mailbox ≡ e ∷ rest
          → t ≡ record s { mailbox = rest; users = answered e.port none s.users }
          → Step s t
