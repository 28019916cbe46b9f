-- ===== src/System/Served.antt =====
-- About `ractor::call!` on the actor of src/peerhub.rs: the turn in which a caller gets its reply.
use ddcoin.Prelude.{ℕ, ◌≡◌, ℕ_eq, ==_refl, refl, ap, subst, ◌∙◌, true, not, some, List, ◌∷◌}
use ddcoin.Data.{Timestamp}
use ddcoin.External.{External}
use ddcoin.Hub.Messages.{Network, Message, Reply}
use ddcoin.Hub.Ledger.{ledger}
use ddcoin.Hub.Replies.{HasPort, IsReplyTo, handle-IsAnswered}
use ddcoin.System.{User, Port, Envelope, System, answered, Step}
use ddcoin.System.Programs.{IsProper-IsWellFormed}
use ddcoin.System.Sound.{IsSound, MailBehaves}
use ddcoin.System.Calls.{set_user_self}

module _ {S : Type 0} where
  -- The caller goes on with a reply of the type that it asked for, and the actor still runs.
  pub record IsServed (m : Message S) (port : Port S) (rest : List (Envelope S)) (t : System S)
      : Type 0 where
    pub alive : t.alive ≡ true
    pub mailbox : t.mailbox ≡ rest
    pub reply : Reply
    pub fits : IsReplyTo m reply
    pub goes_on : t.users port.user ≡ User.running (port.next reply)

module _ {S : Type 0} ⦃x : External⦄ (net : Network S) where
  -- In a sound state with a running actor, where the first message of the mailbox asks something
  -- and a user waits for the reply, the actor can take its turn, and after it the actor still
  -- runs, the message is gone, and the user goes on with a reply of the type that it asked for.
  pub serves-IsServed :
      (root_fuel : ℕ) (now : Timestamp) (s : System S) (m : Message S) (port : Port S)
      (rest : List (Envelope S))
      → IsSound s
      → s.alive ≡ true
      → s.mailbox ≡ record { message = m; port = some port } ∷ rest
      → HasPort m
      → (t : System S) × Step net s t × IsServed m port rest t
  unfolding answered
  serves-IsServed root_fuel now s m port rest sound up at asks =
      let (proper, _, _) = subst (MailBehaves (ledger s.hub)) at sound.mail in
      let (r, ran, answer) =
        handle-IsAnswered net root_fuel now s.hub m sound.inv (IsProper-IsWellFormed s.hub m proper)
          asks in
      let t : System S = record {
        hub = r.state;
        alive = not r.failed;
        mailbox = rest;
        users = answered (some port) r.reply s.users;
      } in
      let freed : answered (some port) r.reply s.users port.user
          ≡ User.running (port.next answer.reply) =
        ap (λ p. answered (some port) p s.users port.user) answer.sent
        ∙ set_user_self port.user _ s.users port.user (==_refl port.user) in
      (
        t,
        Step.handles root_fuel now _ rest r up at ran refl,
        record {
          alive = ap not answer.goes_on;
          mailbox = refl;
          reply = answer.reply;
          fits = answer.fits;
          goes_on = freed;
        },
      )
