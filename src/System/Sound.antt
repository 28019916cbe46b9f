-- ===== src/System/Sound.antt =====
-- About src/peerhub.rs: the actor with all its users, between any two steps of theirs.
use ddcoin.Prelude.{
  ℕ, ◌≡◌, ◌==◌, ℕ_eq, sym, refl, subst, not, if-true, if-false, Bool, Bool-cases, inl, inr, Option,
  none, some, List, [], ◌∷◌, ◌++◌,
}
use ddcoin.Prelude.Outcome.{done}
use ddcoin.Data.{Timestamp}
use ddcoin.External.{External}
use ddcoin.Hub.{HubState, Handled}
use ddcoin.Hub.Messages.{Network, Message, Reply}
use ddcoin.Hub.Handle.{handle}
use ddcoin.Hub.Client.{Client, ask}
use ddcoin.Hub.Safe.{HubInv, IsSafe}
use ddcoin.Hub.Kept.{handle-IsSafe}
use ddcoin.Hub.Ledger.{Ledger, ledger, IsGrowth, IsGrowth-trans, handle-IsGrowth}
use ddcoin.System.{User, Port, Envelope, System, set_user, answered, Step}
use ddcoin.System.Programs.{
  IsLow, IsProper, Answers, Behaves, Behaves-grows, IsProper-grows, IsProper-IsWellFormed,
  IsGrowth-refl, handle-Answers,
}

module _ {S : Type 0} ⦃x : External⦄ where
  abbrev pub UserBehaves : Ledger → User S → Type 0
  UserBehaves l (User.running c) = Behaves l c
  UserBehaves l User.waiting = Unit

  -- Whatever answers the message, and whenever, the caller goes on well.
  abbrev PortBehaves : Ledger → Message S → Option (Port S) → Type 0
  PortBehaves l m none = Unit
  PortBehaves l m (some port) =
      (l' : Ledger)
      → IsGrowth l l'
      → IsLow l'
      → (p : Reply) → Answers l' m p
      → Behaves l' (port.next p)

  abbrev pub MailBehaves : Ledger → List (Envelope S) → Type 0
  MailBehaves l [] = Unit
  MailBehaves l (e ∷ rest) =
      IsProper l e.message × PortBehaves l e.message e.port × MailBehaves l rest

  -- The node is in its invariant, its messages are proper, and every user goes on well.
  pub record IsSound (s : System S) : Type 0 where
    pub inv : HubInv s.hub
    pub mail : MailBehaves (ledger s.hub) s.mailbox
    pub behaves : (i : ℕ) → UserBehaves (ledger s.hub) (s.users i)

  pub set_user-Behaves :
      (l : Ledger) (i : ℕ) (u : User S) (users : ℕ → User S)
      → UserBehaves l u
      → ((j : ℕ) → UserBehaves l (users j))
      → (j : ℕ) → UserBehaves l (set_user i u users j)
  unfolding set_user
  set_user-Behaves l i u users b all j = elim (Bool-cases (i == j)) [
    | inl same ↦ subst (UserBehaves l) (sym (if-true same u (users j))) b
    | inr other ↦ subst (UserBehaves l) (sym (if-false other u (users j))) (all j)
  ]

  sends-MailBehaves :
      (l : Ledger) (e : Envelope S) (mail : List (Envelope S))
      → IsProper l e.message
      → PortBehaves l e.message e.port
      → MailBehaves l mail
      → MailBehaves l (mail ++ e ∷ [])
  sends-MailBehaves l e [] p q b = (p, q, tt)
  sends-MailBehaves l e (f ∷ mail) p q (pf, qf, b) = (pf, qf, sends-MailBehaves l e mail p q b)

  module _ (l l' : Ledger) (g : IsGrowth l l') where
    PortBehaves-grows :
        (m : Message S) (port : Option (Port S)) → PortBehaves l m port → PortBehaves l' m port
    PortBehaves-grows m none b = tt
    PortBehaves-grows m (some port) b = λ l₂ g₂. b l₂ (IsGrowth-trans l l' l₂ g g₂)

    MailBehaves-grows : (mail : List (Envelope S)) → MailBehaves l mail → MailBehaves l' mail
    MailBehaves-grows [] b = tt
    MailBehaves-grows (e ∷ mail) (p, q, b) = (
      IsProper-grows l l' e.message g p,
      PortBehaves-grows e.message e.port q,
      MailBehaves-grows mail b,
    )

    UserBehaves-grows : (u : User S) → UserBehaves l u → UserBehaves l' u
    UserBehaves-grows (User.running c) b = Behaves-grows l l' c g b
    UserBehaves-grows User.waiting b = tt

  -- The caller gets the reply that the ledger `l` gave, when it has grown to `l'`.
  answered-Behaves :
      (l l' : Ledger) (m : Message S) (port : Option (Port S)) (reply : Option Reply)
      (users : ℕ → User S)
      → IsGrowth l l'
      → IsGrowth l l
      → IsLow l
      → ((p : Reply) → reply ≡ some p → Answers l m p)
      → PortBehaves l m port
      → ((j : ℕ) → UserBehaves l' (users j))
      → (j : ℕ) → UserBehaves l' (answered port reply users j)
  unfolding answered
  answered-Behaves l l' m none reply users g here low says b all = all
  answered-Behaves l l' m (some port) none users g here low says b all =
      set_user-Behaves l' port.user _ users tt all
  answered-Behaves l l' m (some port) (some p) users g here low says b all =
      set_user-Behaves l' port.user _ users
        (Behaves-grows l l' (port.next p) g (b l here low p (says p refl))) all

  dropped-Behaves :
      (l : Ledger) (port : Option (Port S)) (users : ℕ → User S)
      → ((j : ℕ) → UserBehaves l (users j))
      → (j : ℕ) → UserBehaves l (answered port none users j)
  unfolding answered
  dropped-Behaves l none users all = all
  dropped-Behaves l (some port) users all = set_user-Behaves l port.user _ users tt all

  pub here-IsGrowth : (h : HubState S) → HubInv h → IsGrowth (ledger h) (ledger h)
  here-IsGrowth h i = IsGrowth-refl (ledger h) i.0.leader i.0.leader_at

  module _ (net : Network S) where
    handled-IsSound :
        (s : System S) (root_fuel : ℕ) (now : Timestamp) (e : Envelope S) (rest : List (Envelope S))
        (r : Handled S) (alive : Bool)
        → s.mailbox ≡ e ∷ rest
        → handle net root_fuel now s.hub e.message ≡ done r
        → IsLow (ledger s.hub)
        → IsSound s
        → IsSound (record {
          hub = r.state;
          alive = alive;
          mailbox = rest;
          users = answered e.port r.reply s.users;
        })
    handled-IsSound s root_fuel now e rest r alive at ran low sound =
        let (proper, port, later) = subst (MailBehaves (ledger s.hub)) at sound.mail in
        let w = IsProper-IsWellFormed s.hub e.message proper in
        let g : IsGrowth (ledger s.hub) (ledger r.state) =
          handle-IsGrowth net root_fuel now s.hub e.message r sound.inv w ran in
        record {
          inv = subst IsSafe ran (handle-IsSafe net root_fuel now s.hub e.message sound.inv w);
          mail = MailBehaves-grows (ledger s.hub) (ledger r.state) g rest later;
          behaves =
              answered-Behaves (ledger s.hub) (ledger r.state) e.message e.port r.reply s.users g
                (here-IsGrowth s.hub sound.inv) low
                (λ p. handle-Answers net root_fuel now s.hub e.message r p ran) port
                (λ j.
                  UserBehaves-grows (ledger s.hub) (ledger r.state) g (s.users j)
                    (sound.behaves j));
        }

    pub Step-IsSound :
        (s t : System S) → Step net s t → IsLow (ledger s.hub) → IsSound s → IsSound t
    Step-IsSound s t (Step.asks i m k up at q) low sound =
        let here = here-IsGrowth s.hub sound.inv in
        let b : Behaves (ledger s.hub) (ask m k) =
          subst (UserBehaves (ledger s.hub)) at (sound.behaves i) in
        subst IsSound (sym q) record {
          inv = sound.inv;
          mail =
              sends-MailBehaves (ledger s.hub) _ s.mailbox (b.0 (ledger s.hub) here low) b.1
                sound.mail;
          behaves = set_user-Behaves (ledger s.hub) i User.waiting s.users tt sound.behaves;
        }
    Step-IsSound s t (Step.casts i m c up at q) low sound =
        let here = here-IsGrowth s.hub sound.inv in
        let b : Behaves (ledger s.hub) (Client.cast m c) =
          subst (UserBehaves (ledger s.hub)) at (sound.behaves i) in
        subst IsSound (sym q) record {
          inv = sound.inv;
          mail =
              sends-MailBehaves (ledger s.hub) _ s.mailbox (b.0 (ledger s.hub) here low) tt
                sound.mail;
          behaves = set_user-Behaves (ledger s.hub) i (User.running c) s.users b.1 sound.behaves;
        }
    Step-IsSound s t (Step.handles root_fuel now e rest r up at ran q) low sound =
        subst IsSound (sym q)
          (handled-IsSound s root_fuel now e rest r (not r.failed) at ran low sound)
    Step-IsSound s t (Step.refuses_ask i m k down at q) low sound = subst IsSound (sym q) record {
      inv = sound.inv;
      mail = sound.mail;
      behaves = set_user-Behaves (ledger s.hub) i _ s.users tt sound.behaves;
    }
    Step-IsSound s t (Step.refuses_cast i m c down at q) low sound = subst IsSound (sym q) record {
      inv = sound.inv;
      mail = sound.mail;
      behaves = set_user-Behaves (ledger s.hub) i _ s.users tt sound.behaves;
    }
    Step-IsSound s t (Step.drops e rest down at q) low sound =
        let (proper, port, later) = subst (MailBehaves (ledger s.hub)) at sound.mail in
        subst IsSound (sym q) record {
          inv = sound.inv;
          mail = later;
          behaves = dropped-Behaves (ledger s.hub) e.port s.users sound.behaves;
        }
