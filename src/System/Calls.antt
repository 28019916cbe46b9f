-- ===== src/System/Calls.antt =====
-- About `ractor::call!` on the actor of src/peerhub.rs: a caller and the port that it waits on.
use ddcoin.Prelude.{
  ℕ, ◌+◌, ◌≤◌, ◌≡◌, ◌==◌, ℕ_eq, refl, sym, ap, subst, ◌∙◌, arith, if◌then◌else◌, if-true, if-false,
  true, false, Bool-cases, inl, inr, Option, none, some, List, [], ◌∷◌, ◌++◌,
}
use ddcoin.External.{External}
use ddcoin.Hub.Messages.{Network, Reply}
use ddcoin.Hub.Client.{Client, fail, no_reply}
use ddcoin.System.{User, Port, Envelope, System, set_user, answered, Step}

module _ {S : Type 0} where
  abbrev pub waits : User S → ℕ
  waits (User.running c) = 0
  waits User.waiting = 1

  abbrev pub is_for : ℕ → Option (Port S) → ℕ
  is_for i none = 0
  is_for i (some port) = if port.user == i then 1 else 0

  -- How many ports of the user are in the mailbox.
  abbrev pub ports : ℕ → List (Envelope S) → ℕ
  ports i [] = 0
  ports i (e ∷ rest) = is_for i e.port + ports i rest

  -- Whoever waits has one port in the mailbox, and nobody else has one.
  abbrev pub IsMatched : System S → Type 0
  IsMatched s = (i : ℕ) → ports i s.mailbox ≡ waits (s.users i)

  ports-send :
      (i : ℕ) (mail : List (Envelope S)) (e : Envelope S)
      → ports i (mail ++ e ∷ []) ≡ ports i mail + is_for i e.port
  ports-send i [] e = omega arith
  ports-send i (f ∷ mail) e = omega (arith, ports-send i mail e)

  waits-le : (u : User S) → waits u ≤ 1
  waits-le (User.running c) = omega arith
  waits-le User.waiting = omega arith

  pub set_user_self :
      (i : ℕ) (u : User S) (users : ℕ → User S) (j : ℕ) → (i == j) ≡ true → set_user i u users j ≡ u
  unfolding set_user
  set_user_self i u users j e = if-true e u (users j)

  set_user_ne :
      (i : ℕ) (u : User S) (users : ℕ → User S) (j : ℕ)
      → (i == j) ≡ false
      → set_user i u users j ≡ users j
  unfolding set_user
  set_user_ne i u users j e = if-false e u (users j)

  -- A user who was running sends a message, with the ports `n` of its own.
  sent-waits :
      (users : ℕ → User S) (i : ℕ) (u v : User S) (m : ℕ → ℕ) (port : Option (Port S))
      → users i ≡ u
      → waits u ≡ 0
      → ((j : ℕ) → (i == j) ≡ true → is_for j port ≡ waits v)
      → ((j : ℕ) → (i == j) ≡ false → is_for j port ≡ 0)
      → ((j : ℕ) → m j ≡ waits (users j))
      → (j : ℕ) → m j + is_for j port ≡ waits (set_user i v users j)
  sent-waits users i u v m port at idle own others all j = elim (Bool-cases (i == j)) [
    | inr other ↦ rw (set_user_ne i v users j other) (omega (arith, all j, others j other))
    | inl same ↦
        let eq : i ≡ j = ground arith in
        let before : waits (users j) ≡ 0 =
          ap (λ k. waits (users k)) (sym eq) ∙ ap waits at ∙ idle in
        rw (set_user_self i v users j same) (omega (arith, all j, own j same, before))
  ]

  freed-waits :
      (port : Port S) (c : Client S (Unit {0})) (users : ℕ → User S) (n j : ℕ)
      → is_for j (some port) + n ≡ waits (users j)
      → n ≡ waits (set_user port.user (User.running c) users j)
  freed-waits port c users n j h = elim (Bool-cases (port.user == j)) [
    | inl same ↦
        let one : is_for j (some port) ≡ 1 = if-true same 1 0 in
        rw (set_user_self port.user (User.running c) users j same)
          (omega (arith, h, one, waits-le (users j)))
    | inr other ↦
        let none_for : is_for j (some port) ≡ 0 = if-false other 1 0 in
        rw (set_user_ne port.user (User.running c) users j other) (omega (arith, h, none_for))
  ]

  -- A port is answered, or dropped.
  answered-waits :
      (port : Option (Port S)) (reply : Option Reply) (users : ℕ → User S) (n j : ℕ)
      → is_for j port + n ≡ waits (users j)
      → n ≡ waits (answered port reply users j)
  unfolding answered
  answered-waits none reply users n j h = omega (arith, h)
  answered-waits (some port) none users n j h = freed-waits port _ users n j h
  answered-waits (some port) (some p) users n j h = freed-waits port _ users n j h

  taken :
      (s : System S) (e : Envelope S) (rest : List (Envelope S)) (j : ℕ)
      → IsMatched s
      → s.mailbox ≡ e ∷ rest
      → is_for j e.port + ports j rest ≡ waits (s.users j)
  taken s e rest j matched at = ap (ports j) (sym at) ∙ matched j

  failed-waits :
      (s : System S) (i : ℕ) (c : Client S (Unit {0}))
      → s.users i ≡ User.running c
      → IsMatched s
      → IsMatched (record s { users = set_user i (User.running (fail no_reply)) s.users })
  failed-waits s i c at matched j = omega (
    arith,
    sent-waits s.users i (User.running c) (User.running (fail no_reply)) (λ j. ports j s.mailbox)
        none at refl (λ j e. refl) (λ j e. refl) matched j,
  )

  module _ ⦃x : External⦄ (net : Network S) where
    -- Every step keeps callers and ports matched, whatever the users send and however the handler
    -- ends: a user who waits has exactly one port in the mailbox, and a user who does not has none.
    pub Step-IsMatched : (s t : System S) → Step net s t → IsMatched s → IsMatched t
    Step-IsMatched s t (Step.asks i m k up at q) matched =
        let port : Port S = record { user = i; next = k } in
        subst IsMatched (sym q) λ j.
          ports-send j s.mailbox _
          ∙ sent-waits s.users i _ User.waiting (λ j. ports j s.mailbox) (some port) at refl
              (λ j e. if-true e 1 0) (λ j e. if-false e 1 0) matched j
    Step-IsMatched s t (Step.casts i m c up at q) matched = subst IsMatched (sym q) λ j.
        ports-send j s.mailbox _
        ∙ sent-waits s.users i _ (User.running c) (λ j. ports j s.mailbox) none at refl
            (λ j e. refl) (λ j e. refl) matched j
    Step-IsMatched s t (Step.handles root_fuel now e rest r up at ran q) matched =
        subst IsMatched (sym q)
          λ j. answered-waits e.port r.reply s.users (ports j rest) j (taken s e rest j matched at)
    Step-IsMatched s t (Step.refuses_ask i m k down at q) matched =
        subst IsMatched (sym q) (failed-waits s i _ at matched)
    Step-IsMatched s t (Step.refuses_cast i m c down at q) matched =
        subst IsMatched (sym q) (failed-waits s i _ at matched)
    Step-IsMatched s t (Step.drops e rest down at q) matched =
        subst IsMatched (sym q)
          λ j. answered-waits e.port none s.users (ports j rest) j (taken s e rest j matched at)
