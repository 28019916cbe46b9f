-- ===== src/System/Waiting.antt =====
-- About `ractor::call!` on the actor of src/peerhub.rs: how long a caller waits.
use ddcoin.Prelude.{
  ℕ, zero, suc, ◌+◌, ◌≤◌, ◌<◌, ◌≡◌, ◌==◌, ℕ_eq, refl, sym, ap, subst, ◌∙◌, arith, if-true, if-false,
  Bool-cases, inl, inr, ◌⊎◌, Option, none, some, List, [], ◌∷◌, ◌++◌, length,
}
use ddcoin.External.{External}
use ddcoin.Hub.Messages.{Network, Reply}
use ddcoin.Hub.Client.{Client}
use ddcoin.System.{User, Port, Envelope, System, set_user, answered, Step}
use ddcoin.System.Calls.{waits, is_for, ports, IsMatched, set_user_self}

module _ {S : Type 0} where
  -- The message at this place has a port of the user.
  abbrev Queued : ℕ → ℕ → List (Envelope S) → Type 0
  Queued i n [] = ⊥
  Queued i zero (e ∷ rest) = is_for i e.port ≡ 1
  Queued i (suc n) (e ∷ rest) = Queued i n rest

  Queued-send :
      (i n : ℕ) (mail : List (Envelope S)) (e : Envelope S)
      → Queued i n mail
      → Queued i n (mail ++ e ∷ [])
  Queued-send i n [] e q = absurd q
  Queued-send i zero (f ∷ mail) e q = q
  Queued-send i (suc n) (f ∷ mail) e q = Queued-send i n mail e q

  is_for-cases : (i : ℕ) (port : Option (Port S)) → (is_for i port ≡ 1) ⊎ (is_for i port ≡ 0)
  is_for-cases i none = inr refl
  is_for-cases i (some port) = elim (Bool-cases (port.user == i)) [
    | inl same ↦ inl (if-true same 1 0)
    | inr other ↦ inr (if-false other 1 0)
  ]

  ports-Queued :
      (i : ℕ) (mail : List (Envelope S))
      → ports i mail ≡ 1
      → (n : ℕ) × (n < length mail) × Queued i n mail
  ports-Queued i [] e = absurd (omega (arith, e))
  ports-Queued i (f ∷ mail) e = elim (is_for-cases i f.port) [
    | inl own ↦ (0, omega arith, own)
    | inr other ↦
        let (n, small, q) = ports-Queued i mail (omega (arith, e, other)) in
        (suc n, omega (arith, small), q)
  ]

  freed :
      (i : ℕ) (port : Port S) (c : Client S (Unit {0})) (users : ℕ → User S)
      → is_for i (some port) ≡ 1
      → ¬ (set_user port.user (User.running c) users i ≡ User.waiting)
  freed i port c users own w = elim (Bool-cases (port.user == i)) [
    | inl same ↦ cc (w, set_user_self port.user (User.running c) users i same)
    | inr other ↦
        let none_for : is_for i (some port) ≡ 0 = if-false other 1 0 in omega (arith, own, none_for)
  ]

  -- Whoever gets an answer does not wait any more.
  answered-freed :
      (i : ℕ) (port : Option (Port S)) (reply : Option Reply) (users : ℕ → User S)
      → is_for i port ≡ 1
      → ¬ (answered port reply users i ≡ User.waiting)
  unfolding answered
  answered-freed i none reply users own w = omega (arith, own)
  answered-freed i (some port) none users own w = freed i port _ users own w
  answered-freed i (some port) (some p) users own w = freed i port _ users own w

  module _ ⦃x : External⦄ (net : Network S) where
    -- Whether the actor takes a message in this step.
    unfoldable pub turn : {s t : System S} → Step net s t → ℕ
    turn (Step.asks i m k up at q) = 0
    turn (Step.casts i m c up at q) = 0
    turn (Step.handles root_fuel now e rest r up at ran q) = 1
    turn (Step.refuses_ask i m k down at q) = 0
    turn (Step.refuses_cast i m c down at q) = 0
    turn (Step.drops e rest down at q) = 1

    -- Steps through all of which the user waits, with the number of turns of the actor.
    pub data Awaits (i : ℕ) : System S → System S → ℕ → Type 0 where
      here : (s : System S) → s.users i ≡ User.waiting → Awaits i s s 0
      next :
          (s t u : System S) (n : ℕ) (step : Step net s t)
          → s.users i ≡ User.waiting
          → Awaits i t u n
          → Awaits i s u (turn step + n)

    starts-waiting : (i : ℕ) (s t : System S) (n : ℕ) → Awaits i s t n → s.users i ≡ User.waiting
    starts-waiting i _ _ _ (here s w) = w
    starts-waiting i _ _ _ (next s t u n step w rest) = w

    taken-Queued :
        (i n : ℕ) (s : System S) (e : Envelope S) (rest : List (Envelope S)) (reply : Option Reply)
        → s.mailbox ≡ e ∷ rest
        → Queued i n s.mailbox
        → answered e.port reply s.users i ≡ User.waiting
        → (m : ℕ) × (1 + m ≡ n) × Queued i m rest
    taken-Queued i zero s e rest reply at q w =
        absurd (answered-freed i e.port reply s.users (subst (Queued i 0) at q) w)
    taken-Queued i (suc n) s e rest reply at q w = (n, omega arith, subst (Queued i (suc n)) at q)

    -- A turn of the actor brings whoever still waits one place forward, and nothing moves it back.
    Step-Queued :
        (i n : ℕ) (s t : System S) (step : Step net s t)
        → Queued i n s.mailbox
        → t.users i ≡ User.waiting
        → (m : ℕ) × (turn step + m ≡ n) × Queued i m t.mailbox
    unfolding turn
    Step-Queued i n s t (Step.asks j m k up at q) queued w =
        (n, omega arith, rw q (Queued-send i n s.mailbox _ queued))
    Step-Queued i n s t (Step.casts j m c up at q) queued w =
        (n, omega arith, rw q (Queued-send i n s.mailbox _ queued))
    Step-Queued i n s t (Step.handles root_fuel now e rest r up at ran q) queued w =
        rw q (
          taken-Queued i n s e rest r.reply at queued
            (sym (ap (λ (u : System S). u.users i) q) ∙ w))
    Step-Queued i n s t (Step.refuses_ask j m k down at q) queued w = (n, omega arith, rw q queued)
    Step-Queued i n s t (Step.refuses_cast j m c down at q) queued w = (n, omega arith, rw q queued)
    Step-Queued i n s t (Step.drops e rest down at q) queued w =
        rw q
          (taken-Queued i n s e rest none at queued (sym (ap (λ (u : System S). u.users i) q) ∙ w))

    Awaits-Queued : (i n k : ℕ) (s t : System S) → Awaits i s t k → Queued i n s.mailbox → k ≤ n
    Awaits-Queued i n _ _ _ (here s w) queued = omega arith
    Awaits-Queued i n _ _ _ (next s t u k step w rest) queued =
        let (m, at, later) = Step-Queued i n s t step queued (starts-waiting i t u k rest) in
        omega (arith, at, Awaits-Queued i m k t u rest later)

    -- Where callers and ports are matched, a user who waits through some steps has seen fewer turns of
    -- the actor in them than there were messages in the mailbox at the start.
    pub Awaits-bounded :
        (i k : ℕ) (s t : System S) → IsMatched s → Awaits i s t k → k < length s.mailbox
    Awaits-bounded i k s t matched awaits =
        let one : ports i s.mailbox ≡ 1 = matched i ∙ ap waits (starts-waiting i s t k awaits) in
        let (n, small, queued) = ports-Queued i s.mailbox one in
        omega (arith, small, Awaits-Queued i n k s t awaits queued)
