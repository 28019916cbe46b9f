-- ===== src/Samples/Watchers.antt =====
-- The theorems on the watchers and on the handle of a node applied to small ones.
use ddcoin.Prelude.{ℕ, ◌≡◌, ◌⊎◌, inl, inr, refl, [], ◌∷◌}
use ddcoin.Prelude.Outcome.{Outcome, done, panic}
use ddcoin.Prelude.Result.{ok, err}
use ddcoin.Config.HubHandle.{
  Poll, pending, ready_ok, ready_err, HubHandle, poll, IsOneShot, poll-panics_later,
}
use ddcoin.HashMap.{contains}
use ddcoin.Hub.{HubState}
use ddcoin.Hub.Messages.{NodeId}
use ddcoin.Hub.Client.{Client, run, lost_connection}
use ddcoin.Watcher.{Dial, opened, Subscriber, discovered}
use ddcoin.Watcher.Watching.{IsWatching}
use ddcoin.Watcher.Rounds.{IsRound, discovered-IsRound}
use ddcoin.Samples.{toy}
use ddcoin.Samples.Examples.{quiet_net}
use ddcoin.Samples.Users.{pooled, pooled-HubInv}

abbrev nobody : Subscriber
nobody = record { known_ids = []; tasks = [] }

abbrev reachable : NodeId → Dial ℕ
reachable id = opened 3

nobody-IsWatching : IsWatching pooled nobody
unfolding contains
nobody-IsWatching = record { in_table = λ t e. cc; known = λ t e. e; once = tt }

discovered-IsRound_example :
    ((h : HubState ℕ) × (s : Subscriber) × (run quiet_net 1 2000 pooled
          (discovered reachable nobody (5 ∷ []) Client.ret)
        ≡ done (h, ok s))
      × IsRound pooled (5 ∷ []) h s)
    ⊎ (run quiet_net 1 2000 pooled (discovered reachable nobody (5 ∷ []) Client.ret)
        ≡ done (pooled, err lost_connection))
discovered-IsRound_example =
    discovered-IsRound quiet_net 1 2000 reachable pooled nobody (5 ∷ []) pooled-HubInv
      nobody-IsWatching

-- A task, by whether it is running, and whether its end has been polled.
data Task : Type 0 where
  running ending polled : Task

poll_task : Task → Outcome (Task × Poll)
poll_task running = done (running, pending)
poll_task ending = done (polled, ready_ok)
poll_task polled = panic

ends_polled :
    (t t' : Task) (p : Poll)
    → (p ≡ ready_ok) ⊎ (p ≡ ready_err)
    → poll_task t ≡ done (t', p)
    → t' ≡ polled
unfolding poll_task
ends_polled running t' p ready e = elim ready [ inl q ↦ cc (e, q) | inr q ↦ cc (e, q) ]
ends_polled ending t' p ready e = cc
ends_polled polled t' p ready e = cc

poll_task-IsOneShot : IsOneShot poll_task (λ t. t ≡ polled)
unfolding poll_task
poll_task-IsOneShot = record {
  panics = λ t e. rw e refl;
  ends_ok = λ t t' e. ends_polled t t' ready_ok (inl refl) e;
  ends_err = λ t t' e. ends_polled t t' ready_err (inr refl) e;
}

abbrev node_handle : HubHandle Task
node_handle = record { new_peer_listener_handler = ending; actor_handle = running }

poll-panics_later_example :
    (next : HubHandle Task) × (poll poll_task node_handle ≡ done (next, pending))
    × (poll poll_task next ≡ panic)
unfolding poll_task
poll-panics_later_example =
    poll-panics_later poll_task (λ t. t ≡ polled) poll_task-IsOneShot node_handle polled running
      refl refl
