-- ===== src/Config/HubHandle.antt =====
-- src/config.rs: `HubHandle`, the future that waits for the two tasks of a node. A `JoinHandle` of tokio is
-- of a type `J`, and `poll_join` polls it.
use ddcoin.Prelude.{◌≡◌, refl}
use ddcoin.Prelude.Outcome.{Outcome, done, panic, ◌>>=◌}

-- `Poll<Result<(), JoinError>>`
pub data Poll : Type 0 where
  pending ready_ok ready_err : Poll

pub record HubHandle (J : Type 0) : Type 0 where
  pub new_peer_listener_handler : J
  pub actor_handle : J

unfoldable new : {J : Type 0} → J → J → HubHandle J
new new_peer_listener_handler actor_handle = record {
  new_peer_listener_handler = new_peer_listener_handler;
  actor_handle = actor_handle;
}

-- `Drop`, where `abort` is what tokio does with a task that is told to end.
unfoldable drop : {J : Type 0} → (J → J) → HubHandle J → HubHandle J
drop abort this = record {
  new_peer_listener_handler = abort this.new_peer_listener_handler;
  actor_handle = abort this.actor_handle;
}

-- The `match` on the two polls.
unfoldable pub join_polls : Poll → Poll → Poll
join_polls ready_ok ready_ok = ready_ok
join_polls ready_err _ = ready_err
join_polls _ ready_err = ready_err
join_polls _ _ = pending

module _ {J : Type 0} (poll_join : J → Outcome (J × Poll)) where
  unfoldable pub poll : HubHandle J → Outcome (HubHandle J × Poll)
  poll this = poll_join this.new_peer_listener_handler >>= λ peer.
      poll_join this.actor_handle >>= λ actor. done (
        record { new_peer_listener_handler = peer.0; actor_handle = actor.0 },
        join_polls peer.1 actor.1,
      )

  -- What tokio says of a `JoinHandle`: a poll returns until the task has ended, and a poll after that
  -- panics.
  pub record IsOneShot (ended : J → Type 0) : Type 0 where
    pub panics : (j : J) → ended j → poll_join j ≡ panic
    pub ends_ok : (j j' : J) → poll_join j ≡ done (j', ready_ok) → ended j'
    pub ends_err : (j j' : J) → poll_join j ≡ done (j', ready_err) → ended j'

  -- Where a poll of a task that has been polled to its end panics, a poll of the handle of a node
  -- that finds the listeners ended and the actor running is pending, and the next poll panics.
  pub poll-panics_later :
      (ended : J → Type 0) (one_shot : IsOneShot ended) (this : HubHandle J) (peer actor : J)
      → poll_join this.new_peer_listener_handler ≡ done (peer, ready_ok)
      → poll_join this.actor_handle ≡ done (actor, pending)
      → (next : HubHandle J) × (poll this ≡ done (next, pending)) × (poll next ≡ panic)
  unfolding poll join_polls
  poll-panics_later ended one_shot this peer actor e f =
      let next : HubHandle J = record { new_peer_listener_handler = peer; actor_handle = actor } in
      (
        next,
        rw (e, f) refl,
        rw (one_shot.panics peer (one_shot.ends_ok this.new_peer_listener_handler peer e)) refl,
      )
