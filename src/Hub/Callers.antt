-- ===== src/Hub/Callers.antt =====
-- About src/peerhub.rs, `PeerHubActor::handle`: what becomes of the actor when a caller does not wait any
-- more.
use ddcoin.Prelude.{ℕ, ◌≡◌, refl, subst, Bool, true, false, not, none, some, if◌then◌else◌}
use ddcoin.Prelude.Outcome.{Returns}
use ddcoin.Prelude.Bytes.{bytes_eq}
use ddcoin.Data.{Timestamp}
use ddcoin.External.{External}
use ddcoin.Hub.{HubState, Handled, reply_sent}
use ddcoin.Hub.Messages.{Network, Message, Reply}
use ddcoin.Hub.Handle.{handle_call}
use ddcoin.Hub.Safe.{HubInv, IsSafe, IsWellFormed}
use ddcoin.Hub.Kept.{handle-IsSafe}
use ddcoin.Hub.Replies.{HasPort, handle-IsAnswered}
use ddcoin.Hub.Truth.{IsTruth, IsTold, handle-IsTold}

module _ {S : Type 0} ⦃x : External⦄ (net : Network S) (h : HubState S) (i : HubInv h) where
  -- The caller that waits is told the truth, and the actor goes on; to one that has gone nothing is
  -- sent, and the actor stops.
  pub record IsEnded (m : Message S) (waits : Bool) (r : Handled S) : Type 0 where
    pub inv : HubInv r.state
    pub stops : r.failed ≡ not waits
    pub reply : Reply
    pub truth : IsTruth net h i m reply
    pub sent : r.reply ≡ (if waits then some reply else none)

  sent-IsEnded :
      (m : Message S) (waits : Bool) (r : Handled S)
      → HubInv r.state
      → r.failed ≡ false
      → IsTold net h i m r
      → IsEnded m waits (reply_sent waits r)
  unfolding reply_sent
  sent-IsEnded m true r inv on (p, at, truth) = record {
    inv = inv;
    stops = on;
    reply = p;
    truth = truth;
    sent = at;
  }
  sent-IsEnded m false r inv on (p, at, truth) =
      rw (at, reply_sent)
        (record { inv = inv; stops = refl; reply = p; truth = truth; sent = refl })

  -- A node in its invariant handles every well-formed message that has a reply port to its end, in
  -- its invariant. A caller that still waits is told the truth, and the actor goes on; if the
  -- caller has gone, nothing is sent and the handler fails, which ends the actor. The truth is,
  -- for the question whether to connect, that there is room and the peer is new; for a new peer,
  -- that there is room and it is new or the connection was opened by the smaller id; for a depth,
  -- the one on the confirmed chain; for the time, that of the start of the last period; for the
  -- cash set, the set brought to the leading block; and otherwise what the node has under the ids.
  pub handle_call-IsEnded :
      (waits : Bool) (root_fuel : ℕ) (now : Timestamp) (m : Message S)
      → IsWellFormed h m
      → HasPort m
      → Returns (IsEnded m waits) (handle_call net waits root_fuel now h m)
  unfolding handle_call
  handle_call-IsEnded waits root_fuel now m w port =
      let (r, e, a) = handle-IsAnswered net root_fuel now h m i w port in
      let (q, f, told) = handle-IsTold net h i root_fuel now m w port in
      let same : q ≡ r = cc (e, f) in
      let inv : HubInv r.state = subst IsSafe e (handle-IsSafe net root_fuel now h m i w) in
      (
        reply_sent waits r,
        rw e refl,
        sent-IsEnded m waits r inv a.goes_on (subst (IsTold net h i m) same told),
      )
