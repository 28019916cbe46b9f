-- ===== src/Hub/Ledger.antt =====
-- About src/peerhub.rs, `PeerHubActor::handle`: the node as a ledger, which forgets everything but the
-- valid blocks and which of them leads.
use ddcoin.Prelude.{ℕ, ◌≤◌, ◌≡◌, ap, subst, arith, Option, some}
use ddcoin.Prelude.Outcome.{done}
use ddcoin.Prelude.Bytes.{bytes_eq}
use ddcoin.HashMap.{get}
use ddcoin.Data.{Block, BlockId, Timestamp}
use ddcoin.External.{External}
use ddcoin.Hub.{HubState, Handled}
use ddcoin.Hub.Messages.{Network, Message}
use ddcoin.Hub.Handle.{handle}
use ddcoin.Hub.Safe.{HubInv, IsSafe, IsWellFormed}
use ddcoin.Hub.Kept.{handle-IsSafe}
use ddcoin.Hub.Keeps.{handle-Extends}
use ddcoin.Hub.Histories.{Reaches}

pub record Ledger : Type 0 where
  pub blocks : BlockId → Option Block
  pub leading : BlockId

-- The step of a ledger: no block is lost, and one that is no lower than the leading one leads.
pub record IsGrowth (a b : Ledger) : Type 0 where
  pub kept : (id : BlockId) (block : Block) → a.blocks id ≡ some block → b.blocks id ≡ some block
  pub old_leader : Block
  pub new_leader : Block
  pub led : a.blocks a.leading ≡ some old_leader
  pub leads : b.blocks b.leading ≡ some new_leader
  pub not_lower : old_leader.inner.seqno ≤ new_leader.inner.seqno

abbrev pub ledger : {S : Type 0} → HubState S → Ledger
ledger h = record { blocks = λ id. get id h.valid_blocks; leading = h.leading_block }

pub IsGrowth-trans : (a b c : Ledger) → IsGrowth a b → IsGrowth b c → IsGrowth a c
IsGrowth-trans a b c p q = record {
  kept = λ id block e. q.kept id block (p.kept id block e);
  old_leader = p.old_leader;
  new_leader = q.new_leader;
  led = p.led;
  leads = q.leads;
  not_lower =
      let same : p.new_leader ≡ q.old_leader = cc (p.leads, q.led) in
      omega (arith, p.not_lower, q.not_lower, ap (λ (l : Block). l.inner.seqno) same);
}

module _ {S : Type 0} ⦃x : External⦄ (net : Network S) where
  -- Seen as a ledger, which is the valid blocks by their ids and the leading id, every well-formed
  -- message that a node in its invariant handles to the end is a step of growth: no valid block is
  -- lost, and a valid block leads that is no lower than the one before.
  pub handle-IsGrowth :
      (root_fuel : ℕ) (now : Timestamp) (h : HubState S) (m : Message S) (r : Handled S)
      → HubInv h
      → IsWellFormed h m
      → handle net root_fuel now h m ≡ done r
      → IsGrowth (ledger h) (ledger r.state)
  handle-IsGrowth root_fuel now h m r i w e =
      let kept = handle-Extends net root_fuel now h m r i w e in
      let inv = subst IsSafe e (handle-IsSafe net root_fuel now h m i w) in
      record {
        kept = kept.keeps_valid;
        old_leader = i.0.leader;
        new_leader = inv.0.leader;
        led = i.0.leader_at;
        leads = inv.0.leader_at;
        not_lower =
            inv.0.leader_max h.leading_block i.0.leader
              (kept.keeps_valid h.leading_block i.0.leader i.0.leader_at);
      }

  -- Along every history of well-formed messages from a node in its invariant, a valid block stays
  -- valid, and the leading block, which is valid, never gets lower.
  pub Reaches-IsGrowth :
      (h k : HubState S) → Reaches net h k → HubInv h → IsGrowth (ledger h) (ledger k)
  Reaches-IsGrowth _ _ (Reaches.here h) i = record {
    kept = λ id block e. e;
    old_leader = i.0.leader;
    new_leader = i.0.leader;
    led = i.0.leader_at;
    leads = i.0.leader_at;
    not_lower = omega arith;
  }
  Reaches-IsGrowth _ _ (Reaches.next root_fuel now m h k r w e rest) i =
      IsGrowth-trans (ledger h) (ledger r.state) (ledger k)
        (handle-IsGrowth root_fuel now h m r i w e)
        (Reaches-IsGrowth (r.state) k rest
          (subst IsSafe e (handle-IsSafe net root_fuel now h m i w)))
