-- ===== src/Scheduler/Broadcast.antt =====
-- internal/scheduler/cluster.go: the leader's heartbeat, which carries the entries of its log.
use distsched.Base.{ℕ, List, [], ◌∷◌, Option, none, some, String, Dict, if◌then◌else◌, same}
use distsched.Api.{ReplicationEntry}
use distsched.Cluster.Node.{Env}
use distsched.Scheduler.State.{Backend, leads}
use distsched.Scheduler.Replication.{S, entries_for_peer}
use distsched.Scheduler.Workers.{Replicated, on_replicated}

-- `sendReplicate` to a peer; `none` where there is no answer. The peers and the network between are
-- the state `W`.
abbrev pub Send : Type 0 → Type 0
Send W = String → ℕ → String → List ReplicationEntry → W → W × Option Replicated

module _ (b : Backend) {W : Type 0} (send : Send W) where
  -- The loop of `broadcastReplicate` over the members.
  unfoldable pub broadcast_loop : Env → ℕ → Dict String → S b → W → S b × W
  broadcast_loop e term [] s w = (s, w)
  broadcast_loop e term ((id, addr) ∷ ms) s w =
      let (w1, r) = send id term s.cfg.node_id (entries_for_peer id s) w in
      if same id s.cfg.node_id then broadcast_loop e term ms s w else elim r [
        | none ↦ broadcast_loop e term ms s w1
        | some answer ↦ broadcast_loop e term ms (on_replicated b e id answer s) w1
      ]

  unfoldable pub broadcast_replicate : Env → S b → W → S b × W
  broadcast_replicate e s w = broadcast_loop e s.node.current_term s.members s w

  -- One tick of `replicationLoop`.
  unfoldable pub replication_tick : Env → S b → W → S b × W
  replication_tick e s w = if leads s then broadcast_replicate e s w else (s, w)
