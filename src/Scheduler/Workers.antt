-- ===== src/Scheduler/Workers.antt =====
-- internal/scheduler/worker.go: the registration and the heartbeats of workers; and the handlers of
-- internal/scheduler/cluster.go.
use distsched.Base.{
  ℕ, ◌+◌, pos, Bool, true, false, List, Option, none, some, String, leb_ℤ, if◌then◌else◌, lookup,
  same, cat, length, not,
}
use distsched.Api.{WorkerState, WorkerInfo, ReplicationEntry, Time}
use distsched.Cluster.Node
use distsched.Scheduler.State.{Backend, Reply, err, invalid_argument, internal, require_leader}
use distsched.Scheduler.Replication.{S, put_worker, apply_entries, ack_peer}

-- `RegisterWorkerResponse`
pub record Registered : Type 0 where
  pub worker_id : String
  pub leader_address : String

-- `HeartbeatResponse`
pub record HeartbeatResponse : Type 0 where
  pub ok : Bool
  pub leader_address : String

-- `ReplicateResponse`
pub record Replicated : Type 0 where
  pub ok : Bool
  pub current_term : ℕ
  pub applied_through : ℕ

module _ (b : Backend) where
  abbrev pub mint_worker : WorkerInfo → S b → S b × WorkerInfo
  mint_worker w s =
      if same w.id ""
      then (record s { minted = s.minted + 1 }, record w { id = cat "worker-" (b.uuid s.minted) })
      else (s, w)

  unfoldable pub register_worker : Option WorkerInfo → Time → S b → S b × Reply Registered
  register_worker none now s = require_leader s (s, err invalid_argument)
  register_worker (some w) now s = require_leader s (
      let (s1, w1) = mint_worker w s in
      let w2 = record w1 {
        capacity = if leb_ℤ w1.capacity (pos 0) then pos 1 else w1.capacity;
        state = WorkerState.alive;
        last_heartbeat = some now;
        running_tasks = 0;
      } in
      let (s2, done) = put_worker b w2 s1 in
      if done
      then (s2, Reply.ok (record { worker_id = w2.id; leader_address = s2.self_addr }))
      else (s2, err internal))

  -- A worker that is not known is told so, with the leader's address.
  unfoldable pub heartbeat : String → List String → Time → S b → S b × Reply HeartbeatResponse
  heartbeat worker_id running_task_ids now s = require_leader s (elim (lookup worker_id s.workers) [
    | none ↦ (s, Reply.ok (record { ok = false; leader_address = s.self_addr }))
    | some cur ↦
        (let w = record cur {
          state = WorkerState.alive;
          last_heartbeat = some now;
          running_tasks = length running_task_ids;
        } in
          let (s1, done) = put_worker b w s in
          if done
          then (s1, Reply.ok (record { ok = true; leader_address = "" }))
          else (s1, err internal))
  ])

  unfoldable pub request_vote : Node.Env → ℕ → String → S b → S b × (Bool × ℕ)
  request_vote e term candidate_id s =
      let (n, answer) = Node.handle_vote e term candidate_id s.node in
      (record s { node = n }, answer)

  -- `Replicate`: the entries of a current leader are applied.
  unfoldable pub replicate : Node.Env → ℕ → String → List ReplicationEntry → S b → S b × Replicated
  replicate e term leader_id entries s =
      let (n, answer) = Node.observe_leader e term leader_id s.node in
      let (accepted, current_term) = answer in
      let s1 = record s { node = n } in
      if not accepted
      then (s1, record { ok = false; current_term = current_term; applied_through = 0 })
      else (let (s2, applied) = apply_entries b entries s1 in
          (s2, record { ok = true; current_term = current_term; applied_through = applied }))

  -- `broadcastReplicate` on the answer of one follower; no answer changes nothing.
  unfoldable pub on_replicated : Node.Env → String → Replicated → S b → S b
  on_replicated e peer r s =
      if not r.ok
      then record s { node = Node.maybe_step_down e r.current_term s.node }
      else ack_peer peer r.applied_through s
