-- ===== src/Scheduler/Recovery.antt =====
-- internal/scheduler/recovery.go, and the change of leadership of internal/scheduler/server.go.
use distsched.Base.{
  ◌+◌, ◌-ℤ◌, half, Bool, true, false, not, ◌&&◌, List, [], ◌∷◌, none, some, String, ltb_ℤ,
  if◌then◌else◌, Dict, same,
}
use distsched.Api.{Job, JobState, WorkerState, WorkerInfo, Time, Duration, as_time}
use distsched.Store.{found}
use distsched.Queue
use distsched.Scheduler.State.{Backend, Lease, leads}
use distsched.Scheduler.Replication.{S, put_worker, seed_replication}
use distsched.Scheduler.Deps.{terminal, is_pending, is_running, arm_enqueue, add_deps, try_promote}
use distsched.Scheduler.Dispatch.{get_lease, remove_lease, handle_failure}

abbrev pub same_worker_state : WorkerState → WorkerState → Bool
same_worker_state WorkerState.unspecified WorkerState.unspecified = true
same_worker_state WorkerState.alive WorkerState.alive = true
same_worker_state WorkerState.suspect WorkerState.suspect = true
same_worker_state WorkerState.dead WorkerState.dead = true
same_worker_state _ _ = false

-- The liveness that a worker's last heartbeat gives it.
unfoldable pub liveness : Duration → Time → WorkerInfo → WorkerState
liveness timeout now w =
    let age = now -ℤ as_time w.last_heartbeat in
    if ltb_ℤ timeout age
    then WorkerState.dead
    else if ltb_ℤ (half timeout) age
    then WorkerState.suspect
    else WorkerState.alive

-- The workers whose record is to be rewritten, in their new state; phase 1 of `reapOnce`.
unfoldable pub to_persist : Duration → Time → Dict WorkerInfo → List WorkerInfo
to_persist timeout now [] = []
to_persist timeout now ((id, w) ∷ ws) =
    let rest = to_persist timeout now ws in
    let target = liveness timeout now w in
    if not (same_worker_state target WorkerState.alive) && not (same_worker_state w.state target)
    then record w { state = target } ∷ rest
    else rest

unfoldable pub dead_ids : Duration → Time → Dict WorkerInfo → List String
dead_ids timeout now [] = []
dead_ids timeout now ((id, w) ∷ ws) =
    let rest = dead_ids timeout now ws in
    let target = liveness timeout now w in
    if same_worker_state target WorkerState.dead && not (same_worker_state w.state target)
    then id ∷ rest
    else rest

unfoldable pub expired : Time → Dict Lease → List String
expired now [] = []
expired now ((id, l) ∷ ls) =
    let rest = expired now ls in if ltb_ℤ l.deadline now then id ∷ rest else rest

unfoldable pub leases_of : String → Dict Lease → List String
leases_of worker_id [] = []
leases_of worker_id ((id, l) ∷ ls) =
    let rest = leases_of worker_id ls in if same l.worker_id worker_id then id ∷ rest else rest

module _ (b : Backend) where
  unfoldable pub requeue_lease : String → String → Time → S b → S b
  requeue_lease task_id reason now s = elim (get_lease task_id s) [
    | none ↦ s
    | some l ↦
        (let s1 = remove_lease task_id s in
          elim (b.storage.get_job s.store l.job_id) [
            | found j ↦
                if not (is_running j.state)
                then s1
                else (let m = s1.metrics in
                    (handle_failure b j reason now (record s1 {
                      metrics = record m { tasks_requeued = m.tasks_requeued + 1 };
                    })).0)
            | _ ↦ s1
          ])
  ]

  unfoldable pub requeue_all : List String → String → Time → S b → S b
  requeue_all [] reason now s = s
  requeue_all (id ∷ ids) reason now s = requeue_all ids reason now (requeue_lease id reason now s)

  unfoldable pub requeue_leases_for_worker : String → String → Time → S b → S b
  requeue_leases_for_worker worker_id reason now s =
      requeue_all (leases_of worker_id s.leases) reason now s

  unfoldable pub requeue_dead : List String → Time → S b → S b
  requeue_dead [] now s = s
  requeue_dead (id ∷ ids) now s =
      requeue_dead ids now (requeue_leases_for_worker id "worker missed heartbeats" now s)

  unfoldable pub persist_workers : List WorkerInfo → S b → S b
  persist_workers [] s = s
  persist_workers (w ∷ ws) s = persist_workers ws (put_worker b w s).0

  unfoldable pub reap_once : Time → S b → S b
  reap_once now s =
      let timeout = s.cfg.heartbeat_timeout in
      let s1 = persist_workers (to_persist timeout now s.workers) s in
      let s2 = requeue_dead (dead_ids timeout now s.workers) now s1 in
      requeue_all (expired now s2.leases) "lease deadline exceeded" now s2

  -- A tick of `reaperLoop`.
  unfoldable pub reaper_tick : Time → S b → S b
  reaper_tick now s = if leads s then reap_once now s else s

  unfoldable pub clear_scheduling_state : S b → S b
  clear_scheduling_state s = record s {
    queue = Queue.clear s.queue;
    retry_timers = [];
    leases = [];
    rev_index = [];
  }

  -- One job of the first loop of `rebuildSchedulingState`.
  unfoldable pub rebuild_job : Job → Time → S b → S b
  rebuild_job j now s =
      let s1 = if terminal j.state then s else add_deps j s in
      elim j.state [
        | JobState.queued ↦ (elim j.scheduled_at [
          | none ↦ record s1 {
            queue = (Queue.push j.id j.priority (as_time j.created_at) s1.queue).0;
          }
          | some at ↦ if ltb_ℤ now at then arm_enqueue b j.id (at -ℤ now) s1 else record s1 {
            queue = (Queue.push j.id j.priority (as_time j.created_at) s1.queue).0;
          }
        ])
        | JobState.running ↦
            (handle_failure b j "reclaimed orphaned task after leadership change" now s1).0
        | _ ↦ s1
      ]

  unfoldable pub rebuild_jobs : List Job → Time → S b → S b
  rebuild_jobs [] now s = s
  rebuild_jobs (j ∷ js) now s = rebuild_jobs js now (rebuild_job j now s)

  -- The second loop, over the same listing.
  unfoldable pub promote_pending : List Job → Time → S b → S b
  promote_pending [] now s = s
  promote_pending (j ∷ js) now s =
      promote_pending js now (if is_pending j.state then try_promote b j.id now s else s)

  unfoldable pub rebuild_scheduling_state : Time → S b → S b
  rebuild_scheduling_state now s =
      let s1 = clear_scheduling_state s in
      elim (b.storage.list_jobs s1.store) [
        | none ↦ s1
        | some js ↦ promote_pending js now (rebuild_jobs js now s1)
      ]

  unfoldable pub on_become_leader : Time → S b → S b
  on_become_leader now s = seed_replication b (rebuild_scheduling_state now s)

  unfoldable pub on_step_down : S b → S b
  on_step_down s = clear_scheduling_state s
