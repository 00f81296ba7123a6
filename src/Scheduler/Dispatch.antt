-- ===== src/Scheduler/Dispatch.antt =====
-- internal/scheduler/dispatch.go: leasing tasks to workers, and their results.
use distsched.Base.{
  ℕ, zero, suc, ◌+◌, ℤ, pos, negsuc, ◌+ℤ◌, Bool, true, false, not, List, [], ◌∷◌, ◌++◌, Option,
  none, some, String, ltb, leb, if◌then◌else◌, lookup, insert, erase, cat, length,
}
use distsched.Api.{Job, JobState, TaskResult, TaskAssignment, Time, as_time}
use distsched.Store.{found}
use distsched.Queue
use distsched.Retry.{max_attempts, backoff}
use distsched.Scheduler.State.{
  Backend, Server, Lease, Reply, ok, err, invalid_argument, failed_precondition, internal,
  require_leader,
}
use distsched.Scheduler.Replication.{S, put_job}
use distsched.Scheduler.Deps.{
  is_queued, is_running, arm_enqueue, remove_from_index, promote_dependents, cancel_cascade,
  upstream, maybe_reschedule_cron,
}

abbrev pub max_batch : ℕ
max_batch = 64

-- The number of tasks that one poll may lease.
unfoldable pub batch_size : ℤ → ℕ
batch_size (pos zero) = 1
batch_size (pos (suc n)) = if ltb max_batch (suc n) then max_batch else suc n
batch_size (negsuc n) = 1

-- `workerKnown`
unfoldable pub worker_known : {Db : Type 0} → String → Server Db → Bool
worker_known id s = elim (lookup id s.workers) [ none ↦ false | some _ ↦ true ]

-- `addLease`, `getLease` and `removeLease`
unfoldable pub add_lease : {Db : Type 0} → Lease → Server Db → Server Db
add_lease l s = record s { leases = insert l.task_id l s.leases }

unfoldable pub get_lease : {Db : Type 0} → String → Server Db → Option Lease
get_lease id s = lookup id s.leases

unfoldable pub remove_lease : {Db : Type 0} → String → Server Db → Server Db
remove_lease id s = record s { leases = erase id s.leases }

-- What one round of the loop of `PollTask` comes to.
pub data Round (A : Type 0) : Type 0 where
  stopped : A → Round A
  skipped : A → Round A
  leased : A → TaskAssignment → Round A

module _ (b : Backend) where
  -- A job that was popped and is to be dispatched.
  unfoldable pub dispatch : String → String → Job → Time → S b → Round (S b)
  dispatch worker_id id j now s =
      let attempt = j.attempt + 1 in
      let task_id = cat "task-" (b.uuid s.minted) in
      let deadline = now +ℤ s.cfg.lease_ttl in
      let j' = record j {
        state = JobState.running;
        attempt = attempt;
        assigned_worker_id = worker_id;
        scheduled_at = none;
        started_at = some now;
        updated_at = some now;
      } in
      let (s1, done) = put_job b j' (record s { minted = s.minted + 1 }) in
      if not done
      then stopped
          (record s1 { queue = (Queue.push id j.priority (as_time j.created_at) s1.queue).0 })
      else (let l : Lease = record {
        task_id = task_id;
        job_id = id;
        worker_id = worker_id;
        attempt = attempt;
        deadline = deadline;
      } in
          let s2 = add_lease l s1 in
          let m = s2.metrics in
          leased (record s2 { metrics = record m { tasks_dispatched = m.tasks_dispatched + 1 } })
            (record {
              task_id = task_id;
              job_id = id;
              attempt = attempt;
              spec = j.spec;
              lease_deadline = deadline;
            }))

  unfoldable pub poll_round : String → Time → S b → Round (S b)
  poll_round worker_id now s =
      let (q, popped) = Queue.pop s.queue in
      let s1 = record s { queue = q } in
      elim popped [
        | none ↦ stopped s1
        | some id ↦ (elim (b.storage.get_job s.store id) [
          | found j ↦ if is_queued j.state then dispatch worker_id id j now s1 else skipped s1
          | _ ↦ skipped s1
        ])
      ]

  -- Each round pops the queue and pushes to it only where the loop stops, so it ends within as many
  -- rounds as the queue has entries, and one.
  unfoldable pub poll_loop :
      ℕ → ℕ → String → Time → List TaskAssignment → S b → S b × List TaskAssignment
  poll_loop zero n worker_id now out s = (s, out)
  poll_loop (suc fuel) n worker_id now out s = elim (leb n (length out)) [
    | true ↦ (s, out)
    | false ↦ elim (poll_round worker_id now s) [
      | stopped s1 ↦ (s1, out)
      | skipped s1 ↦ poll_loop fuel n worker_id now out s1
      | leased s1 task ↦ poll_loop fuel n worker_id now (out ++ task ∷ []) s1
    ]
  ]

  unfoldable pub poll_task : String → ℤ → Time → S b → S b × Reply (List TaskAssignment)
  poll_task worker_id max_tasks now s = require_leader s (
      if not (worker_known worker_id s)
      then (s, err failed_precondition)
      else (let (s1, out) =
            poll_loop (Queue.size s.queue + 1) (batch_size max_tasks) worker_id now [] s in
          (s1, ok out)))

  -- The branch of `handleFailure` that dead-letters; `false` for an error of the store.
  unfoldable pub dead_letter : Job → Time → S b → S b × Bool
  dead_letter j now s =
      let j' = record j { state = JobState.failed; finished_at = some now } in
      let (db, filed) = b.storage.put_dead_letter j' s.store in
      let s1 = record s { store = db } in
      if not filed
      then (s1, false)
      else (let (s2, done) = put_job b j' s1 in
          if not done
          then (s2, false)
          else (let m = s2.metrics in
              let s3 = record s2 {
                metrics = record m { jobs_dead_lettered = m.jobs_dead_lettered + 1 };
              } in
              (
                cancel_cascade b j.id (upstream j.id " did not succeed") now
                    (remove_from_index j.id s3),
                true,
              )))

  -- The branch of `handleFailure` that retries.
  unfoldable pub retry_job : Job → Time → S b → S b × Bool
  retry_job j now s =
      let delay = backoff b.floats j.retry_policy j.attempt (b.rand s.drawn) in
      let j' = record j { state = JobState.queued; scheduled_at = some (now +ℤ delay) } in
      let (s1, done) = put_job b j' (record s { drawn = s.drawn + 1 }) in
      if not done
      then (s1, false)
      else (let s2 = arm_enqueue b j.id delay s1 in
          let m = s2.metrics in
          (record s2 { metrics = record m { tasks_retried = m.tasks_retried + 1 } }, true))

  unfoldable pub handle_failure : Job → String → Time → S b → S b × Bool
  handle_failure j msg now s =
      let j1 = record j { last_error = msg; assigned_worker_id = ""; updated_at = some now } in
      if ltb j1.attempt (max_attempts j1.retry_policy)
      then retry_job j1 now s
      else (let (s1, j2, rearmed) = maybe_reschedule_cron b j1 now s in
          if rearmed then (s1, true) else dead_letter j2 now s1)

  -- The branch of `ReportTask` for a success; the lease is already gone.
  unfoldable pub succeed : Job → Time → S b → S b × Reply Bool
  succeed j now s =
      let (s1, j1, rearmed) = maybe_reschedule_cron b j now s in
      if rearmed
      then (s1, ok true)
      else (let j2 = record j1 {
        state = JobState.succeeded;
        assigned_worker_id = "";
        last_error = "";
        finished_at = some now;
        updated_at = some now;
      } in
          let (s2, done) = put_job b j2 s1 in
          if not done
          then (s2, err internal)
          else (let m = s2.metrics in
              let s3 = record s2 { metrics = record m { jobs_succeeded = m.jobs_succeeded + 1 } } in
              (promote_dependents b j.id now (remove_from_index j.id s3), ok true)))

  -- A report for a lease whose job is running.
  unfoldable pub report_running : String → TaskResult → String → Job → Time → S b → S b × Reply Bool
  report_running task_id TaskResult.succeeded msg j now s = succeed j now (remove_lease task_id s)
  report_running task_id TaskResult.failed msg j now s =
      let (s1, done) = handle_failure j msg now s in
      if done then (remove_lease task_id s1, ok true) else (s1, err internal)
  report_running task_id TaskResult.unspecified msg j now s = (s, err invalid_argument)

  unfoldable pub report_task : String → TaskResult → String → Time → S b → S b × Reply Bool
  report_task task_id result msg now s = require_leader s (elim (get_lease task_id s) [
    | none ↦ (s, ok true)
    | some l ↦ (elim (b.storage.get_job s.store l.job_id) [
      | found j ↦
          if is_running j.state
          then report_running task_id result msg j now s
          else (remove_lease task_id s, ok true)
      | _ ↦ (remove_lease task_id s, ok true)
    ])
  ])
