-- ===== src/Scheduler/Leases.antt =====
-- internal/scheduler/dispatch.go: what a lease says of its job, and what becomes of a report whose
-- result cannot be stored.
use distsched.Base.{
  ◌+◌, ◌≡◌, refl, ◌∙◌, subst, inl, inr, true, false, not, none, some, String, ◌+ℤ◌, arith,
  Bool-cases, Option-cases, lookup-insert, lookup-erase, same,
}
use distsched.Api.{Job, JobState, TaskResult, TaskAssignment, Time, get_cron_expr}
use distsched.Queue
use distsched.Store.{found}
use distsched.Scheduler.State.{Backend, Lease, Reply, ok, err, internal, leads, require_leader}
use distsched.Scheduler.Replication.{S, append_repl, put_job}
use distsched.Scheduler.Deps.{is_running, is_queued, maybe_reschedule_cron}
use distsched.Scheduler.Dispatch.{
  Round, leased, add_lease, get_lease, remove_lease, dispatch, poll_round, succeed, report_running,
  report_task,
}
use distsched.Scheduler.Safe.{Inv}
use distsched.Scheduler.Keeps.{Found-cases}

module _ (b : Backend) where
  put_job-refused :
      (j : Job) (s : S b)
      → (b.storage.put_job j s.store).1 ≡ false
      → put_job b j s ≡ (record s { store = (b.storage.put_job j s.store).0 }, false)
  unfolding put_job
  put_job-refused j s h = rw (h, put_job) refl

  abbrev done_job : Job → Time → Job
  done_job j now = record j {
    state = JobState.succeeded;
    assigned_worker_id = "";
    last_error = "";
    finished_at = some now;
    updated_at = some now;
  }

  succeed-refused :
      (j : Job) (now : Time) (s : S b)
      → same (get_cron_expr j.schedule) "" ≡ true
      → (b.storage.put_job (done_job j now) s.store).1 ≡ false
      → succeed b j now s
        ≡ (record s { store = (b.storage.put_job (done_job j now) s.store).0 }, err internal)
  unfolding succeed maybe_reschedule_cron put_job
  succeed-refused j now s c h = rw (c, maybe_reschedule_cron, succeed) (rw (h, put_job) refl)

  -- What the report of a success leaves behind where the store refuses the job's new state.
  abbrev after_loss : String → Job → Time → S b → S b
  after_loss task_id j now s = record (remove_lease task_id s) {
    store = (b.storage.put_job (done_job j now) s.store).0;
  }

  led : {A : Type 0} (s : S b) (k : S b × Reply A) → leads s ≡ true → require_leader s k ≡ k
  led s k h = rw (h, require_leader) refl

  lost_write-get_job :
      (j : Job) (s : S b) (k : String)
      → (b.storage.put_job j s.store).1 ≡ false
      → b.storage.get_job (b.storage.put_job j s.store).0 k ≡ b.storage.get_job s.store k
  lost_write-get_job j s k h = ground (arith, b.storage.get_job-put_job s.store j k)

  report_lost :
      (task_id msg : String) (now : Time) (l : Lease) (j : Job) (s : S b)
      → leads s ≡ true
      → get_lease task_id s ≡ some l
      → b.storage.get_job s.store l.job_id ≡ found j
      → is_running j.state ≡ true
      → same (get_cron_expr j.schedule) "" ≡ true
      → (b.storage.put_job (done_job j now) s.store).1 ≡ false
      → report_task b task_id TaskResult.succeeded msg now s
        ≡ (after_loss task_id j now s, err internal)
  unfolding report_task report_running remove_lease
  report_lost task_id msg now l j s lead has g r c h =
      led s _ lead ∙ rw has (rw g (rw r (succeed-refused j now (remove_lease task_id s) c h)))

  after_loss-get_lease :
      (task_id : String) (j : Job) (now : Time) (s : S b)
      → get_lease task_id (after_loss task_id j now s) ≡ none
  unfolding get_lease remove_lease
  after_loss-get_lease task_id j now s = ground (arith, lookup-erase task_id task_id s.leases)

  report_again :
      (task_id msg : String) (r : TaskResult) (now : Time) (s : S b)
      → leads s ≡ true
      → get_lease task_id s ≡ none
      → report_task b task_id r msg now s ≡ (s, ok true)
  unfolding report_task
  report_again task_id msg r now s lead h = led s _ lead ∙ rw h refl

  -- On the leader, for a running job that is not a cron job, where the store takes no write of a job: the
  -- report of its success is answered with an error, yet the lease is gone, the job stays stored as it
  -- was, and any later report for the task is acknowledged without an effect.
  pub success_lost :
      (task_id msg msg2 : String) (r2 : TaskResult) (now later : Time) (l : Lease) (j : Job)
      (s : S b)
      → leads s ≡ true
      → get_lease task_id s ≡ some l
      → b.storage.get_job s.store l.job_id ≡ found j
      → is_running j.state ≡ true
      → same (get_cron_expr j.schedule) "" ≡ true
      → ((j' : Job) → (b.storage.put_job j' s.store).1 ≡ false)
      → ((report_task b task_id TaskResult.succeeded msg now s).1 ≡ err internal)
        × (b.storage.get_job (report_task b task_id TaskResult.succeeded msg now s).0.store l.job_id
            ≡ found j)
        × (report_task b task_id r2 msg2 later
              (report_task b task_id TaskResult.succeeded msg now s).0
            ≡ ((report_task b task_id TaskResult.succeeded msg now s).0, ok true))
  unfolding remove_lease
  success_lost task_id msg msg2 r2 now later l j s lead has g r c h =
      let e = report_lost task_id msg now l j s lead has g r c (h (done_job j now)) in
      let s1 = after_loss task_id j now s in
      rw e (
        refl,
        lost_write-get_job (done_job j now) s l.job_id (h (done_job j now)) ∙ g,
        report_again task_id msg2 r2 later s1 lead (after_loss-get_lease task_id j now s),
      )

  put_job-found :
      (j : Job) (s : S b)
      → not (put_job b j s).1 ≡ false
      → b.storage.get_job (put_job b j s).0.store j.id ≡ found j
  unfolding put_job append_repl
  put_job-found j s h = ground (arith, b.storage.get_job-put_job s.store j j.id)

  -- What a round that leases a task promises of it.
  abbrev Leased : String → Time → Round (S b) → Type 0
  Leased worker_id deadline (leased s t) =
      (get_lease t.task_id s
        ≡ some (record {
          task_id = t.task_id;
          job_id = t.job_id;
          worker_id = worker_id;
          attempt = t.attempt;
          deadline = deadline;
        }))
      × (t.lease_deadline ≡ deadline)
      × (j : Job) × (b.storage.get_job s.store t.job_id ≡ found j)
      × (j.state ≡ JobState.running)
      × (j.attempt ≡ t.attempt)
      × (j.assigned_worker_id ≡ worker_id)
  Leased worker_id deadline _ = Unit {0}

  get_lease-add_lease : (l : Lease) (s : S b) → get_lease l.task_id (add_lease l s) ≡ some l
  unfolding get_lease add_lease
  get_lease-add_lease l s = ground (arith, lookup-insert l.task_id l.task_id l s.leases)

  dispatch-Leased :
      (worker_id id : String) (j : Job) (now : Time) (s : S b)
      → j.id ≡ id
      → Leased worker_id (now +ℤ s.cfg.lease_ttl) (dispatch b worker_id id j now s)
  unfolding dispatch get_lease add_lease
  dispatch-Leased worker_id id j now s k =
      let j' = record j {
        state = JobState.running;
        attempt = j.attempt + 1;
        assigned_worker_id = worker_id;
        scheduled_at = none;
        started_at = some now;
        updated_at = some now;
      } in
      let s0 = record s { minted = s.minted + 1 } in
      elim (Bool-cases (not (put_job b j' s0).1)) [
        | inl p ↦ rw (p, dispatch) tt
        | inr p ↦
            rw (p, dispatch)
              (
                get_lease-add_lease _ (put_job b j' s0).0,
                refl,
                j',
                subst (λ x. b.storage.get_job (put_job b j' s0).0.store x ≡ found j') k
                    (put_job-found j' s0 p),
                refl,
                refl,
                refl,
              )
      ]

  poll_round-Leased :
      (worker_id : String) (now : Time) (s : S b)
      → Inv b.storage s.store
      → Leased worker_id (now +ℤ s.cfg.lease_ttl) (poll_round b worker_id now s)
  unfolding poll_round
  poll_round-Leased worker_id now s i =
      let s1 = record s { queue = (Queue.pop s.queue).0 } in
      elim (Option-cases (Queue.pop s.queue).1) [
        | inl e ↦ rw (e, poll_round) tt
        | inr (id, e) ↦ elim (Found-cases b (b.storage.get_job s.store id)) [
          | inl (j, g) ↦ elim (Bool-cases (is_queued j.state)) [
            | inl t ↦
                rw (e, poll_round)
                  (rw (g, poll_round)
                    (rw (t, poll_round) (dispatch-Leased worker_id id j now s1 (i.keyed id j g))))
            | inr t ↦ rw (e, poll_round) (rw (g, poll_round) (rw (t, poll_round) tt))
          ]
          | inr (inl g) ↦ rw (e, poll_round) (rw (g, poll_round) tt)
          | inr (inr g) ↦ rw (e, poll_round) (rw (g, poll_round) tt)
        ]
      ]

  -- From a store that satisfies `Inv`, a round of a poll that leases a task records a lease that names
  -- the job, the worker and the attempt and ends a lease's time from now, and stores the job as running
  -- that attempt on that worker.
  pub leased_task :
      (worker_id : String) (now : Time) (s s1 : S b) (t : TaskAssignment)
      → Inv b.storage s.store
      → poll_round b worker_id now s ≡ leased s1 t
      → (get_lease t.task_id s1
          ≡ some (record {
            task_id = t.task_id;
            job_id = t.job_id;
            worker_id = worker_id;
            attempt = t.attempt;
            deadline = now +ℤ s.cfg.lease_ttl;
          }))
        × (t.lease_deadline ≡ now +ℤ s.cfg.lease_ttl)
        × (j : Job) × (b.storage.get_job s1.store t.job_id ≡ found j)
        × (j.state ≡ JobState.running)
        × (j.attempt ≡ t.attempt)
        × (j.assigned_worker_id ≡ worker_id)
  leased_task worker_id now s s1 t i e =
      subst (Leased worker_id (now +ℤ s.cfg.lease_ttl)) e (poll_round-Leased worker_id now s i)
