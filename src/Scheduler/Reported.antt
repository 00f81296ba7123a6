-- ===== src/Scheduler/Reported.antt =====
-- internal/scheduler/dispatch.go: that the jobs stay due while results come in and tasks are leased.
use distsched.Base.{
  ◌+◌, inl, inr, sym, refl, not, some, String, Bool-cases, Option-cases, ltb, ◌+ℤ◌, ◌∙◌,
}
use distsched.Api.{Job, JobState, TaskResult, Time}
use distsched.Retry.{max_attempts, backoff}
use distsched.Scheduler.State.{Backend}
use distsched.Scheduler.Replication.{S, put_job}
use distsched.Scheduler.Deps.{is_running, remove_from_index, maybe_reschedule_cron}
use distsched.Scheduler.Dispatch.{
  report_running, report_task, remove_lease, get_lease, handle_failure, retry_job, dead_letter,
  succeed,
}
use distsched.Scheduler.Keeps.{Found-cases}
use distsched.Scheduler.Due.{Watch, Tends, put_job-Tends, put_job_failed-Tends}
use distsched.Scheduler.Armed.{led-Tends, IsReadable, put_armed-Tends}
use distsched.Scheduler.Promised.{
  Cancels, cancel_cascade-Tends, promote_dependents-Tends, reschedule-Tends,
}

module _ (b : Backend) (readable : IsReadable b) (cancels : Cancels b) (k : Watch) where
  retry_job-Tends :
      (j : Job) (now : Time) (s : S b) → Tends b k s → Tends b k (retry_job b j now s).0
  unfolding retry_job
  retry_job-Tends j now s h =
      let delay = backoff b.floats j.retry_policy j.attempt (b.rand s.drawn) in
      let j' = record j { state = JobState.queued; scheduled_at = some (now +ℤ delay) } in
      let s0 = record s { drawn = s.drawn + 1 } in
      elim (Bool-cases (put_job b j' s0).1) [
        | inl p ↦ rw (p, retry_job) (put_armed-Tends b readable k j' delay s0 h)
        | inr p ↦ rw (p, retry_job) (put_job_failed-Tends b k j' s0 p h)
      ]

  filed-Tends :
      (j : Job) (s : S b)
      → Tends b k s
      → Tends b k (record s { store = (b.storage.put_dead_letter j s.store).0 })
  filed-Tends j s h = record {
    steady = record {
      leading = h.steady.leading;
      running = h.steady.running;
      queue = h.steady.queue;
      keyed =
          λ i j' e. h.steady.keyed i j' (sym (b.storage.get_job-put_dead_letter s.store j i) ∙ e);
    };
    due = λ o j' e w. h.due o j' (sym (b.storage.get_job-put_dead_letter s.store j k.id) ∙ e) w;
  }

  dead_letter-Tends :
      (j : Job) (now : Time) (s : S b) → Tends b k s → Tends b k (dead_letter b j now s).0
  unfolding dead_letter remove_from_index
  dead_letter-Tends j now s h =
      let j' = record j { state = JobState.failed; finished_at = some now } in
      let s1 = record s { store = (b.storage.put_dead_letter j' s.store).0 } in
      let filed = filed-Tends j' s h in
      elim (Bool-cases (not (b.storage.put_dead_letter j' s.store).1)) [
        | inl p ↦ rw (p, dead_letter) filed
        | inr p ↦
            let put = put_job-Tends b k j' s1 (λ x. refl) filed in
            elim (Bool-cases (not (put_job b j' s1).1)) [
              | inl q ↦ rw (p, dead_letter) (rw (q, dead_letter) put)
              | inr q ↦
                  rw (p, dead_letter)
                    (rw (q, dead_letter)
                      (cancel_cascade-Tends b readable cancels k j.id _ now _ put))
            ]
      ]

  pub handle_failure-Tends :
      (j : Job) (msg : String) (now : Time) (s : S b)
      → Tends b k s
      → Tends b k (handle_failure b j msg now s).0
  unfolding handle_failure
  handle_failure-Tends j msg now s h =
      let j1 = record j { last_error = msg; assigned_worker_id = ""; updated_at = some now } in
      elim (Bool-cases (ltb j1.attempt (max_attempts j1.retry_policy))) [
        | inl e ↦ rw (e, handle_failure) (retry_job-Tends j1 now s h)
        | inr e ↦
            let r = maybe_reschedule_cron b j1 now s in
            let again = reschedule-Tends b readable cancels k j1 now s h in
            elim (Bool-cases (maybe_reschedule_cron b j1 now s).2) [
              | inl p ↦ rw (e, handle_failure) (rw (p, handle_failure) again)
              | inr p ↦
                  rw (e, handle_failure)
                    (rw (p, handle_failure) (dead_letter-Tends r.1 now r.0 again))
            ]
      ]

  succeed-Tends : (j : Job) (now : Time) (s : S b) → Tends b k s → Tends b k (succeed b j now s).0
  unfolding succeed remove_from_index
  succeed-Tends j now s h =
      let r = maybe_reschedule_cron b j now s in
      let again = reschedule-Tends b readable cancels k j now s h in
      elim (Bool-cases (maybe_reschedule_cron b j now s).2) [
        | inl p ↦ rw (p, succeed) again
        | inr p ↦
            let j2 = record r.1 {
              state = JobState.succeeded;
              assigned_worker_id = "";
              last_error = "";
              finished_at = some now;
              updated_at = some now;
            } in
            let put = put_job-Tends b k j2 r.0 (λ x. refl) again in
            elim (Bool-cases (not (put_job b j2 r.0).1)) [
              | inl q ↦ rw (p, succeed) (rw (q, succeed) put)
              | inr q ↦
                  rw (p, succeed)
                    (rw (q, succeed) (promote_dependents-Tends b readable cancels k j.id now _ put))
            ]
      ]

  report_running-Tends :
      (task_id : String) (r : TaskResult) (msg : String) (j : Job) (now : Time) (s : S b)
      → Tends b k s
      → Tends b k (report_running b task_id r msg j now s).0
  unfolding report_running remove_lease
  report_running-Tends task_id TaskResult.succeeded msg j now s h =
      succeed-Tends j now (remove_lease task_id s) h
  report_running-Tends task_id TaskResult.failed msg j now s h =
      elim (Bool-cases (handle_failure b j msg now s).1) [
        | inl e ↦ rw (e, report_running) (handle_failure-Tends j msg now s h)
        | inr e ↦ rw (e, report_running) (handle_failure-Tends j msg now s h)
      ]
  report_running-Tends task_id TaskResult.unspecified msg j now s h = h

  pub report_task-Tends :
      (task_id : String) (r : TaskResult) (msg : String) (now : Time) (s : S b)
      → Tends b k s
      → Tends b k (report_task b task_id r msg now s).0
  unfolding report_task remove_lease
  report_task-Tends task_id r msg now s h =
      led-Tends b k s _ h (elim (Option-cases (get_lease task_id s)) [
        | inl e ↦ rw e h
        | inr (l, e) ↦ elim (Found-cases b (b.storage.get_job s.store l.job_id)) [
          | inl (j, g) ↦ elim (Bool-cases (is_running j.state)) [
            | inl t ↦ rw e (rw g (rw t (report_running-Tends task_id r msg j now s h)))
            | inr t ↦ rw e (rw g (rw t h))
          ]
          | inr (inl g) ↦ rw e (rw g h)
          | inr (inr g) ↦ rw e (rw g h)
        ]
      ])
