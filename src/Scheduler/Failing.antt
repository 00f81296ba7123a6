-- ===== src/Scheduler/Failing.antt =====
-- internal/scheduler: which jobs a failed attempt can change.
use distsched.Base.{
  ◌+◌, ◌≡◌, inl, inr, refl, true, not, arith, List, [], ◌∷◌, none, some, String, same, elem,
  Bool-cases, Option-cases, ◌+ℤ◌, ◌-ℤ◌, ltb,
}
use distsched.Api.{Job, JobState, Time, get_cron_expr}
use distsched.Retry.{max_attempts, backoff}
use distsched.Scheduler.State.{Backend}
use distsched.Scheduler.Replication.{S, put_job}
use distsched.Scheduler.Deps.{remove_from_index, arm_enqueue, cancel_cascade, maybe_reschedule_cron}
use distsched.Scheduler.Dispatch.{retry_job, dead_letter, handle_failure}
use distsched.Scheduler.Local.{
  IsReady, Local, Local-trans, Local-refl, same-Local, dropped-Local, armed-Local, put_job-Local,
  cascade-Local,
}

only_one :
    (i k : String) (ids : List String)
    → elem i ids ≡ true
    → elem k (i ∷ []) ≡ true
    → elem k ids ≡ true
unfolding elem
only_one i k ids h e = ground arith

module _ (b : Backend) where
  cancel_cascade-Local :
      (ids : List String) (id reason : String) (now : Time) (s : S b)
      → elem id ids ≡ true
      → IsReady b ids s
      → Local b ids s (cancel_cascade b id reason now s)
  unfolding cancel_cascade
  cancel_cascade-Local ids id reason now s e h =
      cascade-Local b ids _ (id ∷ []) [] reason now s (λ k t. only_one id k ids e t) h

  retry_job-Local :
      (ids : List String) (j : Job) (now : Time) (s : S b)
      → elem j.id ids ≡ true
      → IsReady b ids s
      → Local b ids s (retry_job b j now s).0
  unfolding retry_job
  retry_job-Local ids j now s e h =
      let delay = backoff b.floats j.retry_policy j.attempt (b.rand s.drawn) in
      let j' = record j { state = JobState.queued; scheduled_at = some (now +ℤ delay) } in
      let s0 = record s { drawn = s.drawn + 1 } in
      let s1 = (put_job b j' s0).0 in
      let put =
        Local-trans b ids s s0 s1 (same-Local b ids s s0 (λ k. refl) refl h)
          (λ r. put_job-Local b ids j' s0 e r) in
      elim (Bool-cases (not (put_job b j' s0).1)) [
        | inl p ↦ rw (p, retry_job) put
        | inr p ↦
            let s2 = arm_enqueue b j.id delay s1 in
            rw (p, retry_job)
              (Local-trans b ids s s2 _
                (Local-trans b ids s s1 s2 put (λ r. armed-Local b ids j.id delay s1 r))
                (λ r. same-Local b ids s2 _ (λ k. refl) refl r))
      ]

  -- The job that the call leaves in memory has the same ID.
  reschedule-Local :
      (ids : List String) (j : Job) (now : Time) (s : S b)
      → elem j.id ids ≡ true
      → IsReady b ids s
      → Local b ids s (maybe_reschedule_cron b j now s).0
        × ((maybe_reschedule_cron b j now s).1.id ≡ j.id)
  unfolding maybe_reschedule_cron
  reschedule-Local ids j now s e h = elim (Bool-cases (same (get_cron_expr j.schedule) "")) [
    | inl x ↦ rw (x, maybe_reschedule_cron) (Local-refl b ids s h, refl)
    | inr x ↦ elim (Option-cases (b.next_cron (get_cron_expr j.schedule) now)) [
      | inl n ↦
          rw (x, maybe_reschedule_cron) (rw (n, maybe_reschedule_cron) (Local-refl b ids s h, refl))
      | inr (at, n) ↦
          let j' = record j {
            state = JobState.queued;
            attempt = 0;
            assigned_worker_id = "";
            last_error = "";
            finished_at = none;
            scheduled_at = some at;
            updated_at = some now;
          } in
          let s1 = (put_job b j' s).0 in
          let put = put_job-Local b ids j' s e h in
          elim (Bool-cases (put_job b j' s).1) [
            | inl p ↦
                rw (x, maybe_reschedule_cron)
                  (rw (n, maybe_reschedule_cron)
                    (rw (p, maybe_reschedule_cron)
                      (
                        Local-trans b ids s s1 _ put (λ r. armed-Local b ids j.id (at -ℤ now) s1 r),
                        refl,
                      )))
            | inr p ↦
                rw (x, maybe_reschedule_cron)
                  (rw (n, maybe_reschedule_cron) (rw (p, maybe_reschedule_cron) (put, refl)))
          ]
    ]
  ]

  dead_letter-Local :
      (ids : List String) (j : Job) (now : Time) (s : S b)
      → elem j.id ids ≡ true
      → IsReady b ids s
      → Local b ids s (dead_letter b j now s).0
  unfolding dead_letter
  dead_letter-Local ids j now s e h =
      let j' = record j { state = JobState.failed; finished_at = some now } in
      let s1 = record s { store = (b.storage.put_dead_letter j' s.store).0 } in
      let filed =
        same-Local b ids s s1 (λ k. b.storage.get_job-put_dead_letter s.store j' k) refl h in
      elim (Bool-cases (not (b.storage.put_dead_letter j' s.store).1)) [
        | inl p ↦ rw (p, dead_letter) filed
        | inr p ↦
            let s2 = (put_job b j' s1).0 in
            let put = Local-trans b ids s s1 s2 filed (λ r. put_job-Local b ids j' s1 e r) in
            elim (Bool-cases (not (put_job b j' s1).1)) [
              | inl q ↦ rw (p, dead_letter) (rw (q, dead_letter) put)
              | inr q ↦
                  let m = s2.metrics in
                  let s3 = record s2 {
                    metrics = record m { jobs_dead_lettered = m.jobs_dead_lettered + 1 };
                  } in
                  let s4 = remove_from_index j.id s3 in
                  let counted =
                    Local-trans b ids s s2 s3 put
                      (λ r. same-Local b ids s2 s3 (λ k. refl) refl r) in
                  let dropped =
                    Local-trans b ids s s3 s4 counted (λ r. dropped-Local b ids j.id s3 r) in
                  rw (p, dead_letter)
                    (rw (q, dead_letter)
                      (Local-trans b ids s s4 _ dropped
                        (λ r. cancel_cascade-Local ids j.id _ now s4 e r)))
            ]
      ]

  pub handle_failure-Local :
      (ids : List String) (j : Job) (msg : String) (now : Time) (s : S b)
      → elem j.id ids ≡ true
      → IsReady b ids s
      → Local b ids s (handle_failure b j msg now s).0
  unfolding handle_failure
  handle_failure-Local ids j msg now s e h =
      let j1 = record j { last_error = msg; assigned_worker_id = ""; updated_at = some now } in
      elim (Bool-cases (ltb j1.attempt (max_attempts j1.retry_policy))) [
        | inl t ↦ rw (t, handle_failure) (retry_job-Local ids j1 now s e h)
        | inr t ↦
            let (one, same_id) = reschedule-Local ids j1 now s e h in
            let r = maybe_reschedule_cron b j1 now s in
            elim (Bool-cases (maybe_reschedule_cron b j1 now s).2) [
              | inl p ↦ rw (t, handle_failure) (rw (p, handle_failure) one)
              | inr p ↦
                  rw (t, handle_failure)
                    (rw (p, handle_failure)
                      (Local-trans b ids s r.0 _ one
                        (λ q. dead_letter-Local ids r.1 now r.0 (rw same_id e) q)))
            ]
      ]
