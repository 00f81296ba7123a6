-- ===== src/Scheduler/Quiet.antt =====
-- internal/scheduler/dispatch.go: what a result leaves alone.
use distsched.Base.{
  ℕ, zero, suc, ◌+◌, ◌≡◌, refl, ◌∙◌, inl, inr, not, List, [], ◌∷◌, ◌++◌, some, String, arith, same,
  elem, Bool-cases, ltb, ◌+ℤ◌,
}
use distsched.Api.{Job, JobState, Time, Duration}
use distsched.Retry.{max_attempts, backoff}
use distsched.Scheduler.State.{Backend}
use distsched.Scheduler.Replication.{S, append_repl, put_job}
use distsched.Scheduler.Deps.{
  is_pending, remove_from_index, dependents_of, upstream, enqueue_job, arm_enqueue, make_ready,
  fire_time, deps_satisfied, cancel_one, cascade, cancel_cascade, try_promote, promote_all,
  promote_dependents, maybe_reschedule_cron,
}
use distsched.Scheduler.Dispatch.{retry_job, dead_letter, handle_failure, succeed}
use distsched.Scheduler.Keeps.{Found-cases}

module _ (b : Backend) where
  -- The leases and the node are as they were.
  abbrev pub Quiet : S b → S b → Type 0
  Quiet s s' = (s'.leases ≡ s.leases) × (s'.node ≡ s.node)

  Quiet-trans : (s t u : S b) → Quiet s t → Quiet t u → Quiet s u
  Quiet-trans s t u p q = (q.0 ∙ p.0, q.1 ∙ p.1)

  put_job-Quiet : (j : Job) (s : S b) → Quiet s (put_job b j s).0
  unfolding put_job append_repl
  put_job-Quiet j s = ground arith

  arm_enqueue-Quiet :
      (id : String) (delay : Duration) (s : S b) → Quiet s (arm_enqueue b id delay s)
  unfolding arm_enqueue enqueue_job
  arm_enqueue-Quiet id delay s = ground arith

  put_armed-Quiet :
      (j : Job) (delay : Duration) (s : S b) → Quiet s (arm_enqueue b j.id delay (put_job b j s).0)
  put_armed-Quiet j delay s =
      let s1 = (put_job b j s).0 in
      Quiet-trans s s1 (arm_enqueue b j.id delay s1) (put_job-Quiet j s)
        (arm_enqueue-Quiet j.id delay s1)

  make_ready-Quiet : (j : Job) (now : Time) (s : S b) → Quiet s (make_ready b j now s)
  unfolding make_ready
  make_ready-Quiet j now s =
      let (at, delay) = fire_time b j now in
      let j' = record j { scheduled_at = at; state = JobState.queued; updated_at = some now } in
      elim (Bool-cases (put_job b j' s).1) [
        | inl e ↦ rw (e, make_ready) (put_armed-Quiet j' delay s)
        | inr e ↦ rw (e, make_ready) (put_job-Quiet j' s)
      ]

  cancel_one-Quiet :
      (cur reason : String) (now : Time) (s : S b) → Quiet s (cancel_one b cur reason now s)
  unfolding cancel_one put_job append_repl
  cancel_one-Quiet cur reason now s = ground arith

  cascade-Quiet :
      (fuel : ℕ) (work visited : List String) (reason : String) (now : Time) (s : S b)
      → Quiet s (cascade b fuel work visited reason now s).0
  unfolding cascade remove_from_index
  cascade-Quiet zero work visited reason now s = (refl, refl)
  cascade-Quiet (suc fuel) [] visited reason now s = (refl, refl)
  cascade-Quiet (suc fuel) (cur ∷ work) visited reason now s =
      elim (Bool-cases (elem cur visited)) [
        | inl seen ↦ rw seen (cascade-Quiet fuel work visited reason now s)
        | inr fresh ↦
            let s1 = cancel_one b cur reason now s in
            let rest = dependents_of cur s1 ++ work in
            let next = upstream cur " did not succeed" in
            let s2 = remove_from_index cur s1 in
            rw fresh (
              Quiet-trans s s1 (cascade b fuel rest (cur ∷ visited) next now s2).0
                (cancel_one-Quiet cur reason now s)
                (cascade-Quiet fuel rest (cur ∷ visited) next now s2))
      ]

  cancel_cascade-Quiet :
      (id reason : String) (now : Time) (s : S b) → Quiet s (cancel_cascade b id reason now s)
  unfolding cancel_cascade
  cancel_cascade-Quiet id reason now s = cascade-Quiet _ _ _ reason now s

  try_promote-Quiet : (id : String) (now : Time) (s : S b) → Quiet s (try_promote b id now s)
  unfolding try_promote remove_from_index
  try_promote-Quiet id now s = elim (Found-cases b (b.storage.get_job s.store id)) [
    | inl (j, e) ↦ elim (Bool-cases (not (is_pending j.state))) [
      | inl t ↦ rw (e, try_promote) (rw (t, try_promote) (refl, refl))
      | inr t ↦ elim (Bool-cases (not (same (deps_satisfied b j s).1 ""))) [
        | inl f ↦
            rw (e, try_promote)
              (rw (t, try_promote) (rw (f, try_promote) (cancel_cascade-Quiet id _ now s)))
        | inr f ↦ elim (Bool-cases (deps_satisfied b j s).0) [
          | inl r ↦
              rw (e, try_promote)
                (rw (t, try_promote)
                  (rw (f, try_promote) (rw (r, try_promote) (make_ready-Quiet j now s))))
          | inr r ↦
              rw (e, try_promote)
                (rw (t, try_promote) (rw (f, try_promote) (rw (r, try_promote) (refl, refl))))
        ]
      ]
    ]
    | inr (inl e) ↦ rw (e, try_promote) (refl, refl)
    | inr (inr e) ↦ rw (e, try_promote) (refl, refl)
  ]

  promote_all-Quiet : (ids : List String) (now : Time) (s : S b) → Quiet s (promote_all b ids now s)
  unfolding promote_all
  promote_all-Quiet [] now s = (refl, refl)
  promote_all-Quiet (id ∷ ids) now s =
      let s1 = try_promote b id now s in
      Quiet-trans s s1 (promote_all b ids now s1) (try_promote-Quiet id now s)
        (promote_all-Quiet ids now s1)

  promote_dependents-Quiet :
      (id : String) (now : Time) (s : S b) → Quiet s (promote_dependents b id now s)
  unfolding promote_dependents
  promote_dependents-Quiet id now s = promote_all-Quiet (dependents_of id s) now s

  reschedule-Quiet : (j : Job) (now : Time) (s : S b) → Quiet s (maybe_reschedule_cron b j now s).0
  unfolding maybe_reschedule_cron put_job append_repl arm_enqueue enqueue_job
  reschedule-Quiet j now s = ground arith

  retry_job-Quiet : (j : Job) (now : Time) (s : S b) → Quiet s (retry_job b j now s).0
  unfolding retry_job
  retry_job-Quiet j now s =
      let delay = backoff b.floats j.retry_policy j.attempt (b.rand s.drawn) in
      let j' = record j { state = JobState.queued; scheduled_at = some (now +ℤ delay) } in
      let s0 = record s { drawn = s.drawn + 1 } in
      elim (Bool-cases (not (put_job b j' s0).1)) [
        | inl p ↦ rw (p, retry_job) (put_job-Quiet j' s0)
        | inr p ↦ rw (p, retry_job) (put_armed-Quiet j' delay s0)
      ]

  dead_letter-Quiet : (j : Job) (now : Time) (s : S b) → Quiet s (dead_letter b j now s).0
  unfolding dead_letter remove_from_index
  dead_letter-Quiet j now s =
      let j' = record j { state = JobState.failed; finished_at = some now } in
      let s1 = record s { store = (b.storage.put_dead_letter j' s.store).0 } in
      elim (Bool-cases (not (b.storage.put_dead_letter j' s.store).1)) [
        | inl p ↦ rw (p, dead_letter) (refl, refl)
        | inr p ↦
            let s2 = (put_job b j' s1).0 in
            elim (Bool-cases (not (put_job b j' s1).1)) [
              | inl q ↦ rw (p, dead_letter) (rw (q, dead_letter) (put_job-Quiet j' s1))
              | inr q ↦
                  let m = s2.metrics in
                  let s3 = remove_from_index j.id (record s2 {
                    metrics = record m { jobs_dead_lettered = m.jobs_dead_lettered + 1 };
                  }) in
                  let why = upstream j.id " did not succeed" in
                  rw (p, dead_letter)
                    (rw (q, dead_letter)
                      (Quiet-trans s s2 (cancel_cascade b j.id why now s3) (put_job-Quiet j' s1)
                        (cancel_cascade-Quiet j.id why now s3)))
            ]
      ]

  pub handle_failure-Quiet :
      (j : Job) (msg : String) (now : Time) (s : S b) → Quiet s (handle_failure b j msg now s).0
  unfolding handle_failure
  handle_failure-Quiet j msg now s =
      let j1 = record j { last_error = msg; assigned_worker_id = ""; updated_at = some now } in
      let r = maybe_reschedule_cron b j1 now s in
      elim (Bool-cases (ltb j1.attempt (max_attempts j1.retry_policy))) [
        | inl t ↦ rw (t, handle_failure) (retry_job-Quiet j1 now s)
        | inr t ↦ elim (Bool-cases (maybe_reschedule_cron b j1 now s).2) [
          | inl p ↦ rw (t, handle_failure) (rw (p, handle_failure) (reschedule-Quiet j1 now s))
          | inr p ↦
              rw (t, handle_failure)
                (rw (p, handle_failure)
                  (Quiet-trans s r.0 (dead_letter b r.1 now r.0).0 (reschedule-Quiet j1 now s)
                    (dead_letter-Quiet r.1 now r.0)))
        ]
      ]

  pub succeed-Quiet : (j : Job) (now : Time) (s : S b) → Quiet s (succeed b j now s).0
  unfolding succeed remove_from_index
  succeed-Quiet j now s =
      let r = maybe_reschedule_cron b j now s in
      let first = reschedule-Quiet j now s in
      elim (Bool-cases (maybe_reschedule_cron b j now s).2) [
        | inl p ↦ rw (p, succeed) first
        | inr p ↦
            let j2 = record r.1 {
              state = JobState.succeeded;
              assigned_worker_id = "";
              last_error = "";
              finished_at = some now;
              updated_at = some now;
            } in
            let s2 = (put_job b j2 r.0).0 in
            let both = Quiet-trans s r.0 s2 first (put_job-Quiet j2 r.0) in
            elim (Bool-cases (not (put_job b j2 r.0).1)) [
              | inl q ↦ rw (p, succeed) (rw (q, succeed) both)
              | inr q ↦
                  let m = s2.metrics in
                  let s3 =
                    remove_from_index j.id (record s2 {
                      metrics = record m { jobs_succeeded = m.jobs_succeeded + 1 };
                    }) in
                  rw (p, succeed)
                    (rw (q, succeed)
                      (Quiet-trans s s2 (promote_dependents b j.id now s3) both
                        (promote_dependents-Quiet j.id now s3)))
            ]
      ]
