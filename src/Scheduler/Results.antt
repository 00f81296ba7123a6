-- ===== src/Scheduler/Results.antt =====
-- internal/scheduler/dispatch.go: what a task's result does to the store.
use distsched.Base.{
  ℕ, ◌+◌, ◌<◌, ◌≡◌, inl, inr, true, false, some, String, arith, Bool-cases, ◌∙◌, ltb, not, ◌+ℤ◌,
}
use distsched.Api.{Job, JobState, Time}
use distsched.Retry.{max_attempts, backoff}
use distsched.Scheduler.State.{Backend}
use distsched.Scheduler.Replication.{S, put_job}
use distsched.Scheduler.Deps.{terminal, is_running, remove_from_index, maybe_reschedule_cron}
use distsched.Scheduler.Dispatch.{dead_letter, retry_job, handle_failure, succeed}
use distsched.Scheduler.Safe.{Inv, Safe, Safe-trans, IsLive}
use distsched.Scheduler.Writes.{put_job-Safe, put_dead_letter-Safe}
use distsched.Scheduler.Keeps.{
  arm_enqueue-store, cancel_cascade-Safe, promote_dependents-Safe, reschedule-IsLive,
}

pub running_live : (x : JobState) → is_running x ≡ true → terminal x ≡ false
running_live x t = ground arith

ltb_lt : (m n : ℕ) → ltb m n ≡ true → m < n
ltb_lt m n e = ground arith

module _ (b : Backend) where
  retry_job-Safe :
      (j : Job) (now : Time) (s : S b)
      → Inv b.storage s.store
      → IsLive b.storage s.store j
      → j.attempt < max_attempts j.retry_policy
      → Safe b.storage s.store (retry_job b j now s).0.store
  unfolding retry_job
  retry_job-Safe j now s i live h =
      let delay = backoff b.floats j.retry_policy j.attempt (b.rand s.drawn) in
      let j' = record j { state = JobState.queued; scheduled_at = some (now +ℤ delay) } in
      let s0 = record s { drawn = s.drawn + 1 } in
      let put = put_job-Safe b j' s0 i (record { attempts = h; filed = λ x. cc }) live in
      elim (Bool-cases (not (put_job b j' s0).1)) [
        | inl p ↦ rw (p, retry_job) put
        | inr p ↦ rw (p, retry_job) (rw (arm_enqueue-store b j.id delay (put_job b j' s0).0) put)
      ]

  dead_letter-IsLive :
      (j : Job) (s : S b)
      → IsLive b.storage s.store j
      → IsLive b.storage (b.storage.put_dead_letter j s.store).0 j
  dead_letter-IsLive j s (i, e, live, deps) =
      (i, b.storage.get_job-put_dead_letter s.store j j.id ∙ e, live, deps)

  dead_letter_filed :
      (j : Job) (s : S b)
      → not (b.storage.put_dead_letter j s.store).1 ≡ false
      → b.storage.is_dead_lettered (b.storage.put_dead_letter j s.store).0 j.id ≡ true
  dead_letter_filed j s p =
      ground (arith, b.storage.is_dead_lettered-put_dead_letter s.store j j.id)

  -- The dead letter is filed before the job is marked as failed.
  dead_letter-Safe :
      (j : Job) (now : Time) (s : S b)
      → Inv b.storage s.store
      → IsLive b.storage s.store j
      → Safe b.storage s.store (dead_letter b j now s).0.store
  unfolding dead_letter remove_from_index
  dead_letter-Safe j now s i live =
      let j' = record j { state = JobState.failed; finished_at = some now } in
      let db = (b.storage.put_dead_letter j' s.store).0 in
      let s1 = record s { store = db } in
      let filed = put_dead_letter-Safe b.storage s.store j' i in
      elim (Bool-cases (not (b.storage.put_dead_letter j' s.store).1)) [
        | inl p ↦ rw (p, dead_letter) filed
        | inr p ↦
            let s2 = (put_job b j' s1).0 in
            let put =
              put_job-Safe b j' s1 filed.inv
                (record { attempts = tt; filed = λ x. dead_letter_filed j' s p })
                (dead_letter-IsLive j' s live) in
            let both = Safe-trans b.storage s.store db s2.store filed (λ x. put) in
            elim (Bool-cases (not (put_job b j' s1).1)) [
              | inl q ↦ rw (p, dead_letter) (rw (q, dead_letter) both)
              | inr q ↦
                  rw (p, dead_letter)
                    (rw (q, dead_letter)
                      (Safe-trans b.storage s.store s2.store _ both
                        (λ i2. cancel_cascade-Safe b j.id _ now _ i2)))
            ]
      ]

  pub handle_failure-Safe :
      (j : Job) (msg : String) (now : Time) (s : S b)
      → Inv b.storage s.store
      → IsLive b.storage s.store j
      → Safe b.storage s.store (handle_failure b j msg now s).0.store
  unfolding handle_failure
  handle_failure-Safe j msg now s i live =
      let j1 = record j { last_error = msg; assigned_worker_id = ""; updated_at = some now } in
      elim (Bool-cases (ltb j1.attempt (max_attempts j1.retry_policy))) [
        | inl e ↦ rw (e, handle_failure) (retry_job-Safe j1 now s i live (ltb_lt _ _ e))
        | inr e ↦
            let (safe, left) = reschedule-IsLive b j1 now s i live in
            let r = maybe_reschedule_cron b j1 now s in
            elim (Bool-cases (maybe_reschedule_cron b j1 now s).2) [
              | inl p ↦ rw (e, handle_failure) (rw (p, handle_failure) safe)
              | inr p ↦
                  rw (e, handle_failure)
                    (rw (p, handle_failure)
                      (Safe-trans b.storage s.store r.0.store _ safe
                        (λ i1. dead_letter-Safe r.1 now r.0 i1 (left p))))
            ]
      ]

  pub succeed-Safe :
      (j : Job) (now : Time) (s : S b)
      → Inv b.storage s.store
      → IsLive b.storage s.store j
      → Safe b.storage s.store (succeed b j now s).0.store
  unfolding succeed remove_from_index
  succeed-Safe j now s i live =
      let (safe, left) = reschedule-IsLive b j now s i live in
      let r = maybe_reschedule_cron b j now s in
      elim (Bool-cases (maybe_reschedule_cron b j now s).2) [
        | inl p ↦ rw (p, succeed) safe
        | inr p ↦
            let j2 = record r.1 {
              state = JobState.succeeded;
              assigned_worker_id = "";
              last_error = "";
              finished_at = some now;
              updated_at = some now;
            } in
            let s2 = (put_job b j2 r.0).0 in
            let both = Safe-trans b.storage s.store r.0.store s2.store safe (λ i1.
              put_job-Safe b j2 r.0 i1 (record { attempts = tt; filed = λ x. cc }) (left p)) in
            elim (Bool-cases (not (put_job b j2 r.0).1)) [
              | inl q ↦ rw (p, succeed) (rw (q, succeed) both)
              | inr q ↦
                  rw (p, succeed)
                    (rw (q, succeed)
                      (Safe-trans b.storage s.store s2.store _ both
                        (λ i2. promote_dependents-Safe b j.id now _ i2)))
            ]
      ]
