-- ===== src/Scheduler/Keeps.antt =====
-- internal/scheduler/deps.go: what placing, promoting and canceling do to the store.
use distsched.Base.{
  ap, ℕ, zero, suc, ◌<◌, ◌≡◌, refl, ◌⊎◌, inl, inr, false, not, same, List, [], ◌∷◌, ◌++◌, none,
  some, String, elem, arith, Bool-cases, Option-cases, ◌∙◌, ◌-ℤ◌,
}
use distsched.Api.{Job, JobState, Time, Duration, get_cron_expr}
use distsched.Retry.{max_attempts}
use distsched.Retry.Bounds.{max_attempts_pos}
use distsched.Store.{Found, found, not_found, failed}
use distsched.Scheduler.State.{Backend}
use distsched.Scheduler.Replication.{S, put_job}
use distsched.Scheduler.Deps.{
  terminal, upstream, enqueue_job, arm_enqueue, remove_from_index, dependents_of, add_deps,
  deps_satisfied, is_pending, make_ready, place_new_job, cancel_one, cascade, cancel_cascade,
  try_promote, promote_all, promote_dependents, maybe_reschedule_cron, fire_time,
}
use distsched.Scheduler.Safe.{Inv, Fits, Safe, Safe-refl, Safe-trans, IsLive, AttemptOk}
use distsched.Scheduler.Writes.{put_job-Safe, put_job-keeps_Inv, put_job_failed}

pending_left :
    (x : JobState) (n most : ℕ) → AttemptOk x n most → not (is_pending x) ≡ false → n < most
pending_left x n most h t = ground arith

pending_live : (x : JobState) → not (is_pending x) ≡ false → terminal x ≡ false
pending_live x t = ground arith

module _ (b : Backend) where
  pub Found-cases : (o : Found Job) → ((j : Job) × (o ≡ found j)) ⊎ (o ≡ not_found) ⊎ (o ≡ failed)
  Found-cases (found j) = inl (j, refl)
  Found-cases not_found = inr (inl refl)
  Found-cases failed = inr (inr refl)

  pub arm_enqueue-store :
      (id : String) (delay : Duration) (s : S b) → (arm_enqueue b id delay s).store ≡ s.store
  unfolding arm_enqueue enqueue_job
  arm_enqueue-store id delay s = ground arith

  pub IsLive-of :
      (s : S b) (k : String) (j : Job)
      → Inv b.storage s.store
      → b.storage.get_job s.store k ≡ found j
      → terminal j.state ≡ false
      → IsLive b.storage s.store j
  IsLive-of s k j i h t = (j, ap (b.storage.get_job s.store) (i.keyed k j h) ∙ h, t, refl)

  pub cancel_one-Safe :
      (cur reason : String) (now : Time) (s : S b)
      → Inv b.storage s.store
      → Safe b.storage s.store (cancel_one b cur reason now s).store
  unfolding cancel_one
  cancel_one-Safe cur reason now s i = elim (Found-cases (b.storage.get_job s.store cur)) [
    | inl (j, e) ↦ elim (Bool-cases (terminal j.state)) [
      | inl t ↦ rw (e, cancel_one) (rw (t, cancel_one) (Safe-refl b.storage s.store i))
      | inr t ↦
          rw (e, cancel_one)
            (rw (t, cancel_one)
              (put_job-Safe b _ s i (record { attempts = tt; filed = λ x. cc })
                (IsLive-of s cur j i e t)))
    ]
    | inr (inl e) ↦ rw (e, cancel_one) (Safe-refl b.storage s.store i)
    | inr (inr e) ↦ rw (e, cancel_one) (Safe-refl b.storage s.store i)
  ]

  cascade-Safe :
      (fuel : ℕ) (work visited : List String) (reason : String) (now : Time) (s : S b)
      → Inv b.storage s.store
      → Safe b.storage s.store (cascade b fuel work visited reason now s).0.store
  unfolding cascade remove_from_index
  cascade-Safe zero work visited reason now s i = Safe-refl b.storage s.store i
  cascade-Safe (suc fuel) [] visited reason now s i = Safe-refl b.storage s.store i
  cascade-Safe (suc fuel) (cur ∷ work) visited reason now s i =
      elim (Bool-cases (elem cur visited)) [
        | inl seen ↦ rw seen (cascade-Safe fuel work visited reason now s i)
        | inr fresh ↦
            let s1 = cancel_one b cur reason now s in
            rw fresh (
              Safe-trans b.storage s.store s1.store _ (cancel_one-Safe cur reason now s i) (λ i1.
                cascade-Safe fuel (dependents_of cur s1 ++ work) (cur ∷ visited)
                  (upstream cur " did not succeed") now (remove_from_index cur s1) i1))
      ]

  pub cancel_cascade-Safe :
      (id reason : String) (now : Time) (s : S b)
      → Inv b.storage s.store
      → Safe b.storage s.store (cancel_cascade b id reason now s).store
  unfolding cancel_cascade
  cancel_cascade-Safe id reason now s i = cascade-Safe _ _ _ reason now s i

  -- Whether the write goes through decides only what is armed, not what is stored.
  pub make_ready-stored :
      (j : Job) (now : Time) (s : S b)
      → (make_ready b j now s).store
        ≡ (put_job b
            (record j {
              scheduled_at = (fire_time b j now).0;
              state = JobState.queued;
              updated_at = some now;
            })
            s).0.store
  unfolding make_ready
  make_ready-stored j now s =
      let at = fire_time b j now in
      let j' = record j { scheduled_at = at.0; state = JobState.queued; updated_at = some now } in
      let armed = arm_enqueue-store j.id at.1 (put_job b j' s).0 in ground (arith, armed)

  pub make_ready-Safe :
      (j : Job) (now : Time) (s : S b)
      → Inv b.storage s.store
      → j.attempt < max_attempts j.retry_policy
      → IsLive b.storage s.store j
      → Safe b.storage s.store (make_ready b j now s).store
  make_ready-Safe j now s i h live =
      rw (make_ready-stored j now s)
        (put_job-Safe b _ s i (record { attempts = h; filed = λ x. cc }) live)

  make_ready-Inv :
      (j : Job) (now : Time) (s : S b)
      → Inv b.storage s.store
      → j.attempt < max_attempts j.retry_policy
      → Inv b.storage (make_ready b j now s).store
  make_ready-Inv j now s i h =
      rw (make_ready-stored j now s)
        (put_job-keeps_Inv b _ s i (record { attempts = h; filed = λ x. cc }))

  -- A job that is new to the store, or replaces one under its ID.
  pub place_new_job-Inv :
      (j : Job) (now : Time) (s : S b)
      → Inv b.storage s.store
      → j.attempt < max_attempts j.retry_policy
      → Inv b.storage (place_new_job b j now s).store
  unfolding place_new_job add_deps
  place_new_job-Inv j now s i h = elim (Bool-cases (not (same (deps_satisfied b j s).1 ""))) [
    | inl e ↦
        rw (e, place_new_job)
          (put_job-keeps_Inv b _ s i (record { attempts = tt; filed = λ x. cc }))
    | inr e ↦ elim (Bool-cases (not (deps_satisfied b j s).0)) [
      | inl w ↦
          rw (e, place_new_job)
            (rw (w, place_new_job)
              (put_job-keeps_Inv b _ s i (record { attempts = h; filed = λ x. cc })))
      | inr w ↦ rw (e, place_new_job) (rw (w, place_new_job) (make_ready-Inv j now s i h))
    ]
  ]

  pub try_promote-Safe :
      (id : String) (now : Time) (s : S b)
      → Inv b.storage s.store
      → Safe b.storage s.store (try_promote b id now s).store
  unfolding try_promote remove_from_index
  try_promote-Safe id now s i = elim (Found-cases (b.storage.get_job s.store id)) [
    | inl (j, e) ↦ elim (Bool-cases (not (is_pending j.state))) [
      | inl t ↦ rw (e, try_promote) (rw (t, try_promote) (Safe-refl b.storage s.store i))
      | inr t ↦ elim (Bool-cases (not (same (deps_satisfied b j s).1 ""))) [
        | inl f ↦
            rw (e, try_promote)
              (rw (t, try_promote) (rw (f, try_promote) (cancel_cascade-Safe id _ now s i)))
        | inr f ↦ elim (Bool-cases (deps_satisfied b j s).0) [
          | inl r ↦
              rw (e, try_promote)
                (rw (t, try_promote)
                  (rw (f, try_promote)
                    (rw (r, try_promote)
                      (make_ready-Safe j now s i (pending_left _ _ _ (i.fits id j e).attempts t)
                        (IsLive-of s id j i e (pending_live _ t))))))
          | inr r ↦
              rw (e, try_promote)
                (rw (t, try_promote)
                  (rw (f, try_promote) (rw (r, try_promote) (Safe-refl b.storage s.store i))))
        ]
      ]
    ]
    | inr (inl e) ↦ rw (e, try_promote) (Safe-refl b.storage s.store i)
    | inr (inr e) ↦ rw (e, try_promote) (Safe-refl b.storage s.store i)
  ]

  promote_all-Safe :
      (ids : List String) (now : Time) (s : S b)
      → Inv b.storage s.store
      → Safe b.storage s.store (promote_all b ids now s).store
  unfolding promote_all
  promote_all-Safe [] now s i = Safe-refl b.storage s.store i
  promote_all-Safe (id ∷ ids) now s i =
      Safe-trans b.storage s.store (try_promote b id now s).store _ (try_promote-Safe id now s i)
        (λ i1. promote_all-Safe ids now (try_promote b id now s) i1)

  pub promote_dependents-Safe :
      (id : String) (now : Time) (s : S b)
      → Inv b.storage s.store
      → Safe b.storage s.store (promote_dependents b id now s).store
  unfolding promote_dependents
  promote_dependents-Safe id now s i = promote_all-Safe _ now s i

  abbrev rearmed_job : Job → Time → Time → Job
  rearmed_job j at now = record j {
    state = JobState.queued;
    attempt = 0;
    assigned_worker_id = "";
    last_error = "";
    finished_at = none;
    scheduled_at = some at;
    updated_at = some now;
  }

  Fits-rearmed : (s : S b) (j : Job) (at now : Time) → Fits b.storage s.store (rearmed_job j at now)
  Fits-rearmed s j at now = record { attempts = max_attempts_pos j.retry_policy; filed = λ x. cc }

  pub still-IsLive :
      (j : Job) (s : S b)
      → (put_job b j s).1 ≡ false
      → IsLive b.storage s.store j
      → IsLive b.storage (put_job b j s).0.store j
  still-IsLive j s p (i, e, live, deps) = (i, (put_job_failed b j s j.id p).0 ∙ e, live, deps)

  -- Where the job was not armed again, the job that the call leaves in memory is still stored.
  pub reschedule-IsLive :
      (j : Job) (now : Time) (s : S b)
      → Inv b.storage s.store
      → IsLive b.storage s.store j
      → Safe b.storage s.store (maybe_reschedule_cron b j now s).0.store
        × ((maybe_reschedule_cron b j now s).2 ≡ false
            → IsLive b.storage
                (maybe_reschedule_cron b j now s).0.store
                (maybe_reschedule_cron b j now s).1)
  unfolding maybe_reschedule_cron
  reschedule-IsLive j now s i live = elim (Bool-cases (same (get_cron_expr j.schedule) "")) [
    | inl e ↦ rw (e, maybe_reschedule_cron) (Safe-refl b.storage s.store i, λ x. live)
    | inr e ↦ elim (Option-cases (b.next_cron (get_cron_expr j.schedule) now)) [
      | inl n ↦
          rw (e, maybe_reschedule_cron)
            (rw (n, maybe_reschedule_cron) (Safe-refl b.storage s.store i, λ x. live))
      | inr (at, n) ↦
          let j' = rearmed_job j at now in
          let put = put_job-Safe b j' s i (Fits-rearmed s j at now) live in
          elim (Bool-cases (put_job b j' s).1) [
            | inl p ↦
                rw (e, maybe_reschedule_cron)
                  (rw (n, maybe_reschedule_cron)
                    (rw (p, maybe_reschedule_cron)
                      (rw (arm_enqueue-store j.id (at -ℤ now) (put_job b j' s).0) put, λ x. cc)))
            | inr p ↦
                rw (e, maybe_reschedule_cron)
                  (rw (n, maybe_reschedule_cron)
                    (rw (p, maybe_reschedule_cron) (put, λ x. still-IsLive j' s p live)))
          ]
    ]
  ]
