-- ===== src/Scheduler/Promised.antt =====
-- internal/scheduler/deps.go: that the jobs stay due while others are canceled, promoted or armed
-- again.
use distsched.Base.{
  ℕ, zero, suc, ◌≡◌, inl, inr, sym, true, false, List, [], ◌∷◌, ◌++◌, none, some, String, same,
  arith, Bool-cases, Option-cases, elem, ◌∙◌, ◌-ℤ◌, not, refl,
}
use distsched.Api.{Job, JobState, Time, get_cron_expr}
use distsched.Scheduler.State.{Backend}
use distsched.Scheduler.Replication.{S, put_job}
use distsched.Scheduler.Deps.{
  terminal, upstream, is_queued, is_pending, remove_from_index, dependents_of, add_deps,
  deps_satisfied, make_ready, place_new_job, cancel_one, cascade, cancel_cascade, try_promote,
  promote_all, promote_dependents, maybe_reschedule_cron, fire_time,
}
use distsched.Scheduler.Keeps.{Found-cases}
use distsched.Scheduler.Due.{
  Watch, NotQueued, Tends, put_job-Tends, put_job-get, put_job_failed-Tends,
}
use distsched.Scheduler.Armed.{IsReadable, dropped-Tends, put_armed-Tends}

module _ (b : Backend) where
  -- A write of a canceled job goes through.
  abbrev pub Cancels : Type 0
  Cancels =
      (j : Job) (d : b.storage.Db) → j.state ≡ JobState.canceled → (b.storage.put_job j d).1 ≡ true

  canceled-written :
      Cancels → (j : Job) (s : S b) → j.state ≡ JobState.canceled → (put_job b j s).1 ≡ true
  unfolding put_job
  canceled-written cancels j s e = let ok = cancels j s.store e in ground arith

  pub written-NotQueued :
      (k : String) (j : Job) (s : S b)
      → (put_job b j s).1 ≡ true
      → same j.id k ≡ true
      → is_queued j.state ≡ false
      → NotQueued b (put_job b j s).0.store k
  unfolding put_job
  written-NotQueued k j s p here off j' e =
      let seen = sym (put_job-get b j s k) ∙ e in
      ground (arith, b.storage.get_job-put_job s.store j k)

  module _ (readable : IsReadable b) (cancels : Cancels) (k : Watch) where
    cancel_one-Tends :
        (cur reason : String) (now : Time) (s : S b)
        → Tends b k s
        → Tends b k (cancel_one b cur reason now s)
    unfolding cancel_one
    cancel_one-Tends cur reason now s h = elim (Found-cases b (b.storage.get_job s.store cur)) [
      | inl (j, e) ↦ elim (Bool-cases (terminal j.state)) [
        | inl t ↦ rw (e, cancel_one) (rw (t, cancel_one) h)
        | inr t ↦
            let j' = record j {
              state = JobState.canceled;
              last_error = reason;
              updated_at = some now;
            } in
            let named = h.steady.keyed cur j e in
            rw (e, cancel_one)
              (rw (t, cancel_one)
                (dropped-Tends b k cur (put_job b j' s).0
                  (λ here.
                    written-NotQueued k.id j' s (canceled-written cancels j' s refl) (rw named here)
                      refl)
                  (put_job-Tends b k j' s (λ x. refl) h)))
      ]
      | inr (inl e) ↦ rw (e, cancel_one) h
      | inr (inr e) ↦ rw (e, cancel_one) h
    ]

    cascade-Tends :
        (fuel : ℕ) (work visited : List String) (reason : String) (now : Time) (s : S b)
        → Tends b k s
        → Tends b k (cascade b fuel work visited reason now s).0
    unfolding cascade remove_from_index
    cascade-Tends zero work visited reason now s h = h
    cascade-Tends (suc fuel) [] visited reason now s h = h
    cascade-Tends (suc fuel) (cur ∷ work) visited reason now s h =
        elim (Bool-cases (elem cur visited)) [
          | inl seen ↦ rw seen (cascade-Tends fuel work visited reason now s h)
          | inr fresh ↦
              let s1 = cancel_one b cur reason now s in
              rw fresh (
                cascade-Tends fuel (dependents_of cur s1 ++ work) (cur ∷ visited)
                  (upstream cur " did not succeed") now (remove_from_index cur s1)
                  (cancel_one-Tends cur reason now s h))
        ]

    pub cancel_cascade-Tends :
        (id reason : String) (now : Time) (s : S b)
        → Tends b k s
        → Tends b k (cancel_cascade b id reason now s)
    unfolding cancel_cascade
    cancel_cascade-Tends id reason now s h = cascade-Tends _ _ _ reason now s h

    pub make_ready-Tends :
        (j : Job) (now : Time) (s : S b) → Tends b k s → Tends b k (make_ready b j now s)
    unfolding make_ready
    make_ready-Tends j now s h =
        let (at, delay) = fire_time b j now in
        let j' = record j { scheduled_at = at; state = JobState.queued; updated_at = some now } in
        elim (Bool-cases (put_job b j' s).1) [
          | inl p ↦ rw (p, make_ready) (put_armed-Tends b readable k j' delay s h)
          | inr p ↦ rw (p, make_ready) (put_job_failed-Tends b k j' s p h)
        ]

    pub place_new_job-Tends :
        (j : Job) (now : Time) (s : S b) → Tends b k s → Tends b k (place_new_job b j now s)
    unfolding place_new_job add_deps
    place_new_job-Tends j now s h = elim (Bool-cases (not (same (deps_satisfied b j s).1 ""))) [
      | inl e ↦ rw (e, place_new_job) (put_job-Tends b k _ s (λ x. refl) h)
      | inr e ↦ elim (Bool-cases (not (deps_satisfied b j s).0)) [
        | inl w ↦
            rw (e, place_new_job) (rw (w, place_new_job) (put_job-Tends b k _ s (λ x. refl) h))
        | inr w ↦ rw (e, place_new_job) (rw (w, place_new_job) (make_ready-Tends j now s h))
      ]
    ]

    pub try_promote-Tends :
        (id : String) (now : Time) (s : S b) → Tends b k s → Tends b k (try_promote b id now s)
    unfolding try_promote remove_from_index
    try_promote-Tends id now s h = elim (Found-cases b (b.storage.get_job s.store id)) [
      | inl (j, e) ↦ elim (Bool-cases (not (is_pending j.state))) [
        | inl t ↦ rw (e, try_promote) (rw (t, try_promote) h)
        | inr t ↦ elim (Bool-cases (not (same (deps_satisfied b j s).1 ""))) [
          | inl f ↦
              rw (e, try_promote)
                (rw (t, try_promote) (rw (f, try_promote) (cancel_cascade-Tends id _ now s h)))
          | inr f ↦ elim (Bool-cases (deps_satisfied b j s).0) [
            | inl r ↦
                rw (e, try_promote)
                  (rw (t, try_promote)
                    (rw (f, try_promote) (rw (r, try_promote) (make_ready-Tends j now s h))))
            | inr r ↦
                rw (e, try_promote)
                  (rw (t, try_promote) (rw (f, try_promote) (rw (r, try_promote) h)))
          ]
        ]
      ]
      | inr (inl e) ↦ rw (e, try_promote) h
      | inr (inr e) ↦ rw (e, try_promote) h
    ]

    promote_all-Tends :
        (ids : List String) (now : Time) (s : S b)
        → Tends b k s
        → Tends b k (promote_all b ids now s)
    unfolding promote_all
    promote_all-Tends [] now s h = h
    promote_all-Tends (id ∷ ids) now s h =
        promote_all-Tends ids now (try_promote b id now s) (try_promote-Tends id now s h)

    pub promote_dependents-Tends :
        (id : String) (now : Time) (s : S b)
        → Tends b k s
        → Tends b k (promote_dependents b id now s)
    unfolding promote_dependents
    promote_dependents-Tends id now s h = promote_all-Tends _ now s h

    pub reschedule-Tends :
        (j : Job) (now : Time) (s : S b)
        → Tends b k s
        → Tends b k (maybe_reschedule_cron b j now s).0
    unfolding maybe_reschedule_cron
    reschedule-Tends j now s h = elim (Bool-cases (same (get_cron_expr j.schedule) "")) [
      | inl e ↦ rw (e, maybe_reschedule_cron) h
      | inr e ↦ elim (Option-cases (b.next_cron (get_cron_expr j.schedule) now)) [
        | inl n ↦ rw (e, maybe_reschedule_cron) (rw (n, maybe_reschedule_cron) h)
        | inr (at, n) ↦
            let j' = record j {
              state = JobState.queued;
              attempt = 0;
              assigned_worker_id = "";
              last_error = "";
              finished_at = none;
              scheduled_at = some at;
              updated_at = some now;
            } in
            elim (Bool-cases (put_job b j' s).1) [
              | inl p ↦
                  rw (e, maybe_reschedule_cron)
                    (rw (n, maybe_reschedule_cron)
                      (rw (p, maybe_reschedule_cron)
                        (put_armed-Tends b readable k j' (at -ℤ now) s h)))
              | inr p ↦
                  rw (e, maybe_reschedule_cron)
                    (rw (n, maybe_reschedule_cron)
                      (rw (p, maybe_reschedule_cron) (put_job_failed-Tends b k j' s p h)))
            ]
      ]
    ]
