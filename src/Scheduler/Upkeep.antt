-- ===== src/Scheduler/Upkeep.antt =====
-- internal/scheduler/job.go, recovery.go and worker.go: submission, cancellation, the reaper and the
-- workers' calls, and what they do to the store.
use distsched.Base.{
  ◌+◌, if◌then◌else◌, ◌≡◌, refl, inl, inr, false, not, ◌&&◌, List, [], ◌∷◌, Option, none, some,
  String, arith, Bool-cases, Option-cases, same, is_empty, lookup,
}
use distsched.Api.{Job, JobState, WorkerInfo, Time, get_command, get_cron_expr}
use distsched.Retry.Bounds.{max_attempts_pos}
use distsched.Scheduler.State.{Backend, Reply, ok, err, leads, require_leader}
use distsched.Scheduler.Replication.{S, put_job, put_worker}
use distsched.Scheduler.Deps.{terminal, is_running, timer_fired, enqueue_job}
use distsched.Scheduler.Jobs.{
  accept_job, submit_job, load_job, cancel_live, cancel_loaded, cancel_job, cron_ok,
  would_create_cycle, mint_job,
}
use distsched.Scheduler.Dispatch.{remove_lease, get_lease}
use distsched.Scheduler.Recovery.{
  requeue_lease, requeue_all, requeue_leases_for_worker, requeue_dead, persist_workers, reap_once,
  reaper_tick, to_persist, dead_ids, expired, leases_of,
}
use distsched.Scheduler.Workers.{register_worker, heartbeat, mint_worker}
use distsched.Scheduler.Safe.{Inv, Safe, Safe-refl, Safe-trans, IsLive}
use distsched.Scheduler.Writes.{put_job-Safe, put_worker-Safe}
use distsched.Scheduler.Keeps.{Found-cases, IsLive-of, cancel_cascade-Safe, place_new_job-Inv}
use distsched.Scheduler.Results.{handle_failure-Safe}
use distsched.Scheduler.Handlers.{require_leader-Safe}

not_running_live : (x : JobState) → not (is_running x) ≡ false → terminal x ≡ false
not_running_live x t = ground arith

module _ (b : Backend) where
  timer_fired-store : (id : String) (s : S b) → (timer_fired b id s).store ≡ s.store
  unfolding timer_fired enqueue_job
  timer_fired-store id s = ground arith

  pub timer_fired-Safe :
      (id : String) (s : S b)
      → Inv b.storage s.store
      → Safe b.storage s.store (timer_fired b id s).store
  timer_fired-Safe id s i = rw (timer_fired-store id s) (Safe-refl b.storage s.store i)

  cancel_live-Safe :
      (j : Job) (now : Time) (s : S b)
      → Inv b.storage s.store
      → IsLive b.storage s.store j
      → Safe b.storage s.store (cancel_live b j now s).0.store
  unfolding cancel_live
  cancel_live-Safe j now s i live =
      let j' = record j { state = JobState.canceled; updated_at = some now } in
      let put = put_job-Safe b j' s i (record { attempts = tt; filed = λ x. cc }) live in
      elim (Bool-cases (not (put_job b j' s).1)) [
        | inl p ↦ rw (p, cancel_live) put
        | inr p ↦
            rw (p, cancel_live)
              (Safe-trans b.storage s.store (put_job b j' s).0.store _ put
                (λ i1. cancel_cascade-Safe b j.id _ now _ i1))
      ]

  loaded-IsLive :
      (id : String) (j : Job) (s : S b)
      → Inv b.storage s.store
      → load_job b id s ≡ ok j
      → terminal j.state ≡ false
      → IsLive b.storage s.store j
  unfolding load_job
  loaded-IsLive id j s i e t = IsLive-of b s id j i (ground arith) t

  unless_ended :
      (x : JobState) (s : S b) (r r1 r2 : S b × Reply Job)
      → Safe b.storage s.store r1.0.store
      → Safe b.storage s.store r2.0.store
      → (terminal x ≡ false → Safe b.storage s.store r.0.store)
      → Safe b.storage s.store
          (elim x as (λ y. S b × Reply Job) [
            | JobState.canceled ↦ r1
            | JobState.succeeded ↦ r2
            | JobState.failed ↦ r2
            | _ ↦ r
          ]).0.store
  unless_ended JobState.unspecified s r r1 r2 h1 h2 h = h refl
  unless_ended JobState.pending s r r1 r2 h1 h2 h = h refl
  unless_ended JobState.queued s r r1 r2 h1 h2 h = h refl
  unless_ended JobState.running s r r1 r2 h1 h2 h = h refl
  unless_ended JobState.succeeded s r r1 r2 h1 h2 h = h2
  unless_ended JobState.failed s r r1 r2 h1 h2 h = h2
  unless_ended JobState.canceled s r r1 r2 h1 h2 h = h1

  cancel_loaded-Safe :
      (r : Reply Job) (now : Time) (s : S b)
      → Inv b.storage s.store
      → ((j : Job) → r ≡ ok j → terminal j.state ≡ false → IsLive b.storage s.store j)
      → Safe b.storage s.store (cancel_loaded b r now s).0.store
  cancel_loaded-Safe (err e) now s i live = Safe-refl b.storage s.store i
  cancel_loaded-Safe (ok j) now s i live =
      unless_ended j.state s _ _ _ (Safe-refl b.storage s.store i) (Safe-refl b.storage s.store i)
        (λ t. cancel_live-Safe j now s i (live j refl t))

  pub cancel_job-Safe :
      (id : String) (now : Time) (s : S b)
      → Inv b.storage s.store
      → Safe b.storage s.store (cancel_job b id now s).0.store
  unfolding cancel_job
  cancel_job-Safe id now s i =
      require_leader-Safe b s _ i
        (cancel_loaded-Safe (load_job b id s) now s i (λ j e t. loaded-IsLive id j s i e t))

  requeue_lease-Safe :
      (task_id reason : String) (now : Time) (s : S b)
      → Inv b.storage s.store
      → Safe b.storage s.store (requeue_lease b task_id reason now s).store
  unfolding requeue_lease remove_lease
  requeue_lease-Safe task_id reason now s i = elim (Option-cases (get_lease task_id s)) [
    | inl e ↦ rw (e, requeue_lease) (Safe-refl b.storage s.store i)
    | inr (l, e) ↦ elim (Found-cases b (b.storage.get_job s.store l.job_id)) [
      | inl (j, g) ↦ elim (Bool-cases (not (is_running j.state))) [
        | inl t ↦
            rw (e, requeue_lease)
              (rw (g, requeue_lease) (rw (t, requeue_lease) (Safe-refl b.storage s.store i)))
        | inr t ↦
            rw (e, requeue_lease)
              (rw (g, requeue_lease)
                (rw (t, requeue_lease)
                  (handle_failure-Safe b j reason now _ i
                    (IsLive-of b s l.job_id j i g (not_running_live _ t)))))
      ]
      | inr (inl g) ↦ rw (e, requeue_lease) (rw (g, requeue_lease) (Safe-refl b.storage s.store i))
      | inr (inr g) ↦ rw (e, requeue_lease) (rw (g, requeue_lease) (Safe-refl b.storage s.store i))
    ]
  ]

  requeue_all-Safe :
      (ids : List String) (reason : String) (now : Time) (s : S b)
      → Inv b.storage s.store
      → Safe b.storage s.store (requeue_all b ids reason now s).store
  unfolding requeue_all
  requeue_all-Safe [] reason now s i = Safe-refl b.storage s.store i
  requeue_all-Safe (id ∷ ids) reason now s i =
      Safe-trans b.storage s.store (requeue_lease b id reason now s).store _
        (requeue_lease-Safe id reason now s i)
        (λ i1. requeue_all-Safe ids reason now (requeue_lease b id reason now s) i1)

  requeue_dead-Safe :
      (ids : List String) (now : Time) (s : S b)
      → Inv b.storage s.store
      → Safe b.storage s.store (requeue_dead b ids now s).store
  unfolding requeue_dead requeue_leases_for_worker
  requeue_dead-Safe [] now s i = Safe-refl b.storage s.store i
  requeue_dead-Safe (id ∷ ids) now s i =
      let s1 = requeue_leases_for_worker b id "worker missed heartbeats" now s in
      Safe-trans b.storage s.store s1.store _
        (requeue_all-Safe (leases_of id s.leases) "worker missed heartbeats" now s i)
        (λ i1. requeue_dead-Safe ids now s1 i1)

  persist_workers-Safe :
      (ws : List WorkerInfo) (s : S b)
      → Inv b.storage s.store
      → Safe b.storage s.store (persist_workers b ws s).store
  unfolding persist_workers
  persist_workers-Safe [] s i = Safe-refl b.storage s.store i
  persist_workers-Safe (w ∷ ws) s i =
      Safe-trans b.storage s.store (put_worker b w s).0.store _ (put_worker-Safe b w s i)
        (λ i1. persist_workers-Safe ws (put_worker b w s).0 i1)

  reap_once-Safe :
      (now : Time) (s : S b)
      → Inv b.storage s.store
      → Safe b.storage s.store (reap_once b now s).store
  unfolding reap_once
  reap_once-Safe now s i =
      let timeout = s.cfg.heartbeat_timeout in
      let s1 = persist_workers b (to_persist timeout now s.workers) s in
      let s2 = requeue_dead b (dead_ids timeout now s.workers) now s1 in
      Safe-trans b.storage s.store s2.store _
        (Safe-trans b.storage s.store s1.store s2.store (persist_workers-Safe _ s i)
          (λ i1. requeue_dead-Safe _ now s1 i1))
        (λ i2. requeue_all-Safe (expired now s2.leases) "lease deadline exceeded" now s2 i2)

  pub reaper_tick-Safe :
      (now : Time) (s : S b)
      → Inv b.storage s.store
      → Safe b.storage s.store (reaper_tick b now s).store
  unfolding reaper_tick
  reaper_tick-Safe now s i = elim (Bool-cases (leads s)) [
    | inl e ↦ rw (e, reaper_tick) (reap_once-Safe now s i)
    | inr e ↦ rw (e, reaper_tick) (Safe-refl b.storage s.store i)
  ]

  mint_worker-store : (w : WorkerInfo) (s : S b) → (mint_worker b w s).0.store ≡ s.store
  mint_worker-store w s = ground arith

  put_then-Safe :
      {A : Type 0} (w : WorkerInfo) (s : S b) (x y : Reply A)
      → Inv b.storage s.store
      → Safe b.storage s.store
          (if◌then◌else◌ {A = S b × Reply A}
            (put_worker b w s).1
            ((put_worker b w s).0, x)
            ((put_worker b w s).0, y)).0.store
  put_then-Safe w s x y i = elim (Bool-cases (put_worker b w s).1) [
    | inl p ↦ rw p (put_worker-Safe b w s i)
    | inr p ↦ rw p (put_worker-Safe b w s i)
  ]

  pub register_worker-Safe :
      (w : Option WorkerInfo) (now : Time) (s : S b)
      → Inv b.storage s.store
      → Safe b.storage s.store (register_worker b w now s).0.store
  unfolding register_worker
  register_worker-Safe none now s i = require_leader-Safe b s _ i (Safe-refl b.storage s.store i)
  register_worker-Safe (some w) now s i =
      require_leader-Safe b s _ i (elim (Bool-cases (same w.id "")) [
        | inl e ↦ rw e (put_then-Safe _ (record s { minted = s.minted + 1 }) _ _ i)
        | inr e ↦ rw e (put_then-Safe _ s _ _ i)
      ])

  pub heartbeat-Safe :
      (worker_id : String) (ids : List String) (now : Time) (s : S b)
      → Inv b.storage s.store
      → Safe b.storage s.store (heartbeat b worker_id ids now s).0.store
  unfolding heartbeat
  heartbeat-Safe worker_id ids now s i =
      require_leader-Safe b s _ i (elim (Option-cases (lookup worker_id s.workers)) [
        | inl e ↦ rw e (Safe-refl b.storage s.store i)
        | inr (w, e) ↦ rw e (put_then-Safe _ s _ _ i)
      ])

  accept_job-Inv :
      (j : Job) (now : Time) (s : S b)
      → Inv b.storage s.store
      → Inv b.storage (accept_job b j now s).0.store
  unfolding accept_job
  accept_job-Inv j now s i = place_new_job-Inv b _ now s i (max_attempts_pos j.retry_policy)

  -- `require_leader`, for what holds of the store whatever the handler is.
  led-Inv :
      {A : Type 0} (s : S b) (k : S b × Reply A)
      → Inv b.storage s.store
      → Inv b.storage k.0.store
      → Inv b.storage (require_leader s k).0.store
  led-Inv s k i h = elim (Bool-cases (leads s)) [
    | inl e ↦ rw (e, require_leader) h
    | inr e ↦ rw (e, require_leader) i
  ]

  mint_job-Inv :
      (j : Job) (s : S b) → Inv b.storage s.store → Inv b.storage (mint_job b j s).0.store
  mint_job-Inv j s i = elim (Bool-cases (same j.id "")) [ inl e ↦ rw e i | inr e ↦ rw e i ]

  pub submit_job-Inv :
      (j : Option Job) (now : Time) (s : S b)
      → Inv b.storage s.store
      → Inv b.storage (submit_job b j now s).0.store
  unfolding submit_job
  submit_job-Inv none now s i = led-Inv s _ i i
  submit_job-Inv (some j) now s i =
      led-Inv s _ i (elim (Bool-cases (same (get_command j.spec) "")) [
        | inl e ↦ rw e i
        | inr e ↦ elim (Bool-cases (not (cron_ok b (get_cron_expr j.schedule) now))) [
          | inl c ↦ rw (e, c) i
          | inr c ↦
              let s1 = (mint_job b j s).0 in
              let j1 = (mint_job b j s).1 in
              let minted = mint_job-Inv j s i in
              elim (Bool-cases
                (not (is_empty j1.depends_on) && would_create_cycle b j1.id j1.depends_on s1)) [
                  | inl d ↦ rw (e, c, d) minted
                  | inr d ↦ rw (e, c, d) (accept_job-Inv j1 now s1 minted)
                ]
        ]
      ])
