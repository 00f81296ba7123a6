-- ===== src/Scheduler/Attended.antt =====
-- internal/scheduler: that the jobs stay due while clients call, workers register and beat, and the
-- reaper runs.
use distsched.Base.{
  ◌+◌, ◌≡◌, inl, inr, sym, refl, not, ◌&&◌, List, [], ◌∷◌, Option, none, some, String, same, arith,
  Bool-cases, Option-cases, is_empty, lookup, if◌then◌else◌, ◌∙◌,
}
use distsched.Api.{Job, JobState, WorkerInfo, Time, get_command, get_cron_expr}
use distsched.Scheduler.State.{Backend, Reply, ok, err, leads}
use distsched.Scheduler.Replication.{S, put_job, put_worker, append_repl}
use distsched.Scheduler.Deps.{is_running}
use distsched.Scheduler.Jobs.{
  would_create_cycle, cron_ok, accept_job, mint_job, submit_job, load_job, cancel_live,
  cancel_loaded, cancel_job,
}
use distsched.Scheduler.Dispatch.{get_lease, remove_lease}
use distsched.Scheduler.Recovery.{
  requeue_lease, requeue_all, requeue_leases_for_worker, requeue_dead, persist_workers, reap_once,
  reaper_tick,
}
use distsched.Scheduler.Workers.{register_worker, heartbeat}
use distsched.Scheduler.Keeps.{Found-cases}
use distsched.Scheduler.Due.{Watch, Tends, put_job-Tends}
use distsched.Scheduler.Armed.{IsReadable, dropped-Tends, led-Tends}
use distsched.Scheduler.Promised.{
  Cancels, written-NotQueued, cancel_cascade-Tends, place_new_job-Tends,
}
use distsched.Scheduler.Reported.{handle_failure-Tends}

module _ (b : Backend) (k : Watch) where
  put_worker-frame :
      (w : WorkerInfo) (s : S b)
      → (leads (put_worker b w s).0 ≡ leads s)
        × ((put_worker b w s).0.closed ≡ s.closed)
        × ((put_worker b w s).0.queue ≡ s.queue)
        × ((put_worker b w s).0.retry_timers ≡ s.retry_timers)
        × ((put_worker b w s).0.store ≡ (b.storage.put_worker w s.store).0)
  unfolding put_worker append_repl
  put_worker-frame w s = ground arith

  pub put_worker-Tends : (w : WorkerInfo) (s : S b) → Tends b k s → Tends b k (put_worker b w s).0
  put_worker-Tends w s h =
      let (l, c, q, t, d) = put_worker-frame w s in
      rw (l, c, q, t, d)
        (record {
          steady = record {
            leading = h.steady.leading;
            running = h.steady.running;
            queue = h.steady.queue;
            keyed =
                λ i j e. h.steady.keyed i j (sym (b.storage.get_job-put_worker s.store w i) ∙ e);
          };
          due = λ o j e r. h.due o j (sym (b.storage.get_job-put_worker s.store w k.id) ∙ e) r;
        })

  persist_workers-Tends :
      (ws : List WorkerInfo) (s : S b) → Tends b k s → Tends b k (persist_workers b ws s)
  unfolding persist_workers
  persist_workers-Tends [] s h = h
  persist_workers-Tends (w ∷ ws) s h =
      persist_workers-Tends ws (put_worker b w s).0 (put_worker-Tends w s h)

  put_then-Tends :
      {A : Type 0} (w : WorkerInfo) (s : S b) (x y : Reply A)
      → Tends b k s
      → Tends b k
          (if◌then◌else◌ {A = S b × Reply A}
            (put_worker b w s).1
            ((put_worker b w s).0, x)
            ((put_worker b w s).0, y)).0
  put_then-Tends w s x y h = elim (Bool-cases (put_worker b w s).1) [
    | inl p ↦ rw p (put_worker-Tends w s h)
    | inr p ↦ rw p (put_worker-Tends w s h)
  ]

  pub register_worker-Tends :
      (w : Option WorkerInfo) (now : Time) (s : S b)
      → Tends b k s
      → Tends b k (register_worker b w now s).0
  unfolding register_worker
  register_worker-Tends none now s h = led-Tends b k s _ h h
  register_worker-Tends (some w) now s h = led-Tends b k s _ h (elim (Bool-cases (same w.id "")) [
    | inl e ↦ rw e (put_then-Tends _ (record s { minted = s.minted + 1 }) _ _ h)
    | inr e ↦ rw e (put_then-Tends _ s _ _ h)
  ])

  pub heartbeat-Tends :
      (worker_id : String) (ids : List String) (now : Time) (s : S b)
      → Tends b k s
      → Tends b k (heartbeat b worker_id ids now s).0
  unfolding heartbeat
  heartbeat-Tends worker_id ids now s h =
      led-Tends b k s _ h (elim (Option-cases (lookup worker_id s.workers)) [
        | inl e ↦ rw e h
        | inr (w, e) ↦ rw e (put_then-Tends _ s _ _ h)
      ])

  module _ (readable : IsReadable b) (cancels : Cancels b) where
    requeue_lease-Tends :
        (task_id reason : String) (now : Time) (s : S b)
        → Tends b k s
        → Tends b k (requeue_lease b task_id reason now s)
    unfolding requeue_lease remove_lease
    requeue_lease-Tends task_id reason now s h = elim (Option-cases (get_lease task_id s)) [
      | inl e ↦ rw (e, requeue_lease) h
      | inr (l, e) ↦ elim (Found-cases b (b.storage.get_job s.store l.job_id)) [
        | inl (j, g) ↦ elim (Bool-cases (not (is_running j.state))) [
          | inl t ↦ rw (e, requeue_lease) (rw (g, requeue_lease) (rw (t, requeue_lease) h))
          | inr t ↦
              rw (e, requeue_lease)
                (rw (g, requeue_lease)
                  (rw (t, requeue_lease)
                    (handle_failure-Tends b readable cancels k j reason now _ h)))
        ]
        | inr (inl g) ↦ rw (e, requeue_lease) (rw (g, requeue_lease) h)
        | inr (inr g) ↦ rw (e, requeue_lease) (rw (g, requeue_lease) h)
      ]
    ]

    requeue_all-Tends :
        (ids : List String) (reason : String) (now : Time) (s : S b)
        → Tends b k s
        → Tends b k (requeue_all b ids reason now s)
    unfolding requeue_all
    requeue_all-Tends [] reason now s h = h
    requeue_all-Tends (id ∷ ids) reason now s h =
        requeue_all-Tends ids reason now _ (requeue_lease-Tends id reason now s h)

    requeue_dead-Tends :
        (ids : List String) (now : Time) (s : S b)
        → Tends b k s
        → Tends b k (requeue_dead b ids now s)
    unfolding requeue_dead requeue_leases_for_worker
    requeue_dead-Tends [] now s h = h
    requeue_dead-Tends (id ∷ ids) now s h =
        requeue_dead-Tends ids now _ (requeue_all-Tends _ "worker missed heartbeats" now s h)

    reap_once-Tends : (now : Time) (s : S b) → Tends b k s → Tends b k (reap_once b now s)
    unfolding reap_once
    reap_once-Tends now s h =
        requeue_all-Tends _ "lease deadline exceeded" now _
          (requeue_dead-Tends _ now _ (persist_workers-Tends _ s h))

    pub reaper_tick-Tends : (now : Time) (s : S b) → Tends b k s → Tends b k (reaper_tick b now s)
    unfolding reaper_tick
    reaper_tick-Tends now s h = elim (Bool-cases (leads s)) [
      | inl e ↦ rw (e, reaper_tick) (reap_once-Tends now s h)
      | inr e ↦ rw (e, reaper_tick) h
    ]

    cancel_live-Tends :
        (j : Job) (now : Time) (s : S b) → Tends b k s → Tends b k (cancel_live b j now s).0
    unfolding cancel_live
    cancel_live-Tends j now s h =
        let j' = record j { state = JobState.canceled; updated_at = some now } in
        let put = put_job-Tends b k j' s (λ x. refl) h in
        elim (Bool-cases (put_job b j' s).1) [
          | inl p ↦
              rw (p, cancel_live)
                (cancel_cascade-Tends b readable cancels k j.id _ now _ (
                  dropped-Tends b k j.id (put_job b j' s).0
                    (λ here. written-NotQueued b k.id j' s p here refl) put))
          | inr p ↦ rw (p, cancel_live) put
        ]

    unless_ended :
        (x : JobState) (r r1 r2 : S b × Reply Job)
        → Tends b k r.0
        → Tends b k r1.0
        → Tends b k r2.0
        → Tends b k
            (elim x as (λ y. S b × Reply Job) [
              | JobState.canceled ↦ r
              | JobState.succeeded ↦ r1
              | JobState.failed ↦ r1
              | _ ↦ r2
            ]).0
    unless_ended JobState.canceled r r1 r2 h h1 h2 = h
    unless_ended JobState.succeeded r r1 r2 h h1 h2 = h1
    unless_ended JobState.failed r r1 r2 h h1 h2 = h1
    unless_ended JobState.unspecified r r1 r2 h h1 h2 = h2
    unless_ended JobState.pending r r1 r2 h h1 h2 = h2
    unless_ended JobState.queued r r1 r2 h h1 h2 = h2
    unless_ended JobState.running r r1 r2 h h1 h2 = h2

    cancel_loaded-Tends :
        (r : Reply Job) (now : Time) (s : S b) → Tends b k s → Tends b k (cancel_loaded b r now s).0
    cancel_loaded-Tends (err e) now s h = h
    cancel_loaded-Tends (ok j) now s h =
        unless_ended j.state _ _ _ h h (cancel_live-Tends j now s h)

    pub cancel_job-Tends :
        (id : String) (now : Time) (s : S b) → Tends b k s → Tends b k (cancel_job b id now s).0
    unfolding cancel_job
    cancel_job-Tends id now s h =
        led-Tends b k s _ h (cancel_loaded-Tends (load_job b id s) now s h)

    mint_job-Tends : (j : Job) (s : S b) → Tends b k s → Tends b k (mint_job b j s).0
    mint_job-Tends j s h = elim (Bool-cases (same j.id "")) [ inl e ↦ rw e h | inr e ↦ rw e h ]

    accept_job-Tends :
        (j : Job) (now : Time) (s : S b) → Tends b k s → Tends b k (accept_job b j now s).0
    unfolding accept_job
    accept_job-Tends j now s h = place_new_job-Tends b readable cancels k _ now s h

    pub submit_job-Tends :
        (j : Option Job) (now : Time) (s : S b) → Tends b k s → Tends b k (submit_job b j now s).0
    unfolding submit_job
    submit_job-Tends none now s h = led-Tends b k s _ h h
    submit_job-Tends (some j) now s h =
        led-Tends b k s _ h (elim (Bool-cases (same (get_command j.spec) "")) [
          | inl e ↦ rw e h
          | inr e ↦ elim (Bool-cases (not (cron_ok b (get_cron_expr j.schedule) now))) [
            | inl c ↦ rw (e, c) h
            | inr c ↦
                let s1 = (mint_job b j s).0 in
                let j1 = (mint_job b j s).1 in
                let minted = mint_job-Tends j s h in
                elim (Bool-cases
                  (not (is_empty j1.depends_on) && would_create_cycle b j1.id j1.depends_on s1)) [
                    | inl d ↦ rw (e, c, d) minted
                    | inr d ↦ rw (e, c, d) (accept_job-Tends j1 now s1 minted)
                  ]
          ]
        ])
