-- ===== src/Scheduler/Unforgotten.antt =====
-- internal/scheduler: that a node forgets no queued job for as long as it leads.
use distsched.Base.{◌≡◌, refl, true, false, List, [], ◌∷◌, String, arith}
use distsched.Api.{Job, Time}
use distsched.Cluster.Node.{Env}
use distsched.Store.{found, not_found}
use distsched.Scheduler.State.{Backend, leads}
use distsched.Scheduler.Replication.{S, ack_peer}
use distsched.Scheduler.Deps.{is_queued}
use distsched.Scheduler.Workers.{Replicated, on_replicated, request_vote}
use distsched.Scheduler.Safe.{Inv}
use distsched.Scheduler.History.{
  Call, submit, cancel, poll, report, register, beat, reap, timer, vote, replicated, stand, counted,
  lead, step_down, serve, run, run-Inv, serve-Inv, empty-Inv,
}
use distsched.Scheduler.Acyclic.{IsListable}
use distsched.Scheduler.Due.{Watch, Due, Tends}
use distsched.Scheduler.Armed.{IsReadable, timer_fired-Tends}
use distsched.Scheduler.Promised.{Cancels}
use distsched.Scheduler.Reported.{report_task-Tends}
use distsched.Scheduler.Leased.{poll_task-Tends}
use distsched.Scheduler.Attended.{
  submit_job-Tends, cancel_job-Tends, register_worker-Tends, heartbeat-Tends, reaper_tick-Tends,
}
use distsched.Scheduler.Relisted.{on_become_leader-Tends}

module _ (b : Backend) where
  abbrev NotStepDown : Call → Type 0
  NotStepDown step_down = ⊥
  NotStepDown _ = Unit {0}

  -- The node leads after each of the calls, and none of them is the end of a leadership.
  abbrev pub KeepsLeading : List Call → S b → Type 0
  KeepsLeading [] s = Unit {0}
  KeepsLeading (c ∷ cs) s =
      NotStepDown c × (leads (serve b c s) ≡ true) × KeepsLeading cs (serve b c s)

  module _ (readable : IsReadable b) (cancels : Cancels b) (listable : IsListable b) where
    -- A call that changes no more than the node.
    node_only :
        (k : Watch) (s s' : S b)
        → leads s' ≡ true
        → s'.closed ≡ s.closed
        → s'.queue ≡ s.queue
        → s'.retry_timers ≡ s.retry_timers
        → s'.store ≡ s.store
        → Tends b k s
        → Tends b k s'
    node_only k s s' l c q t d h =
        rw (l, c, q, t, d)
          (record {
            steady = record {
              leading = refl;
              running = h.steady.running;
              queue = h.steady.queue;
              keyed = h.steady.keyed;
            };
            due = h.due;
          })

    on_replicated-frame :
        (e : Env) (p : String) (r : Replicated) (s : S b)
        → ((on_replicated b e p r s).closed ≡ s.closed)
          × ((on_replicated b e p r s).queue ≡ s.queue)
          × ((on_replicated b e p r s).retry_timers ≡ s.retry_timers)
          × ((on_replicated b e p r s).store ≡ s.store)
    unfolding on_replicated ack_peer
    on_replicated-frame e p r s = ground arith

    serve-Tends :
        (c : Call) (k : Watch) (s : S b)
        → NotStepDown c
        → leads (serve b c s) ≡ true
        → Inv b.storage s.store
        → Tends b k s
        → Tends b k (serve b c s)
    unfolding serve request_vote
    serve-Tends (submit j now) k s n l i h = submit_job-Tends b k readable cancels j now s h
    serve-Tends (cancel id now) k s n l i h = cancel_job-Tends b k readable cancels id now s h
    serve-Tends (poll w m now) k s n l i h = poll_task-Tends b readable k w m now s h
    serve-Tends (report t r msg now) k s n l i h =
        report_task-Tends b readable cancels k t r msg now s h
    serve-Tends (register w now) k s n l i h = register_worker-Tends b k w now s h
    serve-Tends (beat w ids now) k s n l i h = heartbeat-Tends b k w ids now s h
    serve-Tends (reap now) k s n l i h = reaper_tick-Tends b k readable cancels now s h
    serve-Tends (timer id) k s n l i h = timer_fired-Tends b readable k id s h
    serve-Tends (vote e t c) k s n l i h =
        node_only k s (serve b (vote e t c) s) l refl refl refl refl h
    serve-Tends (replicated e p r) k s n l i h =
        let (c, q, t, d) = on_replicated-frame e p r s in
        node_only k s (serve b (replicated e p r) s) l c q t d h
    serve-Tends (stand e) k s n l i h = node_only k s (serve b (stand e) s) l refl refl refl refl h
    serve-Tends (counted e el p rest r) k s n l i h =
        node_only k s (serve b (counted e el p rest r) s) l refl refl refl refl h
    serve-Tends (lead now) k s n l i h =
        on_become_leader-Tends b readable cancels listable k now s h.steady.leading h.steady.running
          i
    serve-Tends step_down k s n l i h = elim n [ ]

    run-Tends :
        (cs : List Call) (k : Watch) (s : S b)
        → KeepsLeading cs s
        → Inv b.storage s.store
        → Tends b k s
        → Tends b k (run b cs s)
    unfolding run
    run-Tends [] k s l i h = h
    run-Tends (c ∷ cs) k s l i h =
        let s1 = serve b c s in
        run-Tends cs k s1 l.2 (serve-Inv b c s i) (serve-Tends c k s l.0 l.1 i h)

    -- After any `Call`s from a store without jobs, a node that is not shut down starts a leadership,
    -- and leads on through any further `Call`s. Then every job stored as queued waits in the ready
    -- queue, or a timer is armed that will put it there. Reads and listings of jobs are taken to go
    -- through, and so are the writes of canceled jobs; other writes may fail.
    pub no_job_forgotten :
        (before after : List Call) (now : Time) (s : S b) (k : String) (j : Job)
        → ((id : String) → b.storage.get_job s.store id ≡ not_found)
        → leads (run b before s) ≡ true
        → (run b before s).closed ≡ false
        → KeepsLeading after (serve b (lead now) (run b before s))
        → b.storage.get_job (run b after (serve b (lead now) (run b before s))).store k ≡ found j
        → is_queued j.state ≡ true
        → Due k
            (run b after (serve b (lead now) (run b before s))).queue
            (run b after (serve b (lead now) (run b before s))).retry_timers
    unfolding serve
    no_job_forgotten before after now s k j none_yet led running keeps g q =
        let s1 = run b before s in
        let i = run-Inv b before s (empty-Inv b s none_yet) in
        let w : Watch = record { id = k; said = true } in
        let start = on_become_leader-Tends b readable cancels listable w now s1 led running i in
        let end =
          run-Tends after w (serve b (lead now) s1) keeps (serve-Inv b (lead now) s1 i) start in
        end.due refl j g q
