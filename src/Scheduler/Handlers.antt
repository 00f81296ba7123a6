-- ===== src/Scheduler/Handlers.antt =====
-- internal/scheduler: the handlers of dispatch.go, and what they do to the store.
use distsched.Base.{
  ℕ, zero, suc, ◌+◌, ◌≤◌, ◌≡◌, inl, inr, true, false, not, List, [], ◌∷◌, ◌++◌, none, some, String,
  ℤ, arith, Bool-cases, Option-cases, leb, length,
}
use distsched.Api.{Job, JobState, TaskResult, TaskAssignment, Time}
use distsched.Queue
use distsched.Store.{found}
use distsched.Scheduler.State.{Backend, Reply, leads, require_leader}
use distsched.Scheduler.Replication.{S, put_job}
use distsched.Scheduler.Deps.{terminal, is_running, is_queued}
use distsched.Scheduler.Dispatch.{
  Round, stopped, skipped, leased, dispatch, poll_round, poll_loop, poll_task, worker_known,
  report_running, report_task, remove_lease, get_lease, add_lease, handle_failure,
}
use distsched.Scheduler.Safe.{Inv, Safe, Safe-refl, Safe-trans, IsLive, AttemptOk}
use distsched.Scheduler.Writes.{put_job-Safe}
use distsched.Scheduler.Keeps.{Found-cases, IsLive-of}
use distsched.Scheduler.Results.{running_live, handle_failure-Safe, succeed-Safe}

queued_live : (x : JobState) → is_queued x ≡ true → terminal x ≡ false
queued_live x t = ground arith

queued_left : (x : JobState) (n most : ℕ) → AttemptOk x n most → is_queued x ≡ true → n + 1 ≤ most
queued_left x n most h t = ground arith

module _ (b : Backend) where
  -- A handler behind `requireLeader` is safe if its body is.
  pub require_leader-Safe :
      {A : Type 0} (s : S b) (k : S b × Reply A)
      → Inv b.storage s.store
      → Safe b.storage s.store k.0.store
      → Safe b.storage s.store (require_leader s k).0.store
  require_leader-Safe s k i safe = elim (Bool-cases (leads s)) [
    | inl e ↦ rw (e, require_leader) safe
    | inr e ↦ rw (e, require_leader) (Safe-refl b.storage s.store i)
  ]

  report_running-Safe :
      (task_id : String) (r : TaskResult) (msg : String) (j : Job) (now : Time) (s : S b)
      → Inv b.storage s.store
      → IsLive b.storage s.store j
      → Safe b.storage s.store (report_running b task_id r msg j now s).0.store
  unfolding report_running remove_lease
  report_running-Safe task_id TaskResult.succeeded msg j now s i live =
      succeed-Safe b j now (remove_lease task_id s) i live
  report_running-Safe task_id TaskResult.failed msg j now s i live =
      elim (Bool-cases (handle_failure b j msg now s).1) [
        | inl e ↦ rw (e, report_running) (handle_failure-Safe b j msg now s i live)
        | inr e ↦ rw (e, report_running) (handle_failure-Safe b j msg now s i live)
      ]
  report_running-Safe task_id TaskResult.unspecified msg j now s i live =
      Safe-refl b.storage s.store i

  pub report_task-Safe :
      (task_id : String) (r : TaskResult) (msg : String) (now : Time) (s : S b)
      → Inv b.storage s.store
      → Safe b.storage s.store (report_task b task_id r msg now s).0.store
  unfolding report_task remove_lease
  report_task-Safe task_id r msg now s i =
      require_leader-Safe s _ i (elim (Option-cases (get_lease task_id s)) [
        | inl e ↦ rw e (Safe-refl b.storage s.store i)
        | inr (l, e) ↦ elim (Found-cases b (b.storage.get_job s.store l.job_id)) [
          | inl (j, g) ↦ elim (Bool-cases (is_running j.state)) [
            | inl t ↦ rw e (
                rw g (
                  rw t (
                    report_running-Safe task_id r msg j now s i
                      (IsLive-of b s l.job_id j i g (running_live _ t)))))
            | inr t ↦ rw e (rw g (rw t (Safe-refl b.storage s.store i)))
          ]
          | inr (inl g) ↦ rw e (rw g (Safe-refl b.storage s.store i))
          | inr (inr g) ↦ rw e (rw g (Safe-refl b.storage s.store i))
        ]
      ])

  -- What a round leaves, whichever way it ends.
  abbrev pub after : Round (S b) → S b
  after (stopped s) = s
  after (skipped s) = s
  after (leased s t) = s

  dispatch-Safe :
      (worker_id id : String) (j : Job) (now : Time) (s : S b)
      → Inv b.storage s.store
      → b.storage.get_job s.store id ≡ found j
      → is_queued j.state ≡ true
      → Safe b.storage s.store (after (dispatch b worker_id id j now s)).store
  unfolding dispatch add_lease
  dispatch-Safe worker_id id j now s i g t =
      let j' = record j {
        state = JobState.running;
        attempt = j.attempt + 1;
        assigned_worker_id = worker_id;
        scheduled_at = none;
        started_at = some now;
        updated_at = some now;
      } in
      let s0 = record s { minted = s.minted + 1 } in
      let put =
        put_job-Safe b j' s0 i
          (record { attempts = queued_left _ _ _ (i.fits id j g).attempts t; filed = λ x. cc })
          (IsLive-of b s id j i g (queued_live _ t)) in
      elim (Bool-cases (not (put_job b j' s0).1)) [
        | inl p ↦ rw (p, dispatch) put
        | inr p ↦ rw (p, dispatch) put
      ]

  poll_round-Safe :
      (worker_id : String) (now : Time) (s : S b)
      → Inv b.storage s.store
      → Safe b.storage s.store (after (poll_round b worker_id now s)).store
  unfolding poll_round
  poll_round-Safe worker_id now s i =
      let s1 = record s { queue = (Queue.pop s.queue).0 } in
      elim (Option-cases (Queue.pop s.queue).1) [
        | inl e ↦ rw (e, poll_round) (Safe-refl b.storage s.store i)
        | inr (id, e) ↦ elim (Found-cases b (b.storage.get_job s.store id)) [
          | inl (j, g) ↦ elim (Bool-cases (is_queued j.state)) [
            | inl t ↦
                rw (e, poll_round)
                  (rw (g, poll_round)
                    (rw (t, poll_round) (dispatch-Safe worker_id id j now s1 i g t)))
            | inr t ↦
                rw (e, poll_round)
                  (rw (g, poll_round) (rw (t, poll_round) (Safe-refl b.storage s.store i)))
          ]
          | inr (inl g) ↦ rw (e, poll_round) (rw (g, poll_round) (Safe-refl b.storage s.store i))
          | inr (inr g) ↦ rw (e, poll_round) (rw (g, poll_round) (Safe-refl b.storage s.store i))
        ]
      ]

  -- What the loop does after a round, with the rest of the loop as an argument.
  after_round :
      (next : List TaskAssignment → S b → S b × List TaskAssignment) (out : List TaskAssignment)
      (s : S b) (r : Round (S b))
      → ((o : List TaskAssignment) (s1 : S b)
          → Inv b.storage s1.store
          → Safe b.storage s1.store (next o s1).0.store)
      → Safe b.storage s.store (after r).store
      → Safe b.storage s.store
          (elim r as (λ x. S b × List TaskAssignment) [
            | stopped s1 ↦ (s1, out)
            | skipped s1 ↦ next out s1
            | leased s1 task ↦ next (out ++ task ∷ []) s1
          ]).0.store
  after_round next out s (stopped s1) rest safe = safe
  after_round next out s (skipped s1) rest safe =
      Safe-trans b.storage s.store s1.store _ safe (λ i1. rest out s1 i1)
  after_round next out s (leased s1 task) rest safe =
      Safe-trans b.storage s.store s1.store _ safe (λ i1. rest (out ++ task ∷ []) s1 i1)

  poll_loop-Safe :
      (fuel n : ℕ) (worker_id : String) (now : Time) (out : List TaskAssignment) (s : S b)
      → Inv b.storage s.store
      → Safe b.storage s.store (poll_loop b fuel n worker_id now out s).0.store
  unfolding poll_loop
  poll_loop-Safe zero n worker_id now out s i = Safe-refl b.storage s.store i
  poll_loop-Safe (suc fuel) n worker_id now out s i = elim (Bool-cases (leb n (length out))) [
    | inl e ↦ rw (e, poll_loop) (Safe-refl b.storage s.store i)
    | inr e ↦
        rw (e, poll_loop)
          (after_round (poll_loop b fuel n worker_id now) out s (poll_round b worker_id now s)
            (λ o s1 i1. poll_loop-Safe fuel n worker_id now o s1 i1)
            (poll_round-Safe worker_id now s i))
  ]

  pub poll_task-Safe :
      (worker_id : String) (max_tasks : ℤ) (now : Time) (s : S b)
      → Inv b.storage s.store
      → Safe b.storage s.store (poll_task b worker_id max_tasks now s).0.store
  unfolding poll_task
  poll_task-Safe worker_id max_tasks now s i =
      require_leader-Safe s _ i (elim (Bool-cases (not (worker_known worker_id s))) [
        | inl e ↦ rw e (Safe-refl b.storage s.store i)
        | inr e ↦ rw e (poll_loop-Safe _ _ worker_id now [] s i)
      ])
