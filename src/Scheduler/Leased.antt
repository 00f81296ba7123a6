-- ===== src/Scheduler/Leased.antt =====
-- internal/scheduler: that the jobs stay due while tasks are leased.
use distsched.Base.{
  ℕ, zero, suc, ◌+◌, ◌≡◌, inl, inr, refl, false, not, List, [], ◌∷◌, ◌++◌, none, some, String, ℤ,
  same, arith, Bool-cases, Option-cases, leb, length, Option,
}
use distsched.Api.{Job, JobState, TaskAssignment, Time, as_time}
use distsched.Store.{found}
use distsched.Queue
use distsched.Queue.Refines.{pop_refines}
use distsched.Queue.Awaits.{waits-pop}
use distsched.Scheduler.State.{Backend}
use distsched.Scheduler.Replication.{S, put_job}
use distsched.Scheduler.Deps.{is_queued}
use distsched.Scheduler.Dispatch.{
  Round, stopped, skipped, leased, dispatch, poll_round, poll_loop, poll_task, worker_known,
  add_lease,
}
use distsched.Scheduler.Handlers.{after}
use distsched.Scheduler.Keeps.{Found-cases}
use distsched.Scheduler.Due.{Watch, IsDue, IsSteady, Tends, put_job-IsSteady, put_job-Tends}
use distsched.Scheduler.Armed.{IsReadable, pushed-Tends, spared, led-Tends}
use distsched.Scheduler.Promised.{written-NotQueued}

module _ (b : Backend) (readable : IsReadable b) (k : Watch) where
  -- Every job but `id` is due.
  abbrev Others : String → S b → Type 0
  Others id s = same id k.id ≡ false → IsDue b k s.queue s.retry_timers s.store

  dispatch-Tends :
      (worker_id id : String) (j : Job) (now : Time) (s : S b)
      → IsSteady b s
      → Others id s
      → b.storage.get_job s.store id ≡ found j
      → Tends b k (after b (dispatch b worker_id id j now s))
  unfolding dispatch add_lease
  dispatch-Tends worker_id id j now s h due g =
      let j' = record j {
        state = JobState.running;
        attempt = j.attempt + 1;
        assigned_worker_id = worker_id;
        scheduled_at = none;
        started_at = some now;
        updated_at = some now;
      } in
      let s0 = record s { minted = s.minted + 1 } in
      let s1 = (put_job b j' s0).0 in
      let steady = put_job-IsSteady b j' s0 h in
      let others : Others id s1 = λ there.
        (put_job-Tends b k j' s0 (λ x. refl) (record { steady = h; due = due there })).due in
      elim (Bool-cases (put_job b j' s0).1) [
        | inl p ↦
            let named = h.keyed id j g in
            rw (p, dispatch)
              (record {
                steady = steady;
                due = λ o i e w. elim (Bool-cases (same id k.id)) [
                  | inl here ↦
                      let off = written-NotQueued b k.id j' s0 p (rw named here) refl i e in
                      absurd cc
                  | inr there ↦ others there o i e w
                ];
              })
        | inr p ↦
            rw (p, dispatch)
              (pushed-Tends b k id j.priority (as_time j.created_at) s1 steady others)
      ]

  popped-IsSteady :
      (s : S b) → IsSteady b s → IsSteady b (record s { queue = (Queue.pop s.queue).0 })
  popped-IsSteady s h = record {
    leading = h.leading;
    running = h.running;
    queue = (pop_refines s.queue h.queue).0;
    keyed = h.keyed;
  }

  popped-IsDue :
      (s : S b)
      → Tends b k s
      → ((id : String) → (Queue.pop s.queue).1 ≡ some id → same id k.id ≡ false)
      → IsDue b k (Queue.pop s.queue).0 s.retry_timers s.store
  popped-IsDue s h other o j e w = elim (h.due o j e w) [
    | inl there ↦ inl (waits-pop k.id s.queue h.steady.queue there other)
    | inr u ↦ inr u
  ]

  apart :
      (o : Option String) (id : String)
      → o ≡ some id
      → same id k.id ≡ false
      → (i : String) → o ≡ some i
      → same i k.id ≡ false
  apart o id e f i g = ground arith

  poll_round-Tends :
      (worker_id : String) (now : Time) (s : S b)
      → Tends b k s
      → Tends b k (after b (poll_round b worker_id now s))
  unfolding poll_round
  poll_round-Tends worker_id now s h =
      let s1 = record s { queue = (Queue.pop s.queue).0 } in
      let steady = popped-IsSteady s h.steady in
      elim (Option-cases (Queue.pop s.queue).1) [
        | inl e ↦
            rw (e, poll_round)
              (record { steady = steady; due = popped-IsDue s h (λ i g. absurd cc) })
        | inr (id, e) ↦
            let others : Others id s1 =
              λ there. popped-IsDue s h (apart (Queue.pop s.queue).1 id e there) in
            elim (Found-cases b (b.storage.get_job s.store id)) [
              | inl (j, g) ↦ elim (Bool-cases (is_queued j.state)) [
                | inl t ↦
                    rw (e, poll_round)
                      (rw (g, poll_round)
                        (rw (t, poll_round) (dispatch-Tends worker_id id j now s1 steady others g)))
                | inr t ↦
                    rw (e, poll_round)
                      (rw (g, poll_round)
                        (rw (t, poll_round)
                          (record {
                            steady = steady;
                            due = spared b k id s1 (λ j' x. ground arith) others;
                          })))
              ]
              | inr (inl g) ↦
                  rw (e, poll_round)
                    (rw (g, poll_round)
                      (record {
                        steady = steady;
                        due = spared b k id s1 (λ j' x. absurd (ground arith)) others;
                      }))
              | inr (inr g) ↦ absurd (readable s.store id g)
            ]
      ]

  -- What the loop does after a round, with the rest of the loop as an argument.
  after_round-Tends :
      (next : List TaskAssignment → S b → S b × List TaskAssignment) (out : List TaskAssignment)
      (r : Round (S b))
      → ((o : List TaskAssignment) (s1 : S b) → Tends b k s1 → Tends b k (next o s1).0)
      → Tends b k (after b r)
      → Tends b k
          (elim r as (λ x. S b × List TaskAssignment) [
            | stopped s1 ↦ (s1, out)
            | skipped s1 ↦ next out s1
            | leased s1 task ↦ next (out ++ task ∷ []) s1
          ]).0
  after_round-Tends next out (stopped s1) rest h = h
  after_round-Tends next out (skipped s1) rest h = rest out s1 h
  after_round-Tends next out (leased s1 task) rest h = rest (out ++ task ∷ []) s1 h

  poll_loop-Tends :
      (fuel n : ℕ) (worker_id : String) (now : Time) (out : List TaskAssignment) (s : S b)
      → Tends b k s
      → Tends b k (poll_loop b fuel n worker_id now out s).0
  unfolding poll_loop
  poll_loop-Tends zero n worker_id now out s h = h
  poll_loop-Tends (suc fuel) n worker_id now out s h = elim (Bool-cases (leb n (length out))) [
    | inl e ↦ rw (e, poll_loop) h
    | inr e ↦
        rw (e, poll_loop)
          (after_round-Tends (poll_loop b fuel n worker_id now) out (poll_round b worker_id now s)
            (λ o s1 h1. poll_loop-Tends fuel n worker_id now o s1 h1)
            (poll_round-Tends worker_id now s h))
  ]

  pub poll_task-Tends :
      (worker_id : String) (max_tasks : ℤ) (now : Time) (s : S b)
      → Tends b k s
      → Tends b k (poll_task b worker_id max_tasks now s).0
  unfolding poll_task
  poll_task-Tends worker_id max_tasks now s h =
      led-Tends b k s _ h (elim (Bool-cases (not (worker_known worker_id s))) [
        | inl e ↦ rw e h
        | inr e ↦ rw e (poll_loop-Tends _ _ worker_id now [] s h)
      ])
