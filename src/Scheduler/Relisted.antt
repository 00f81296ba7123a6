-- ===== src/Scheduler/Relisted.antt =====
-- internal/scheduler/recovery.go: that a new leader makes every job that is stored as queued due.
use mathlib.Core.List.{Memᴰ}
use mathlib.Core.List.Memᴰ
use distsched.Base.{
  ◌≡◌, ◌⊎◌, inl, inr, sym, true, false, List, [], ◌∷◌, some, String, same, arith, Bool-cases,
  Option-cases, ◌-ℤ◌, ltb_ℤ,
}
use distsched.Api.{Job, JobState, Time, as_time}
use distsched.Queue
use distsched.Queue.Ends.{IsQueue}
use distsched.Queue.{PriorityQueue}
use distsched.Queue.Refines.{empty-IsQueue}
use distsched.Scheduler.State.{Backend, leads}
use distsched.Scheduler.Replication.{S, seed_replication}
use distsched.Scheduler.Deps.{terminal, is_queued, is_pending, add_deps, try_promote}
use distsched.Scheduler.Recovery.{
  clear_scheduling_state, rebuild_job, rebuild_jobs, promote_pending, rebuild_scheduling_state,
  on_become_leader,
}
use distsched.Scheduler.Safe.{Inv}
use distsched.Scheduler.Keeps.{Found-cases}
use distsched.Scheduler.Rebuild.{indexed, enqueued, by_state}
use distsched.Scheduler.Acyclic.{IsListable}
use distsched.Scheduler.Due.{Watch, IsDue, IsSteady, Tends}
use distsched.Scheduler.Armed.{IsReadable, pushed-Tends, arm_enqueue-Tends}
use distsched.Scheduler.Promised.{Cancels, try_promote-Tends}
use distsched.Scheduler.Reported.{handle_failure-Tends}

-- The rest of the listing has a queued job `k`.
abbrev Listed : String → List Job → Type 0
Listed k [] = ⊥
Listed k (j ∷ js) = ((same j.id k ≡ true) × (is_queued j.state ≡ true)) ⊎ Listed k js

same_refl : (x : String) → same x x ≡ true
same_refl x = ground arith

Listed-if :
    (k : String) (j : Job) (js : List Job)
    → Memᴰ j js
    → j.id ≡ k
    → is_queued j.state ≡ true
    → Listed k js
Listed-if k j [] m e q = absurd (Memᴰ.not-nil m)
Listed-if k j (i ∷ js) m e q = elim (Memᴰ.cases_cons m) [
  | inl x ↦ inl (rw (sym x) (rw e (same_refl k)), rw (sym x) q)
  | inr later ↦ inr (Listed-if k j js later e q)
]

queued_state : (x : JobState) → is_queued x ≡ true → x ≡ JobState.queued
queued_state x h = ground arith

cleared-IsQueue : (q : PriorityQueue) → IsQueue (Queue.clear q)
unfolding Queue.clear Queue.empty
cleared-IsQueue q = empty-IsQueue

module _ (b : Backend) (readable : IsReadable b) (cancels : Cancels b) where
  enqueued-Tends :
      (k : Watch) (j : Job) (now : Time) (s : S b)
      → IsSteady b s
      → (same j.id k.id ≡ false → IsDue b k s.queue s.retry_timers s.store)
      → Tends b k (enqueued b j now s)
  unfolding enqueued
  enqueued-Tends k j now s h due = elim (Option-cases j.scheduled_at) [
    | inl e ↦ rw (e, enqueued) (pushed-Tends b k j.id j.priority (as_time j.created_at) s h due)
    | inr (at, e) ↦ elim (Bool-cases (ltb_ℤ now at)) [
      | inl t ↦ rw (e, enqueued) (rw t (arm_enqueue-Tends b readable k j.id (at -ℤ now) s h due))
      | inr t ↦
          rw (e, enqueued) (rw t (pushed-Tends b k j.id j.priority (as_time j.created_at) s h due))
    ]
  ]

  indexed-Tends : (k : Watch) (j : Job) (s : S b) → Tends b k s → Tends b k (indexed b j s)
  unfolding indexed add_deps
  indexed-Tends k j s h = elim (Bool-cases (terminal j.state)) [ inl t ↦ rw t h | inr t ↦ rw t h ]

  rebuild_job-Tends :
      (k : Watch) (j : Job) (now : Time) (s : S b) → Tends b k s → Tends b k (rebuild_job b j now s)
  unfolding rebuild_job indexed enqueued
  rebuild_job-Tends k j now s h =
      let s1 = indexed b j s in
      let first = indexed-Tends k j s h in
      by_state b (Tends b k) j.state s1 _ _ first
        (enqueued-Tends k j now s1 first.steady (λ there. first.due))
        (λ t. handle_failure-Tends b readable cancels k j _ now s1 first)

  -- A queued job of the listing is due once it has been rebuilt.
  rebuild_job_self :
      (k : Watch) (j : Job) (now : Time) (s : S b)
      → IsSteady b s
      → same j.id k.id ≡ true
      → is_queued j.state ≡ true
      → Tends b k (rebuild_job b j now s)
  unfolding rebuild_job indexed enqueued
  rebuild_job_self k j now s h here q =
      let s1 = indexed b j s in
      let unsaid : Watch = record { id = k.id; said = false } in
      let first =
        indexed-Tends unsaid j s (record { steady = h; due = λ o. absurd (ground arith) }) in
      let e = queued_state j.state q in
      rw (e, rebuild_job) (enqueued-Tends k j now s1 first.steady (λ there. absurd (ground arith)))

  rebuild_jobs-Tends :
      (k : Watch) (js : List Job) (now : Time) (s : S b)
      → Tends b k s
      → Tends b k (rebuild_jobs b js now s)
  unfolding rebuild_jobs
  rebuild_jobs-Tends k [] now s h = h
  rebuild_jobs-Tends k (j ∷ js) now s h =
      rebuild_jobs-Tends k js now (rebuild_job b j now s) (rebuild_job-Tends k j now s h)

  rebuild_jobs-Listed :
      (k : Watch) (js : List Job) (now : Time) (s : S b)
      → IsSteady b s
      → Listed k.id js
      → Tends b k (rebuild_jobs b js now s)
  unfolding rebuild_jobs
  rebuild_jobs-Listed k [] now s h l = elim l [ ]
  rebuild_jobs-Listed k (j ∷ js) now s h (inl (here, q)) =
      rebuild_jobs-Tends k js now (rebuild_job b j now s) (rebuild_job_self k j now s h here q)
  rebuild_jobs-Listed k (j ∷ js) now s h (inr l) =
      let unsaid : Watch = record { id = k.id; said = false } in
      let step =
        rebuild_job-Tends unsaid j now s
          (record { steady = h; due = λ o. absurd (ground arith) }) in
      rebuild_jobs-Listed k js now (rebuild_job b j now s) step.steady l

  promote_pending-Tends :
      (k : Watch) (js : List Job) (now : Time) (s : S b)
      → Tends b k s
      → Tends b k (promote_pending b js now s)
  unfolding promote_pending
  promote_pending-Tends k [] now s h = h
  promote_pending-Tends k (j ∷ js) now s h = elim (Bool-cases (is_pending j.state)) [
    | inl e ↦
        rw (e, promote_pending)
          (promote_pending-Tends k js now (try_promote b j.id now s)
            (try_promote-Tends b readable cancels k j.id now s h))
    | inr e ↦ rw (e, promote_pending) (promote_pending-Tends k js now s h)
  ]

  cleared-IsSteady :
      (s : S b)
      → leads s ≡ true
      → s.closed ≡ false
      → Inv b.storage s.store
      → IsSteady b (clear_scheduling_state b s)
  unfolding clear_scheduling_state Queue.clear
  cleared-IsSteady s l c i = record {
    leading = l;
    running = c;
    queue = cleared-IsQueue s.queue;
    keyed = i.keyed;
  }

  rebuilt-Tends :
      (k : Watch) (js : List Job) (now : Time) (s : S b)
      → b.storage.list_jobs s.store ≡ some js
      → IsSteady b s
      → Tends b k (rebuild_jobs b js now s)
  rebuilt-Tends k js now s e h = elim (Found-cases b (b.storage.get_job s.store k.id)) [
    | inl (j, g) ↦ elim (Bool-cases (is_queued j.state)) [
      | inl q ↦
          let here = (b.storage.list_jobs_iff s.store js j e).1 k.id g in
          rebuild_jobs-Listed k js now s h (Listed-if k.id j js here (h.keyed k.id j g) q)
      | inr q ↦
          rebuild_jobs-Tends k js now s
            (record { steady = h; due = λ o j' x w. absurd (ground arith) })
    ]
    | inr (inl g) ↦
        rebuild_jobs-Tends k js now s
          (record { steady = h; due = λ o j' x w. absurd (ground arith) })
    | inr (inr g) ↦ absurd (readable s.store k.id g)
  ]

  pub on_become_leader-Tends :
      IsListable b
      → (k : Watch) (now : Time) (s : S b) → leads s ≡ true
      → s.closed ≡ false
      → Inv b.storage s.store
      → Tends b k (on_become_leader b now s)
  unfolding on_become_leader seed_replication rebuild_scheduling_state clear_scheduling_state
  on_become_leader-Tends listable k now s l c i =
      let (js, e) = listable s.store in
      let s1 = clear_scheduling_state b s in
      let steady = cleared-IsSteady s l c i in
      rw (e, rebuild_scheduling_state)
        (promote_pending-Tends k js now (rebuild_jobs b js now s1)
          (rebuilt-Tends k js now s1 e steady))
