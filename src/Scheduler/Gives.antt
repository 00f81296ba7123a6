-- ===== src/Scheduler/Gives.antt =====
-- internal/scheduler/dispatch.go: that a poll is not answered with nothing while a job waits.
use distsched.Base.{
  ℕ, zero, suc, ◌+◌, ◌≤◌, ◌<◌, ◌≡◌, inl, inr, refl, ap, ◌∙◌, true, false, not, List, [], ◌∷◌, ◌++◌,
  Option, none, some, String, ℤ, pos, negsuc, same, arith, length, leb, Bool-cases, Option-cases,
}
use distsched.Api.{Job, JobState, TaskAssignment, Time}
use distsched.Store.{found}
use distsched.Queue
use distsched.Queue.{PriorityQueue}
use distsched.Queue.Ends.{IsQueue}
use distsched.Queue.Index.{view}
use distsched.Queue.Length.{length-pop}
use distsched.Queue.Waiting.{Waiting, waits, Popped, nothing, next}
use distsched.Queue.Refines.{pop_refines}
use distsched.Queue.Awaits.{waits-pop}
use distsched.Scheduler.State.{Backend, ok, leads, require_leader}
use distsched.Scheduler.Replication.{S, put_job}
use distsched.Scheduler.Deps.{is_queued}
use distsched.Scheduler.Dispatch.{
  Round, stopped, skipped, leased, add_lease, dispatch, poll_round, poll_loop, poll_task,
  worker_known, batch_size,
}
use distsched.Scheduler.Keeps.{Found-cases}

gone : (m : Waiting) (k : String) → m k ≡ none → ¬ (waits m k ≡ true)
gone m k n h = cc

never_empty :
    (m m' : Waiting) (o : Option String) (k : String)
    → Popped m m' o
    → o ≡ none
    → waits m k ≡ true
    → ⊥
never_empty m m' o k (nothing all same_map) e h = gone m k (all k) h
never_empty m m' o k (next id first taken) e h = absurd (ground arith)

batch_pos : (n : ℤ) → 1 ≤ batch_size n
unfolding batch_size
batch_pos (pos zero) = omega arith
batch_pos (pos (suc n)) = ground arith
batch_pos (negsuc n) = omega arith

module _ (b : Backend) where
  -- The job `k` waits, and is stored as queued.
  record Ready (k : String) (q : PriorityQueue) (d : b.storage.Db) : Type 0 where
    queue : IsQueue q
    waiting : waits (view q) k ≡ true
    job : Job
    stored : b.storage.get_job d k ≡ found job
    queued : is_queued job.state ≡ true

  abbrev IsReady : String → S b → Type 0
  IsReady k s = Ready k s.queue s.store

  -- A round leases a task, or takes a job that is not queued from a queue that keeps `k`.
  abbrev GoesOn : ℕ → String → Round (S b) → Type 0
  GoesOn n k (stopped s) = ⊥
  GoesOn n k (skipped s) = (length s.queue.h ≡ n) × IsReady k s
  GoesOn n k (leased s t) = Unit {0}

  -- Every write of a job goes through.
  abbrev pub Writes : Type 0
  Writes = (j : Job) (d : b.storage.Db) → (b.storage.put_job j d).1 ≡ true

  done : Writes → (j : Job) (s : S b) → not (put_job b j s).1 ≡ false
  unfolding put_job
  done writes j s = let w = writes j s.store in ground arith

  dispatch-GoesOn :
      (n : ℕ) (k worker_id id : String) (j : Job) (now : Time) (s : S b)
      → Writes
      → GoesOn n k (dispatch b worker_id id j now s)
  unfolding dispatch add_lease
  dispatch-GoesOn n k worker_id id j now s writes =
      let j' = record j {
        state = JobState.running;
        attempt = j.attempt + 1;
        assigned_worker_id = worker_id;
        scheduled_at = none;
        started_at = some now;
        updated_at = some now;
      } in
      rw (done writes j' (record s { minted = s.minted + 1 }), dispatch) tt

  -- The job `id` that is popped is not stored as queued.
  passed :
      (k id : String) (s : S b)
      → IsReady k s
      → (Queue.pop s.queue).1 ≡ some id
      → ((j : Job) → b.storage.get_job s.store id ≡ found j → is_queued j.state ≡ false)
      → IsReady k (record s { queue = (Queue.pop s.queue).0 })
  passed k id s h e off = record {
    queue = (pop_refines s.queue h.queue).0;
    waiting = waits-pop k s.queue h.queue h.waiting (λ i g. elim (Bool-cases (same i k)) [
      | inr other ↦ other
      | inl here ↦
          let at_k : id ≡ k = ground arith in
          let q = h.queued in
          let no = off h.job (ap (b.storage.get_job s.store) at_k ∙ h.stored) in absurd cc
    ]);
    job = h.job;
    stored = h.stored;
    queued = h.queued;
  }

  poll_round-GoesOn :
      (k worker_id : String) (now : Time) (s : S b)
      → Writes
      → IsReady k s
      → GoesOn (length (Queue.pop s.queue).0.h) k (poll_round b worker_id now s)
  unfolding poll_round
  poll_round-GoesOn k worker_id now s writes h =
      let s1 = record s { queue = (Queue.pop s.queue).0 } in
      elim (Option-cases (Queue.pop s.queue).1) [
        | inl e ↦ absurd (
            never_empty (view s.queue) (view (Queue.pop s.queue).0) (Queue.pop s.queue).1 k
              (pop_refines s.queue h.queue).1 e h.waiting)
        | inr (id, e) ↦ elim (Found-cases b (b.storage.get_job s.store id)) [
          | inl (j, g) ↦ elim (Bool-cases (is_queued j.state)) [
            | inl t ↦
                rw (e, poll_round)
                  (rw (g, poll_round)
                    (rw (t, poll_round) (dispatch-GoesOn _ k worker_id id j now s1 writes)))
            | inr t ↦
                rw (e, poll_round)
                  (rw (g, poll_round)
                    (rw (t, poll_round) (refl, passed k id s h e (λ i x. ground arith))))
          ]
          | inr (inl g) ↦
              rw (e, poll_round)
                (rw (g, poll_round) (refl, passed k id s h e (λ i x. absurd (ground arith))))
          | inr (inr g) ↦
              rw (e, poll_round)
                (rw (g, poll_round) (refl, passed k id s h e (λ i x. absurd (ground arith))))
        ]
      ]

  length-snoc_pos : (out : List TaskAssignment) (t : TaskAssignment) → 1 ≤ length (out ++ t ∷ [])
  length-snoc_pos [] t = omega arith
  length-snoc_pos (x ∷ xs) t = omega arith

  abbrev Loop : Type 0
  Loop = List TaskAssignment → S b → S b × List TaskAssignment

  abbrev go_on : Loop → List TaskAssignment → Round (S b) → S b × List TaskAssignment
  go_on loop out r = elim r as (λ x. S b × List TaskAssignment) [
    | stopped s1 ↦ (s1, out)
    | skipped s1 ↦ loop out s1
    | leased s1 task ↦ loop (out ++ task ∷ []) s1
  ]

  -- What has been leased stays leased.
  stays_leased :
      (loop : Loop) (out : List TaskAssignment) (r : Round (S b))
      → 1 ≤ length out
      → ((o : List TaskAssignment) (s : S b) → 1 ≤ length o → 1 ≤ length (loop o s).1)
      → 1 ≤ length (go_on loop out r).1
  stays_leased loop out (stopped s1) h f = h
  stays_leased loop out (skipped s1) h f = f out s1 h
  stays_leased loop out (leased s1 task) h f = f (out ++ task ∷ []) s1 (length-snoc_pos out task)

  poll_loop_keeps :
      (fuel n : ℕ) (worker_id : String) (now : Time) (out : List TaskAssignment) (s : S b)
      → 1 ≤ length out
      → 1 ≤ length (poll_loop b fuel n worker_id now out s).1
  unfolding poll_loop
  poll_loop_keeps zero n worker_id now out s h = h
  poll_loop_keeps (suc fuel) n worker_id now out s h = elim (Bool-cases (leb n (length out))) [
    | inl e ↦ rw (e, poll_loop) h
    | inr e ↦
        rw (e, poll_loop)
          (stays_leased (poll_loop b fuel n worker_id now) out (poll_round b worker_id now s) h
            (λ o s1 g. poll_loop_keeps fuel n worker_id now o s1 g))
  ]

  leases_one :
      (loop : Loop) (n : ℕ) (k : String) (r : Round (S b))
      → GoesOn n k r
      → ((o : List TaskAssignment) (s : S b) → 1 ≤ length o → 1 ≤ length (loop o s).1)
      → ((s : S b) → length s.queue.h ≡ n → IsReady k s → 1 ≤ length (loop [] s).1)
      → 1 ≤ length (go_on loop [] r).1
  leases_one loop n k (stopped s1) h f g = elim h [ ]
  leases_one loop n k (skipped s1) h f g = g s1 h.0 h.1
  leases_one loop n k (leased s1 task) h f g = f (task ∷ []) s1 (omega arith)

  poll_loop_leases :
      (fuel n : ℕ) (k worker_id : String) (now : Time) (s : S b)
      → Writes
      → 1 ≤ n
      → length s.queue.h < fuel
      → IsReady k s
      → 1 ≤ length (poll_loop b fuel n worker_id now [] s).1
  unfolding poll_loop
  poll_loop_leases zero n k worker_id now s writes most enough h = absurd (omega arith)
  poll_loop_leases (suc fuel) n k worker_id now s writes most enough h =
      let room : leb n 0 ≡ false = ground arith in
      elim (Option-cases (Queue.pop s.queue).1) [
        | inl e ↦ absurd (
            never_empty (view s.queue) (view (Queue.pop s.queue).0) (Queue.pop s.queue).1 k
              (pop_refines s.queue h.queue).1 e h.waiting)
        | inr (id, popped) ↦
            let shorter = length-pop s.queue id popped in
            rw (room, poll_loop)
              (leases_one (poll_loop b fuel n worker_id now) _ k (poll_round b worker_id now s)
                (poll_round-GoesOn k worker_id now s writes h)
                (λ o s1 g. poll_loop_keeps fuel n worker_id now o s1 g)
                (λ s1 size r.
                  poll_loop_leases fuel n k worker_id now s1 writes most (omega arith) r))
      ]

  -- On a leader whose writes of jobs go through, and with a job in the ready queue that is stored as
  -- queued, a poll of a known worker is answered with at least one task, whatever else the queue holds.
  pub poll_gives :
      (k worker_id : String) (max_tasks : ℤ) (now : Time) (s : S b) (j : Job)
      → Writes
      → leads s ≡ true
      → worker_known worker_id s ≡ true
      → IsQueue s.queue
      → waits (view s.queue) k ≡ true
      → b.storage.get_job s.store k ≡ found j
      → is_queued j.state ≡ true
      → (out : List TaskAssignment) × ((poll_task b worker_id max_tasks now s).1 ≡ ok out)
        × (1 ≤ length out)
  unfolding poll_task Queue.size
  poll_gives k worker_id max_tasks now s j writes led known v w g q =
      let h : IsReady k s = record { queue = v; waiting = w; job = j; stored = g; queued = q } in
      let out = (poll_loop b (length s.queue.h + 1) (batch_size max_tasks) worker_id now [] s).1 in
      (
        out,
        rw (led, require_leader) (rw known refl),
        poll_loop_leases (length s.queue.h + 1) (batch_size max_tasks) k worker_id now s writes
            (batch_pos max_tasks) (omega arith) h,
      )
