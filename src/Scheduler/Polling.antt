-- ===== src/Scheduler/Polling.antt =====
-- internal/scheduler/dispatch.go: the rounds of the loop of `PollTask`.
use distsched.Base.{
  ℕ, zero, suc, ◌+◌, ◌<◌, ◌≡◌, refl, ap, inl, inr, not, List, [], ◌∷◌, ◌++◌, none, some, String,
  arith, length, leb, Bool-cases, Option-cases,
}
use distsched.Api.{Job, JobState, TaskAssignment, Time}
use distsched.Queue
use distsched.Queue.Length.{length-pop}
use distsched.Scheduler.State.{Backend}
use distsched.Scheduler.Replication.{S, append_repl, put_job}
use distsched.Scheduler.Deps.{is_queued}
use distsched.Scheduler.Dispatch.{
  Round, stopped, skipped, leased, add_lease, dispatch, poll_round, poll_loop,
}
use distsched.Scheduler.Keeps.{Found-cases}

module _ (b : Backend) where
  -- A round that does not stop the loop leaves a queue of `n` entries.
  abbrev Leaves : ℕ → Round (S b) → Type 0
  Leaves n (stopped s) = Unit {0}
  Leaves n (skipped s) = length s.queue.h ≡ n
  Leaves n (leased s t) = length s.queue.h ≡ n

  put_job-queue : (j : Job) (s : S b) → (put_job b j s).0.queue ≡ s.queue
  unfolding put_job append_repl
  put_job-queue j s = ground arith

  dispatch-Leaves :
      (worker_id id : String) (j : Job) (now : Time) (s : S b)
      → Leaves (length s.queue.h) (dispatch b worker_id id j now s)
  unfolding dispatch add_lease
  dispatch-Leaves worker_id id j now s =
      let j' = record j {
        state = JobState.running;
        attempt = j.attempt + 1;
        assigned_worker_id = worker_id;
        scheduled_at = none;
        started_at = some now;
        updated_at = some now;
      } in
      let s0 = record s { minted = s.minted + 1 } in
      elim (Bool-cases (not (put_job b j' s0).1)) [
        | inl p ↦ rw (p, dispatch) tt
        | inr p ↦ rw (p, dispatch) (ap (λ q. length q.h) (put_job-queue j' s0))
      ]

  poll_round-Leaves :
      (worker_id : String) (now : Time) (s : S b)
      → Leaves (length (Queue.pop s.queue).0.h) (poll_round b worker_id now s)
  unfolding poll_round
  poll_round-Leaves worker_id now s =
      let s1 = record s { queue = (Queue.pop s.queue).0 } in
      elim (Option-cases (Queue.pop s.queue).1) [
        | inl e ↦ rw (e, poll_round) tt
        | inr (id, e) ↦ elim (Found-cases b (b.storage.get_job s.store id)) [
          | inl (j, g) ↦ elim (Bool-cases (is_queued j.state)) [
            | inl t ↦
                rw (e, poll_round)
                  (rw (g, poll_round) (rw (t, poll_round) (dispatch-Leaves worker_id id j now s1)))
            | inr t ↦ rw (e, poll_round) (rw (g, poll_round) (rw (t, poll_round) refl))
          ]
          | inr (inl g) ↦ rw (e, poll_round) (rw (g, poll_round) refl)
          | inr (inr g) ↦ rw (e, poll_round) (rw (g, poll_round) refl)
        ]
      ]

  -- The next state of the loop, where it has one, and what the rest of it makes of that state.
  same_after :
      (next next' : List TaskAssignment → S b → S b × List TaskAssignment) (n : ℕ)
      (out : List TaskAssignment) (r : Round (S b))
      → Leaves n r
      → ((o : List TaskAssignment) (s1 : S b) → length s1.queue.h ≡ n → next o s1 ≡ next' o s1)
      → (elim r as (λ x. S b × List TaskAssignment) [
        | stopped s1 ↦ (s1, out)
        | skipped s1 ↦ next out s1
        | leased s1 task ↦ next (out ++ task ∷ []) s1
      ])
        ≡ (elim r as (λ x. S b × List TaskAssignment) [
          | stopped s1 ↦ (s1, out)
          | skipped s1 ↦ next' out s1
          | leased s1 task ↦ next' (out ++ task ∷ []) s1
        ])
  same_after next next' n out (stopped s1) l h = refl
  same_after next next' n out (skipped s1) l h = h out s1 l
  same_after next next' n out (leased s1 task) l h = h (out ++ task ∷ []) s1 l

  empty_stops :
      (worker_id : String) (now : Time) (s : S b)
      → (Queue.pop s.queue).1 ≡ none
      → poll_round b worker_id now s ≡ stopped (record s { queue = (Queue.pop s.queue).0 })
  unfolding poll_round
  empty_stops worker_id now s e = rw (e, poll_round) refl

  -- Where each of two supplies of fuel exceeds the entries of the queue, the loop does the same on both.
  poll_loop_fuel :
      (f f' n : ℕ) (worker_id : String) (now : Time) (out : List TaskAssignment) (s : S b)
      → length s.queue.h < f
      → length s.queue.h < f'
      → poll_loop b f n worker_id now out s ≡ poll_loop b f' n worker_id now out s
  unfolding poll_loop
  poll_loop_fuel zero f' n worker_id now out s h h' = absurd (omega arith)
  poll_loop_fuel (suc f) zero n worker_id now out s h h' = absurd (omega arith)
  poll_loop_fuel (suc f) (suc f') n worker_id now out s h h' =
      elim (Bool-cases (leb n (length out))) [
        | inl e ↦ rw (e, poll_loop) refl
        | inr e ↦ elim (Option-cases (Queue.pop s.queue).1) [
          | inl none_left ↦
              rw (e, poll_loop) (rw (empty_stops worker_id now s none_left, poll_loop) refl)
          | inr (id, popped) ↦
              let shorter = length-pop s.queue id popped in
              rw (e, poll_loop)
                (same_after (poll_loop b f n worker_id now) (poll_loop b f' n worker_id now) _ out
                  (poll_round b worker_id now s) (poll_round-Leaves worker_id now s)
                  (λ o s1 k. poll_loop_fuel f f' n worker_id now o s1 (omega arith) (omega arith)))
        ]
      ]

  -- The fuel of `poll_task` is enough: with any more of it, the loop of a poll comes to the same state
  -- and the same tasks.
  pub poll_loop_ends :
      (k n : ℕ) (worker_id : String) (now : Time) (s : S b)
      → poll_loop b (Queue.size s.queue + 1 + k) n worker_id now [] s
        ≡ poll_loop b (Queue.size s.queue + 1) n worker_id now [] s
  unfolding Queue.size
  poll_loop_ends k n worker_id now s =
      poll_loop_fuel _ _ n worker_id now [] s (omega arith) (omega arith)
