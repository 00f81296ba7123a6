-- ===== src/Scheduler/History.antt =====
-- internal/scheduler: any sequence of calls to one server, with the ticks of its reaper, the timers that
-- fire, and the elections, the start and the end of its leaderships. The entries that a follower is
-- sent are not among the calls.
use distsched.Base.{◌⊎◌, inl, inr, refl, ℕ, ◌≡◌, true, List, [], ◌∷◌, Option, String, ℤ, arith}
use distsched.Api.{Job, JobState, TaskResult, WorkerInfo, Time}
use distsched.Retry.{max_attempts}
use distsched.Cluster.Node.{Env, Election, VoteResult, start_election, count_vote}
use distsched.Store.{found, not_found}
use distsched.Scheduler.State.{Backend}
use distsched.Scheduler.Replication.{S, ack_peer}
use distsched.Scheduler.Deps.{terminal, timer_fired}
use distsched.Scheduler.Jobs.{submit_job, cancel_job}
use distsched.Scheduler.Dispatch.{poll_task, report_task}
use distsched.Scheduler.Recovery.{
  reaper_tick, on_become_leader, on_step_down, clear_scheduling_state,
}
use distsched.Scheduler.Workers.{
  Replicated, register_worker, heartbeat, request_vote, on_replicated,
}
use distsched.Scheduler.Safe.{AttemptOk, Inv, Safe, Safe-refl, Safe-trans}
use distsched.Scheduler.Handlers.{poll_task-Safe, report_task-Safe}
use distsched.Scheduler.Rebuild.{on_become_leader-Safe}
use distsched.Scheduler.Upkeep.{
  submit_job-Inv, cancel_job-Safe, timer_fired-Safe, reaper_tick-Safe, register_worker-Safe,
  heartbeat-Safe,
}

pub data Call : Type 0 where
  submit : Option Job → Time → Call
  cancel : (id : String) → Time → Call
  poll : (worker_id : String) → (max_tasks : ℤ) → Time → Call
  report : (task_id : String) → TaskResult → (msg : String) → Time → Call
  register : Option WorkerInfo → Time → Call
  beat : (worker_id : String) → (running_task_ids : List String) → Time → Call
  reap : Time → Call
  timer : (id : String) → Call
  vote : Env → (term : ℕ) → (candidate_id : String) → Call
  replicated : Env → (peer : String) → Replicated → Call
  stand : Env → Call
  counted : Env → Election → (peer : String) → (rest : List String) → VoteResult → Call
  lead : Time → Call
  step_down : Call

module _ (b : Backend) where
  unfoldable pub serve : Call → S b → S b
  serve (submit j now) s = (submit_job b j now s).0
  serve (cancel id now) s = (cancel_job b id now s).0
  serve (poll w n now) s = (poll_task b w n now s).0
  serve (report t r msg now) s = (report_task b t r msg now s).0
  serve (register w now) s = (register_worker b w now s).0
  serve (beat w ids now) s = (heartbeat b w ids now s).0
  serve (reap now) s = reaper_tick b now s
  serve (timer id) s = timer_fired b id s
  serve (vote e t c) s = (request_vote b e t c s).0
  serve (replicated e p r) s = on_replicated b e p r s
  serve (stand e) s = record s { node = (start_election e s.node).0 }
  serve (counted e el p rest r) s = record s { node = (count_vote e el p rest r s.node).0 }
  serve (lead now) s = on_become_leader b now s
  serve step_down s = on_step_down b s

  unfoldable pub run : List Call → S b → S b
  run [] s = s
  run (c ∷ cs) s = run cs (serve c s)

  abbrev pub IsNoSubmit : Call → Type 0
  IsNoSubmit (submit j now) = ⊥
  IsNoSubmit _ = Unit {0}

  abbrev pub NoSubmits : List Call → Type 0
  NoSubmits [] = Unit {0}
  NoSubmits (c ∷ cs) = IsNoSubmit c × NoSubmits cs

  on_replicated-store :
      (e : Env) (p : String) (r : Replicated) (s : S b) → (on_replicated b e p r s).store ≡ s.store
  unfolding on_replicated ack_peer
  on_replicated-store e p r s = ground arith

  pub serve-Safe :
      (c : Call) (s : S b)
      → IsNoSubmit c
      → Inv b.storage s.store
      → Safe b.storage s.store (serve c s).store
  unfolding serve request_vote on_step_down clear_scheduling_state
  serve-Safe (submit j now) s h i = elim h [ ]
  serve-Safe (cancel id now) s h i = cancel_job-Safe b id now s i
  serve-Safe (poll w n now) s h i = poll_task-Safe b w n now s i
  serve-Safe (report t r msg now) s h i = report_task-Safe b t r msg now s i
  serve-Safe (register w now) s h i = register_worker-Safe b w now s i
  serve-Safe (beat w ids now) s h i = heartbeat-Safe b w ids now s i
  serve-Safe (reap now) s h i = reaper_tick-Safe b now s i
  serve-Safe (timer id) s h i = timer_fired-Safe b id s i
  serve-Safe (vote e t c) s h i = Safe-refl b.storage s.store i
  serve-Safe (replicated e p r) s h i =
      rw (on_replicated-store e p r s) (Safe-refl b.storage s.store i)
  serve-Safe (stand e) s h i = Safe-refl b.storage s.store i
  serve-Safe (counted e el p rest r) s h i = Safe-refl b.storage s.store i
  serve-Safe (lead now) s h i = on_become_leader-Safe b now s i
  serve-Safe step_down s h i = Safe-refl b.storage s.store i

  pub Call-cases :
      (c : Call) → ((j : Option Job) × (now : Time) × (c ≡ submit j now)) ⊎ IsNoSubmit c
  Call-cases (submit j now) = inl (j, now, refl)
  Call-cases (cancel id now) = inr tt
  Call-cases (poll w n now) = inr tt
  Call-cases (report t r msg now) = inr tt
  Call-cases (register w now) = inr tt
  Call-cases (beat w ids now) = inr tt
  Call-cases (reap now) = inr tt
  Call-cases (timer id) = inr tt
  Call-cases (vote e t c) = inr tt
  Call-cases (replicated e p r) = inr tt
  Call-cases (stand e) = inr tt
  Call-cases (counted e el p rest r) = inr tt
  Call-cases (lead now) = inr tt
  Call-cases step_down = inr tt

  pub serve-Inv : (c : Call) (s : S b) → Inv b.storage s.store → Inv b.storage (serve c s).store
  unfolding serve
  serve-Inv c s i = elim (Call-cases c) [
    | inl (j, now, e) ↦ rw e (submit_job-Inv b j now s i)
    | inr h ↦ (serve-Safe c s h i).inv
  ]

  pub run-Inv : (cs : List Call) (s : S b) → Inv b.storage s.store → Inv b.storage (run cs s).store
  unfolding run
  run-Inv [] s i = i
  run-Inv (c ∷ cs) s i = run-Inv cs (serve c s) (serve-Inv c s i)

  run-Safe :
      (cs : List Call) (s : S b)
      → NoSubmits cs
      → Inv b.storage s.store
      → Safe b.storage s.store (run cs s).store
  unfolding run
  run-Safe [] s h i = Safe-refl b.storage s.store i
  run-Safe (c ∷ cs) s h i =
      Safe-trans b.storage s.store (serve c s).store _ (serve-Safe c s h.0 i)
        (λ i1. run-Safe cs (serve c s) h.1 i1)

  pub empty-Inv :
      (s : S b) → ((k : String) → b.storage.get_job s.store k ≡ not_found) → Inv b.storage s.store
  empty-Inv s h = record {
    keyed = λ k j g. ground (arith, h k);
    fits = λ k j g. ground (arith, h k);
  }

  -- From a store without jobs, after any sequence of `Call`s, with writes that fail or not: a stored
  -- job that is pending or queued has been attempted fewer times than its policy's maximum, and a running one is
  -- within it.
  pub attempts_bounded :
      (cs : List Call) (s : S b) (k : String) (j : Job)
      → ((id : String) → b.storage.get_job s.store id ≡ not_found)
      → b.storage.get_job (run cs s).store k ≡ found j
      → AttemptOk j.state j.attempt (max_attempts j.retry_policy)
  attempts_bounded cs s k j h g = ((run-Inv cs s (empty-Inv s h)).fits k j g).attempts

  -- From a store without jobs, after any sequence of `Call`s, with writes that fail or not: a stored
  -- job that has failed has its entry in the dead-letter bucket.
  pub failed_is_dead_lettered :
      (cs : List Call) (s : S b) (k : String) (j : Job)
      → ((id : String) → b.storage.get_job s.store id ≡ not_found)
      → b.storage.get_job (run cs s).store k ≡ found j
      → j.state ≡ JobState.failed
      → b.storage.is_dead_lettered (run cs s).store j.id ≡ true
  failed_is_dead_lettered cs s k j h g e = ((run-Inv cs s (empty-Inv s h)).fits k j g).filed e

  -- After any `Call`s from a store without jobs, further ones that submit nothing leave every job that
  -- has succeeded, failed or been canceled exactly as it was.
  pub terminal_absorbing :
      (before after : List Call) (s : S b) (k : String) (j : Job)
      → ((id : String) → b.storage.get_job s.store id ≡ not_found)
      → NoSubmits after
      → b.storage.get_job (run before s).store k ≡ found j
      → terminal j.state ≡ true
      → b.storage.get_job (run after (run before s)).store k ≡ found j
  terminal_absorbing before after s k j h n g t =
      (run-Safe after (run before s) n (run-Inv before s (empty-Inv s h))).kept k j g t
