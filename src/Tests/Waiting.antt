-- ===== src/Tests/Waiting.antt =====
-- A leader over the in-memory store with two jobs and one worker, which takes one of them.
use distsched.Base.{
  ◌≡◌, ◌≤◌, length, refl, true, false, List, [], ◌∷◌, some, pos, lookup, insert, erase, elem, add,
  without, Option, none, String_discrete, arith,
}
use distsched.Api.{Job, JobState, TaskAssignment}
use distsched.Retry.{max_attempts}
use distsched.Queue
use distsched.Queue.{PriorityQueue}
use distsched.Queue.Ends.{IsQueue}
use distsched.Queue.Refines.{push_refines, empty-IsQueue}
use distsched.Queue.Awaits.{waits-push_self}
use distsched.Scheduler.Gives.{poll_gives}
use distsched.Store.{found, failed}
use distsched.Scheduler.State.{ok, leads}
use distsched.Scheduler.Replication.{
  S, append_repl, put_job, put_worker, seed_replication, number_from,
}
use distsched.Scheduler.Deps.{
  enqueue_job, arm_enqueue, check_deps, deps_satisfied, fire_time, make_ready, place_new_job,
  add_deps, add_edges,
}
use distsched.Scheduler.Jobs.{accept_job, submit_job}
use distsched.Scheduler.Dispatch.{
  batch_size, worker_known, add_lease, dispatch, poll_round, poll_loop, poll_task,
}
use distsched.Scheduler.Recovery.{
  on_become_leader, rebuild_scheduling_state, clear_scheduling_state, rebuild_jobs, rebuild_job,
  promote_pending,
}
use distsched.Scheduler.Workers.{register_worker}
use distsched.Scheduler.History.{Call, submit, poll, register, lead, serve, run}
use distsched.Scheduler.Acyclic.{IsListable}
use distsched.Scheduler.Armed.{IsReadable}
use distsched.Scheduler.Promised.{Cancels}
use distsched.Scheduler.Due.{Due}
use distsched.Scheduler.Unforgotten.{KeepsLeading, no_job_forgotten}
use distsched.Tests.Memory.{memory, listing, found_of}
use distsched.Tests.Fixture.{backend, server, job, worker, nothing_stored}

abbrev earlier : List Call
earlier = submit (some job) (pos 1) ∷ []

abbrev later : List Call
later =
    register (some worker) (pos 3)
    ∷ submit (some (record job { id = "j2" })) (pos 4)
    ∷ poll "w1" (pos 1) (pos 5)
    ∷ []

abbrev waiting_job : Job
waiting_job = record job {
  id = "j2";
  state = JobState.queued;
  created_at = some (pos 4);
  updated_at = some (pos 4);
}

found_readable : (o : Option Job) → found_of o ≡ failed → ⊥
found_readable none e = absurd (ground arith)
found_readable (some j) e = absurd (ground arith)

readable : IsReadable backend
readable d k e = found_readable (lookup k d.jobs) e

cancels : Cancels backend
cancels j d e = refl

listable : IsListable backend
listable d = (listing d.jobs d.jobs, refl)

leads_on : KeepsLeading backend later (serve backend (lead (pos 2)) (run backend earlier server))
unfolding lookup insert erase elem add without String_discrete max_attempts Queue.push
    Queue.heap_push Queue.up Queue.swap Queue.less Queue.pop Queue.heap_pop Queue.down Queue.child
    Queue.drop_last append_repl put_job put_worker enqueue_job arm_enqueue check_deps deps_satisfied
    fire_time make_ready place_new_job accept_job submit_job batch_size worker_known add_lease
    dispatch poll_round poll_loop poll_task register_worker Queue.size serve run on_become_leader
    rebuild_scheduling_state clear_scheduling_state rebuild_jobs rebuild_job promote_pending
    seed_replication number_from listing add_deps add_edges Queue.clear
leads_on = (tt, refl, (tt, refl, (tt, refl, tt)))

waits_still :
    memory.get_job
      (run backend later (serve backend (lead (pos 2)) (run backend earlier server))).store
      "j2"
    ≡ found waiting_job
unfolding lookup insert erase elem add without String_discrete max_attempts Queue.push
    Queue.heap_push Queue.up Queue.swap Queue.less Queue.pop Queue.heap_pop Queue.down Queue.child
    Queue.drop_last append_repl put_job put_worker enqueue_job arm_enqueue check_deps deps_satisfied
    fire_time make_ready place_new_job accept_job submit_job batch_size worker_known add_lease
    dispatch poll_round poll_loop poll_task register_worker Queue.size serve run on_become_leader
    rebuild_scheduling_state clear_scheduling_state rebuild_jobs rebuild_job promote_pending
    seed_replication number_from listing add_deps add_edges Queue.clear
waits_still = refl

leads_now : leads (run backend earlier server) ≡ true
unfolding lookup insert erase elem add without String_discrete max_attempts Queue.push
    Queue.heap_push Queue.up Queue.swap Queue.less append_repl put_job enqueue_job arm_enqueue
    check_deps deps_satisfied fire_time make_ready place_new_job accept_job submit_job serve run
leads_now = refl

open_now : (run backend earlier server).closed ≡ false
unfolding lookup insert erase elem add without String_discrete max_attempts Queue.push
    Queue.heap_push Queue.up Queue.swap Queue.less append_repl put_job enqueue_job arm_enqueue
    check_deps deps_satisfied fire_time make_ready place_new_job accept_job submit_job serve run
open_now = refl

no_job_forgotten_example :
    Due "j2"
      (run backend later (serve backend (lead (pos 2)) (run backend earlier server))).queue
      (run backend later (serve backend (lead (pos 2)) (run backend earlier server))).retry_timers
no_job_forgotten_example =
    no_job_forgotten backend readable cancels listable earlier later (pos 2) server "j2" waiting_job
      nothing_stored leads_now open_now leads_on waits_still refl

-- A job that is no longer stored is before the other one in the queue.
abbrev stale : PriorityQueue
stale = (Queue.push "j0" (pos 5) (pos 1) Queue.empty).0

abbrev busy : S backend
busy = record server {
  store = record { jobs = ("j2", waiting_job) ∷ []; workers = []; dead = [] };
  queue = (Queue.push "j2" (pos 0) (pos 4) stale).0;
  workers = ("w1", worker) ∷ [];
}

stale-IsQueue : IsQueue stale
stale-IsQueue = (push_refines "j0" (pos 5) (pos 1) Queue.empty empty-IsQueue).0

poll_gives_example :
    (out : List TaskAssignment) × ((poll_task backend "w1" (pos 1) (pos 5) busy).1 ≡ ok out)
    × (1 ≤ length out)
unfolding lookup worker_known String_discrete
poll_gives_example =
    poll_gives backend "j2" "w1" (pos 1) (pos 5) busy waiting_job (λ j d. refl) refl refl
      (push_refines "j2" (pos 0) (pos 4) stale stale-IsQueue).0
      (waits-push_self "j2" "j2" (pos 0) (pos 4) stale stale-IsQueue refl) refl refl
