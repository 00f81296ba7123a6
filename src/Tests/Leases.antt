-- ===== src/Tests/Leases.antt =====
-- A round of a poll, a report whose result the store refuses, a cascade, and the replication log.
use mathlib.Core.List.{Memᴰ}
use distsched.Base.{
  ◌+◌, ◌≤◌, ◌≡◌, refl, true, [], ◌∷◌, none, some, pos, lookup, insert, erase, elem, add, without,
  String_discrete,
}
use distsched.Api.{Job, JobState, TaskResult}
use distsched.Retry.{max_attempts}
use distsched.Queue
use distsched.Queue.{PriorityQueue}
use distsched.Cluster.Node.{follower}
use distsched.Store.{found}
use distsched.Scheduler.State.{Backend}
use distsched.Scheduler.Replication.{S, append_repl, put_job, put_worker}
use distsched.Scheduler.Deps.{
  enqueue_job, arm_enqueue, check_deps, deps_satisfied, fire_time, make_ready, place_new_job,
  cascade,
}
use distsched.Scheduler.Jobs.{accept_job, submit_job}
use distsched.Scheduler.Dispatch.{
  batch_size, worker_known, add_lease, get_lease, dispatch, poll_round, poll_loop, poll_task,
  report_task,
}
use distsched.Scheduler.Workers.{register_worker}
use distsched.Scheduler.History.{
  Call, submit, poll, report, timer, reap, beat, register, serve, run,
}
use distsched.Tests.Memory.{memory}
use distsched.Tests.Fixture.{
  backend, server, job, worker, running_job, nothing_stored, leading, whole_floats, names, spec,
}
use distsched.Base.{◌<◌, ◌↔◌, ◌⊎◌, ◌+ℤ◌, ◌≤ℤ◌, List}
use distsched.Api.{TaskAssignment, ReplicationEntry, upsert_job}
use distsched.Scheduler.State.{Lease, ok, err, internal}
use distsched.Scheduler.Dispatch.{leased}
use distsched.Scheduler.Replication.{entries_for_peer, ack_peer}
use distsched.Scheduler.Deps.{edges}
use distsched.Scheduler.Handlers.{after}
use distsched.Scheduler.History.{run-Inv, empty-Inv}
use distsched.Scheduler.Leases.{leased_task, success_lost}
use distsched.Scheduler.Polling.{poll_loop_ends}
use distsched.Scheduler.Cascade.{cancel_cascade-ends}
use distsched.Scheduler.Refuses.{poll_within}
use distsched.Scheduler.Recovery.{on_step_down}
use distsched.Scheduler.Idle.{stays_idle}
use distsched.Scheduler.Shipping.{resends_iff}
use distsched.Tests.Memory.{broken}
use distsched.Scheduler.Safe.{Inv}

abbrev ready : S backend
ready = run backend (register (some worker) (pos 1) ∷ submit (some job) (pos 2) ∷ []) server

abbrev task : TaskAssignment
task = record {
  task_id = "task-a";
  job_id = "j1";
  attempt = 1;
  spec = some spec;
  lease_deadline = pos 53;
}

abbrev polled : S backend
polled = after backend (poll_round backend "w1" (pos 3) ready)

leases_task : poll_round backend "w1" (pos 3) ready ≡ leased polled task
unfolding lookup insert erase elem add without String_discrete max_attempts Queue.push
    Queue.heap_push Queue.up Queue.swap Queue.less Queue.pop Queue.heap_pop Queue.down Queue.child
    Queue.drop_last append_repl put_job put_worker enqueue_job arm_enqueue check_deps deps_satisfied
    fire_time make_ready place_new_job accept_job submit_job batch_size worker_known add_lease
    dispatch poll_round register_worker Queue.size serve run ◌+ℤ◌
leases_task = refl

ready-Inv : Inv memory ready.store
ready-Inv = run-Inv backend _ server (empty-Inv backend server nothing_stored)

leased_task_example :
    (get_lease "task-a" polled
      ≡ some (record {
        task_id = "task-a";
        job_id = "j1";
        worker_id = "w1";
        attempt = 1;
        deadline = pos 53;
      }))
    × (pos 53 ≡ pos 3 +ℤ pos 50)
    × (j : Job) × (memory.get_job polled.store "j1" ≡ found j)
    × (j.state ≡ JobState.running)
    × (j.attempt ≡ 1)
    × (j.assigned_worker_id ≡ "w1")
unfolding run serve register_worker submit_job accept_job place_new_job make_ready arm_enqueue
    enqueue_job put_job append_repl put_worker get_lease ◌+ℤ◌ String_discrete deps_satisfied
    check_deps fire_time lookup insert
leased_task_example = leased_task backend "w1" (pos 3) ready polled task ready-Inv leases_task

abbrev broken_backend : Backend
broken_backend = record {
  storage = broken;
  floats = whole_floats;
  next_cron = λ e t. none;
  uuid = names;
  rand = λ n. 0;
}

abbrev lease : Lease
lease = record {
  task_id = "task-a";
  job_id = "j1";
  worker_id = "w1";
  attempt = 1;
  deadline = pos 53;
}

-- The job is stored as running; no further write of a job goes through.
abbrev stuck : S broken_backend
stuck = record server {
  store = record { jobs = ("j1", running_job) ∷ []; workers = []; dead = [] };
  leases = ("task-a", lease) ∷ [];
}

success_lost_example :
    ((report_task broken_backend "task-a" TaskResult.succeeded "" (pos 4) stuck).1 ≡ err internal)
    × (broken.get_job
          (report_task broken_backend "task-a" TaskResult.succeeded "" (pos 4) stuck).0.store
          "j1"
        ≡ found running_job)
    × (report_task broken_backend "task-a" TaskResult.succeeded ""
          (pos 5)
          (report_task broken_backend "task-a" TaskResult.succeeded "" (pos 4) stuck).0
        ≡ ((report_task broken_backend "task-a" TaskResult.succeeded "" (pos 4) stuck).0, ok true))
unfolding get_lease lookup String_discrete
success_lost_example =
    success_lost broken_backend "task-a" "" "" TaskResult.succeeded (pos 4) (pos 5) lease
      running_job stuck refl refl refl refl refl (λ j. refl)

-- Two jobs that wait for each other.
abbrev circular : S backend
circular = record server { rev_index = ("a", "b" ∷ []) ∷ ("b", "a" ∷ []) ∷ [] }

cancel_cascade-ends_example :
    (cascade backend (edges backend circular.rev_index + 2) ("a" ∷ []) [] "" (pos 1) circular).1
    ≡ []
cancel_cascade-ends_example = cancel_cascade-ends backend "a" "" (pos 1) circular

-- The ready server after it has lost its leadership.
abbrev deposed : S backend
deposed = record ready { node = record leading { role = follower; leader_id = "n1" } }

abbrev knocks : List Call
knocks =
    submit (some job) (pos 4)
    ∷ poll "w1" (pos 1) (pos 5)
    ∷ report "task-a" TaskResult.failed "" (pos 6)
    ∷ timer "j1"
    ∷ reap (pos 99)
    ∷ beat "w1" [] (pos 100)
    ∷ []

stays_idle_example :
    run backend knocks (on_step_down backend deposed) ≡ on_step_down backend deposed
stays_idle_example = stays_idle backend knocks deposed refl (tt, (tt, (tt, (tt, (tt, (tt, tt))))))

abbrev polled_all : S backend
polled_all = (poll_task backend "w1" (pos 5) (pos 3) ready).0

polls : poll_task backend "w1" (pos 5) (pos 3) ready ≡ (polled_all, ok (task ∷ []))
unfolding lookup insert erase elem add without String_discrete max_attempts Queue.push
    Queue.heap_push Queue.up Queue.swap Queue.less Queue.pop Queue.heap_pop Queue.down Queue.child
    Queue.drop_last append_repl put_job put_worker enqueue_job arm_enqueue check_deps deps_satisfied
    fire_time make_ready place_new_job accept_job submit_job batch_size worker_known add_lease
    dispatch poll_round poll_loop poll_task register_worker Queue.size serve run ◌+ℤ◌
polls = refl

poll_within_example : (1 ≤ 64) × ((pos 1 ≤ℤ pos 5) ⊎ (1 ≤ 1))
poll_within_example = poll_within backend "w1" (pos 5) (pos 3) ready polled_all (task ∷ []) polls

abbrev first_entry : ReplicationEntry
first_entry = record { seq = 1; mutation = upsert_job job }

abbrev second_entry : ReplicationEntry
second_entry = record { seq = 2; mutation = upsert_job running_job }

abbrev logged : S backend
logged = record server { repl_log = first_entry ∷ second_entry ∷ []; repl_seq = 2 }

resends_iff_example :
    Memᴰ second_entry (entries_for_peer "n2" (ack_peer "n2" 1 logged))
    ↔ (Memᴰ second_entry logged.repl_log × (1 < 2) × (0 < 2))
unfolding lookup
resends_iff_example = resends_iff "n2" 1 logged second_entry

poll_loop_ends_example :
    poll_loop backend (Queue.size ready.queue + 1 + 7) 2 "w1" (pos 3) [] ready
    ≡ poll_loop backend (Queue.size ready.queue + 1) 2 "w1" (pos 3) [] ready
poll_loop_ends_example = poll_loop_ends backend 7 2 "w1" (pos 3) ready
