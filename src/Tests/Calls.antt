-- ===== src/Tests/Calls.antt =====
-- A leader over the in-memory store: a job is submitted, leased by a worker, and fails for good.
use distsched.Base.{
  ◌≤◌, ◌≡◌, ◌↔◌, refl, true, List, [], ◌∷◌, some, pos, lookup, insert, erase, elem, add, without,
  String_discrete,
}
use distsched.Api.{Job, TaskResult}
use distsched.Scheduler.State.{ok}
use distsched.Scheduler.Repeats.{report_twice}
use distsched.Scheduler.Chains.{Chain}
use distsched.Scheduler.Acyclic.{IsListable, never_cyclic}
use distsched.Scheduler.Cycles.{DependsOn}
use distsched.Scheduler.Exact.{cycle_exact}
use distsched.Retry.{max_attempts}
use distsched.Queue
use distsched.Queue.{PriorityQueue}
use distsched.Store.{found}
use distsched.Scheduler.Replication.{append_repl, put_job, put_worker}
use distsched.Scheduler.Deps.{
  enqueue_job, arm_enqueue, check_deps, deps_satisfied, fire_time, make_ready, place_new_job,
  drop_dependent, remove_from_index, dependents_of, cancel_one, cascade, cancel_cascade,
  maybe_reschedule_cron,
}
use distsched.Scheduler.Jobs.{accept_job, submit_job, would_create_cycle, add_jobs}
use distsched.Scheduler.Dispatch.{
  batch_size, worker_known, add_lease, get_lease, remove_lease, dispatch, poll_round, poll_loop,
  poll_task, dead_letter, handle_failure, report_running, report_task,
}
use distsched.Scheduler.Workers.{register_worker}
use distsched.Scheduler.History.{
  Call, submit, cancel, poll, report, register, lead, serve, run, attempts_bounded,
  failed_is_dead_lettered, terminal_absorbing,
}
use distsched.Tests.Memory.{memory, listing}
use distsched.Tests.Fixture.{backend, server, job, worker, running_job, failed_job, nothing_stored}

abbrev running_calls : List Call
running_calls =
    register (some worker) (pos 1) ∷ submit (some job) (pos 2) ∷ poll "w1" (pos 1) (pos 3) ∷ []

abbrev failing_calls : List Call
failing_calls =
    register (some worker) (pos 1)
    ∷ submit (some job) (pos 2)
    ∷ poll "w1" (pos 1) (pos 3)
    ∷ report "task-a" TaskResult.failed "exit 1" (pos 4)
    ∷ []

runs : memory.get_job (run backend running_calls server).store "j1" ≡ found running_job
unfolding lookup insert erase elem add without String_discrete max_attempts Queue.push
    Queue.heap_push Queue.up Queue.swap Queue.less Queue.pop Queue.heap_pop Queue.down Queue.child
    Queue.drop_last append_repl put_job put_worker enqueue_job arm_enqueue check_deps deps_satisfied
    fire_time make_ready place_new_job accept_job submit_job batch_size worker_known add_lease
    dispatch poll_round poll_loop poll_task register_worker Queue.size serve run
runs = refl

fails : memory.get_job (run backend failing_calls server).store "j1" ≡ found failed_job
unfolding lookup insert erase elem add without String_discrete max_attempts Queue.push
    Queue.heap_push Queue.up Queue.swap Queue.less Queue.pop Queue.heap_pop Queue.down Queue.child
    Queue.drop_last Queue.remove Queue.heap_remove append_repl put_job put_worker enqueue_job
    arm_enqueue check_deps deps_satisfied fire_time make_ready place_new_job accept_job submit_job
    batch_size worker_known add_lease get_lease remove_lease dispatch poll_round poll_loop poll_task
    register_worker Queue.size serve run maybe_reschedule_cron dead_letter handle_failure
    report_running report_task cancel_one cascade cancel_cascade dependents_of remove_from_index
    drop_dependent
fails = refl

attempts_bounded_example : 1 ≤ 1
unfolding max_attempts
attempts_bounded_example =
    attempts_bounded backend running_calls server "j1" running_job nothing_stored runs

failed_is_dead_lettered_example :
    memory.is_dead_lettered (run backend failing_calls server).store "j1" ≡ true
failed_is_dead_lettered_example =
    failed_is_dead_lettered backend failing_calls server "j1" failed_job nothing_stored fails refl

abbrev later_calls : List Call
later_calls = cancel "j1" (pos 5) ∷ lead (pos 6) ∷ poll "w1" (pos 1) (pos 7) ∷ []

terminal_absorbing_example :
    memory.get_job (run backend later_calls (run backend failing_calls server)).store "j1"
    ≡ found failed_job
terminal_absorbing_example =
    terminal_absorbing backend failing_calls later_calls server "j1" failed_job nothing_stored
      (tt, (tt, (tt, tt))) fails refl

acknowledged :
    (report_task backend "task-a" TaskResult.failed "exit 1"
      (pos 4)
      (run backend running_calls server)).1
    ≡ ok true
unfolding lookup insert erase elem add without String_discrete max_attempts Queue.push
    Queue.heap_push Queue.up Queue.swap Queue.less Queue.pop Queue.heap_pop Queue.down Queue.child
    Queue.drop_last Queue.remove Queue.heap_remove append_repl put_job put_worker enqueue_job
    arm_enqueue check_deps deps_satisfied fire_time make_ready place_new_job accept_job submit_job
    batch_size worker_known add_lease get_lease remove_lease dispatch poll_round poll_loop poll_task
    register_worker Queue.size serve run maybe_reschedule_cron dead_letter handle_failure
    report_running report_task cancel_one cascade cancel_cascade dependents_of remove_from_index
    drop_dependent
acknowledged = refl

report_twice_example :
    report_task backend "task-a" TaskResult.succeeded ""
      (pos 9)
      (report_task backend "task-a" TaskResult.failed "exit 1"
        (pos 4)
        (run backend running_calls server)).0
    ≡ (
      (report_task backend "task-a" TaskResult.failed "exit 1"
          (pos 4)
          (run backend running_calls server)).0,
      ok true,
    )
report_twice_example =
    report_twice backend "task-a" TaskResult.failed TaskResult.succeeded "exit 1" "" (pos 4) (pos 9)
      (run backend running_calls server) acknowledged

abbrev second_job : Job
second_job = record job { id = "j2"; depends_on = "j1" ∷ [] }

abbrev dependent_calls : List Call
dependent_calls =
    submit (some job) (pos 1)
    ∷ submit (some second_job) (pos 2)
    ∷ lead (pos 3)
    ∷ submit (some (record job { depends_on = "j2" ∷ [] })) (pos 4)
    ∷ []

listable : IsListable backend
listable d = (listing d.jobs d.jobs, refl)

never_cyclic_example : ¬ Chain memory (run backend dependent_calls server).store "j1" "j1"
never_cyclic_example = never_cyclic backend dependent_calls server "j1" nothing_stored listable

abbrev two_calls : List Call
two_calls = submit (some job) (pos 1) ∷ submit (some second_job) (pos 2) ∷ []

abbrev two_jobs : List Job
two_jobs =
    listing (run backend two_calls server).store.jobs (run backend two_calls server).store.jobs

cycle_exact_example :
    (would_create_cycle backend "j1" ("j2" ∷ []) (run backend two_calls server) ≡ true)
    ↔ DependsOn (insert "j1" ("j2" ∷ []) (add_jobs two_jobs [])) "j1" "j1"
cycle_exact_example =
    cycle_exact backend two_calls server two_jobs "j1" ("j2" ∷ []) nothing_stored listable refl
