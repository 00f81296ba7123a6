-- ===== src/Tests/Followers.antt =====
-- A leader with two jobs, and a follower that has a job of its own.
use mathlib.Core.List.{Memᴰ}
use distsched.Base.{
  true, false, none, same, ◌≤◌, ◌≡◌, refl, List, [], ◌∷◌, ◌++◌, some, lookup, insert,
  String_discrete, arith,
}
use distsched.Api.{Job, ReplicationEntry, upsert_job, upsert_worker}
use distsched.Store.{found, not_found}
use distsched.Scheduler.Replication.{
  S, append_repl, apply_entries, entries_for_peer, number_from, put_job, put_worker,
  seed_replication,
}
use distsched.Scheduler.Follows.{
  Written, wrote_job, wrote_worker, write_all, IsKeyed, follower_converges, stale_job_kept,
  write_all-Tracks, seed_replication-Tracks,
}
use distsched.Scheduler.Late.{late_ack_starves}
use distsched.Scheduler.State.{Backend}
use distsched.Scheduler.Workers.{Replicated, on_replicated}
use distsched.Scheduler.Converges.{IsReliable}
use distsched.Cluster.Node.{Env}
use distsched.Scheduler.Broadcast.{replication_tick}
use distsched.Scheduler.Delivers.{deliver, tick_delivers}
use distsched.Scheduler.Shipping.{IsNumbered, put-IsNumbered, seed_replication-IsNumbered}
use distsched.Scheduler.Tracks.{Tracks}
use distsched.Tests.Memory.{memory, broken, listing}
use distsched.Tests.Fixture.{backend, server, job, worker, running_job}

abbrev leader : S backend
leader = record server { store = record { jobs = ("j1", job) ∷ []; workers = []; dead = [] } }

abbrev own : Job
own = record job { id = "j9" }

abbrev follower : S backend
follower = record server { store = record { jobs = ("j9", own) ∷ []; workers = []; dead = [] } }

abbrev written : List Written
written = wrote_worker worker ∷ wrote_job running_job ∷ []

reliable : IsReliable backend
reliable = (λ j d. refl, λ i d. refl)

keyed : IsKeyed backend leader
unfolding lookup
keyed k j e = ground arith

listed : memory.list_jobs leader.store ≡ some (job ∷ [])
unfolding listing lookup String_discrete
listed = refl

abbrev entries : List ReplicationEntry
entries =
    record { seq = 1; mutation = upsert_job job }
    ∷ record { seq = 2; mutation = upsert_worker worker }
    ∷ record { seq = 3; mutation = upsert_job running_job }
    ∷ []

logged : (write_all backend written (seed_replication backend leader)).repl_log ≡ entries
unfolding seed_replication number_from put_job put_worker append_repl listing lookup insert
    String_discrete
logged = refl

abbrev first : List ReplicationEntry
first = record { seq = 1; mutation = upsert_job job } ∷ []

abbrev second : List ReplicationEntry
second = record { seq = 2; mutation = upsert_worker worker } ∷ []

abbrev third : List ReplicationEntry
third = record { seq = 3; mutation = upsert_job running_job } ∷ []

there :
    memory.get_job (write_all backend written (seed_replication backend leader)).store "j1"
    ≡ found running_job
unfolding seed_replication put_job put_worker append_repl listing lookup insert String_discrete
there = refl

-- The same leader over a medium that takes no more jobs.
abbrev stuck : Backend
stuck = record backend { storage = broken }

stuck_listed : broken.list_jobs leader.store ≡ some (job ∷ [])
unfolding listing lookup String_discrete
stuck_listed = refl

stuck-IsKeyed : IsKeyed stuck leader
unfolding lookup
stuck-IsKeyed k j e = ground arith

stuck_logged : (write_all stuck written (seed_replication stuck leader)).repl_log ≡ first ++ second
unfolding seed_replication number_from put_job put_worker append_repl listing lookup insert
    String_discrete
stuck_logged = refl

stuck_there :
    broken.get_job (write_all stuck written (seed_replication stuck leader)).store "j1" ≡ found job
unfolding seed_replication put_job put_worker append_repl listing lookup insert String_discrete
stuck_there = refl

follower_converges_example :
    memory.get_job
      (apply_entries backend
        (second ++ [])
        (apply_entries backend (first ++ second) follower).0).0.store
      "j1"
    ≡ found job
follower_converges_example =
    follower_converges stuck backend leader follower (job ∷ []) written first second [] "j1" job
      reliable refl stuck-IsKeyed stuck_listed stuck_logged stuck_there

absent : memory.get_job leader.store "j9" ≡ not_found
unfolding lookup String_discrete
absent = refl

stale_job_kept_example :
    memory.get_job
      (apply_entries backend (seed_replication backend leader).repl_log follower).0.store
      "j9"
    ≡ memory.get_job follower.store "j9"
stale_job_kept_example =
    stale_job_kept backend leader follower (job ∷ []) "j9" reliable keyed listed absent

abbrev pair : S backend
pair = record leader { members = ("n1", "addr1") ∷ ("n2", "addr2") ∷ [] }

pair-IsKeyed : IsKeyed backend pair
unfolding lookup
pair-IsKeyed k j e = ground arith

pair_listed : memory.list_jobs pair.store ≡ some (job ∷ [])
unfolding listing lookup String_discrete
pair_listed = refl

abbrev ready : S backend
ready = write_all backend written (seed_replication backend pair)

ready-Tracks : Tracks backend ready
ready-Tracks =
    write_all-Tracks backend written (seed_replication backend pair)
      (seed_replication-Tracks backend pair (job ∷ []) refl pair-IsKeyed pair_listed)

ready-IsNumbered : IsNumbered ready
ready-IsNumbered =
    let first_two =
      put-IsNumbered backend running_job worker (seed_replication backend pair)
        (seed_replication-IsNumbered backend pair) in
    (put-IsNumbered backend running_job worker
      (put_worker backend worker (seed_replication backend pair)).0 first_two.1).0

ready_members : ready.members ≡ (ready.cfg.node_id, "addr1") ∷ ("n2", "addr2") ∷ []
unfolding seed_replication put_job put_worker append_repl
ready_members = refl

ready_other : same "n2" ready.cfg.node_id ≡ false
unfolding seed_replication put_job put_worker append_repl String_discrete
ready_other = refl

ready_new : lookup "n2" ready.peer_acked ≡ none
unfolding seed_replication put_job put_worker append_repl lookup
ready_new = refl

ready_term : follower.node.current_term ≤ ready.node.current_term
unfolding seed_replication put_job put_worker append_repl
ready_term = omega arith

ready_there : memory.get_job ready.store "j1" ≡ found running_job
unfolding seed_replication put_job put_worker append_repl listing lookup insert String_discrete
ready_there = refl

abbrev moment : Env
moment = record { now = 1; draw = 0; save_ok = true; load_ok = true }

tick_delivers_example :
    memory.get_job
      (replication_tick backend (deliver backend moment) moment ready follower).1.store
      "j1"
    ≡ found running_job
tick_delivers_example =
    tick_delivers backend moment moment ready follower "n2" "addr1" "addr2" "j1" running_job
      reliable ready-Tracks ready-IsNumbered ready_members ready_other ready_new ready_term
      ready_there

-- A leader whose last log had two entries, with one job.
abbrev again : S backend
again = record leader { repl_seq = 2 }

abbrev late : Replicated
late = record { ok = true; current_term = 1; applied_through = 2 }

job_listed : memory.list_jobs again.store ≡ some (job ∷ [])
unfolding listing lookup String_discrete
job_listed = refl

late_ack_starves_example :
    let end =
      write_all backend written
        (on_replicated backend moment "n2" late (seed_replication backend again)) in
    (x : ReplicationEntry) × (x.mutation ≡ upsert_job job)
    × Memᴰ x end.repl_log
    × (¬ Memᴰ x (entries_for_peer "n2" end))
late_ack_starves_example =
    late_ack_starves backend moment "n2" late again written (job ∷ []) job job_listed
      (Memᴰ.head refl) refl (omega arith) (omega arith) (omega arith)
