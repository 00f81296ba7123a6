-- ===== src/Scheduler/Deps.antt =====
-- internal/scheduler/deps.go, and `armEnqueue` and `enqueueJob` of internal/scheduler/server.go.
-- A handler reads the clock once: `now` stands for every `time.Now()` in it.
use distsched.Base.{
  ℕ, zero, suc, ◌+◌, pos, ◌-ℤ◌, Bool, true, false, not, ◌||◌, List, [], ◌∷◌, ◌++◌, Option, none,
  some, String, ltb_ℤ, leb_ℤ, if◌then◌else◌, Dict, lookup, insert, erase, elem, add, without, same,
  cat, length,
}
use distsched.Api.{Job, JobState, Time, Duration, unset, run_at, cron_expr, as_time, get_cron_expr}
use distsched.Store.{Found, found}
use distsched.Queue
use distsched.Scheduler.State.{Backend, Server, Counters, leads}
use distsched.Scheduler.Replication.{S, put_job}

abbrev pub terminal : JobState → Bool
terminal JobState.succeeded = true
terminal JobState.failed = true
terminal JobState.canceled = true
terminal _ = false

abbrev pub is_queued : JobState → Bool
is_queued JobState.queued = true
is_queued _ = false

abbrev pub is_pending : JobState → Bool
is_pending JobState.pending = true
is_pending _ = false

abbrev pub is_running : JobState → Bool
is_running JobState.running = true
is_running _ = false

-- The reverse index, dependency to dependents.
abbrev pub Index : Type 0
Index = Dict (List String)

abbrev pub set_of : Option (List String) → List String
set_of none = []
set_of (some ids) = ids

unfoldable pub add_edges : String → List String → Index → Index
add_edges id [] m = m
add_edges id (d ∷ ds) m = add_edges id ds (insert d (add id (set_of (lookup d m))) m)

unfoldable pub drop_dependent : String → Index → Index
drop_dependent id [] = []
drop_dependent id ((d, ids) ∷ m) = elim (without id ids) [
  | [] ↦ drop_dependent id m
  | x ∷ xs ↦ (d, x ∷ xs) ∷ drop_dependent id m
]

unfoldable pub add_deps : {Db : Type 0} → Job → Server Db → Server Db
add_deps j s = record s { rev_index = add_edges j.id j.depends_on s.rev_index }

unfoldable pub remove_from_index : {Db : Type 0} → String → Server Db → Server Db
remove_from_index id s = record s { rev_index = drop_dependent id s.rev_index }

-- Go does not say in which order the set is listed; here it is the order of insertion, newest first.
unfoldable pub dependents_of : {Db : Type 0} → String → Server Db → List String
dependents_of id s = set_of (lookup id s.rev_index)

-- What one dependency says: go on, or the answer of `depsSatisfied`.
abbrev pub dep_answer : String → Found Job → Option (Bool × String)
dep_answer d (found j) = elim j.state [
  | JobState.succeeded ↦ none
  | JobState.failed ↦ some (false, d)
  | JobState.canceled ↦ some (false, d)
  | _ ↦ some (false, "")
]
dep_answer d _ = some (false, "")

unfoldable pub check_deps : (String → Found Job) → List String → Bool × String
check_deps get [] = (true, "")
check_deps get (d ∷ ds) = elim (dep_answer d (get d)) [
  | none ↦ check_deps get ds
  | some answer ↦ answer
]

abbrev pub count_canceled : Counters → Counters
count_canceled c = record c { jobs_canceled = c.jobs_canceled + 1 }

abbrev pub upstream : String → String → String
upstream id ending = cat "upstream dependency " (cat id ending)

module _ (b : Backend) where
  unfoldable pub enqueue_job : String → S b → S b
  enqueue_job id s = if s.closed || not (leads s) then s else (elim (b.storage.get_job s.store id) [
    | found j ↦
        if is_queued j.state
        then record s { queue = (Queue.push j.id j.priority (as_time j.created_at) s.queue).0 }
        else s
    | _ ↦ s
  ])

  -- A timer that is armed again replaces the pending one.
  unfoldable pub arm_enqueue : String → Duration → S b → S b
  arm_enqueue id delay s =
      if leb_ℤ delay (pos 0)
      then enqueue_job id s
      else record s { retry_timers = insert id delay s.retry_timers }

  -- The function that the timer runs.
  unfoldable pub timer_fired : String → S b → S b
  timer_fired id s = enqueue_job id (record s { retry_timers = erase id s.retry_timers })

  unfoldable pub deps_satisfied : Job → S b → Bool × String
  deps_satisfied j s = check_deps (b.storage.get_job s.store) j.depends_on

  -- The fire time that `makeReady` records, and the delay until then.
  unfoldable pub fire_time : Job → Time → Option Time × Duration
  fire_time j now = elim j.schedule [
    | none ↦ (j.scheduled_at, pos 0)
    | some sched ↦ (elim sched.kind [
      | unset ↦ (j.scheduled_at, pos 0)
      | run_at ra ↦ if ltb_ℤ now ra then (some ra, ra -ℤ now) else (j.scheduled_at, pos 0)
      | cron_expr e ↦ if same e "" then (j.scheduled_at, pos 0) else (elim (b.next_cron e now) [
        | none ↦ (j.scheduled_at, pos 0)
        | some at ↦ (some at, at -ℤ now)
      ])
    ])
  ]

  unfoldable pub make_ready : Job → Time → S b → S b
  make_ready j now s =
      let (at, delay) = fire_time j now in
      let j' = record j { scheduled_at = at; state = JobState.queued; updated_at = some now } in
      let (s1, done) = put_job b j' s in if done then arm_enqueue j'.id delay s1 else s1

  -- A failure to persist is logged only.
  unfoldable pub place_new_job : Job → Time → S b → S b
  place_new_job j now s =
      let (ready, failed_dep) = deps_satisfied j s in
      if not (same failed_dep "")
      then (let j' = record j {
        state = JobState.canceled;
        last_error = upstream failed_dep " did not succeed";
        updated_at = some now;
      } in
          let s1 = (put_job b j' s).0 in record s1 { metrics = count_canceled s1.metrics })
      else if not ready
      then (let j' = record j { state = JobState.pending; updated_at = some now } in
          add_deps j' (put_job b j' s).0)
      else make_ready j now s

  -- One job of `cancelCascade`.
  unfoldable pub cancel_one : String → String → Time → S b → S b
  cancel_one cur reason now s = elim (b.storage.get_job s.store cur) [
    | found j ↦
        if terminal j.state
        then s
        else (let j' = record j {
          state = JobState.canceled;
          last_error = reason;
          updated_at = some now;
        } in
            let s1 = (put_job b j' s).0 in
            record s1 {
              queue = (Queue.remove cur s1.queue).0;
              metrics = count_canceled s1.metrics;
            })
    | _ ↦ s
  ]

  -- The loop of `cancelCascade`, with what is left of the work list where the fuel runs out. The list
  -- is a stack with its top first.
  unfoldable pub cascade : ℕ → List String → List String → String → Time → S b → S b × List String
  cascade zero work visited reason now s = (s, work)
  cascade (suc fuel) [] visited reason now s = (s, [])
  cascade (suc fuel) (cur ∷ work) visited reason now s =
      let skip = cascade fuel work visited reason now s in
      let s1 = cancel_one cur reason now s in
      let go =
        cascade fuel (dependents_of cur s1 ++ work) (cur ∷ visited)
          (upstream cur " did not succeed") now (remove_from_index cur s1) in
      if elem cur visited then skip else go

  -- The edges of the index, each of which is pushed at most once.
  abbrev pub edges : Index → ℕ
  edges [] = 0
  edges ((d, ids) ∷ m) = length ids + edges m

  unfoldable pub cancel_cascade : String → String → Time → S b → S b
  cancel_cascade id reason now s = (cascade (edges s.rev_index + 2) (id ∷ []) [] reason now s).0

  unfoldable pub try_promote : String → Time → S b → S b
  try_promote id now s = elim (b.storage.get_job s.store id) [
    | found j ↦
        if not (is_pending j.state)
        then s
        else (let (ready, failed_dep) = deps_satisfied j s in
            if not (same failed_dep "")
            then cancel_cascade id (upstream failed_dep " did not succeed") now s
            else if ready
            then remove_from_index id (make_ready j now s)
            else s)
    | _ ↦ s
  ]

  unfoldable pub promote_all : List String → Time → S b → S b
  promote_all [] now s = s
  promote_all (id ∷ ids) now s = promote_all ids now (try_promote id now s)

  unfoldable pub promote_dependents : String → Time → S b → S b
  promote_dependents id now s = promote_all (dependents_of id s) now s

  -- The server, the job as it stands after the call, and whether it was armed again. A job that
  -- could not be persisted keeps the changes in memory.
  unfoldable pub maybe_reschedule_cron : Job → Time → S b → S b × Job × Bool
  maybe_reschedule_cron j now s =
      let e = get_cron_expr j.schedule in
      if same e "" then (s, j, false) else (elim (b.next_cron e now) [
        | none ↦ (s, j, false)
        | some at ↦
            (let j' = record j {
              state = JobState.queued;
              attempt = 0;
              assigned_worker_id = "";
              last_error = "";
              finished_at = none;
              scheduled_at = some at;
              updated_at = some now;
            } in
              let (s1, done) = put_job b j' s in
              if done then (arm_enqueue j'.id (at -ℤ now) s1, j', true) else (s1, j', false))
      ])
