-- ===== src/Worker.antt =====
-- internal/worker/agent.go: the slots of a worker, under the agent's lock. The set of running tasks is
-- the list of its members, and `done` maps a finished task to the time it finished.
use distsched.Base.{
  ℕ, zero, suc, ◌+◌, ℤ, pos, ◌-ℤ◌, Bool, true, false, List, [], ◌∷◌, Option, none, some, String,
  length, ltb_ℤ, leb_ℤ, if◌then◌else◌, Dict, lookup, insert, elem, without,
}
use distsched.Api.{Time, Duration}
pub mod Slots
pub mod Session
pub mod Executor
pub mod Launches
pub mod Keeps
pub mod Identity
pub mod Capacity
pub mod Waits
pub mod Output
pub mod Utf8

pub record Agent : Type 0 where
  pub capacity : ℤ
  pub running : List String
  pub done : Dict Time

abbrev pub done_retention : Duration
done_retention = pos 600_000_000_000

abbrev pub is_done : String → Agent → Bool
is_done id a = elim (lookup id a.done) [ none ↦ false | some _ ↦ true ]

unfoldable pub try_start : String → Agent → Agent × Bool
try_start id a =
    if elem id a.running
    then (a, false)
    else if is_done id a
    then (a, false)
    else if leb_ℤ a.capacity (pos (length a.running))
    then (a, false)
    else (record a { running = id ∷ a.running }, true)

-- The loop of `finish` over the finished tasks.
unfoldable pub prune : Time → Dict Time → Dict Time
prune now [] = []
prune now ((id, t) ∷ m) =
    let rest = prune now m in if ltb_ℤ done_retention (now -ℤ t) then rest else (id, t) ∷ rest

unfoldable pub finish : String → Time → Agent → Agent
finish id now a = record a {
  running = without id a.running;
  done = prune now (insert id now a.done);
}

unfoldable pub free_capacity : Agent → ℤ
free_capacity a = a.capacity -ℤ pos (length a.running)

-- What happens to the slots: a task is delivered, or one finishes.
pub data Event : Type 0 where
  delivered : (task_id : String) → Event
  finished : (task_id : String) → Time → Event

unfoldable pub after : List Event → Agent → Agent
after [] a = a
after (delivered id ∷ es) a = after es (try_start id a).0
after (finished id now ∷ es) a = after es (finish id now a)
