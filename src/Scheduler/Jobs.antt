-- ===== src/Scheduler/Jobs.antt =====
-- internal/scheduler/job.go: the JobService.
use distsched.Base.{
  ℕ, zero, suc, ◌+◌, ℤ, pos, negsuc, Bool, true, false, not, ◌&&◌, List, [], ◌∷◌, Option, none,
  some, String, if◌then◌else◌, elem, same, cat, take, lookup, insert, Dict, without, length,
  is_empty,
}
use distsched.Api.{Job, JobState, Time, get_command, get_cron_expr}
use distsched.Store.{Found, found, failed}
use distsched.Queue
use distsched.Scheduler.State.{
  Backend, Reply, ok, err, Error, invalid_argument, failed_precondition, internal, require_leader,
}
use distsched.Scheduler.Replication.{S, put_job}
use distsched.Scheduler.Deps.{place_new_job, cancel_cascade, upstream, count_canceled, set_of}

abbrev pub same_state : JobState → JobState → Bool
same_state JobState.unspecified JobState.unspecified = true
same_state JobState.pending JobState.pending = true
same_state JobState.queued JobState.queued = true
same_state JobState.running JobState.running = true
same_state JobState.succeeded JobState.succeeded = true
same_state JobState.failed JobState.failed = true
same_state JobState.canceled JobState.canceled = true
same_state _ _ = false

-- `graph`, from job ID to `depends_on`.
abbrev pub Graph : Type 0
Graph = Dict (List String)

unfoldable pub add_jobs : List Job → Graph → Graph
add_jobs [] g = g
add_jobs (j ∷ js) g = add_jobs js (insert j.id j.depends_on g)

unfoldable pub neighbors : Graph → String → List String
neighbors g n = set_of (lookup n g)

pub record Marks : Type 0 where
  pub visited : List String
  pub stack : List String

-- The loop of `dfs` over the dependencies of one job, with the recursive call as an argument.
unfoldable pub dfs_each : (String → Marks → Bool × Marks) → List String → Marks → Bool × Marks
dfs_each call [] m = (false, m)
dfs_each call (d ∷ ds) m =
    if elem d m.stack
    then (true, m)
    else if elem d m.visited
    then dfs_each call ds m
    else (let (hit, m') = call d m in elim hit [ true ↦ (true, m') | false ↦ dfs_each call ds m' ])

-- Where the fuel runs out the search answers that there is a cycle.
unfoldable pub dfs : Graph → ℕ → String → Marks → Bool × Marks
dfs g zero n m = (true, m)
dfs g (suc fuel) n m =
    let m1 = record m { visited = n ∷ m.visited; stack = n ∷ m.stack } in
    let (hit, m2) = dfs_each (dfs g fuel) (neighbors g n) m1 in
    if hit then (true, m2) else (false, record m2 { stack = without n m2.stack })

abbrev pub no_marks : Marks
no_marks = record { visited = []; stack = [] }

unfoldable pub has_cycle_from : Graph → String → Bool
has_cycle_from g n = (dfs g (length g + 2) n no_marks).0

unfoldable pub filter_state : JobState → List Job → List Job
filter_state want [] = []
filter_state want (j ∷ js) =
    let rest = filter_state want js in
    if not (same_state want JobState.unspecified) && not (same_state j.state want)
    then rest
    else j ∷ rest

abbrev pub page : ℤ → List Job → List Job
page (pos zero) js = js
page (pos (suc n)) js = take (suc n) js
page (negsuc n) js = js

module _ (b : Backend) where
  -- A listing that fails counts as no cycle.
  unfoldable pub would_create_cycle : String → List String → S b → Bool
  would_create_cycle new_id deps s = elim (b.storage.list_jobs s.store) [
    | none ↦ false
    | some js ↦ has_cycle_from (insert new_id deps (add_jobs js [])) new_id
  ]

  abbrev pub cron_ok : String → Time → Bool
  cron_ok e now =
      if same e "" then true else elim (b.next_cron e now) [ none ↦ false | some _ ↦ true ]

  -- `SubmitJob` after its checks.
  unfoldable pub accept_job : Job → Time → S b → S b × Reply String
  accept_job j now s =
      let j' = record j {
        attempt = 0;
        assigned_worker_id = "";
        last_error = "";
        created_at = some now;
        updated_at = some now;
      } in
      let s1 = place_new_job b j' now s in
      let m = s1.metrics in
      (record s1 { metrics = record m { jobs_submitted = m.jobs_submitted + 1 } }, ok j.id)

  abbrev pub mint_job : Job → S b → S b × Job
  mint_job j s =
      if same j.id ""
      then (record s { minted = s.minted + 1 }, record j { id = cat "job-" (b.uuid s.minted) })
      else (s, j)

  unfoldable pub submit_job : Option Job → Time → S b → S b × Reply String
  submit_job none now s = require_leader s (s, err invalid_argument)
  submit_job (some j) now s = require_leader s (
      if same (get_command j.spec) ""
      then (s, err invalid_argument)
      else if not (cron_ok (get_cron_expr j.schedule) now)
      then (s, err invalid_argument)
      else (let (s1, j1) = mint_job j s in
          if not (is_empty j1.depends_on) && would_create_cycle j1.id j1.depends_on s1
          then (s1, err invalid_argument)
          else accept_job j1 now s1))

  unfoldable pub load_job : String → S b → Reply Job
  load_job id s =
      if same id "" then err invalid_argument else (elim (b.storage.get_job s.store id) [
        | found j ↦ ok j
        | Found.not_found ↦ err Error.not_found
        | failed ↦ err internal
      ])

  unfoldable pub list_jobs : JobState → ℤ → S b → Reply (List Job)
  list_jobs want page_size s = elim (b.storage.list_jobs s.store) [
    | none ↦ err internal
    | some js ↦ ok (page page_size (filter_state want js))
  ]

  -- `CancelJob` of a job that is not terminal.
  unfoldable pub cancel_live : Job → Time → S b → S b × Reply Job
  cancel_live j now s =
      let j' = record j { state = JobState.canceled; updated_at = some now } in
      let (s1, done) = put_job b j' s in
      if not done
      then (s1, err internal)
      else (let s2 = record s1 {
        queue = (Queue.remove j.id s1.queue).0;
        metrics = count_canceled s1.metrics;
      } in
          (cancel_cascade b j.id (upstream j.id " was canceled") now s2, ok j'))

  abbrev pub cancel_loaded : Reply Job → Time → S b → S b × Reply Job
  cancel_loaded (err e) now s = (s, err e)
  cancel_loaded (ok j) now s = elim j.state [
    | JobState.canceled ↦ (s, ok j)
    | JobState.succeeded ↦ (s, err failed_precondition)
    | JobState.failed ↦ (s, err failed_precondition)
    | _ ↦ cancel_live j now s
  ]

  unfoldable pub cancel_job : String → Time → S b → S b × Reply Job
  cancel_job id now s = require_leader s (cancel_loaded (load_job id s) now s)
