-- ===== src/Cmd.antt =====
-- cmd/scheduler/main.go, cmd/worker/main.go and cmd/schedulerctl/main.go: what the commands make of
-- their flags and arguments. Reading the flags, signals and printing are not modelled.
pub mod Text
pub mod Show
pub mod Members
pub mod Numbers
use distsched.Base.{
  ℕ, ◌+◌, ◌-◌, ◌%◌, ◌^◌, ℤ, pos, negsuc, Bool, true, false, ◌||◌, List, [], ◌∷◌, Option, none, some,
  String, if◌then◌else◌, same, ltb, sub_ℕ, length,
}
use distsched.Api.{Duration, Job, JobState, Time}
use distsched.Net.{Answer, ok, err, Network, plain}
use distsched.Ctl
use distsched.Ctl.{Client, SubmitParams}
use distsched.Scheduler.State as Scheduler
use distsched.Scheduler.State.{Member}
use distsched.Worker.Session as Worker
use distsched.Cmd.Text.{cut, is_empty, split, trim_space}
use distsched.Cmd.Show.{JobRow, StatusTable, rows_of, table_of}

-- The conversion `int32(i)` of an int.
unfoldable pub to_int32 : ℤ → ℤ
to_int32 (pos n) = let m = n % 2 ^ 32 in if ltb m (2 ^ 31) then pos m else sub_ℕ m (2 ^ 32)
to_int32 (negsuc n) =
    let m = n % 2 ^ 32 in if ltb m (2 ^ 31) then negsuc m else pos (2 ^ 32 - m - 1)

-- The loop of `parseMembers` over the parts between commas; `none` for an error.
unfoldable pub parse_parts : List String → Option (List Member)
parse_parts [] = some []
parse_parts (p ∷ ps) =
    let part = trim_space p in
    let rest = parse_parts ps in
    if is_empty part then rest else elim (cut 61 part) [
      | none ↦ none
      | some (id, addr) ↦
          (if is_empty id || is_empty addr then none else elim rest [
            | none ↦ none
            | some ms ↦ some (record { id = trim_space id; address = trim_space addr } ∷ ms)
          ])
    ]

unfoldable pub parse_members : String → Option (List Member)
parse_members s = let t = trim_space s in if is_empty t then some [] else parse_parts (split 44 t)

-- The loop over a list of addresses or job IDs between commas.
unfoldable pub trimmed : List String → List String
trimmed [] = []
trimmed (p ∷ ps) =
    let s = trim_space p in let rest = trimmed ps in if is_empty s then rest else s ∷ rest

unfoldable pub listed : String → List String
listed s = trimmed (split 44 s)

pub record SchedulerFlags : Type 0 where
  pub node_id : String
  pub listen : String
  pub data_dir : String
  pub peers : String
  pub hb_timeout : Duration
  pub metrics_addr : String

-- The configuration that the scheduler is started with.
unfoldable pub scheduler_config : SchedulerFlags → Option Scheduler.Config
scheduler_config f = elim (parse_members f.peers) [
  | none ↦ none
  | some members ↦ some (record {
    node_id = f.node_id;
    listen_addr = f.listen;
    data_dir = f.data_dir;
    members = members;
    heartbeat_timeout = f.hb_timeout;
    lease_ttl = pos 0;
    heartbeat_interval = pos 0;
    election_timeout_min = 0;
    election_timeout_max = 0;
    reaper_interval = pos 0;
    metrics_addr = f.metrics_addr;
  })
]

pub record WorkerFlags : Type 0 where
  pub schedulers : String
  pub advertise : String
  pub capacity : ℤ
  pub hb_interval : Duration
  pub poll_interval : Duration

-- The configuration that the worker is started with.
unfoldable pub worker_config : WorkerFlags → Worker.Config
worker_config f = record {
  schedulers = listed f.schedulers;
  advertise = f.advertise;
  capacity = to_int32 f.capacity;
  labels = [];
  heartbeat_interval = f.hb_interval;
  poll_interval = f.poll_interval;
}

pub record SubmitFlags : Type 0 where
  pub id : String
  pub name : String
  pub command : String
  pub args : List String
  pub priority : ℤ
  pub depends_on : String
  pub cron : String
  pub after : Duration
  pub max_attempts : ℤ

unfoldable pub submit_params : SubmitFlags → SubmitParams
submit_params f = record {
  id = f.id;
  name = f.name;
  command = f.command;
  args = f.args;
  priority = to_int32 f.priority;
  depends_on = listed f.depends_on;
  cron = f.cron;
  after = f.after;
  max_attempts = to_int32 f.max_attempts;
}

-- `JobState.String`
-- `lower` is `strings.ToLower`.
unfoldable pub parse_state : (lower : String → String) → String → JobState
parse_state lower s =
    let t = lower (trim_space s) in
    if same t "pending"
    then JobState.pending
    else if same t "queued"
    then JobState.queued
    else if same t "running"
    then JobState.running
    else if same t "succeeded"
    then JobState.succeeded
    else if same t "failed"
    then JobState.failed
    else if same t "canceled"
    then JobState.canceled
    else JobState.unspecified

module _ (net : Network) where
  unfoldable pub cmd_list :
      (lower : String → String) → String → Client → net.World → net.World × Answer (List JobRow)
  cmd_list lower state c w =
      let (w1, r) = Ctl.list_jobs net (parse_state lower state) c w in
      elim r [ ok js ↦ (w1, ok (rows_of js)) | err e ↦ (w1, err e) ]

  unfoldable pub cmd_status : Client → net.World → net.World × Answer StatusTable
  cmd_status c w =
      let (w1, r) = Ctl.status net c w in
      elim r [ ok st ↦ (w1, ok (table_of st)) | err e ↦ (w1, err e) ]

  unfoldable pub cmd_submit : SubmitFlags → Time → Client → net.World → net.World × Answer String
  cmd_submit f now c w =
      if same f.command ""
      then (w, err (plain "--command is required"))
      else Ctl.submit net (submit_params f) now c w

  unfoldable pub cmd_get : List String → Client → net.World → net.World × Answer (Option Job)
  cmd_get (id ∷ []) c w = Ctl.get net id c w
  cmd_get _ c w = (w, err (plain "usage: get <job-id>"))

  unfoldable pub cmd_cancel : List String → Client → net.World → net.World × Answer (Option Job)
  cmd_cancel (id ∷ []) c w = Ctl.cancel net id c w
  cmd_cancel _ c w = (w, err (plain "usage: cancel <job-id>"))
