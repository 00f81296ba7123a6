-- ===== src/Api.antt =====
-- The messages of proto/distsched/v1, as gen/go/distsched/v1 declares them. A timestamp is a number
-- of nanoseconds since the epoch, an absent message is `none`, a `double` is its bit pattern.
use distsched.Base.{ℕ, ℤ, pos, List, Option, none, some, String}

pub data JobState : Type 0 where
  unspecified pending queued running succeeded failed canceled : JobState

pub data WorkerState : Type 0 where
  unspecified alive suspect dead : WorkerState

pub data TaskResult : Type 0 where
  unspecified succeeded failed : TaskResult

abbrev pub Time : Type 0
Time = ℤ

abbrev pub Duration : Type 0
Duration = ℤ

abbrev pub Double : Type 0
Double = ℕ

pub record TaskSpec : Type 0 where
  pub command : String
  pub args : List String
  pub env : List (String × String)
  pub timeout : Option Duration
  pub payload : List ℕ

pub record RetryPolicy : Type 0 where
  pub max_attempts : ℤ
  pub initial_backoff : Option Duration
  pub max_backoff : Option Duration
  pub backoff_multiplier : Double
  pub jitter : Double

pub data ScheduleKind : Type 0 where
  unset : ScheduleKind
  run_at : Time → ScheduleKind
  cron_expr : String → ScheduleKind

pub record Schedule : Type 0 where
  pub kind : ScheduleKind
  pub timezone : String

-- `attempt` is an int32 that starts at 0 and is only incremented, so it is a number.
pub record Job : Type 0 where
  pub id : String
  pub name : String
  pub priority : ℤ
  pub spec : Option TaskSpec
  pub depends_on : List String
  pub schedule : Option Schedule
  pub retry_policy : Option RetryPolicy
  pub state : JobState
  pub attempt : ℕ
  pub assigned_worker_id : String
  pub last_error : String
  pub created_at : Option Time
  pub updated_at : Option Time
  pub scheduled_at : Option Time
  pub started_at : Option Time
  pub finished_at : Option Time

pub record WorkerInfo : Type 0 where
  pub id : String
  pub address : String
  pub capacity : ℤ
  pub labels : List (String × String)
  pub state : WorkerState
  pub last_heartbeat : Option Time
  pub running_tasks : ℕ

pub record TaskAssignment : Type 0 where
  pub task_id : String
  pub job_id : String
  pub attempt : ℕ
  pub spec : Option TaskSpec
  pub lease_deadline : Time

pub data Mutation : Type 0 where
  upsert_job : Job → Mutation
  upsert_worker : WorkerInfo → Mutation
  delete_job_id : String → Mutation
  unset_mutation : Mutation

pub record ReplicationEntry : Type 0 where
  pub seq : ℕ
  pub mutation : Mutation

-- `AsTime` of an absent timestamp is the epoch.
abbrev pub as_time : Option Time → Time
as_time none = pos 0
as_time (some t) = t

-- `AsDuration` of an absent duration is 0.
abbrev pub as_duration : Option Duration → Duration
as_duration none = pos 0
as_duration (some d) = d

-- `job.GetSchedule().GetCronExpr()`
abbrev pub get_cron_expr : Option Schedule → String
get_cron_expr none = ""
get_cron_expr (some s) = elim s.kind [ cron_expr e ↦ e | _ ↦ "" ]

-- `job.GetSpec().GetCommand()`
abbrev pub get_command : Option TaskSpec → String
get_command none = ""
get_command (some s) = s.command

pub data SchedulerRole : Type 0 where
  unspecified leader follower : SchedulerRole

pub record SchedulerNode : Type 0 where
  pub id : String
  pub address : String
  pub role : SchedulerRole
  pub last_seen : Option Time

pub record LeaseInfo : Type 0 where
  pub holder_id : String
  pub term : ℕ
  pub acquired_at : Option Time
  pub expires_at : Option Time

-- `GetClusterStatusResponse`
pub record ClusterStatus : Type 0 where
  pub lease : Option LeaseInfo
  pub schedulers : List SchedulerNode
  pub workers : List WorkerInfo

-- `resp.GetLease().GetHolderId()`
abbrev pub get_holder_id : Option LeaseInfo → String
get_holder_id none = ""
get_holder_id (some l) = l.holder_id
