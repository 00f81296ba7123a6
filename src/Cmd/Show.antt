-- ===== src/Cmd/Show.antt =====
-- cmd/schedulerctl/main.go: the tables that the commands print, row by row.
use distsched.Base.{ℕ, ℤ, List, [], ◌∷◌, Option, none, some, String, if◌then◌else◌, same, length}
use distsched.Api.{
  ClusterStatus, Job, JobState, LeaseInfo, SchedulerNode, SchedulerRole, WorkerInfo, WorkerState,
  get_holder_id,
}
use distsched.Cmd.Text.{trim_prefix}

unfoldable pub state_name : JobState → String
state_name JobState.unspecified = "JOB_STATE_UNSPECIFIED"
state_name JobState.pending = "JOB_STATE_PENDING"
state_name JobState.queued = "JOB_STATE_QUEUED"
state_name JobState.running = "JOB_STATE_RUNNING"
state_name JobState.succeeded = "JOB_STATE_SUCCEEDED"
state_name JobState.failed = "JOB_STATE_FAILED"
state_name JobState.canceled = "JOB_STATE_CANCELED"

unfoldable pub short_state : JobState → String
short_state s = trim_prefix "JOB_STATE_" (state_name s)

unfoldable pub role_name : SchedulerRole → String
role_name SchedulerRole.unspecified = "SCHEDULER_ROLE_UNSPECIFIED"
role_name SchedulerRole.leader = "SCHEDULER_ROLE_LEADER"
role_name SchedulerRole.follower = "SCHEDULER_ROLE_FOLLOWER"

unfoldable pub short_role : SchedulerRole → String
short_role r = trim_prefix "SCHEDULER_ROLE_" (role_name r)

unfoldable pub worker_state_name : WorkerState → String
worker_state_name WorkerState.unspecified = "WORKER_STATE_UNSPECIFIED"
worker_state_name WorkerState.alive = "WORKER_STATE_ALIVE"
worker_state_name WorkerState.suspect = "WORKER_STATE_SUSPECT"
worker_state_name WorkerState.dead = "WORKER_STATE_DEAD"

unfoldable pub short_worker_state : WorkerState → String
short_worker_state s = trim_prefix "WORKER_STATE_" (worker_state_name s)

-- A line of the table that `cmdList` prints.
pub record JobRow : Type 0 where
  pub id : String
  pub name : String
  pub priority : ℤ
  pub state : String
  pub attempt : ℕ
  pub deps : ℕ

unfoldable pub rows_of : List Job → List JobRow
rows_of [] = []
rows_of (j ∷ js) =
    record {
      id = j.id;
      name = j.name;
      priority = j.priority;
      state = short_state j.state;
      attempt = j.attempt;
      deps = length j.depends_on;
    }
    ∷ rows_of js

-- A line of the table of schedulers that `cmdStatus` prints.
pub record SchedulerRow : Type 0 where
  pub id : String
  pub address : String
  pub role : String

unfoldable pub scheduler_rows : List SchedulerNode → List SchedulerRow
scheduler_rows [] = []
scheduler_rows (n ∷ ns) =
    record { id = n.id; address = n.address; role = short_role n.role } ∷ scheduler_rows ns

pub record WorkerRow : Type 0 where
  pub id : String
  pub address : String
  pub state : String
  pub running : ℕ

unfoldable pub worker_rows : List WorkerInfo → List WorkerRow
worker_rows [] = []
worker_rows (k ∷ ks) =
    record {
      id = k.id;
      address = k.address;
      state = short_worker_state k.state;
      running = k.running_tasks;
    }
    ∷ worker_rows ks

-- What `cmdStatus` prints.
pub record StatusTable : Type 0 where
  pub leader : String
  pub term : ℕ
  pub schedulers : List SchedulerRow
  pub workers : List WorkerRow

-- `GetTerm` of an absent lease is 0.
unfoldable pub get_term : Option LeaseInfo → ℕ
get_term none = 0
get_term (some l) = l.term

unfoldable pub table_of : ClusterStatus → StatusTable
table_of st = record {
  leader = if same (get_holder_id st.lease) "" then "(none)" else get_holder_id st.lease;
  term = get_term st.lease;
  schedulers = scheduler_rows st.schedulers;
  workers = worker_rows st.workers;
}
