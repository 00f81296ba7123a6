-- ===== src/Tests/Fixture.antt =====
-- A backend over the in-memory store, a server that leads, a job and a worker.
use distsched.Base.{
  ℕ, zero, suc, ◌+◌, ◌*◌, ◌-◌, ◌≡◌, refl, false, [], ◌∷◌, none, some, String, pos, negsuc, ltb, leb,
  lookup,
}
use distsched.Api.{Job, JobState, TaskSpec, RetryPolicy, WorkerInfo, WorkerState}
use distsched.Retry.{Floats}
use distsched.Cluster.Node.{Node, leader}
use distsched.Store.{not_found}
use distsched.Scheduler.State.{Backend, Config, Counters}
use distsched.Scheduler.Replication.{S}
use distsched.Tests.Memory.{memory}

-- Whole numbers in place of floating-point ones.
abbrev pub whole_floats : Floats
whole_floats = record {
  of_int = λ i. elim i [ pos n ↦ n | negsuc n ↦ 0 ];
  to_int = pos;
  mul = λ x y. x * y;
  add = λ x y. x + y;
  sub = λ x y. x - y;
  lt = ltb;
  le = leb;
  zero_lit = 0;
  one_lit = 1;
  two_lit = 2;
  fifth_lit = 0;
}

abbrev pub names : ℕ → String
names zero = "a"
names (suc n) = "b"

abbrev pub backend : Backend
backend = record {
  storage = memory;
  floats = whole_floats;
  next_cron = λ e t. none;
  uuid = names;
  rand = λ n. 0;
}

abbrev pub no_counts : Counters
no_counts = record {
  jobs_submitted = 0;
  jobs_succeeded = 0;
  jobs_dead_lettered = 0;
  jobs_canceled = 0;
  tasks_dispatched = 0;
  tasks_retried = 0;
  tasks_requeued = 0;
}

abbrev pub leading : Node
leading = record {
  cfg = record {
    node_id = "n1";
    members = "n1" ∷ [];
    election_timeout_min = 1;
    election_timeout_max = 2;
  };
  role = leader;
  current_term = 1;
  voted_for = "n1";
  leader_id = "n1";
  election_deadline = 0;
  disk = record { term = 1; voted_for = "n1" };
  calls = [];
}

abbrev pub config : Config
config = record {
  node_id = "n1";
  listen_addr = "addr1";
  data_dir = "";
  members = record { id = "n1"; address = "addr1" } ∷ [];
  heartbeat_timeout = pos 100;
  lease_ttl = pos 50;
  heartbeat_interval = pos 1;
  election_timeout_min = 1;
  election_timeout_max = 2;
  reaper_interval = pos 1;
  metrics_addr = "";
}

abbrev pub server : S backend
server = record {
  cfg = config;
  store = record { jobs = []; workers = []; dead = [] };
  queue = record { h = []; by_id = [] };
  node = leading;
  members = ("n1", "addr1") ∷ [];
  self_addr = "addr1";
  workers = [];
  leases = [];
  retry_timers = [];
  repl_log = [];
  repl_seq = 0;
  peer_acked = [];
  rev_index = [];
  metrics = no_counts;
  closed = false;
  minted = 0;
  drawn = 0;
}

abbrev pub spec : TaskSpec
spec = record { command = "true"; args = []; env = []; timeout = none; payload = [] }

abbrev pub once : RetryPolicy
once = record {
  max_attempts = pos 1;
  initial_backoff = none;
  max_backoff = none;
  backoff_multiplier = 0;
  jitter = 0;
}

abbrev pub job : Job
job = record {
  id = "j1";
  name = "";
  priority = pos 0;
  spec = some spec;
  depends_on = [];
  schedule = none;
  retry_policy = some once;
  state = JobState.unspecified;
  attempt = 0;
  assigned_worker_id = "";
  last_error = "";
  created_at = none;
  updated_at = none;
  scheduled_at = none;
  started_at = none;
  finished_at = none;
}

abbrev pub worker : WorkerInfo
worker = record {
  id = "w1";
  address = "";
  capacity = pos 1;
  labels = [];
  state = WorkerState.alive;
  last_heartbeat = none;
  running_tasks = 0;
}

abbrev pub running_job : Job
running_job = record job {
  state = JobState.running;
  attempt = 1;
  assigned_worker_id = "w1";
  created_at = some (pos 2);
  updated_at = some (pos 3);
  started_at = some (pos 3);
}

abbrev pub failed_job : Job
failed_job = record running_job {
  state = JobState.failed;
  assigned_worker_id = "";
  last_error = "exit 1";
  updated_at = some (pos 4);
  finished_at = some (pos 4);
}

pub nothing_stored : (k : String) → memory.get_job server.store k ≡ not_found
unfolding lookup
nothing_stored k = refl
