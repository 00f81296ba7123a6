-- ===== src/Scheduler/State.antt =====
-- internal/scheduler/server.go: the state of a server, and what it takes from outside.
use distsched.Base.{ℕ, Bool, List, Option, String, Dict, lookup}
use distsched.Api.{WorkerInfo, Time, Duration, Double, ReplicationEntry}
use distsched.Retry.{Floats}
use distsched.Store.Interface.{Storage}
use distsched.Queue.{PriorityQueue}
use distsched.Cluster.Node.{Node, is_leader, current_leader}

-- The store, the cron parser (`none` for an expression that does not parse), the UUID generator and
-- the random source, each as a sequence of its answers.
pub record Backend : Type 1 where
  pub storage : Storage
  pub floats : Floats
  pub next_cron : String → Time → Option Time
  pub uuid : ℕ → String
  pub rand : ℕ → Double

pub record Member : Type 0 where
  pub id : String
  pub address : String

-- The election timeouts are numbers of nanoseconds, as in Cluster/Node.
pub record Config : Type 0 where
  pub node_id : String
  pub listen_addr : String
  pub data_dir : String
  pub members : List Member
  pub heartbeat_timeout : Duration
  pub lease_ttl : Duration
  pub heartbeat_interval : Duration
  pub election_timeout_min : ℕ
  pub election_timeout_max : ℕ
  pub reaper_interval : Duration
  pub metrics_addr : String

pub record Lease : Type 0 where
  pub task_id : String
  pub job_id : String
  pub worker_id : String
  pub attempt : ℕ
  pub deadline : Time

-- The event counters of internal/metrics that the handlers increment.
pub record Counters : Type 0 where
  pub jobs_submitted : ℕ
  pub jobs_succeeded : ℕ
  pub jobs_dead_lettered : ℕ
  pub jobs_canceled : ℕ
  pub tasks_dispatched : ℕ
  pub tasks_retried : ℕ
  pub tasks_requeued : ℕ

-- `retry_timers` holds the delay of each pending timer; `minted` and `drawn` count the UUIDs and the
-- random numbers taken so far.
pub record Server (Db : Type 0) : Type 0 where
  pub cfg : Config
  pub store : Db
  pub queue : PriorityQueue
  pub node : Node
  pub members : Dict String
  pub self_addr : String
  pub workers : Dict WorkerInfo
  pub leases : Dict Lease
  pub retry_timers : Dict Duration
  pub repl_log : List ReplicationEntry
  pub repl_seq : ℕ
  pub peer_acked : Dict ℕ
  pub rev_index : Dict (List String)
  pub metrics : Counters
  pub closed : Bool
  pub minted : ℕ
  pub drawn : ℕ

-- gRPC status codes, `not_leader` for the FailedPrecondition that carries the leader's address.
pub data Error : Type 0 where
  not_leader : (leader_addr : String) → Error
  invalid_argument failed_precondition not_found internal : Error

pub data Reply (A : Type 0) : Type 0 where
  ok : A → Reply A
  err : Error → Reply A

abbrev pub leads : {Db : Type 0} → Server Db → Bool
leads s = is_leader s.node.role

-- `s.members[s.node.LeaderID()]`
unfoldable pub leader_addr : {Db : Type 0} → Server Db → String
leader_addr s = elim (lookup (current_leader s.node) s.members) [
  | Option.none ↦ ""
  | Option.some addr ↦ addr
]

-- `requireLeader` before the handler proper; a handler refused leaves the server as it was.
abbrev pub require_leader : {Db A : Type 0} → Server Db → Server Db × Reply A → Server Db × Reply A
require_leader s k = elim (leads s) [
  | Bool.true ↦ k
  | Bool.false ↦ (s, err (not_leader (leader_addr s)))
]
