-- ===== src/Scheduler/Status.antt =====
-- internal/scheduler/server.go and internal/scheduler/cluster.go: what a server tells about itself.
use distsched.Base.{ℕ, ◌+◌, List, [], ◌∷◌, none, some, String, if◌then◌else◌, Dict, same, length}
use distsched.Api.{ClusterStatus, SchedulerNode, SchedulerRole, WorkerInfo, WorkerState}
use distsched.Queue
use distsched.Cluster.Node.{current_leader}
use distsched.Scheduler.State.{Backend, Reply, err, internal, leads}
use distsched.Scheduler.Replication.{S}

-- The loop of `GetClusterStatus` over the members.
unfoldable pub nodes_of : String → Dict String → List SchedulerNode
nodes_of leader_id [] = []
nodes_of leader_id ((id, addr) ∷ ms) =
    record {
      id = id;
      address = addr;
      role = if same id leader_id then SchedulerRole.leader else SchedulerRole.follower;
      last_seen = none;
    }
    ∷ nodes_of leader_id ms

pub record StateCounts : Type 0 where
  pub alive : ℕ
  pub suspect : ℕ
  pub dead : ℕ

abbrev pub count_worker : WorkerState → StateCounts → StateCounts
count_worker WorkerState.alive c = record c { alive = c.alive + 1 }
count_worker WorkerState.suspect c = record c { suspect = c.suspect + 1 }
count_worker WorkerState.dead c = record c { dead = c.dead + 1 }
count_worker WorkerState.unspecified c = c

-- The loop of `workersByState`.
unfoldable pub count_workers : Dict WorkerInfo → StateCounts → StateCounts
count_workers [] c = c
count_workers ((id, w) ∷ ws) c = count_workers ws (count_worker w.state c)

-- What a scrape of the metrics reads, in the order of `Collect`.
pub record Live : Type 0 where
  pub queue_depth : ℕ
  pub in_flight : ℕ
  pub dead_letter_total : ℕ
  pub is_leader : ℕ
  pub term : ℕ
  pub workers_by_state : StateCounts

module _ (b : Backend) where
  unfoldable pub get_cluster_status : S b → Reply ClusterStatus
  get_cluster_status s =
      let leader_id = current_leader s.node in
      elim (b.storage.list_workers s.store) [
        | none ↦ err internal
        | some ws ↦ Reply.ok (record {
          lease = some (record {
            holder_id = leader_id;
            term = s.node.current_term;
            acquired_at = none;
            expires_at = none;
          });
          schedulers = nodes_of leader_id s.members;
          workers = ws;
        })
      ]

  unfoldable pub workers_by_state : S b → StateCounts
  workers_by_state s = count_workers s.workers (record { alive = 0; suspect = 0; dead = 0 })

  unfoldable pub queue_depth : S b → ℕ
  queue_depth s = Queue.size s.queue

  unfoldable pub in_flight : S b → ℕ
  in_flight s = length s.leases

  unfoldable pub dead_letter_count : S b → ℕ
  dead_letter_count s = b.storage.count_dead_letter s.store

  -- `liveCollector.Collect` over the sources that `New` gives it.
  unfoldable pub collect : S b → Live
  collect s = record {
    queue_depth = queue_depth s;
    in_flight = in_flight s;
    dead_letter_total = dead_letter_count s;
    is_leader = if leads s then 1 else 0;
    term = s.node.current_term;
    workers_by_state = workers_by_state s;
  }
