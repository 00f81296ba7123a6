-- ===== src/Scheduler/Start.antt =====
-- internal/scheduler/server.go: how a server is built, and how it is shut down. Serving gRPC and the
-- metrics endpoint is not modelled, except that the latter may fail to bind its address.
use distsched.Base.{
  Bool, true, false, ◌||◌, List, [], ◌∷◌, Option, none, some, String, pos, eqb_ℤ, ◌==◌,
  if◌then◌else◌, Dict, lookup, insert, map, same,
}
use distsched.Api.{Time, WorkerInfo}
use distsched.Queue
use distsched.Cluster.Node
use distsched.Scheduler.State.{Backend, Config, Member, Counters}
use distsched.Scheduler.Replication.{S}
use distsched.Scheduler.Recovery.{on_become_leader, on_step_down}

unfoldable pub with_defaults : Config → Config
with_defaults c =
    let node_id = if same c.node_id "" then "scheduler-1" else c.node_id in
    let listen_addr = if same c.listen_addr "" then ":7070" else c.listen_addr in
    record {
      node_id = node_id;
      listen_addr = listen_addr;
      data_dir = if same c.data_dir "" then "./data" else c.data_dir;
      members = elim c.members [
        | [] ↦ record { id = node_id; address = listen_addr } ∷ []
        | m ∷ ms ↦ m ∷ ms
      ];
      heartbeat_timeout =
          if eqb_ℤ c.heartbeat_timeout (pos 0) then pos 15_000_000_000 else c.heartbeat_timeout;
      lease_ttl = if eqb_ℤ c.lease_ttl (pos 0) then pos 30_000_000_000 else c.lease_ttl;
      heartbeat_interval =
          if eqb_ℤ c.heartbeat_interval (pos 0) then pos 250_000_000 else c.heartbeat_interval;
      election_timeout_min =
          if c.election_timeout_min == 0 then 800_000_000 else c.election_timeout_min;
      election_timeout_max =
          if c.election_timeout_max == 0 then 1_600_000_000 else c.election_timeout_max;
      reaper_interval =
          if eqb_ℤ c.reaper_interval (pos 0) then pos 3_000_000_000 else c.reaper_interval;
      metrics_addr = c.metrics_addr;
    }

-- The map of the members' addresses; of two with one ID the later one stays.
unfoldable pub members_of : List Member → Dict String → Dict String
members_of [] d = d
members_of (m ∷ ms) d = members_of ms (insert m.id m.address d)

-- `members[id]`
abbrev pub address_in : Dict String → String → String
address_in d id = elim (lookup id d) [ none ↦ "" | some addr ↦ addr ]

unfoldable pub workers_of : List WorkerInfo → Dict WorkerInfo → Dict WorkerInfo
workers_of [] d = d
workers_of (w ∷ ws) d = workers_of ws (insert w.id w d)

abbrev pub zero_counts : Counters
zero_counts = record {
  jobs_submitted = 0;
  jobs_succeeded = 0;
  jobs_dead_lettered = 0;
  jobs_canceled = 0;
  tasks_dispatched = 0;
  tasks_retried = 0;
  tasks_requeued = 0;
}

module _ (b : Backend) where
  -- `s.recover`; `none` where the store does not list its workers.
  unfoldable pub recover : S b → Option (S b)
  recover s = elim (b.storage.list_workers s.store) [
    | none ↦ none
    | some ws ↦ some (record s { workers = workers_of ws s.workers })
  ]

  -- What the node calls back, the earliest call first.
  unfoldable pub called_back : List Node.Callback → Time → S b → S b
  called_back [] now s = s
  called_back (Node.on_leader _ ∷ cs) now s = called_back cs now (on_become_leader b now s)
  called_back (Node.on_step_down _ ∷ cs) now s = called_back cs now (on_step_down b s)

  -- The server before its node has started.
  unfoldable pub fresh : Config → Node.Disk → b.storage.Db → S b
  fresh c disk db =
      let members = members_of c.members [] in
      record {
        cfg = c;
        store = db;
        queue = Queue.empty;
        node =
            Node.new
              (record {
                node_id = c.node_id;
                members = map (λ m. m.id) c.members;
                election_timeout_min = c.election_timeout_min;
                election_timeout_max = c.election_timeout_max;
              })
              disk;
        members = members;
        self_addr = address_in members c.node_id;
        workers = [];
        leases = [];
        retry_timers = [];
        repl_log = [];
        repl_seq = 0;
        peer_acked = [];
        rev_index = [];
        metrics = zero_counts;
        closed = false;
        minted = 0;
        drawn = 0;
      }

  -- `New`, on the database that `store.Open` gives and on whether the metrics address can be bound.
  unfoldable pub new :
      Node.Env → Config → Option b.storage.Db → Node.Disk → (bound : Bool) → Time → Option (S b)
  new e cfg none disk bound now = none
  new e cfg (some db) disk bound now =
      let c = with_defaults cfg in
      elim (recover (fresh c disk db)) [
        | none ↦ none
        | some s ↦
            (if same c.metrics_addr "" || bound
              then (let n = Node.start e s.node.cfg disk in
                  some (called_back n.calls now (record s { node = n })))
              else none)
      ]

  -- `Shutdown` up to the timers: those that have not fired are stopped, and those that fire later see
  -- `closed`. Closing the listeners, the connections and the store is not modelled.
  unfoldable pub shutdown : S b → S b
  shutdown s = record s { closed = true; retry_timers = [] }
