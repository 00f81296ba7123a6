-- ===== src/Lib.antt =====
-- distsched is a distributed job scheduler. A cluster of scheduler nodes elects a leader; the
-- leader takes jobs from clients, leases them as tasks to workers that poll for them, and ships
-- what it writes to its followers. This library models the node in antt and proves what it does.
--
-- The parts, and the files that model them:
--   Api        the messages and enums of gen/go/distsched/v1. A timestamp or a duration is a number
--              of nanoseconds, a `double` its bit pattern.
--   Retry      internal/retry/retry.go: `MaxAttempts` is `max_attempts`, `Backoff` is `backoff`.
--              The floating-point operations are a parameter, `Floats`. Retry/Bounds has its
--              theorems.
--   Store      internal/store/store.go: each method is the function of its name, over `Bolt`, which
--              stands for bbolt and the protobuf codec with the behaviour that they document.
--              Store/Laws has what the methods promise, Store/Interface the record `Storage` of
--              these promises, which the scheduler takes, and its implementation `bolt_storage`.
--   Queue      internal/queue/queue.go: the heap with its index map, and the steps of
--              container/heap. Queue/Length counts the entries, Order is about the order of the
--              items, Index about the index map, Heap, Down and Sift about the heap order, Ends
--              about the end of the slice. Waiting has the abstract queue, a map from job IDs to
--              items, and Refines relates the two.
--   Cluster    internal/cluster/cluster.go. Cluster/Node has one node: a method that takes the lock
--              is a function from node to node, and `startElection` is `start_election` and one
--              `count_vote` for each answer. Cluster/System has the cluster: steps that interleave
--              the locked sections of all nodes over a network that loses, delays and reorders
--              messages, with crashes and restarts. Evolves, Tally, Invariant and Steps carry the
--              proof in Safety; Votes is about one node's votes, Fences about the terms that it
--              goes through, Elects about the loop over the answers.
--   Scheduler  internal/scheduler. State has the server (server.go), Replication the durable
--              writes and the log (server.go, cluster.go), Deps the dependencies (deps.go), Jobs
--              the job service (job.go), Dispatch the leases (dispatch.go), Workers the worker
--              service and the cluster handlers (worker.go, cluster.go), Recovery the reaper and
--              the rebuild (recovery.go, server.go), Start how a server is built and shut down,
--              Status what it tells about itself (server.go, cluster.go, and the live collector of
--              internal/metrics/metrics.go), and Broadcast the leader's heartbeat (cluster.go). A
--              handler takes the server's state and gives it back with the reply. Safe, Writes,
--              Keeps, Results, Handlers and Upkeep are about what each call does to the store,
--              Indexes, Local, Failing and Rebuild about the start of a leadership, and History
--              about any sequence of calls, elections and leaderships, which leaves out the
--              entries that a follower applies; Converges, Tracks, Follows and Delivers are about
--              these. Search, Cycles, Keys, Genuine and Exact are about the search for a cycle,
--              Chains and Acyclic about the dependencies of all stored jobs; Due, Armed, Promised,
--              Reported, Leased, Attended, Relisted, Unforgotten and Gives about the jobs that
--              wait for a worker; Cascade and Polling about the loops, Quiet and Repeats about
--              reports, Idle about a server that has stepped down, and Leases, Refuses, Shipping
--              and Late about leases, answers and the log.
--   Net        the gRPC calls that the agent and the client make, as a parameter: a network with
--              the servers behind it, whose state each call may change.
--   Ctl        internal/ctl/ctl.go: each method of `Client` is the function of its name. Ctl/Leader
--              is about the address at which the leader is looked for.
--   Worker     internal/worker/agent.go: the slots of a worker, `tryStart`, `finish` and
--              `freeCapacity`. Worker/Session has the agent, each method a function from session to
--              session, with the time that it waits as a list; Worker/Executor is
--              internal/worker/executor.go. Slots, Launches and Capacity are about the tasks that
--              an agent takes, Identity about its ID, Waits about its attempts, Output and Utf8
--              about what a report carries. Worker/Keeps has the rule by which they go over all
--              that an agent does.
--   Cmd        cmd/scheduler/main.go, cmd/worker/main.go and cmd/schedulerctl/main.go: what the
--              commands make of their flags. Cmd/Text has the functions of Go's `strings` that
--              they use, Cmd/Show the tables of jobs and of the cluster; Members and Numbers are
--              about the members of a cluster and about int32 flags.
--   Tests      runs at concrete inputs, over an in-memory store.
--
-- The pieces meet in `Scheduler.State.Backend`: the store as `Storage`, the cron parser, the UUIDs
-- and the random draws are parameters of every handler. A handler reads the clock once.
--
-- Bounds and fuel. Numbers are unbounded where the source has int32 and int64; `attempt` and the
-- terms are natural numbers. The cascade of cancellations takes the edges of the index and two for
-- its fuel. A poll takes the length of the queue and one, since each round pops one entry. The
-- cycle search takes the number of jobs and two, since it enters a job once. The heap's loops take
-- the length of the heap.
--
-- The search of an agent for a leader goes on for as many rounds as `patience` says, which stands
-- for the time at which its context ends.
--
-- Not modelled: running a process, signals and printing (cmd), the registry of the metrics,
-- logging, identifiers and build information, gRPC serving and the transport, with what a shutdown
-- closes of them, which are input and output or glue. Handlers run one after the other: the locks of the server and the interleaving
-- of handlers with each other are not modelled.
pub mod Base
pub mod Api
pub mod Retry
pub mod Store
pub mod Queue
pub mod Cluster
pub mod Scheduler
pub mod Net
pub mod Ctl
pub mod Worker
pub mod Cmd
pub mod Tests
