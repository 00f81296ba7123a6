-- ===== src/Scheduler.antt =====
-- internal/scheduler: one scheduler node. `State` is what the server keeps; the children from
-- `Replication` to `Broadcast` are its operations, and those from `Safe` on what holds of them.
pub mod State
pub mod Replication
pub mod Deps
pub mod Jobs
pub mod Dispatch
pub mod Recovery
pub mod Workers
pub mod Start
pub mod Status
pub mod Broadcast
pub mod Safe
pub mod Writes
pub mod Keeps
pub mod Results
pub mod Handlers
pub mod Upkeep
pub mod History
pub mod Refuses
pub mod Shipping
pub mod Leases
pub mod Cascade
pub mod Search
pub mod Cycles
pub mod Chains
pub mod Acyclic
pub mod Indexes
pub mod Local
pub mod Late
pub mod Quiet
pub mod Repeats
pub mod Failing
pub mod Rebuild
pub mod Polling
pub mod Converges
pub mod Tracks
pub mod Follows
pub mod Delivers
pub mod Due
pub mod Armed
pub mod Promised
pub mod Reported
pub mod Leased
pub mod Attended
pub mod Relisted
pub mod Unforgotten
pub mod Keys
pub mod Genuine
pub mod Exact
pub mod Gives
pub mod Idle
