-- ===== src/Tests.antt =====
-- Runs of the model at concrete inputs: an in-memory store, a scheduler over it, and a small cluster.
mod Memory
mod Fixture
mod Elections
mod Calls
mod Leases
mod Delays
mod Queues
mod Graphs
mod Followers
mod Commands
mod Disk
mod Loopback
mod Sessions
mod Agents
mod Waiting
