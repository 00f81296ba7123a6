-- ===== src/Cluster.antt =====
-- internal/cluster/cluster.go: leader election. `Node` is the state machine of one replica, `System`
-- the replicas of a cluster with the votes between them.
pub mod Node
pub mod Evolves
pub mod System
mod Tally
pub mod Steps
pub mod Safety
pub mod Votes
pub mod Fences
pub mod Elects
pub mod Invariant
