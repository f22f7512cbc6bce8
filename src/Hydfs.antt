-- ===== src/Hydfs.antt =====
-- HyDfs/: the distributed file system over the ring of members.
pub mod Routing
pub mod AppendLog
pub mod Cache
pub mod Failure
pub mod Requests
pub mod Replication
pub mod Transfer
pub mod Merging
