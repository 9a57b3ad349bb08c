-- ===== src/Lease.antt =====
-- Ownership of a running match across server processes: leases and fences kept in Redis.
pub mod Redis
pub mod Tombstone
pub mod Scripts
pub mod Keys
pub mod Cluster
pub mod Fencing
pub mod Register
pub mod Requeue
pub mod Takeover
