-- ===== src/Zk/Tests.antt =====
-- Runs of the wrapper of the ZooKeeper client, in src/cppzk/cppzk.hpp, on small servers.
pub mod Shelf
mod Paths
mod Creation
pub mod Deletion
pub mod Values
pub mod Sessions
pub mod Children
pub mod Keeper
mod RoundTrips
