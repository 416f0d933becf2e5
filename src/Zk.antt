-- ===== src/Zk.antt =====
-- src/cppzk: the wrapper of the ZooKeeper C client.
pub mod Types
pub mod SplitPath
pub mod Client
pub mod Create
pub mod Delete
pub mod Value
pub mod Setter
pub mod Watch
pub mod Unwatch
pub mod Session
pub mod Ensemble
pub mod Tests
