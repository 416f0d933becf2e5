-- ===== src/File.antt =====
-- src/local_file: configuration kept in local files, watched by a thread that polls.
pub mod Types
pub mod Disk
pub mod State
pub mod Request
pub mod Task
pub mod Poll
pub mod Worker
pub mod Pairing
mod Tests
