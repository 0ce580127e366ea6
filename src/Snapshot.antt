-- ===== src/Snapshot.antt =====
-- `DatabaseSnapshot` (libursa/DatabaseSnapshot.cpp): what the database was when a task started.
pub mod State
pub mod Executed
pub mod Compatible
pub mod Candidates
pub mod Groups
pub mod Classes
pub mod CanMerge
pub mod Chosen
pub mod Compact
pub mod Locked
pub mod Compacted
