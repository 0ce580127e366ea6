-- ===== src/Database.antt =====
-- libursa/Database.cpp, libursa/Task.cpp and libursa/DatabaseLock.h: tasks, and the locks they hold.
pub mod Tasks
pub mod Holders
pub mod Held
pub mod Exclusion
pub mod Datasets
pub mod Garbage
pub mod Iterators
pub mod Stale
