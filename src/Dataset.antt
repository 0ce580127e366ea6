-- ===== src/Dataset.antt =====
-- `OnDiskDataset` (libursa/OnDiskDataset.cpp): some files, their names, and their indexes.
pub mod State
pub mod Files
pub mod Answers
pub mod Merge
pub mod Parts
pub mod Types
pub mod Compatible
pub mod Merged
