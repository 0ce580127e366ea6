-- ===== src/Index.antt =====
-- libursa/OnDiskIndex.cpp and libursa/OnDiskIndex.h: an index file, and the batches of a merge.
pub mod File
pub mod Bytes
pub mod Layout
pub mod Built
pub mod Answers
pub mod Batch
pub mod Files
pub mod Merge
pub mod Merged
pub mod MergeBatch
pub mod MergeLoop
pub mod MergeHolds
pub mod MergeAnswers
