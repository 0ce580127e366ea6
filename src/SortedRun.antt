-- ===== src/SortedRun.antt =====
-- libursa/SortedRun.cpp and libursa/SortedRun.h: sorted lists of file ids in two representations.
pub mod Sets
pub mod Runs
pub mod Pick
pub mod Represents
pub mod MinScan
pub mod Threshold
pub mod Common
