-- ===== src/QueryResult.antt =====
-- libursa/QueryResult.cpp and libursa/QueryResult.h: a set of file ids, or the set of all files.
pub mod Ops
pub mod Sets
pub mod Branches
pub mod MinOf
