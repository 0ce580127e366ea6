-- ===== src/Optimizer.antt =====
-- libursa/QueryOptimizer.cpp: the passes over a planned query, and the loop that repeats them.
pub mod Passes
pub mod Optimize
pub mod Step
pub mod Flatten
pub mod Deduplicate
pub mod Simplify
pub mod Propagate
pub mod Optimized
pub mod Improves
