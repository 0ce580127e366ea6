-- ===== src/Tests.antt =====
-- The theorems at concrete inputs.
mod Codec
mod Runs
mod Ngrams
mod Queries
mod Databases
mod Indexes
mod Sample
mod Builders
mod Merges
mod Snapshots
mod Compactions
