-- ===== src/Query.antt =====
-- libursa/Query.cpp and libursa/Query.h: queries, and what running one gives.
pub mod Syntax
pub mod Meaning
pub mod Run
pub mod RunSteps
pub mod Sound
pub mod Token
pub mod Plan
pub mod Occurs
pub mod Gather
pub mod Covers
