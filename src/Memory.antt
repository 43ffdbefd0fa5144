-- ===== src/Memory.antt =====
-- store/memory.rs, the in-memory backend: the changes of one letter, the operations, their laws.
pub mod Letter
pub mod Defs
pub mod Changes
pub mod Loops
pub mod Lifting
pub mod Runs
pub mod Lives
pub mod Sound
pub mod Traced
pub mod NoLoss
pub mod Poll
pub mod Drain
pub mod Single
pub mod Backend
pub mod Found
pub mod Distinct
pub mod Unique
pub mod Held
pub mod Flights
