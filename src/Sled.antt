-- ===== src/Sled.antt =====
-- store/sled_store.rs, the backend on disk: the changes of one letter, the operations, their laws.
pub mod Letter
pub mod Tree
pub mod Defs
pub mod Laws
pub mod Keeps
pub mod Steps
pub mod Moves
pub mod Runs
pub mod Traced
pub mod Agree
pub mod Races
