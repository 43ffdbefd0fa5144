-- ===== src/Bus.antt =====
-- bus.rs: the bus over any backend: its table of roles, and the guards before each operation.
pub mod Defs
pub mod Guards
pub mod Keeps
pub mod Delivery
