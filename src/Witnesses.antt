-- ===== src/Witnesses.antt =====
-- The theorems at concrete inputs, by the part of the program.
mod Fixtures
mod Lifecycle
mod Backend
mod Histories
mod Service
mod Pools
mod Disk
mod Mirrors
mod Wires
mod Dispatchers
mod Clients
mod Observers
