-- ===== src/Process.antt =====
-- sdb::Process and the stop points that act through it.
pub mod State
pub mod Always
pub mod Registers
pub mod Memory
pub mod Hardware
pub mod Sites
pub mod Watchpoints
pub mod StopReason
pub mod Stops
pub mod Frame
