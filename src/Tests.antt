-- ===== src/Tests.antt =====
-- The theorems at concrete inputs, and the machine on which they run.
pub mod Machine
pub mod Memory
pub mod Numbers
pub mod Stoppoints
pub mod Stops
pub mod Dwarf
pub mod Parse
pub mod Elf
pub mod Cli
pub mod Launch
