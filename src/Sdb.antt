-- ===== src/Sdb.antt =====
-- The debugger of 310551113_hw4/sdb.cpp.
pub mod Config
pub mod Code
pub mod Host
pub mod World
pub mod Stops
pub mod Control
pub mod Memory
pub mod Inspect
pub mod Shell
mod Tests
