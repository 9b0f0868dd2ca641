-- ===== src/Sdb/Memory.antt =====
-- The memory of the traced process and the breakpoints (310551113_hw4/sdb.cpp).
pub mod Steady
pub mod Readied
pub mod Bytes
pub mod Counter
pub mod Consistent
pub mod Set
pub mod Printed
pub mod Delete
pub mod Edits
pub mod Session
pub mod Execution
pub mod Begin
pub mod Run
pub mod Stop
pub mod Launch
pub mod Kept
pub mod Registers
pub mod Live
