-- ===== src/Lsof.antt =====
-- The lister of open files of 310551113_hw1/hw1.cpp.
pub mod Filter
pub mod Files
pub mod Process
pub mod Table
mod Tests
