-- ===== src/Draft.antt =====
-- The first version of the lister, 310551113_hw1/_hw1.cpp.
pub mod Options
pub mod Files
pub mod Process
pub mod Table
mod Tests
