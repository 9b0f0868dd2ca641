-- ===== src/Logger.antt =====
-- The library that logs calls (310551113_hw2/lib.cpp, utils.hpp) and its launcher (hw2.cpp).
pub mod Functions
pub mod Resolve
pub mod Calls
pub mod Buffer
pub mod Launcher
mod Tests
