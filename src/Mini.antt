-- ===== src/Mini.antt =====
-- The small C library of 310551113_hw3/libmini.c and 310551113_hw3/libmini64.asm.
pub mod Signals
pub mod Kernel
pub mod Calls
pub mod Handlers
pub mod Perror
pub mod Strings
pub mod Machine
pub mod Sleep
pub mod Assembly
mod Tests
