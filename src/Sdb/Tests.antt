-- ===== src/Sdb/Tests.antt =====
-- The theorems on the debugger (310551113_hw4/sdb.cpp) at concrete states.
mod Toy
mod Stopped
mod Commands
mod Sessions
mod Executions
mod Reached
mod Loops
