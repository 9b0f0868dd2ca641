-- ===== src/Sdb/Memory/Printed.antt =====
-- `break` with an address as the debugger prints it (310551113_hw4/sdb.cpp: `hexify`, `sdb_parser`).
use advanced_programming_in.Sdb.Host.{Host}
use advanced_programming_in.Sdb.World.{World}
