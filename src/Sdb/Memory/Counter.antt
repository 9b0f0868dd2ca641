-- ===== src/Sdb/Memory/Counter.antt =====
-- The place of the program counter in the table of registers (310551113_hw4/sdb.cpp: `reg_offset`).
use advanced_programming_in.Base.{ℕ, ◌≡◌, true, some, List}
use advanced_programming_in.Base.Text.{Text, text}
use advanced_programming_in.Sdb.Config.{find}
use advanced_programming_in.Sdb.Host.{is_general}

-- `rip` is in the table, as a register that takes every value.
abbrev pub HasCounter : List (Text × ℕ) → ℕ → Type 0
HasCounter offsets r = (find offsets (text "rip") ≡ some r) × (is_general r ≡ true)
