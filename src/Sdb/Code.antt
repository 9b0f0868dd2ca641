-- ===== src/Sdb/Code.antt =====
-- `alterpart` and `alternate` (310551113_hw4/sdb.cpp): bytes of a word of code are exchanged.
pub mod Alter
pub mod Overlay
use advanced_programming_in.Base.{ℕ, ◌+◌, ◌-◌, ◌*◌, ◌%◌, ◌^◌, bit_and, bit_or, ltb, leb}
use advanced_programming_in.Base.{if◌then◌else◌, Bool, true, false, ◌&&◌, List, [], ◌∷◌}
use advanced_programming_in.Sdb.Config.{Breakpoint}

-- `0xffffffffffffffff << n`. A shift by 64 is undefined; `wide` is what the machine gives.
unfoldable pub shl_ones : ℕ → ℕ → ℕ
shl_ones wide n = if ltb n 64 then ((2 ^ 64 - 1) * 2 ^ n) % 2 ^ 64 else wide

-- `long(pow(16, e) - 1)`. A double has 53 binary digits: above them the 1 is rounded away.
unfoldable pub pow_less_one : ℕ → ℕ
pow_less_one e = if leb (4 * e) 53 then 16 ^ e - 1 else 16 ^ e

-- The bits that `alterpart` keeps.
unfoldable pub filter_of : ℕ → ℕ → ℕ
unfolding shl_ones pow_less_one
filter_of wide offset = bit_or (shl_ones wide (8 * offset)) (pow_less_one ((offset - 1) * 2))

unfoldable pub alterpart : ℕ → ℕ → ℕ → ℕ → ℕ
unfolding filter_of
alterpart wide code offset new_code =
    let alter = (new_code * 2 ^ (8 * (offset - 1))) % 2 ^ 64 in
    bit_or (bit_and code (filter_of wide offset)) alter

-- `int dist = addr - lladdr`, as the 32 bits that are left; a negative one is at least 2 ^ 31.
unfoldable pub dist : ℕ → ℕ → ℕ
dist addr lladdr = ((addr + 2 ^ 64 - lladdr) % 2 ^ 64) % 2 ^ 32

-- The loop over `conf.bps`. `dist >= s && dist < WORD` is false for a negative `dist`.
unfoldable pub alternate : ℕ → List Breakpoint → ℕ → ℕ → Bool → Bool → ℕ
unfolding dist
alternate wide [] code lladdr to_0xcc include_self = code
alternate wide (bp ∷ bps) code lladdr to_0xcc include_self =
    let s : ℕ = if include_self then 0 else 1 in
    let d = dist bp.addr lladdr in
    let new_code = if to_0xcc then 0xcc else bit_and bp.code 0xff in
    alternate wide bps (if leb s d && ltb d 8 then alterpart wide code (d + 1) new_code else code)
      lladdr to_0xcc include_self
