-- ===== src/Base/Text/Format.antt =====
-- The field widths of `printf` and of `setw`.
use Prim.Native.Nat.{ℕ, zero, suc, ◌-◌, ◌/◌, ◌%◌}
use mathlib.Core.List.{[], ◌∷◌, ◌++◌}
use advanced_programming_in.Base.Lists.{length}
use advanced_programming_in.Base.Text.Chars.{Text}
use advanced_programming_in.Base.Text.Numbers.{digit_char}

unfoldable pub fill : ℕ → ℕ → Text
fill zero c = []
fill (suc n) c = c ∷ fill n c

-- `%10x`, `%016x`: characters in front, up to a width.
unfoldable pub pad_left : ℕ → ℕ → Text → Text
unfolding fill
pad_left width c s = fill (width - length s) c ++ s

-- `%-8x`, `setw(8) << left`: blanks behind.
unfoldable pub pad_right : ℕ → Text → Text
unfolding fill
pad_right width s = s ++ fill (width - length s) 32

-- `%2.2x` of a byte.
unfoldable pub hex_byte : ℕ → Text
unfolding digit_char
hex_byte b = digit_char (b / 16) ∷ digit_char (b % 16) ∷ []
