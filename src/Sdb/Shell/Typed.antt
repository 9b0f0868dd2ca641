-- ===== src/Sdb/Shell/Typed.antt =====
-- Commands as they are typed (310551113_hw4/sdb.cpp: `sdb_parser`, `hexify`).
use advanced_programming_in.Base.Text.{tokens_pair, text_eq, Text, text, strtoull_16, to_hex}
use advanced_programming_in.Base.Text.{is_space, IsWord, unwords, tokens-unwords}
use advanced_programming_in.Base.Text.{strtoull_16-to_hex, print_from, digit_char}
use advanced_programming_in.Base.{◌++◌, ℕ, zero, suc, ◌/◌, ◌%◌, ◌+◌, ◌^◌, ◌<◌, ◌≡◌, refl, arith}
use advanced_programming_in.Base.{false, List, [], ◌∷◌, All}
use advanced_programming_in.Sdb.Host.{Host}
use advanced_programming_in.Sdb.World.{World, hexify}
use advanced_programming_in.Sdb.Control.{setbreak}
use advanced_programming_in.Sdb.Shell.{sdb_parser, middleware, command_of, dispatch}

-- The words of a line with a blank behind each word are the words it was made of.
pub sdb_parser-unwords : (ws : List Text) → All IsWord ws → sdb_parser (unwords ws) ≡ ws
unfolding sdb_parser
sdb_parser-unwords ws h = tokens-unwords ws h

digit_char-is_space : (d : ℕ) → d < 16 → is_space (digit_char d) ≡ false
unfolding is_space digit_char
digit_char-is_space d h = ground arith

print_from-is_space :
    (fuel n : ℕ) (rest : Text)
    → All (λ c. is_space c ≡ false) rest
    → All (λ c. is_space c ≡ false) (print_from fuel 16 n rest)
unfolding print_from
print_from-is_space zero n rest h = h
print_from-is_space (suc fuel) n rest h = ground (
  arith,
  digit_char-is_space n,
  digit_char-is_space (n % 16),
  print_from-is_space fuel (n / 16) (digit_char (n % 16) ∷ rest),
)

hexify-IsWord : (a : ℕ) → IsWord (hexify a)
unfolding hexify text to_hex is_space
hexify-IsWord a = ((λ e. cc), (refl, (refl, print_from-is_space (a + 1) a [] tt)))

break-IsWord : IsWord (text "break")
unfolding text is_space
break-IsWord = ((λ e. cc), (refl, (refl, (refl, (refl, (refl, tt))))))

typed-setbreak :
    {K : Type 0} (host : Host K) (w : World K) (addr : Text)
    → middleware host (text "break" ∷ addr ∷ []) w ≡ setbreak host addr w
unfolding middleware command_of text_eq text dispatch
typed-setbreak host w addr = refl

pub strtoull_16-hexify : (a : ℕ) → a < 2 ^ 64 → strtoull_16 (hexify a) ≡ a
unfolding hexify
strtoull_16-hexify a h = strtoull_16-to_hex a h

-- The line `break`, with an address in the form in which the debugger prints addresses.
abbrev pub break_line : ℕ → Text
break_line a = text "break" ++ (32 ∷ hexify a)

pub middleware-break_line :
    {K : Type 0} (host : Host K) (w : World K) (a : ℕ)
    → middleware host (sdb_parser (break_line a)) w ≡ setbreak host (hexify a) w
unfolding sdb_parser
middleware-break_line host w a =
    rw (tokens_pair (text "break") (hexify a) break-IsWord (hexify-IsWord a))
      (typed-setbreak host w (hexify a))
