-- ===== src/Base/Text/Numbers.antt =====
-- `to_string`, `hex <<`, `strtoull(s, NULL, 16)` and `stoi`.
use Prim.Native.Nat.{ℕ, zero, suc, ◌+◌, ◌-◌, ◌*◌, ◌/◌, ◌%◌, ◌^◌, ◌<◌}
use mathlib.Core.Path.{◌≡◌, refl, ◌∙◌}
use mathlib.Core.Logic.{inl, inr}
use mathlib.Core.Bool.{Bool, true, false, ◌&&◌, ◌||◌}
use mathlib.Core.Option.{Option, none, some}
use mathlib.Core.List.{[], ◌∷◌, ◌++◌}
use native.Mathlib.Omega.{arith}
use advanced_programming_in.Base.Tests.{ltb, leb, ◌==◌, if◌then◌else◌, Bool-cases, ltb→lt}
use advanced_programming_in.Base.Text.Chars.{Text, text, is_space, is_digit}

-- A digit below sixteen, in lower case.
unfoldable pub digit_char : ℕ → ℕ
digit_char d = if ltb d 10 then b'0' + d else b'a' + (d - 10)

-- The digits of `n` in front of `rest`. A number has fewer digits than `n + 1`.
unfoldable pub print_from : ℕ → ℕ → ℕ → Text → Text
print_from zero base n rest = rest
print_from (suc fuel) base n rest =
    let more = print_from fuel base (n / base) (digit_char (n % base) ∷ rest) in
    if ltb n base then digit_char n ∷ rest else more

unfoldable pub to_decimal : ℕ → Text
unfolding print_from digit_char
to_decimal n = print_from (n + 1) 10 n []

unfoldable pub to_hex : ℕ → Text
unfolding print_from digit_char
to_hex n = print_from (n + 1) 16 n []

unfoldable pub to_octal : ℕ → Text
unfolding print_from digit_char
to_octal n = print_from (n + 1) 8 n []

-- `%d` and `to_string` of an `int`, given as the number of its bits.
unfoldable pub int_text : ℕ → Text
unfolding to_decimal
int_text n = if ltb n (2 ^ 31) then to_decimal n else b'-' ∷ to_decimal (2 ^ 32 - n)

unfoldable pub hex_digit : ℕ → Option ℕ
unfolding is_digit
hex_digit c =
    if is_digit c
    then some (c - b'0')
    else if leb b'a' c && leb c b'f'
    then some (c - b'a' + 10)
    else if leb b'A' c && leb c b'F'
    then some (c - b'A' + 10)
    else none

-- The value of the longest run of digits at the front, after the value `v`.
unfoldable pub hex_value : ℕ → Text → ℕ
hex_value v [] = v
hex_value v (c ∷ s) = elim (hex_digit c) [ none ↦ v | some d ↦ hex_value (16 * v + d) s ]

unfoldable pub skip_space : Text → Text
unfolding is_space
skip_space [] = []
skip_space (c ∷ s) = let rest = skip_space s in if is_space c then rest else c ∷ s

-- An optional sign: whether it is a minus, and the rest.
unfoldable pub sign : Text → Bool × Text
sign [] = (false, [])
sign (c ∷ s) = if c == b'-' then (true, s) else if c == b'+' then (false, s) else (false, c ∷ s)

-- `0x` counts only before a digit. (If none follows, the number is the 0 alone.)
unfoldable pub skip_0x : Text → Text
unfolding hex_digit
skip_0x (z ∷ x ∷ d ∷ s) =
    if z == b'0' && (x == b'x' || x == b'X')
    then elim (hex_digit d) [ none ↦ z ∷ x ∷ d ∷ s | some v ↦ d ∷ s ]
    else z ∷ x ∷ d ∷ s
skip_0x s = s

-- The range of `unsigned long long`; what is too large gives the largest value.
unfoldable pub saturate : Bool → ℕ → ℕ
saturate minus v = if leb (2 ^ 64) v then 2 ^ 64 - 1 else if minus then (2 ^ 64 - v) % 2 ^ 64 else v

unfoldable pub strtoull_16 : Text → ℕ
strtoull_16 s = let (minus, t) = sign (skip_space s) in saturate minus (hex_value 0 (skip_0x t))

-- `int` values: `negsuc n` is -(n + 1).
pub data ℤ : Type 0 where
  pos : ℕ → ℤ
  negsuc : ℕ → ℤ

unfoldable pub decimal_value : ℕ → Text → ℕ
unfolding is_digit
decimal_value v [] = v
decimal_value v (c ∷ s) = elim (is_digit c) [
  | true ↦ decimal_value (10 * v + (c - b'0')) s
  | false ↦ v
]

-- The range of `int`; outside it `stoi` throws `out_of_range`.
unfoldable pub int_of : Bool → ℕ → Option ℤ
int_of minus v =
    if minus && ltb 0 v
    then (if leb v (2 ^ 31) then some (negsuc (v - 1)) else none)
    else if ltb v (2 ^ 31)
    then some (pos v)
    else none

-- Without a digit in front `stoi` throws `invalid_argument`.
unfoldable pub int_from_digits : Bool → Text → Option ℤ
unfolding is_digit decimal_value int_of
int_from_digits minus [] = none
int_from_digits minus (c ∷ s) = if is_digit c then int_of minus (decimal_value 0 (c ∷ s)) else none

-- `none` is either exception.
unfoldable pub stoi : Text → Option ℤ
unfolding int_from_digits skip_space sign
stoi s = let (minus, t) = sign (skip_space s) in int_from_digits minus t

hex_digit-digit_char : (d : ℕ) → d < 16 → hex_digit (digit_char d) ≡ some d
unfolding hex_digit digit_char
hex_digit-digit_char d h = ground arith

hex_value-digit_char :
    (v d : ℕ) (rest : Text)
    → d < 16
    → hex_value v (digit_char d ∷ rest) ≡ hex_value (16 * v + d) rest
unfolding hex_value
hex_value-digit_char v d rest h = rw (hex_digit-digit_char d h, hex_value)

-- What is printed reads back, whatever stands behind it.
hex_value-print_from :
    (fuel n : ℕ) (rest : Text)
    → n < fuel
    → hex_value 0 (print_from fuel 16 n rest) ≡ hex_value n rest
unfolding print_from
hex_value-print_from zero n rest h = absurd (omega arith)
hex_value-print_from (suc fuel) n rest h = ground (
  arith,
  hex_value-digit_char 0 n rest,
  hex_value-print_from fuel (n / 16) (digit_char (n % 16) ∷ rest),
  hex_value-digit_char (n / 16) (n % 16) rest,
)

-- The first character of a printed number is a digit, and not a letter above `f`.
abbrev IsHexDigit : ℕ → Type 0
IsHexDigit c = (d : ℕ) × (d < 16) × (c ≡ digit_char d)

abbrev StartsWithDigit : Text → Type 0
StartsWithDigit [] = ⊥
StartsWithDigit (c ∷ s) = IsHexDigit c

print_from-StartsWithDigit :
    (fuel n : ℕ) (rest : Text) → n < fuel → StartsWithDigit (print_from fuel 16 n rest)
unfolding print_from
print_from-StartsWithDigit zero n rest h = absurd (omega arith)
print_from-StartsWithDigit (suc fuel) n rest h = elim (Bool-cases (ltb n 16)) [
  | inl small ↦ rw small (n, ltb→lt n 16 small, refl)
  | inr large ↦
      rw large
        (print_from-StartsWithDigit fuel (n / 16) (digit_char (n % 16) ∷ rest) (ground arith))
]

skip_space-digit : (d : ℕ) (s : Text) → d < 16 → skip_space (digit_char d ∷ s) ≡ digit_char d ∷ s
unfolding skip_space digit_char
skip_space-digit d s h = ground arith

sign-digit : (d : ℕ) (s : Text) → d < 16 → sign (digit_char d ∷ s) ≡ (false, digit_char d ∷ s)
unfolding sign digit_char
sign-digit d s h = ground arith

skip_0x-prefix :
    (d : ℕ) (s : Text) → d < 16 → skip_0x (b'0' ∷ b'x' ∷ digit_char d ∷ s) ≡ digit_char d ∷ s
unfolding skip_0x
skip_0x-prefix d s h = rw (hex_digit-digit_char d h, skip_0x)

skip_0-prefix : (t : Text) → sign (skip_space (b'0' ∷ b'x' ∷ t)) ≡ (false, b'0' ∷ b'x' ∷ t)
unfolding sign skip_space
skip_0-prefix t = refl

-- A text that starts with a digit, behind `0x`.
strtoull_16-prefix :
    (t : Text) → StartsWithDigit t → strtoull_16 (b'0' ∷ b'x' ∷ t) ≡ saturate false (hex_value 0 t)
unfolding strtoull_16
strtoull_16-prefix [] h = absurd h
strtoull_16-prefix (c ∷ s) (d, small, e) = rw (e, skip_0-prefix, skip_0x-prefix d s small)

saturate-id : (n : ℕ) → n < 2 ^ 64 → saturate false n ≡ n
unfolding saturate
saturate-id n h = ground arith

hex_value-to_hex : (n : ℕ) → hex_value 0 (to_hex n) ≡ n
unfolding to_hex hex_value
hex_value-to_hex n = hex_value-print_from (n + 1) n [] (omega arith)

to_hex-StartsWithDigit : (n : ℕ) → StartsWithDigit (to_hex n)
unfolding to_hex
to_hex-StartsWithDigit n = print_from-StartsWithDigit (n + 1) n [] (omega arith)

-- An address that is printed as `0x…` is read back as it was.
pub strtoull_16-to_hex : (n : ℕ) → n < 2 ^ 64 → strtoull_16 (text "0x" ++ to_hex n) ≡ n
unfolding text
strtoull_16-to_hex n h =
    strtoull_16-prefix (to_hex n) (to_hex-StartsWithDigit n)
    ∙ rw (hex_value-to_hex, saturate-id n h)
