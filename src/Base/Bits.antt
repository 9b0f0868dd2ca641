-- ===== src/Base/Bits.antt =====
-- `&` and `|` of numbers cut at any binary digit. A native operation stands for a recursion on
-- binary digits with fuel; its step law is proved here and then only that law is used.
use Prim.Native.Nat.{ℕ, zero, suc, ◌+◌, ◌-◌, ◌*◌, ◌/◌, ◌%◌, ◌^◌, ◌≤◌, ◌<◌, min, max, bit_and}
use Prim.Native.Nat.{bit_or, digits, bitwise, bit_and-bitwise, bit_or-bitwise}
use mathlib.Core.Path.{◌≡◌, refl, ap, sym, ◌∙◌}
use native.Mathlib.Nat.{pow-suc, one-le-pow}
use native.Mathlib.Omega.{arith}

module _ (rest : ℕ → ℕ) (digit : ℕ → ℕ → ℕ) where
  no_digits : (fuel y : ℕ) → digits rest digit fuel zero y ≡ rest y
  no_digits zero y = refl
  no_digits (suc fuel) y = refl

  -- Any two amounts of fuel that reach the end give the same number.
  fuel_enough :
      (x y fuel more : ℕ)
      → x ≤ more
      → x ≤ fuel
      → digits rest digit more x y ≡ digits rest digit fuel x y
  fuel_enough zero y fuel more h k = no_digits more y ∙ sym (no_digits fuel y)
  fuel_enough (suc x) y fuel zero h k = absurd (omega arith)
  fuel_enough (suc x) y zero (suc more) h k = absurd (omega arith)
  fuel_enough (suc x) y (suc fuel) (suc more) h k =
      ap (λ t. t * 2 + digit (suc x % 2) (y % 2))
        (fuel_enough (suc x / 2) (y / 2) fuel more (omega arith) (omega arith))

  -- The definition with its fuel, one digit taken off.
  first_digit :
      (x y : ℕ)
      → bitwise rest digit (suc x) y
        ≡ bitwise rest digit (suc x / 2) (y / 2) * 2 + digit (suc x % 2) (y % 2)
  first_digit x y =
      ap (λ t. t * 2 + digit (suc x % 2) (y % 2))
        (fuel_enough (suc x / 2) (y / 2) (suc x / 2) x (omega arith) (omega arith))

pub bit_or_step : (x y : ℕ) → bit_or x y ≡ bit_or (x / 2) (y / 2) * 2 + max (x % 2) (y % 2)
bit_or_step zero y = omega (arith, bit_or-bitwise zero y, bit_or-bitwise zero (y / 2))
bit_or_step (suc x) y =
    rw (bit_or-bitwise (suc x) y, bit_or-bitwise (suc x / 2) (y / 2)) (first_digit (λ r. r) max x y)

pub bit_and_step : (x y : ℕ) → bit_and x y ≡ bit_and (x / 2) (y / 2) * 2 + min (x % 2) (y % 2)
bit_and_step zero y = omega (arith, bit_and-bitwise zero y, bit_and-bitwise zero (y / 2))
bit_and_step (suc x) y =
    rw (bit_and-bitwise (suc x) y, bit_and-bitwise (suc x / 2) (y / 2))
      (first_digit (λ r. zero) min x y)

-- The upper and the lower digits are combined apart from each other.
module _ (op bit : ℕ → ℕ → ℕ)
    (step : (a b : ℕ) → op a b ≡ op (a / 2) (b / 2) * 2 + bit (a % 2) (b % 2))
    (none_set : op 0 0 ≡ 0) where
  split :
      (k a b c d : ℕ)
      → b < 2 ^ k
      → d < 2 ^ k
      → op (a * 2 ^ k + b) (c * 2 ^ k + d) ≡ op a c * 2 ^ k + op b d
  split zero a b c d p q = ground (arith, none_set)
  split (suc k) a b c d p q = ground (
    arith,
    step (a * 2 ^ suc k + b) (c * 2 ^ suc k + d),
    step b d,
    pow-suc 2 k,
    ap (λ (t : ℕ). a * t) (pow-suc 2 k),
    ap (λ (t : ℕ). c * t) (pow-suc 2 k),
    ap (λ (t : ℕ). op a c * t) (pow-suc 2 k),
    split k a (b / 2) c (d / 2),
  )

pub bit_and_split :
    (k a b c d : ℕ)
    → b < 2 ^ k
    → d < 2 ^ k
    → bit_and (a * 2 ^ k + b) (c * 2 ^ k + d) ≡ bit_and a c * 2 ^ k + bit_and b d
bit_and_split = split bit_and min bit_and_step refl

pub bit_or_split :
    (k a b c d : ℕ)
    → b < 2 ^ k
    → d < 2 ^ k
    → bit_or (a * 2 ^ k + b) (c * 2 ^ k + d) ≡ bit_or a c * 2 ^ k + bit_or b d
bit_or_split = split bit_or max bit_or_step refl

-- Induction on a bound, since the step law goes to the half.
bit_and-zero_below : (n a : ℕ) → a ≤ n → bit_and a 0 ≡ 0
bit_and-zero_below zero a h = ground (arith, bit_and_step a 0, bit_and-bitwise 0 0)
bit_and-zero_below (suc n) a h = ground (arith, bit_and_step a 0, bit_and-zero_below n (a / 2))

pub bit_and-zero : (a : ℕ) → bit_and a 0 ≡ 0
bit_and-zero a = bit_and-zero_below a a (omega arith)

bit_or-zero_below : (n a : ℕ) → a ≤ n → bit_or a 0 ≡ a
bit_or-zero_below zero a h = ground (arith, bit_or_step a 0, bit_or-bitwise 0 0)
bit_or-zero_below (suc n) a h = ground (arith, bit_or_step a 0, bit_or-zero_below n (a / 2))

pub bit_or-zero : (a : ℕ) → bit_or a 0 ≡ a
bit_or-zero a = bit_or-zero_below a a (omega arith)

pub zero-bit_or : (a : ℕ) → bit_or 0 a ≡ a
zero-bit_or a = bit_or-bitwise 0 a

-- A mask of `k` ones keeps a number of `k` digits.
pub bit_and_ones : (k a : ℕ) → a < 2 ^ k → bit_and a (2 ^ k - 1) ≡ a
bit_and_ones zero a h = ground (arith, bit_and-zero a)
bit_and_ones (suc k) a h =
    ground
      (arith, bit_and_step a (2 ^ suc k - 1), pow-suc 2 k, one-le-pow k 2, bit_and_ones k (a / 2))

-- A mask of `k` ones is the remainder by `2 ^ k`.
pub bit_and_mask : (k a : ℕ) → bit_and a (2 ^ k - 1) ≡ a % 2 ^ k
bit_and_mask k a = ground (
  arith,
  one-le-pow k 2,
  bit_and_split k (a / 2 ^ k) (a % 2 ^ k) 0 (2 ^ k - 1),
  bit_and-zero (a / 2 ^ k),
  bit_and_ones k (a % 2 ^ k),
)
