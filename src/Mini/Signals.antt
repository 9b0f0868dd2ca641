-- ===== src/Mini/Signals.antt =====
-- The signal sets of 310551113_hw3/libmini.c: `sigemptyset`, `sigfillset`, `sigaddset`,
-- `sigdelset`, `sigismember`. `_NSIG_WORDS` is 1, so a set is one word of 64 bits.
use advanced_programming_in.Base.{ℕ, sym, ap, zero, suc, ◌+◌, ◌-◌, ◌*◌, ◌/◌, ◌%◌, ◌^◌, ◌<◌, ◌≤◌}
use advanced_programming_in.Base.{◌≡◌, refl, arith, bit_or, bit_and, if◌then◌else◌, ◌==◌, ◌∙◌}
use Prim.Native.Nat.{bit_and-bitwise}
use native.Mathlib.Nat.{div-div-eq-div-mul, one-le-pow}
use advanced_programming_in.Base.Bits.{bit_or_step, bit_and_step}

-- `unsigned long sig = _sig - 1`
unfoldable pub index : ℕ → ℕ
index sig = (sig + 2 ^ 64 - 1) % 2 ^ 64

unfoldable pub sigemptyset : ℕ → ℕ
sigemptyset set = 0

unfoldable pub sigfillset : ℕ → ℕ
sigfillset set = 2 ^ 64 - 1

-- `1UL << sig`, for signals from 1 to 64: beyond, C leaves the shift undefined.
unfoldable pub sigaddset : ℕ → ℕ → ℕ
unfolding index
sigaddset set sig = bit_or set (2 ^ index sig % 2 ^ 64)

unfoldable pub sigdelset : ℕ → ℕ → ℕ
unfolding index
sigdelset set sig = bit_and set (2 ^ 64 - 1 - 2 ^ index sig % 2 ^ 64)

unfoldable pub sigismember : ℕ → ℕ → ℕ
unfolding index
sigismember set sig = bit_and 1 (set / 2 ^ index sig)

double : (j : ℕ) → 2 ^ suc j ≡ 2 * 2 ^ j
double j = ground arith

bit : ℕ → ℕ → ℕ
bit zero x = x % 2
bit (suc j) x = bit j (x / 2)

div_pow : (j x : ℕ) → (x / 2 ^ j) % 2 ≡ bit j x
unfolding bit
div_pow zero x = omega arith
div_pow (suc j) x = rw (div_two) (div_pow j (x / 2))
  where
    div_two : x / 2 ^ suc j ≡ x / 2 / 2 ^ j
    div_two = ap (λ t. x / t) (double j) ∙ sym (div-div-eq-div-mul x 2 (2 ^ j))

bit-bit_or : (j x y : ℕ) → bit j (bit_or x y) ≡ (if bit j x == 0 then bit j y else 1)
unfolding bit
bit-bit_or zero x y = ground (arith, bit_or_step x y)
bit-bit_or (suc j) x y = rw (bit_or_half) (bit-bit_or j (x / 2) (y / 2))
  where
    bit_or_half : bit_or x y / 2 ≡ bit_or (x / 2) (y / 2)
    bit_or_half = omega (arith, bit_or_step x y)

bit-bit_and : (j x y : ℕ) → bit j (bit_and x y) ≡ (if bit j x == 0 then 0 else bit j y)
unfolding bit
bit-bit_and zero x y = ground (arith, bit_and_step x y)
bit-bit_and (suc j) x y = rw (bit_and_half) (bit-bit_and j (x / 2) (y / 2))
  where
    bit_and_half : bit_and x y / 2 ≡ bit_and (x / 2) (y / 2)
    bit_and_half = omega (arith, bit_and_step x y)

bit-zero : (j : ℕ) → bit j 0 ≡ 0
unfolding bit
bit-zero zero = refl
bit-zero (suc j) = bit-zero j

bit-pow : (j k : ℕ) → bit j (2 ^ k) ≡ (if j == k then 1 else 0)
unfolding bit
bit-pow zero zero = refl
bit-pow zero (suc k) = ground arith
bit-pow (suc j) zero = ground (arith, bit-zero j)
bit-pow (suc j) (suc k) = rw (half) (bit-pow j k ∙ ground arith)
  where
    half : 2 ^ suc k / 2 ≡ 2 ^ k
    half = ground arith

bit-ones : (w j : ℕ) → j < w → bit j (2 ^ w - 1) ≡ 1
unfolding bit
bit-ones zero j h = absurd (omega arith)
bit-ones (suc w) zero h = omega (arith, double w, one-le-pow w 2 (omega arith))
bit-ones (suc w) (suc j) h = rw half (bit-ones w j (omega arith))
  where
    half : (2 ^ suc w - 1) / 2 ≡ 2 ^ w - 1
    half = omega (arith, double w)

pow_below : (k w : ℕ) → k < w → 2 ^ k < 2 ^ w
pow_below k zero h = absurd (omega arith)
pow_below zero (suc w) h = omega (arith, double w, one-le-pow w 2 (omega arith))
pow_below (suc k) (suc w) h = omega (arith, double w, double k, pow_below k w (omega arith))

-- All bits below `w` but one.
bit-others : (w j k : ℕ) → j < w → k < w → bit j (2 ^ w - 1 - 2 ^ k) ≡ (if j == k then 0 else 1)
unfolding bit
bit-others zero j k h g = absurd (omega arith)
bit-others (suc w) zero zero h g = omega (arith, double w)
bit-others (suc w) zero (suc k) h g =
    ground (arith, double w, double k, pow_below (suc k) (suc w) g)
bit-others (suc w) (suc j) zero h g = ground (arith, half, bit-ones w j)
  where
    half : (2 ^ suc w - 1 - 1) / 2 ≡ 2 ^ w - 1
    half = omega (arith, double w)
bit-others (suc w) (suc j) (suc k) h g =
    rw half (bit-others w j k (omega arith) (omega arith) ∙ ground arith)
  where
    half : (2 ^ suc w - 1 - 2 ^ suc k) / 2 ≡ 2 ^ w - 1 - 2 ^ k
    half = omega (arith, double w, double k)

bit-lt : (j x : ℕ) → bit j x < 2
unfolding bit
bit-lt zero x = omega arith
bit-lt (suc j) x = bit-lt j (x / 2)

zero-bit_and : (x : ℕ) → bit_and 0 x ≡ 0
zero-bit_and x = bit_and-bitwise 0 x

index-id : (sig : ℕ) → 1 ≤ sig → sig ≤ 64 → index sig ≡ sig - 1
unfolding index
index-id sig h g = omega arith

-- A shift below 64 loses nothing.
shifted : (k : ℕ) → k < 64 → 2 ^ k % 2 ^ 64 ≡ 2 ^ k
shifted k h = omega (arith, pow_below k 64 h)

sigismember-bit : (set sig : ℕ) → 1 ≤ sig → sig ≤ 64 → sigismember set sig ≡ bit (sig - 1) set
unfolding sigismember
sigismember-bit set sig h g =
    rw (index-id sig h g) (one_and (set / 2 ^ (sig - 1)) ∙ div_pow (sig - 1) set)
  where
    one_and : (x : ℕ) → bit_and 1 x ≡ x % 2
    one_and x = ground (arith, bit_and_step 1 x, zero-bit_and (x / 2))

module _ (set sig other : ℕ) (h : 1 ≤ sig) (g : sig ≤ 64) (h' : 1 ≤ other) (g' : other ≤ 64) where
  -- For signals from 1 to 64: after `sigaddset` the set has the signal that was added, and every
  -- other signal exactly if it had it before; after `sigdelset` it lacks the signal, and has every
  -- other exactly if it had it before.
  pub sigaddset-sigdelset :
      (sigismember (sigaddset set sig) other ≡ (if other == sig then 1 else sigismember set other))
      × (sigismember (sigdelset set sig) other
          ≡ (if other == sig then 0 else sigismember set other))
  unfolding sigaddset sigdelset
  sigaddset-sigdelset =
      rw (index-id sig h g, shifted (sig - 1) (omega arith), sigismember-bit set other h' g')
        (added, removed)
    where
      added :
          sigismember (bit_or set (2 ^ (sig - 1))) other
          ≡ (if other == sig then 1 else bit (other - 1) set)
      added =
          sigismember-bit (bit_or set (2 ^ (sig - 1))) other h' g'
          ∙ ground (
            arith,
            bit-bit_or (other - 1) set (2 ^ (sig - 1)),
            bit-pow (other - 1) (sig - 1),
            bit-lt (other - 1) set,
          )

      removed :
          sigismember (bit_and set (2 ^ 64 - 1 - 2 ^ (sig - 1))) other
          ≡ (if other == sig then 0 else bit (other - 1) set)
      removed =
          sigismember-bit (bit_and set (2 ^ 64 - 1 - 2 ^ (sig - 1))) other h' g'
          ∙ ground (
            arith,
            bit-bit_and (other - 1) set (2 ^ 64 - 1 - 2 ^ (sig - 1)),
            bit-others 64 (other - 1) (sig - 1) (omega arith) (omega arith),
            bit-lt (other - 1) set,
          )
