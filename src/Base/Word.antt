-- ===== src/Base/Word.antt =====
-- Machine words as numbers, and the bytes that they hold, lowest first.
use Prim.Native.Nat.{ℕ, zero, suc, ◌+◌, ◌-◌, ◌*◌, ◌/◌, ◌%◌, ◌^◌, ◌<◌}
use mathlib.Core.Path.{◌≡◌, refl, ap, sym, ◌∙◌}
use native.Mathlib.Nat.{pow-suc}
use native.Mathlib.Omega.{arith}
use advanced_programming_in.Base.Tests.{ltb, ◌==◌, if◌then◌else◌}

-- The word of the bytes `f 0`, …, `f (n - 1)`.
unfoldable pub word_of : ℕ → (ℕ → ℕ) → ℕ
word_of zero f = 0
word_of (suc n) f = f 0 + 256 * word_of n (λ i. f (suc i))

-- A `long`, read from eight bytes.
unfoldable pub word : (ℕ → ℕ) → ℕ
unfolding word_of
word f = word_of 8 f

-- The byte at position `i`.
unfoldable pub byte_of : ℕ → ℕ → ℕ
byte_of zero w = w % 256
byte_of (suc i) w = byte_of i (w / 256)

abbrev pub IsByte : (ℕ → ℕ) → Type 0
IsByte f = (i : ℕ) → f i < 256

byte_of-word_of : (n i : ℕ) (f : ℕ → ℕ) → IsByte f → i < n → byte_of i (word_of n f) ≡ f i
unfolding word_of byte_of
byte_of-word_of zero i f b h = absurd (omega arith)
byte_of-word_of (suc n) zero f b h = ground (arith, b 0)
byte_of-word_of (suc n) (suc i) f b h =
    rw (shift (word_of n (λ j. f (suc j))))
      (byte_of-word_of n i (λ j. f (suc j)) (λ j. b (suc j)) (omega arith))
  where
    shift : (r : ℕ) → (f 0 + 256 * r) / 256 ≡ r
    shift r = omega (arith, b 0)

pub byte_of-word : (i : ℕ) (f : ℕ → ℕ) → IsByte f → i < 8 → byte_of i (word f) ≡ f i
unfolding word
byte_of-word i f b h = byte_of-word_of 8 i f b h

-- A word depends on its own bytes only.
pub word_of-ext : (n : ℕ) (f g : ℕ → ℕ) → ((i : ℕ) → i < n → f i ≡ g i) → word_of n f ≡ word_of n g
unfolding word_of
word_of-ext zero f g h = refl
word_of-ext (suc n) f g h = omega (
  arith,
  h 0 (omega arith),
  word_of-ext n (λ i. f (suc i)) (λ i. g (suc i)) (λ i lt. h (suc i) (omega arith)),
)

pub word-ext : (f g : ℕ → ℕ) → ((i : ℕ) → i < 8 → f i ≡ g i) → word f ≡ word g
unfolding word
word-ext f g h = word_of-ext 8 f g h

pub word_of-lt : (n : ℕ) (f : ℕ → ℕ) → IsByte f → word_of n f < 256 ^ n
unfolding word_of
word_of-lt zero f b = omega arith
word_of-lt (suc n) f b =
    omega (arith, pow-suc 256 n, word_of-lt n (λ i. f (suc i)) (λ i. b (suc i)), b 0)

-- The bytes `f` with `v` at position `j`.
abbrev pub put : ℕ → ℕ → (ℕ → ℕ) → ℕ → ℕ
put j v f i = if i == j then v else f i

-- The bytes from position `j` on.
abbrev pub from : ℕ → (ℕ → ℕ) → ℕ → ℕ
from zero f = f
from (suc j) f = from j (λ i. f (suc i))

pub from-IsByte : (j : ℕ) (f : ℕ → ℕ) → IsByte f → IsByte (from j f)
from-IsByte zero f b = b
from-IsByte (suc j) f b = from-IsByte j (λ i. f (suc i)) (λ i. b (suc i))

from_lem : (j : ℕ) (f : ℕ → ℕ) (i : ℕ) → from j f i ≡ f (j + i)
from_lem zero f i = ap f (omega arith)
from_lem (suc j) f i = from_lem j (λ k. f (suc k)) i ∙ ap f (omega arith)

-- A word, cut at the byte `j` into what stands above it, that byte, and what stands below.
abbrev pub pieces : ℕ → ℕ → ℕ → ℕ → ℕ
pieces j hi v lo = (hi * 256 + v) * 256 ^ j + lo

pieces-suc : (j hi v lo b : ℕ) → b + 256 * pieces j hi v lo ≡ pieces (suc j) hi v (b + 256 * lo)
pieces-suc j hi v lo b =
    omega (arith, pow-suc 256 j, ap (λ (t : ℕ). (hi * 256 + v) * t) (pow-suc 256 j))

word_of-pieces :
    (j n m : ℕ) (f : ℕ → ℕ)
    → m ≡ j + suc n
    → word_of m f ≡ pieces j (word_of n (from (suc j) f)) (f j) (word_of j f)
unfolding word_of
word_of-pieces j n zero f e = absurd (omega arith)
word_of-pieces zero n (suc m) f e =
    omega (arith, ap (λ k. word_of k (λ i. f (suc i))) (let same : m ≡ n = omega arith in same))
word_of-pieces (suc j) n (suc m) f e =
    ap (λ t. f 0 + 256 * t) (word_of-pieces j n m (λ i. f (suc i)) (omega arith))
    ∙ pieces-suc j _ _ _ _

-- The same word with another byte at `j`.
word_of-put :
    (j n m v : ℕ) (f : ℕ → ℕ)
    → m ≡ j + suc n
    → word_of m (put j v f) ≡ pieces j (word_of n (from (suc j) f)) v (word_of j f)
word_of-put j n m v f e = word_of-pieces j n m (put j v f) e ∙ rw (above, at, below)
  where
    above : word_of n (from (suc j) (put j v f)) ≡ word_of n (from (suc j) f)
    above =
        word_of-ext n _ _
          λ i lt. from_lem (suc j) (put j v f) i ∙ ground arith ∙ sym (from_lem (suc j) f i)

    at : put j v f j ≡ v
    at = ground arith

    below : word_of j (put j v f) ≡ word_of j f
    below = word_of-ext j _ _ λ i lt. ground arith

module _ (j : ℕ) (f : ℕ → ℕ) (below : j < 8) where
  pub word-pieces : word f ≡ pieces j (word_of (7 - j) (from (suc j) f)) (f j) (word_of j f)
  unfolding word
  word-pieces = word_of-pieces j (7 - j) 8 f (omega arith)

  pub word-put :
      (v : ℕ) → word (put j v f) ≡ pieces j (word_of (7 - j) (from (suc j) f)) v (word_of j f)
  unfolding word
  word-put v = word_of-put j (7 - j) 8 v f (omega arith)

pub word-lt : (f : ℕ → ℕ) → IsByte f → word f < 2 ^ 64
unfolding word
word-lt f b = word_of-lt 8 f b

pub word_of_none : (f : ℕ → ℕ) → word_of 0 f ≡ 0
unfolding word_of
word_of_none f = refl

pub byte_of-lt : (i w : ℕ) → byte_of i w < 256
unfolding byte_of
byte_of-lt zero w = omega arith
byte_of-lt (suc i) w = byte_of-lt i (w / 256)

-- An `int` as a `long`, both as the numbers of their bits.
unfoldable pub as_long : ℕ → ℕ
as_long n = if ltb n (2 ^ 31) then n else n + (2 ^ 64 - 2 ^ 32)
