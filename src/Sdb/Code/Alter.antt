-- ===== src/Sdb/Code/Alter.antt =====
-- What `alterpart` does to the bytes of a word.
use Prim.Native.Nat.{zero, suc}
use native.Mathlib.Nat.{pow-suc, one-le-pow, pow-le-pow_right}
use advanced_programming_in.Base.{ℕ, ◌+◌, ◌-◌, ◌*◌, ◌%◌, ◌≤◌, ◌^◌, ◌<◌, bit_and, bit_or, ◌≡◌}
use advanced_programming_in.Base.{refl, arith}
use advanced_programming_in.Base.Bits.{bit_and_split, bit_or_split, bit_and-zero, bit_or-zero}
use advanced_programming_in.Base.Bits.{zero-bit_or, bit_and_ones}
use advanced_programming_in.Base.Word.{word, word_of, IsByte, word_of-lt, from, from-IsByte, put}
use advanced_programming_in.Base.Word.{word-pieces, word-put, word_of_none, word-lt}
use advanced_programming_in.Sdb.Code.{alterpart, filter_of}

-- A word cut into `hi`, the byte `b` and the `k` digits `a`; the mask has zeros at `b` alone.
module _ (k hi b a : ℕ) (b_fits : b < 256) (a_fits : a < 2 ^ k) where
  mask-field :
      (H : ℕ)
      → bit_and hi H ≡ hi
      → bit_and ((hi * 256 + b) * 2 ^ k + a) (H * 256 * 2 ^ k + (2 ^ k - 1)) ≡ hi * 256 * 2 ^ k + a
  mask-field H top = ground (
    arith,
    one-le-pow k 2,
    bit_and_split k (hi * 256 + b) a (H * 256) (2 ^ k - 1),
    bit_and_split 8 hi b H 0,
    bit_and-zero b,
    bit_and_ones k a,
  )

  fill-field :
      (v : ℕ) → v < 256 → bit_or (hi * 256 * 2 ^ k + a) (v * 2 ^ k) ≡ (hi * 256 + v) * 2 ^ k + a
  fill-field v v_fits = ground (
    arith,
    one-le-pow k 2,
    bit_or_split k (hi * 256) a v 0,
    bit_or_split 8 hi 0 0 v,
    bit_or-zero a,
    bit_or-zero hi,
    zero-bit_or v,
  )

abbrev ones_above : ℕ → ℕ
ones_above j = 256 ^ (7 - j) - 1

filter-lem :
    (wide j : ℕ) → j < 7 → filter_of wide (suc j) ≡ ones_above j * 256 * 256 ^ j + (256 ^ j - 1)
unfolding filter_of
filter-lem wide zero h = refl
filter-lem wide (suc zero) h = refl
filter-lem wide (suc (suc zero)) h = refl
filter-lem wide (suc (suc (suc zero))) h = refl
filter-lem wide (suc (suc (suc (suc zero)))) h = refl
filter-lem wide (suc (suc (suc (suc (suc zero))))) h = refl
filter-lem wide (suc (suc (suc (suc (suc (suc zero)))))) h = refl
filter-lem wide (suc (suc (suc (suc (suc (suc (suc j))))))) h = absurd (omega arith)

pow_of_byte : (j : ℕ) → 2 ^ (8 * j) ≡ 256 ^ j
pow_of_byte zero = refl
pow_of_byte (suc j) =
    let eight : 8 * suc j ≡ suc (suc (suc (suc (suc (suc (suc (suc (8 * j)))))))) = omega arith in
    rw eight (omega (arith, pow_of_byte j, pow-suc 256 j))

shifted-byte : (j v : ℕ) → j < 7 → v < 256 → v * 2 ^ (8 * j) % 2 ^ 64 ≡ v * 2 ^ (8 * j)
shifted-byte j v below v_fits =
    let power : 2 ^ (8 * j) ≤ 2 ^ 48 =
      pow-le-pow_right (omega arith) {i = 8 * j} {j = 48} (omega arith) in
    grind arith

-- For the offsets 1 to 7 and a new code below 256, the byte at `offset - 1` is replaced and all
-- others stay, whatever the machine gives for a shift by 64.
pub alterpart_lem :
    (wide j v : ℕ) (f : ℕ → ℕ)
    → IsByte f
    → j < 7
    → v < 256
    → alterpart wide (word f) (suc j) v ≡ word (put j v f)
unfolding alterpart
alterpart_lem wide j v f b below v_fits =
    rw
      (
        word-put j f (omega arith),
        word-pieces j f (omega arith),
        filter-lem wide j below,
        (let pred_suc : suc j - 1 ≡ j = omega arith in pred_suc),
        shifted-byte j v below v_fits,
        ← pow_of_byte j,
        mask-field (8 * j) hi (f j) lo (b j) lo_fits (256 ^ (7 - j) - 1) hi_fits,
        fill-field (8 * j) hi (f j) lo (b j) lo_fits v v_fits,
      )
      refl
  where
    hi : ℕ
    hi = word_of (7 - j) (from (suc j) f)

    lo : ℕ
    lo = word_of j f

    lo_fits : lo < 2 ^ (8 * j)
    lo_fits = rw (pow_of_byte j) (word_of-lt j f b)

    hi_fits : bit_and hi (256 ^ (7 - j) - 1) ≡ hi
    hi_fits = rw (← pow_of_byte (7 - j)) (
        bit_and_ones (8 * (7 - j)) hi (
          rw (pow_of_byte (7 - j)) (word_of-lt (7 - j) (from (suc j) f) (from-IsByte (suc j) f b))))

-- On a machine where the undefined shift by 64 at offset 8 gives all ones, a new code below 256
-- does not replace the byte: it is joined to the old one by `|`.
pub alterpart_top :
    (v : ℕ) (f : ℕ → ℕ)
    → IsByte f
    → v < 256
    → alterpart (2 ^ 64 - 1) (word f) 8 v ≡ word (put 7 (bit_or (f 7) v) f)
unfolding alterpart filter_of
alterpart_top v f b v_fits =
    let fits = word_of-lt 7 f b in
    rw (word-put 7 f (omega arith)) (
      ground (
        arith,
        word-pieces 7 f (omega arith),
        word_of_none (from 8 f),
        bit_and_ones 64 (word f) (word-lt f b),
        bit_or_split 56 (f 7) (word_of 7 f) v 0,
        bit_or-zero (word_of 7 f),
      ))
