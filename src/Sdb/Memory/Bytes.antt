-- ===== src/Sdb/Memory/Bytes.antt =====
-- The bytes of the traced process under the debugger's writes (310551113_hw4/sdb.cpp).
use advanced_programming_in.Base.{ℕ, ◌+◌, ◌-◌, ◌^◌, ◌≡◌, arith, ◌⊎◌, Bool, true, some, List, ltb}
use advanced_programming_in.Base.{leb, if◌then◌else◌, ◌&&◌}
use advanced_programming_in.Base.Bits.{bit_and_split, bit_or_split, bit_and-zero, bit_or-zero}
use advanced_programming_in.Base.Bits.{zero-bit_or, bit_and_ones}
use advanced_programming_in.Base.Word.{word, word_of, word_of-lt, word_of_none, word-pieces}
use advanced_programming_in.Base.Word.{word-put, IsByte, put, from, from-IsByte, byte_of-word}
use advanced_programming_in.Sdb.Config.{Breakpoint}
use advanced_programming_in.Sdb.Code.Overlay.{has}
use advanced_programming_in.Sdb.Host.{Host, IsTracee}
use advanced_programming_in.Sdb.Stops.{trap}

-- `trap` replaces the first byte.
pub trap-word : (f : ℕ → ℕ) → IsByte f → trap (word f) ≡ word (put 0 0xcc f)
unfolding trap
trap-word f b =
    let hi = word_of 7 (from 1 f) in
    let fits = word_of-lt 7 (from 1 f) (from-IsByte 1 f b) in
    rw (word-put 0 f (omega arith)) (
      ground (
        arith,
        word-pieces 0 f (omega arith),
        word_of_none f,
        b 0,
        bit_and_split 8 hi (f 0) (2 ^ 56 - 1) 0,
        bit_and_ones 56 hi fits,
        bit_and-zero (f 0),
        bit_or_split 8 hi 0 0 0xcc,
        bit_or-zero hi,
        zero-bit_or 0xcc,
      ))

-- The bytes of a memory from an address on.
abbrev pub bytes_at : (ℕ → ℕ) → ℕ → ℕ → ℕ
bytes_at mem a i = mem (a + i)

-- The saved code is the program's own word at the address.
abbrev pub IsOriginal : (ℕ → ℕ) → Breakpoint → Type 0
IsOriginal orig bp = bp.code ≡ word (bytes_at orig bp.addr)

-- What may stand at an address: the program's own byte, or 0xcc if a breakpoint is there.
abbrev pub IsGenuine : (ℕ → ℕ) → (ℕ → ℕ) → List Breakpoint → Type 0
IsGenuine orig mem bps = (x : ℕ) → (mem x ≡ orig x) ⊎ ((has bps x ≡ true) × (mem x ≡ 0xcc))

-- The bytes after a write of `f` at `a`.
abbrev pub written : (ℕ → ℕ) → ℕ → (ℕ → ℕ) → ℕ → ℕ
written f a mem x = if leb a x && ltb x (a + 8) then f (x - a) else mem x

module _ {K : Type 0} {host : Host K} {pid : ℕ} {byte : K → ℕ → ℕ} {mapped : ℕ → Bool}
    (tracee : IsTracee host pid byte mapped) where
  pub poke_word :
      (k : K) (a : ℕ) (f : ℕ → ℕ) (k' : K)
      → IsByte f
      → host.poke_text k pid a (word f) ≡ some k'
      → (x : ℕ) → byte k' x ≡ written f a (byte k) x
  poke_word k a f k' b e x =
      ground (arith, tracee.poke_text-byte k a (word f) k' e x, byte_of-word (x - a) f b)
