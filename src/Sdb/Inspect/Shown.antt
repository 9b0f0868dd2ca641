-- ===== src/Sdb/Inspect/Shown.antt =====
-- The memory that `dump` and `disasm` of 310551113_hw4/sdb.cpp show.
use advanced_programming_in.Base.{ℕ, zero, suc, ◌+◌, ◌*◌, ◌%◌, ◌^◌, ◌<◌, ◌≡◌, refl, arith, Bool}
use advanced_programming_in.Base.{true, List, [], ◌∷◌, ◌++◌, if◌then◌else◌, ◌∙◌, ap}
use advanced_programming_in.Base.Word.{word, IsByte, byte_of, byte_of-word, word-ext}
use advanced_programming_in.Sdb.Config.{Breakpoint}
use advanced_programming_in.Sdb.Code.Overlay.{has, alternate-arm}
use advanced_programming_in.Sdb.Host.{Host, IsTracee}
use advanced_programming_in.Sdb.World.{World}
use advanced_programming_in.Sdb.Inspect.{shown_word, bytes_of, code_bytes}
use advanced_programming_in.Sdb.Memory.Bytes.{bytes_at, IsGenuine}
use advanced_programming_in.Sdb.Memory.Consistent.{IsApartFrom, IsApartFrom-IsClear}

-- The program's own byte, with 0xcc at every breakpoint.
abbrev pub shown : (ℕ → ℕ) → List Breakpoint → ℕ → ℕ
shown orig bps x = if has bps x then 0xcc else orig x

-- Bytes `f 0`, …, `f (n - 1)`.
abbrev pub listed : ℕ → (ℕ → ℕ) → List ℕ
listed zero f = []
listed (suc n) f = f 0 ∷ listed n (λ i. f (suc i))

pub shown-IsByte : (orig : ℕ → ℕ) (bps : List Breakpoint) → IsByte orig → IsByte (shown orig bps)
shown-IsByte orig bps b x = ground (arith, b x)

pub bytes_of-word : (f : ℕ → ℕ) → IsByte f → bytes_of (word f) ≡ listed 8 f
unfolding bytes_of
bytes_of-word f b =
    rw
      (
        byte_of-word 0 f b (omega arith),
        byte_of-word 1 f b (omega arith),
        byte_of-word 2 f b (omega arith),
        byte_of-word 3 f b (omega arith),
        byte_of-word 4 f b (omega arith),
        byte_of-word 5 f b (omega arith),
        byte_of-word 6 f b (omega arith),
        byte_of-word 7 f b (omega arith),
      )
      refl

-- Eight bytes for each word, from an address on.
abbrev pub listed_words : ℕ → ℕ → (ℕ → ℕ) → List ℕ
listed_words zero a f = []
listed_words (suc words) a f = listed 8 (bytes_at f a) ++ listed_words words (a + 8) f

-- No address that the words touch is exactly 7 below a breakpoint or too far from one.
abbrev pub ReadsClear : List Breakpoint → ℕ → ℕ → Type 0
ReadsClear bps zero a = Unit
ReadsClear bps (suc words) a = IsApartFrom bps a × ReadsClear bps words (a + 8)

module _ {K : Type 0} (host : Host K) (byte : K → ℕ → ℕ) (mapped : ℕ → Bool) (orig : ℕ → ℕ)
    (w : World K) (tracee : IsTracee host w.conf.child byte mapped) (b : IsByte orig)
    (genuine : IsGenuine orig (byte w.kernel) w.conf.bps) where
  pub shown_word-shown :
      (a : ℕ)
      → IsApartFrom w.conf.bps a
      → shown_word host w a ≡ word (bytes_at (shown orig w.conf.bps) a)
  unfolding shown_word
  shown_word-shown a apart = rw (tracee.peek_text-word w.kernel a) (
      alternate-arm host.wide a true w.conf.bps (bytes_at (byte w.kernel) a)
        (λ i. tracee.byte-lt w.kernel (a + i)) (IsApartFrom-IsClear w.conf.bps a apart)
      ∙ word-ext _ _ (λ i lt. ground (arith, genuine (a + i))))

  -- If what memory holds is the program's own code with 0xcc at some of the breakpoints, and every
  -- word that is read is less than 2 ^ 31 away from the breakpoints and not exactly 7 below one, then
  -- the bytes that are disassembled are the program's own with 0xcc at every breakpoint, also at
  -- those that are out of memory at the moment.
  pub code_bytes-shown :
      (words a : ℕ)
      → a + 8 * words < 2 ^ 64
      → ReadsClear w.conf.bps words a
      → code_bytes host w words a ≡ listed_words words a (shown orig w.conf.bps)
  unfolding code_bytes bytes_of byte_of
  code_bytes-shown zero a fits clear = refl
  code_bytes-shown (suc words) a fits clear =
      rw (shown_word-shown a clear.0, wraps)
        (ap (λ t. t ++ code_bytes host w words (a + 8))
            (bytes_of-word (bytes_at (shown orig w.conf.bps) a)
              (λ i. shown-IsByte orig w.conf.bps b (a + i)))
          ∙ ap (λ t. listed 8 (bytes_at (shown orig w.conf.bps) a) ++ t)
              (code_bytes-shown words (a + 8) (omega arith) clear.1))
    where
      wraps : (a + 8) % 2 ^ 64 ≡ a + 8
      wraps = omega arith
