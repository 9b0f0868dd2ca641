-- ===== src/Mini/Assembly/Saved.antt =====
-- The words that `setjmp` of 310551113_hw3/libmini64.asm leaves in memory.
use advanced_programming_in.Base.{ℕ, ◌-◌, ◌^◌, ◌<◌, arith, List, [], ◌∷◌, ◌++◌}
use advanced_programming_in.Mini.Machine.{Cpu, word_at, store_word}
use advanced_programming_in.Mini.Assembly.Stack.{stores, word_at-stored, word_at-same}
use advanced_programming_in.Mini.Assembly.Buffer.{Layout, slot, Holds, buffer_of, IsWide}

module _ {K : Type 0} (next : ℕ) (c : Cpu K) where
  -- The return address of `setjmp`.
  abbrev pub back : ℕ
  back = word_at c.memory c.rsp

  abbrev pub saved : List (ℕ × ℕ)
  saved =
      (slot c.rdi 0, c.rbx)
      ∷ (slot c.rdi 8, c.rsp)
      ∷ (slot c.rdi 16, c.rbp)
      ∷ (slot c.rdi 24, c.r12)
      ∷ (slot c.rdi 32, c.r13)
      ∷ (slot c.rdi 40, c.r14)
      ∷ (slot c.rdi 48, c.r15)
      ∷ []

  abbrev pub pushed : List (ℕ × ℕ)
  pushed =
      (slot c.rdi 56, back) ∷ (c.rsp - 8, c.rdi) ∷ (c.rsp - 24, next) ∷ (c.rsp - 32, c.r10) ∷ []

  -- All that `setjmp` writes, if `old` is the mask.
  abbrev pub left : ℕ → ℕ → ℕ
  left old = stores c.memory (saved ++ pushed ++ ((c.rsp - 16, old) ∷ (slot c.rdi 64, old) ∷ []))

  module _ (mask : K → ℕ) (l : Layout c.rsp c.rdi) (wide : IsWide c)
      (small : mask c.kernel < 2 ^ 64) where
    abbrev at_end : List (ℕ × ℕ)
    at_end = pushed ++ ((c.rsp - 16, mask c.kernel) ∷ (slot c.rdi 64, mask c.kernel) ∷ [])

    -- Memory before a word of `env` is written.
    abbrev before_8 : ℕ → ℕ
    before_8 = store_word c.memory (slot c.rdi 0) c.rbx

    abbrev before_16 : ℕ → ℕ
    before_16 = store_word before_8 (slot c.rdi 8) c.rsp

    abbrev before_24 : ℕ → ℕ
    before_24 = store_word before_16 (slot c.rdi 16) c.rbp

    abbrev before_32 : ℕ → ℕ
    before_32 = store_word before_24 (slot c.rdi 24) c.r12

    abbrev before_40 : ℕ → ℕ
    before_40 = store_word before_32 (slot c.rdi 32) c.r13

    abbrev before_48 : ℕ → ℕ
    before_48 = store_word before_40 (slot c.rdi 40) c.r14

    abbrev before_56 : ℕ → ℕ
    before_56 = store_word before_48 (slot c.rdi 48) c.r15

    -- What is written from one word of `env` on.
    abbrev from_48 : List (ℕ × ℕ)
    from_48 = (slot c.rdi 48, c.r15) ∷ at_end

    abbrev from_40 : List (ℕ × ℕ)
    from_40 = (slot c.rdi 40, c.r14) ∷ from_48

    abbrev from_32 : List (ℕ × ℕ)
    from_32 = (slot c.rdi 32, c.r13) ∷ from_40

    abbrev from_24 : List (ℕ × ℕ)
    from_24 = (slot c.rdi 24, c.r12) ∷ from_32

    abbrev from_16 : List (ℕ × ℕ)
    from_16 = (slot c.rdi 16, c.rbp) ∷ from_24

    abbrev from_8 : List (ℕ × ℕ)
    from_8 = (slot c.rdi 8, c.rsp) ∷ from_16

    pub left-Holds : Holds (left (mask c.kernel)) c.rdi (buffer_of c mask)
    left-Holds = record {
      at_0 =
          word_at-stored c.memory (slot c.rdi 0) c.rbx from_8 wide.rbx-lt (ground (arith, l.stack));
      at_8 =
          word_at-stored before_8 (slot c.rdi 8) c.rsp from_16 (omega (arith, l.top))
            (ground (arith, l.stack));
      at_16 =
          word_at-stored before_16 (slot c.rdi 16) c.rbp from_24 wide.rbp-lt
            (ground (arith, l.stack));
      at_24 =
          word_at-stored before_24 (slot c.rdi 24) c.r12 from_32 wide.r12-lt
            (ground (arith, l.stack));
      at_32 =
          word_at-stored before_32 (slot c.rdi 32) c.r13 from_40 wide.r13-lt
            (ground (arith, l.stack));
      at_40 =
          word_at-stored before_40 (slot c.rdi 40) c.r14 from_48 wide.r14-lt
            (ground (arith, l.stack));
      at_48 =
          word_at-stored before_48 (slot c.rdi 48) c.r15 at_end wide.r15-lt
            (ground (arith, l.stack));
      at_56 =
          word_at-stored before_56 (slot c.rdi 56) back
            ((c.rsp - 8, c.rdi)
              ∷ (c.rsp - 24, next)
              ∷ (c.rsp - 32, c.r10)
              ∷ (c.rsp - 16, mask c.kernel)
              ∷ (slot c.rdi 64, mask c.kernel)
              ∷ [])
            wide.back-lt (ground (arith, l.stack));
      at_64 =
          word_at-same (stores c.memory (saved ++ pushed ++ ((c.rsp - 16, mask c.kernel) ∷ [])))
            (slot c.rdi 64) (mask c.kernel) (small);
    }
