-- ===== src/Mini/Assembly/Buffer.antt =====
-- What `setjmp` and `longjmp` of 310551113_hw3/libmini64.asm share: the buffer `env`, where it may
-- stand, and the system call that they make.
use advanced_programming_in.Base.{ℕ, ◌+◌, ◌-◌, ◌^◌, ◌<◌, ◌≤◌, ◌≡◌, ◌≢◌, ◌⊎◌, ap, ◌∙◌, arith}
use advanced_programming_in.Base.Word.{word-ext}
use advanced_programming_in.Mini.Machine.{Cpu, Os, word_at, store_word, plus}

-- `rt_sigprocmask` with SIG_SETMASK, as it is documented. A null address is not read or written;
-- signals that cannot be blocked are taken out of a new mask.
pub record SetsMask {K : Type 0} (os : Os K) (mask : K → ℕ) (blockable : ℕ → ℕ) : Type 0 where
  pub mask-lt : (k : K) → mask k < 2 ^ 64
  pub blockable-mask : (k : K) → blockable (mask k) ≡ mask k
  pub asks :
      (c : Cpu K)
      → c.rax ≡ 14
      → c.rdi ≡ 2
      → c.rsi ≡ 0
      → c.rdx ≢ 0
      → c.r10 ≡ 8
      → ((os.answer c).memory ≡ store_word c.memory c.rdx (mask c.kernel))
        × (mask (os.answer c).kernel ≡ mask c.kernel)
  pub sets :
      (c : Cpu K)
      → c.rax ≡ 14
      → c.rdi ≡ 2
      → c.rsi ≢ 0
      → c.rdx ≡ 0
      → c.r10 ≡ 8
      → ((os.answer c).memory ≡ c.memory)
        × (mask (os.answer c).kernel ≡ blockable (word_at c.memory c.rsi))

-- The words of `setjmp` on the stack, and its caller's, do not overlap with `env`, whose size is 72.
pub record Layout (sp env : ℕ) : Type 0 where
  pub stack : 40 ≤ sp
  pub top : sp + 8 < 2 ^ 64
  pub buffer : 0 < env
  pub end_of : env + 72 ≤ 2 ^ 64
  pub apart : (env + 72 ≤ sp - 32) ⊎ (sp + 8 ≤ env)

-- The address of a word of `env`.
abbrev pub slot : ℕ → ℕ → ℕ
slot env k = plus env k

-- What `env` holds: the registers that a function keeps for its caller, the address to go on at, and
-- the signal mask.
pub record Buffer : Type 0 where
  pub rbx : ℕ
  pub rsp : ℕ
  pub rbp : ℕ
  pub r12 : ℕ
  pub r13 : ℕ
  pub r14 : ℕ
  pub r15 : ℕ
  pub rip : ℕ
  pub mask : ℕ

pub record Holds (m : ℕ → ℕ) (env : ℕ) (b : Buffer) : Type 0 where
  pub at_0 : word_at m (slot env 0) ≡ b.rbx
  pub at_8 : word_at m (slot env 8) ≡ b.rsp
  pub at_16 : word_at m (slot env 16) ≡ b.rbp
  pub at_24 : word_at m (slot env 24) ≡ b.r12
  pub at_32 : word_at m (slot env 32) ≡ b.r13
  pub at_40 : word_at m (slot env 40) ≡ b.r14
  pub at_48 : word_at m (slot env 48) ≡ b.r15
  pub at_56 : word_at m (slot env 56) ≡ b.rip
  pub at_64 : word_at m (slot env 64) ≡ b.mask

-- `env` holds the same as long as its bytes stay.
pub kept-Holds :
    (m later : ℕ → ℕ) (env env_later : ℕ) (b : Buffer)
    → env_later ≡ env
    → env + 72 ≤ 2 ^ 64
    → ((x : ℕ) → env ≤ x → x < env + 72 → later x ≡ m x)
    → Holds m env b
    → Holds later env_later b
kept-Holds m later env env_later b same end_of kept h =
    let word_kept : (k : ℕ)
        → k + 8 ≤ 72
        → word_at later (slot env_later k) ≡ word_at m (slot env k) =
      λ k le.
        word-ext _ _
          λ i lt. ap later (omega arith) ∙ kept (slot env k + i) (omega arith) (omega arith) in
    record {
      at_0 = word_kept 0 (omega arith) ∙ h.at_0;
      at_8 = word_kept 8 (omega arith) ∙ h.at_8;
      at_16 = word_kept 16 (omega arith) ∙ h.at_16;
      at_24 = word_kept 24 (omega arith) ∙ h.at_24;
      at_32 = word_kept 32 (omega arith) ∙ h.at_32;
      at_40 = word_kept 40 (omega arith) ∙ h.at_40;
      at_48 = word_kept 48 (omega arith) ∙ h.at_48;
      at_56 = word_kept 56 (omega arith) ∙ h.at_56;
      at_64 = word_kept 64 (omega arith) ∙ h.at_64;
    }

-- What `setjmp` saves.
abbrev pub buffer_of : {K : Type 0} → Cpu K → (K → ℕ) → Buffer
buffer_of c mask = record {
  rbx = c.rbx;
  rsp = c.rsp;
  rbp = c.rbp;
  r12 = c.r12;
  r13 = c.r13;
  r14 = c.r14;
  r15 = c.r15;
  rip = word_at c.memory c.rsp;
  mask = mask c.kernel;
}

-- The registers and the return address are words.
pub record IsWide {K : Type 0} (c : Cpu K) : Type 0 where
  pub rbx-lt : c.rbx < 2 ^ 64
  pub rbp-lt : c.rbp < 2 ^ 64
  pub r12-lt : c.r12 < 2 ^ 64
  pub r13-lt : c.r13 < 2 ^ 64
  pub r14-lt : c.r14 < 2 ^ 64
  pub r15-lt : c.r15 < 2 ^ 64
  pub rdi-lt : c.rdi < 2 ^ 64
  pub back-lt : word_at c.memory c.rsp < 2 ^ 64

-- The caller of `setjmp` goes on, behind its call, with the registers and the mask of the buffer.
pub record Resumes {K : Type 0} (b : Buffer) (mask_of : K → ℕ) (j : Cpu K) : Type 0 where
  pub rip : j.rip ≡ b.rip
  pub rsp : j.rsp ≡ b.rsp + 8
  pub rbx : j.rbx ≡ b.rbx
  pub rbp : j.rbp ≡ b.rbp
  pub r12 : j.r12 ≡ b.r12
  pub r13 : j.r13 ≡ b.r13
  pub r14 : j.r14 ≡ b.r14
  pub r15 : j.r15 ≡ b.r15
  pub mask : mask_of j.kernel ≡ b.mask
