-- ===== src/Mini/Assembly/Longjmp.antt =====
-- `longjmp` of 310551113_hw3/libmini64.asm, and the return to the caller of `setjmp`.
use mathlib.Core.Path.{subst}
use advanced_programming_in.Base.{ℕ, ◌+◌, ◌-◌, ◌^◌, ◌<◌, ◌≤◌, ◌≡◌, refl, sym, ap, ◌∙◌, arith, []}
use advanced_programming_in.Base.{◌∷◌}
use advanced_programming_in.Mini.Machine.{Cpu, rax, rbx, rcx, rdx, rsi, rdi, rbp, rsp, r10, r12}
use advanced_programming_in.Mini.Machine.{r13, r14, r15, Os, word_at, store_word, minus, plus}
use advanced_programming_in.Mini.Machine.{◌>>◌, mov, put, lea, load, push, push_value, pop, ret}
use advanced_programming_in.Mini.Machine.{syscall}
use advanced_programming_in.Mini.Assembly.{setjmp, longjmp, gensys}
use advanced_programming_in.Mini.Assembly.Stack.{stores, word_at-stores, word_at-stored}
use advanced_programming_in.Mini.Assembly.Buffer.{SetsMask, Layout, slot, Buffer, Holds}
use advanced_programming_in.Mini.Assembly.Buffer.{kept-Holds, buffer_of, IsWide, Resumes}
use advanced_programming_in.Mini.Assembly.Setjmp.{setjmp_lem}

module _ {K : Type 0} (os : Os K) (next : ℕ) where
  -- What `longjmp` does before the system call, and behind it.
  abbrev restoring : Cpu K → Cpu K
  restoring = do
    load rbx rdi 0
    load rsp rdi 8
    load rbp rdi 16
    load r12 rdi 24
    load r13 rdi 32
    load r14 rdi 40
    load r15 rdi 48
    pop rax
    load rax rdi 56
    push rax
    push rsi
    lea rsi rdi 64
    put rdi 2
    put rdx 0
    put rcx 8
    push_value next
    push r10
    mov r10 rcx
    put rax 14

  abbrev restored : Cpu K → Cpu K
  restored = do pop r10; ret; pop rsi; mov rax rsi; ret

  longjmp_parts : (d : Cpu K) → longjmp os next d ≡ restored (syscall os (restoring d))
  unfolding longjmp gensys
  longjmp_parts d = refl

  restored_lem :
      (d : Cpu K) (t : ℕ)
      → d.rsp ≡ t
      → t + 32 < 2 ^ 64
      → ((restored d).rax ≡ word_at d.memory (t + 16))
        × ((restored d).rip ≡ word_at d.memory (t + 24))
        × ((restored d).rsp ≡ t + 32)
  restored_lem d t e small =
      let p2 : plus (plus d.rsp 8) 8 ≡ t + 16 = omega arith in
      let p3 : plus (plus (plus d.rsp 8) 8) 8 ≡ t + 24 = omega arith in
      (ap (word_at d.memory) p2, ap (word_at d.memory) p3, omega arith)

  module _ (d : Cpu K) (b : Buffer) (held : Holds d.memory d.rdi b) (l : Layout b.rsp d.rdi)
      (mask : K → ℕ) (blockable : ℕ → ℕ) (linux : SetsMask os mask blockable) where
    -- What `longjmp` writes on the stack of the caller of `setjmp`.
    abbrev rewritten : ℕ → ℕ
    rewritten =
        stores d.memory
          ((b.rsp, b.rip) ∷ (b.rsp - 8, d.rsi) ∷ (b.rsp - 16, next) ∷ (b.rsp - 24, d.r10) ∷ [])

    -- The stack pointer when `longjmp` pushes.
    s0 : minus (plus b.rsp 8) 8 ≡ b.rsp
    s0 = omega (arith, l.top)

    s8 : minus b.rsp 8 ≡ b.rsp - 8
    s8 = omega (arith, l.stack, l.top)

    s16 : minus (b.rsp - 8) 8 ≡ b.rsp - 16
    s16 = omega (arith, l.stack, l.top)

    s24 : minus (b.rsp - 16) 8 ≡ b.rsp - 24
    s24 = omega (arith, l.stack, l.top)

    restoring_memory : (restoring d).memory ≡ rewritten
    restoring_memory = rw (held.at_8, held.at_56, s0, s8, s16, s24) refl

    restoring_rsp : (restoring d).rsp ≡ b.rsp - 24
    restoring_rsp = rw (held.at_8, s0, s8, s16, s24) refl

    mask_read : word_at rewritten (slot d.rdi 64) ≡ b.mask
    mask_read =
        word_at-stores d.memory
          ((b.rsp, b.rip) ∷ (b.rsp - 8, d.rsi) ∷ (b.rsp - 16, next) ∷ (b.rsp - 24, d.r10) ∷ [])
          (slot d.rdi 64) (ground (arith, l.stack))
        ∙ held.at_64

    in_kernel :
        ((os.answer (restoring d)).memory ≡ rewritten)
        × (mask (os.answer (restoring d)).kernel ≡ blockable b.mask)
    in_kernel =
        let (memory, sets) =
          linux.sets (restoring d) refl refl (omega (arith, l.end_of)) refl refl in
        (
          memory ∙ restoring_memory,
          sets ∙ ap blockable (ap (λ m. word_at m (slot d.rdi 64)) restoring_memory ∙ mask_read),
        )

    value_read : d.rsi < 2 ^ 64 → word_at rewritten (b.rsp - 8) ≡ d.rsi
    value_read small =
        word_at-stored (store_word d.memory b.rsp b.rip) (b.rsp - 8) d.rsi
          ((b.rsp - 16, next) ∷ (b.rsp - 24, d.r10) ∷ []) small (ground (arith, l.stack))

    rip_read : b.rip < 2 ^ 64 → word_at rewritten b.rsp ≡ b.rip
    rip_read small =
        word_at-stored d.memory b.rsp b.rip
          ((b.rsp - 8, d.rsi) ∷ (b.rsp - 16, next) ∷ (b.rsp - 24, d.r10) ∷ []) small
          (ground (arith, l.stack))

    pub longjmp_lem :
        d.rsi < 2 ^ 64
        → b.rip < 2 ^ 64
        → blockable b.mask ≡ b.mask
        → ((longjmp os next d).rax ≡ d.rsi) × Resumes b mask (longjmp os next d)
    unfolding longjmp gensys
    longjmp_lem val_small rip_small kept =
        let r =
          restored_lem (syscall os (restoring d)) (b.rsp - 24) restoring_rsp
            (omega (arith, l.stack, l.top)) in
        let a16 : b.rsp - 24 + 16 ≡ b.rsp - 8 = omega (arith, l.stack) in
        let a24 : b.rsp - 24 + 24 ≡ b.rsp = omega (arith, l.stack) in
        (
          r.0 ∙ rw (in_kernel.0, a16) (value_read val_small),
          record {
            rip = r.1 ∙ rw (in_kernel.0, a24) (rip_read rip_small);
            rsp = r.2 ∙ omega (arith, l.stack);
            rbx = held.at_0;
            rbp = held.at_16;
            r12 = held.at_24;
            r13 = held.at_32;
            r14 = held.at_40;
            r15 = held.at_48;
            mask = in_kernel.1 ∙ kept;
          },
        )

module _ {K : Type 0} (os : Os K) (next : ℕ) (mask : K → ℕ) (blockable : ℕ → ℕ)
    (linux : SetsMask os mask blockable) where
  -- `setjmp` is entered with the state `c`, its words on the stack apart from `env`. It returns 0, with
  -- the registers that a function keeps and with the mask as they were. Later, when memory holds at
  -- `env` what `setjmp` left there, `longjmp` with any value, 0 included, goes on behind the call of
  -- `setjmp` once more: with the same registers, stack pointer and mask, and with the value as the
  -- result.
  pub setjmp-longjmp :
      (c d : Cpu K)
      → Layout c.rsp c.rdi
      → IsWide c
      → d.rdi ≡ c.rdi
      → d.rsi < 2 ^ 64
      → ((x : ℕ) → c.rdi ≤ x → x < c.rdi + 72 → d.memory x ≡ (setjmp os next c).memory x)
      → ((setjmp os next c).rax ≡ 0)
        × Resumes (buffer_of c mask) mask (setjmp os next c)
        × ((longjmp os next d).rax ≡ d.rsi)
        × Resumes (buffer_of c mask) mask (longjmp os next d)
  setjmp-longjmp c d l wide same small kept =
      let (zero_first, resumes, held) = setjmp_lem os next c l mask blockable linux wide in
      let held_later =
        kept-Holds (setjmp os next c).memory d.memory c.rdi d.rdi (buffer_of c mask) same l.end_of
          kept held in
      let (value, again) =
        longjmp_lem os next d (buffer_of c mask) held_later (subst (Layout c.rsp) (sym same) l) mask
          blockable linux small wide.back-lt (linux.blockable-mask c.kernel) in
      (zero_first, resumes, value, again)
