-- ===== src/Mini/Assembly/Setjmp.antt =====
-- `setjmp` of 310551113_hw3/libmini64.asm: the words that it leaves in memory.
use mathlib.Core.Path.{subst}
use advanced_programming_in.Base.{ℕ, ◌+◌, ◌-◌, ◌^◌, ◌<◌, ◌≡◌, refl, sym, ap, ◌∙◌, arith, [], ◌∷◌}
use advanced_programming_in.Base.{◌++◌}
use advanced_programming_in.Mini.Machine.{Cpu, rax, rbx, rcx, rdx, rsi, rdi, rbp, rsp, r10, r12}
use advanced_programming_in.Mini.Machine.{r13, r14, r15, Os, word_at, store_word, minus, plus}
use advanced_programming_in.Mini.Machine.{◌>>◌, mov, put, lea, load, store, add, push, push_value}
use advanced_programming_in.Mini.Machine.{pop, ret, syscall}
use advanced_programming_in.Mini.Assembly.{setjmp, gensys}
use advanced_programming_in.Mini.Assembly.Stack.{stores, word_at-stores, word_at-stored}
use advanced_programming_in.Mini.Assembly.Stack.{word_at-same}
use advanced_programming_in.Mini.Assembly.Buffer.{SetsMask, Layout, slot, Holds, buffer_of}
use advanced_programming_in.Mini.Assembly.Buffer.{IsWide, Resumes}
use advanced_programming_in.Mini.Assembly.Saved.{back, saved, pushed, left, left-Holds}

module _ {K : Type 0} (os : Os K) (next : ℕ) where
  -- What `setjmp` does before the system call, and behind it.
  abbrev asking : Cpu K → Cpu K
  asking = do
    store rdi 0 rbx
    store rdi 8 rsp
    store rdi 16 rbp
    store rdi 24 r12
    store rdi 32 r13
    store rdi 40 r14
    store rdi 48 r15
    load rax rsp 0
    store rdi 56 rax
    push rdi
    put rdi 2
    put rsi 0
    (λ c. put rsp (minus c.rsp 8) c)
    lea rdx rsp 0
    put rcx 8
    push_value next
    push r10
    mov r10 rcx
    put rax 14

  abbrev asked : Cpu K → Cpu K
  asked = do pop r10; ret; load rax rsp 0; add rsp 8; pop rdi; store rdi 64 rax; put rax 0; ret

  setjmp_parts : (c : Cpu K) → setjmp os next c ≡ asked (syscall os (asking c))
  unfolding setjmp gensys
  setjmp_parts c = refl

  -- What follows the system call, by the memory and the stack pointer that it finds.
  asked_lem :
      (d : Cpu K) (t env old back : ℕ)
      → d.rsp ≡ t
      → t + 40 < 2 ^ 64
      → word_at d.memory (t + 16) ≡ old
      → word_at d.memory (t + 24) ≡ env
      → word_at (store_word d.memory (slot env 64) old) (t + 32) ≡ back
      → ((asked d).rip ≡ back)
        × ((asked d).rsp ≡ t + 40)
        × ((asked d).memory ≡ store_word d.memory (slot env 64) old)
  asked_lem d t env old back e small at_old at_env at_back =
      let p2 : plus (plus d.rsp 8) 8 ≡ t + 16 = omega arith in
      let p3 : plus (plus (plus d.rsp 8) 8) 8 ≡ t + 24 = omega arith in
      let p4 : plus (plus (plus (plus d.rsp 8) 8) 8) 8 ≡ t + 32 = omega arith in
      let p0 : plus (plus (plus d.rsp 8) 8) 0 ≡ t + 16 = omega arith in
      let mem : (asked d).memory ≡ store_word d.memory (slot env 64) old =
        rw (p0, p3, at_env, at_old) refl in
      (rw (p4, p0, p3, at_env, at_old) at_back, omega arith, mem)

  module _ (c : Cpu K) where
    module _ (l : Layout c.rsp c.rdi) where
      top_of : plus c.rsp 0 ≡ c.rsp
      top_of = omega (arith, l.top)

      back_kept : word_at (stores c.memory (saved next c)) c.rsp ≡ back next c
      back_kept = word_at-stores c.memory (saved next c) c.rsp (ground arith)

      asking_memory : (asking c).memory ≡ stores c.memory (saved next c ++ pushed next c)
      asking_memory =
          let s8 : minus c.rsp 8 ≡ c.rsp - 8 = omega (arith, l.stack, l.top) in
          let s24 : minus (minus (minus c.rsp 8) 8) 8 ≡ c.rsp - 24 =
            omega (arith, l.stack, l.top) in
          let s32 : minus (minus (minus (minus c.rsp 8) 8) 8) 8 ≡ c.rsp - 32 =
            omega (arith, l.stack, l.top) in
          rw (s32, s24, s8, top_of, back_kept) refl

      module _ (mask : K → ℕ) (blockable : ℕ → ℕ) (linux : SetsMask os mask blockable)
          (wide : IsWide c) where
        -- Memory when the kernel has stored the mask.
        abbrev answered : ℕ → ℕ
        answered =
            stores c.memory (saved next c ++ pushed next c ++ ((c.rsp - 16, mask c.kernel) ∷ []))

        in_kernel :
            ((os.answer (asking c)).memory ≡ answered)
            × (mask (os.answer (asking c)).kernel ≡ mask c.kernel)
        in_kernel =
            let s16 : plus (minus (minus c.rsp 8) 8) 0 ≡ c.rsp - 16 =
              omega (arith, l.stack, l.top) in
            let r = linux.asks (asking c) refl refl refl (omega (arith, l.stack, l.top)) refl in
            (r.0 ∙ rw (s16, asking_memory) refl, r.1)

        mask_read : word_at answered (c.rsp - 16) ≡ mask c.kernel
        mask_read =
            word_at-same (stores c.memory (saved next c ++ pushed next c)) (c.rsp - 16)
              (mask c.kernel) (linux.mask-lt c.kernel)

        env_read : word_at answered (c.rsp - 8) ≡ c.rdi
        env_read =
            word_at-stored (stores c.memory (saved next c ++ ((slot c.rdi 56, (back next c)) ∷ [])))
              (c.rsp - 8) c.rdi
              ((c.rsp - 24, next) ∷ (c.rsp - 32, c.r10) ∷ (c.rsp - 16, mask c.kernel) ∷ [])
              wide.rdi-lt (ground (arith, l.stack))

        back_read : word_at (left next c (mask c.kernel)) c.rsp ≡ back next c
        back_read =
            word_at-stores c.memory
              (saved next c
                ++ pushed next c
                ++ ((c.rsp - 16, mask c.kernel) ∷ (slot c.rdi 64, mask c.kernel) ∷ []))
              c.rsp (ground (arith, l.stack))

        setjmp_asked :
            ((setjmp os next c).rip ≡ back next c)
            × ((setjmp os next c).rsp ≡ c.rsp - 32 + 40)
            × ((setjmp os next c).memory ≡ left next c (mask c.kernel))
        setjmp_asked =
            let d = syscall os (asking c) in
            let s32 : minus (minus (minus (minus c.rsp 8) 8) 8) 8 ≡ c.rsp - 32 =
              omega (arith, l.stack, l.top) in
            let a16 : c.rsp - 32 + 16 ≡ c.rsp - 16 = omega (arith, l.stack) in
            let a24 : c.rsp - 32 + 24 ≡ c.rsp - 8 = omega (arith, l.stack) in
            let a32 : c.rsp - 32 + 32 ≡ c.rsp = omega (arith, l.stack) in
            let mem : d.memory ≡ answered = in_kernel.0 in
            let r =
              asked_lem d (c.rsp - 32) c.rdi (mask c.kernel) (back next c) s32
                (omega (arith, l.top)) (rw (mem, a16) mask_read) (rw (mem, a24) env_read)
                (rw (mem, a32) back_read) in
            (
              rw setjmp_parts (r.0),
              rw setjmp_parts (r.1),
              rw setjmp_parts (r.2 ∙ ap (λ m. store_word m (slot c.rdi 64) (mask c.kernel)) mem),
            )

        -- `setjmp` returns 0 to its caller, whose registers and mask are as they were, and which `env`
        -- now holds.
        pub setjmp_lem :
            ((setjmp os next c).rax ≡ 0)
            × Resumes (buffer_of c mask) mask (setjmp os next c)
            × Holds (setjmp os next c).memory c.rdi (buffer_of c mask)
        unfolding setjmp gensys
        setjmp_lem =
            let (back_to, popped, memory) = setjmp_asked in
            (
              refl,
              record {
                rip = back_to;
                rsp = popped ∙ omega (arith, l.stack);
                rbx = refl;
                rbp = refl;
                r12 = refl;
                r13 = refl;
                r14 = refl;
                r15 = refl;
                mask = in_kernel.1;
              },
              subst (λ m. Holds m c.rdi (buffer_of c mask)) (sym memory)
                  (left-Holds next c mask l wide (linux.mask-lt c.kernel)),
            )
