-- ===== src/Mini/Assembly/Sleep.antt =====
-- `sleep` of 310551113_hw3/libmini64.asm against the one that libmini.c keeps in C.
use advanced_programming_in.Base.{ℕ, ◌+◌, ◌-◌, ◌%◌, ◌^◌, ◌==◌, ◌<◌, ◌≤◌, ◌≡◌, inl, inr, refl, ap}
use advanced_programming_in.Base.{◌∙◌, arith, Bool-cases, true, if◌then◌else◌}
use advanced_programming_in.Mini.Kernel.{is_negative, negate}
use advanced_programming_in.Mini.Sleep.{Timespec, sleep}
use advanced_programming_in.Mini.Machine.{Cpu, rax, rcx, rsi, rdi, rsp, r10, Os, word_at, minus}
use advanced_programming_in.Mini.Machine.{plus, ◌>>◌, mov, put, lea, load, neg, add, sub, store}
use advanced_programming_in.Mini.Machine.{store_imm, if_negative, push, push_value, pop, ret}
use advanced_programming_in.Mini.Machine.{syscall}
use advanced_programming_in.Mini.Assembly.{gensys}
use advanced_programming_in.Mini.Assembly.Stack.{stores}
use advanced_programming_in.Mini.Assembly.Nanosleep.{Sleeps, timespec_at, request, given}
use advanced_programming_in.Mini.Assembly.Nanosleep.{answered, back_kept, rest_read, request_read}
use advanced_programming_in.Mini.Assembly

-- What `sleep` returns, by the result of the system call and the seconds that are left.
abbrev slept : ℕ → ℕ → ℕ
slept r left = if is_negative r then (if r == 2 ^ 64 - 4 then left else 0) else r

pair-ext :
    {K : Type 0} {r r' : ℕ} {k k' : K}
    → r ≡ r'
    → k ≡ k'
    → ◌≡◌ {A = ℕ × K} (r % 2 ^ 32, k) (r' % 2 ^ 32, k')
pair-ext p q i = (p i % 2 ^ 32, q i)

interrupted : (r : ℕ) → r < 2 ^ 64 → is_negative r ≡ true → (negate r == 4) ≡ (r == 2 ^ 64 - 4)
unfolding is_negative negate
interrupted r small negative = ground arith

module _ {K : Type 0} (os : Os K) (next : ℕ) where
  -- What `sleep` does before the system call, and behind it.
  abbrev asking : Cpu K → Cpu K
  asking = do
    sub rsp 32
    store rsp 0 rdi
    store_imm rsp 8 0
    mov rdi rsp
    lea rsi rsp 16
    push_value next
    push r10
    mov r10 rcx
    put rax 35

  abbrev branch : Cpu K → Cpu K
  unfolding negate is_negative
  branch =
      if_negative
        (do
          neg rax
          (λ c. if c.rax == 4 then (do lea rsi rsp 16; load rax rsi 0) c else put rax 0 c))
        (λ c. c)

  abbrev asked : Cpu K → Cpu K
  unfolding branch
  asked = do pop r10; ret; branch; add rsp 32; ret

  sleep_parts : (c : Cpu K) → Assembly.sleep os next c ≡ asked (syscall os (asking c))
  unfolding Assembly.sleep gensys
  sleep_parts c = refl

  branch_lem :
      (d : Cpu K)
      → d.rax < 2 ^ 64
      → ((branch d).rax ≡ slept d.rax (word_at d.memory (plus (plus d.rsp 16) 0)))
        × ((branch d).memory ≡ d.memory)
        × ((branch d).rsp ≡ d.rsp)
        × ((branch d).kernel ≡ d.kernel)
  unfolding branch negate is_negative
  branch_lem d small = elim (Bool-cases (is_negative d.rax)) [
    | inl negative ↦ elim (Bool-cases (d.rax == 2 ^ 64 - 4)) [
      | inl signal ↦
          rw (negative, interrupted d.rax small negative, signal) (refl, refl, refl, refl)
      | inr other ↦ rw (negative, interrupted d.rax small negative, other) (refl, refl, refl, refl)
    ]
    | inr fine ↦ rw fine (refl, refl, refl, refl)
  ]

  asked_lem :
      (d : Cpu K) (t : ℕ)
      → d.rsp ≡ t
      → t + 56 < 2 ^ 64
      → d.rax < 2 ^ 64
      → ((asked d).rax ≡ slept d.rax (word_at d.memory (t + 32)))
        × ((asked d).rip ≡ word_at d.memory (t + 48))
        × ((asked d).rsp ≡ t + 56)
        × ((asked d).kernel ≡ d.kernel)
  unfolding asked
  asked_lem d t e high small =
      let f = ret (pop r10 d) in
      let (value, memory, sp, kernel) = branch_lem f small in
      let p32 : plus (plus f.rsp 16) 0 ≡ t + 32 = omega arith in
      let p48 : plus (branch f).rsp 32 ≡ t + 48 = omega (arith, sp) in
      let p56 : plus (t + 48) 8 ≡ t + 56 = omega arith in
      (
        value ∙ ap (λ x. slept d.rax (word_at d.memory x)) p32,
        ap (λ m. word_at m (plus (branch f).rsp 32)) memory ∙ ap (word_at d.memory) p48,
        ap (λ x. plus x 8) p48 ∙ p56,
        kernel,
      )

module _ {K : Type 0} (os : Os K) (nanosleep : K → Timespec → ℕ × Timespec × K)
    (linux : Sleeps os nanosleep) (next : ℕ) (c : Cpu K) where
  given-sleep :
      (left : ℕ)
      → (((given nanosleep next c).0 == 2 ^ 64 - 4) ≡ true
          → left ≡ (given nanosleep next c).1.tv_sec)
      → (slept (given nanosleep next c).0 left % 2 ^ 32, (given nanosleep next c).2)
        ≡ sleep nanosleep c.rdi c.kernel
  unfolding sleep is_negative
  given-sleep left h = elim (Bool-cases (is_negative (given nanosleep next c).0)) [
    | inl negative ↦ elim (Bool-cases ((given nanosleep next c).0 == 2 ^ 64 - 4)) [
      | inl signal ↦ rw (negative, signal, h signal) refl
      | inr other ↦ rw (negative, other) refl
    ]
    | inr fine ↦ rw fine refl
  ]

  module _ (low : 48 ≤ c.rsp) (high : c.rsp + 8 < 2 ^ 64) where
    asking_memory : (asking os next c).memory ≡ stores c.memory (request nanosleep next c)
    asking_memory =
        let s32 : plus (minus c.rsp 32) 0 ≡ c.rsp - 32 = omega arith in
        let s24 : plus (minus c.rsp 32) 8 ≡ c.rsp - 24 = omega arith in
        let s40 : minus (minus c.rsp 32) 8 ≡ c.rsp - 40 = omega arith in
        let s48 : minus (minus (minus c.rsp 32) 8) 8 ≡ c.rsp - 48 = omega arith in
        rw (s32, s24, s48, s40) refl

    asked_for :
        c.rdi < 2 ^ 32
        → timespec_at (asking os next c).memory (asking os next c).rdi
          ≡ record { tv_sec = c.rdi; tv_nsec = 0 }
    asked_for seconds =
        let s32 : minus c.rsp 32 ≡ c.rsp - 32 = omega arith in
        ap (λ m. timespec_at m (minus c.rsp 32)) asking_memory
        ∙ ap (timespec_at (stores c.memory (request nanosleep next c))) s32
        ∙ request_read nanosleep next c low high seconds

  -- `sleep` with a number of seconds, in a register whose upper half is 0, returns as an
  -- `unsigned int` what the C function returns, and the kernel is in the same state; it goes back to
  -- its caller with the stack as it was.
  pub sleep_lem :
      48 ≤ c.rsp
      → c.rsp + 8 < 2 ^ 64
      → c.rdi < 2 ^ 32
      → (((Assembly.sleep os next c).rax % 2 ^ 32, (Assembly.sleep os next c).kernel)
          ≡ sleep nanosleep c.rdi c.kernel)
        × ((Assembly.sleep os next c).rip ≡ word_at c.memory c.rsp)
        × ((Assembly.sleep os next c).rsp ≡ c.rsp + 8)
  unfolding Assembly.sleep gensys
  sleep_lem low high seconds =
      let e = asking os next c in
      let d = syscall os e in
      let req : nanosleep e.kernel (timespec_at e.memory e.rdi) ≡ (given nanosleep next c) =
        ap (nanosleep c.kernel) (asked_for low high seconds) in
      let result : d.rax ≡ (given nanosleep next c).0 = linux.result e refl ∙ ap (λ n. n.0) req in
      let after : d.kernel ≡ (given nanosleep next c).2 = linux.after e refl ∙ ap (λ n. n.2) req in
      let rem : e.rsi ≡ c.rsp - 16 = omega arith in
      let memory : d.memory ≡ answered nanosleep next c ((given nanosleep next c).0 == 2 ^ 64 - 4) =
        linux.writes e refl ∙ rw (req, rem, asking_memory low high) refl in
      let (value, back, sp, kernel) =
        asked_lem os next d (c.rsp - 48) (omega arith) (omega arith)
          (rw result (linux.result-lt c.kernel _)) in
      let rest = word_at d.memory (c.rsp - 48 + 32) in
      let whole : (asked os next d).rax ≡ slept (given nanosleep next c).0 rest =
        value ∙ ap (λ x. slept x rest) result in
      let ends : (asked os next d).kernel ≡ (given nanosleep next c).2 = kernel ∙ after in
      let rest_is : ((given nanosleep next c).0 == 2 ^ 64 - 4) ≡ true
          → rest ≡ (given nanosleep next c).1.tv_sec =
        λ signal.
          ap (λ m. word_at m (c.rsp - 48 + 32)) (memory ∙ ap (answered nanosleep next c) signal)
          ∙ ap (word_at (answered nanosleep next c true)) (omega arith)
          ∙ rest_read nanosleep next c low high (linux.rest-lt c.kernel _) in
      (
        pair-ext whole ends ∙ given-sleep rest rest_is,
        back
            ∙ ap (λ m. word_at m (c.rsp - 48 + 48)) memory
            ∙ ap (word_at (answered nanosleep next c ((given nanosleep next c).0 == 2 ^ 64 - 4)))
                (omega arith)
            ∙ back_kept nanosleep next c low high ((given nanosleep next c).0 == 2 ^ 64 - 4),
        sp ∙ omega arith,
      )
