-- ===== src/Mini/Assembly.antt =====
-- 310551113_hw3/libmini64.asm: the stubs of the system calls, `open`, `sleep`, `setjmp`,
-- `longjmp` and `__myrt`, instruction by instruction. The addresses behind the `call`s are a parameter.
pub mod Stack
pub mod Buffer
pub mod Saved
pub mod Setjmp
pub mod Longjmp
pub mod Open
pub mod Nanosleep
pub mod Sleep
mod Tests
use advanced_programming_in.Base.{ℕ, ◌==◌, ◌-◌, ◌^◌, Bool, if◌then◌else◌}
use advanced_programming_in.Mini.Kernel.{is_negative, negate}
use advanced_programming_in.Mini.Machine.{Cpu, Reg, rax, rbx, rcx, rdx, rsi, rdi, rbp, rsp, r10}
use advanced_programming_in.Mini.Machine.{r12, r13, r14, r15, Os, ◌>>◌, mov, put, lea, load}
use advanced_programming_in.Mini.Machine.{store, store_imm, add, sub, neg, push, pop, ret, call}
use advanced_programming_in.Mini.Machine.{syscall, if_negative}

module _ {K : Type 0} (os : Os K) where
  -- The stub of one system call.
  unfoldable pub gensys : ℕ → Cpu K → Cpu K
  gensys number = do push r10; mov r10 rcx; put rax number; syscall os; pop r10; ret

  unfoldable pub open_file : ℕ → Cpu K → Cpu K
  unfolding gensys is_negative negate
  open_file next = do
    call (gensys 2) next
    if_negative (do neg rax; put rdi os.errno_at; store rdi 0 rax; put rax (2 ^ 64 - 1))
        (do put rdi os.errno_at; store_imm rdi 0 0)
    ret

  unfoldable pub sleep : ℕ → Cpu K → Cpu K
  unfolding gensys is_negative negate
  sleep next = do
    sub rsp 32
    store rsp 0 rdi
    store_imm rsp 8 0
    mov rdi rsp
    lea rsi rsp 16
    call (gensys 35) next
    if_negative
        (do
          neg rax
          (λ c. if c.rax == 4 then (do lea rsi rsp 16; load rax rsi 0) c else put rax 0 c))
        (λ c. c)
    add rsp 32
    ret

  unfoldable pub setjmp : ℕ → Cpu K → Cpu K
  unfolding gensys
  setjmp next = do
    store rdi 0 rbx
    store rdi 8 rsp
    store rdi 16 rbp
    store rdi 24 r12
    store rdi 32 r13
    store rdi 40 r14
    store rdi 48 r15
    load rax rsp 0
    store rdi 56 rax
    push rdi
    put rdi 2
    put rsi 0
    sub rsp 8
    lea rdx rsp 0
    put rcx 8
    call (gensys 14) next
    load rax rsp 0
    add rsp 8
    pop rdi
    store rdi 64 rax
    put rax 0
    ret

  unfoldable pub longjmp : ℕ → Cpu K → Cpu K
  unfolding gensys
  longjmp next = do
    load rbx rdi 0
    load rsp rdi 8
    load rbp rdi 16
    load r12 rdi 24
    load r13 rdi 32
    load r14 rdi 40
    load r15 rdi 48
    pop rax
    load rax rdi 56
    push rax
    push rsi
    lea rsi rdi 64
    put rdi 2
    put rdx 0
    put rcx 8
    call (gensys 14) next
    pop rsi
    mov rax rsi
    ret

  -- `__myrt`, where a signal handler goes back to.
  unfoldable pub myrt : Cpu K → Cpu K
  myrt = do put rax 15; syscall os; ret
