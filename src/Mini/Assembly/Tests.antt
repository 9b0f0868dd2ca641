-- ===== src/Mini/Assembly/Tests.antt =====
-- The theorems on 310551113_hw3/libmini64.asm with a small kernel.
use advanced_programming_in.Base.{ℕ, ◌+◌, ◌-◌, ◌%◌, ◌^◌, ◌==◌, ◌≡◌, inl, inr, refl, arith, false}
use advanced_programming_in.Base.{if◌then◌else◌}
use advanced_programming_in.Mini.Calls.{val, wrapper_ret}
use advanced_programming_in.Mini.Sleep.{Timespec, sleep}
use advanced_programming_in.Mini.Machine.{Cpu, Os, word_at, store_word}
use advanced_programming_in.Mini.Assembly.{open_file, setjmp, longjmp}
use advanced_programming_in.Mini.Assembly.Stack.{word_at-same}
use advanced_programming_in.Mini.Assembly.Buffer.{SetsMask, Resumes, buffer_of}
use advanced_programming_in.Mini.Assembly.Longjmp.{setjmp-longjmp}
use advanced_programming_in.Mini.Assembly.Open.{open_lem, process}
use advanced_programming_in.Mini.Assembly.Nanosleep.{store_timespec}
use advanced_programming_in.Mini.Assembly.Sleep.{sleep_lem}
use advanced_programming_in.Mini.Assembly

-- The kernel keeps the signal mask. There is no file to open, and a signal ends every `nanosleep`
-- with three seconds left.
abbrev toy : Os ℕ
toy = record {
  answer = λ c.
      if c.rax == 14
      then (if c.rsi == 0
          then record {
            rax = 0;
            rcx = 0;
            memory = store_word c.memory c.rdx (c.kernel % 2 ^ 64);
            kernel = c.kernel;
          }
          else record { rax = 0; rcx = 0; memory = c.memory; kernel = word_at c.memory c.rsi })
      else if c.rax == 35
      then record {
        rax = 2 ^ 64 - 4;
        rcx = 0;
        memory = store_timespec c.memory c.rsi (record { tv_sec = 3; tv_nsec = 0 });
        kernel = c.kernel;
      }
      else record { rax = 2 ^ 64 - 2; rcx = 0; memory = c.memory; kernel = c.kernel };
  errno_at = 512;
}

toy-SetsMask : SetsMask toy (λ k. k % 2 ^ 64) (λ w. w % 2 ^ 64)
toy-SetsMask = record {
  mask-lt = λ k. omega arith;
  blockable-mask = λ k. omega arith;
  asks = λ c n how old new size. rw (n, old) (refl, refl);
  sets = λ c n how given new size.
      let given_too : (c.rsi == 0) ≡ false = ground arith in rw (n, given_too) (refl, refl);
}

-- A caller whose stack is at 4096, which goes on at 77.
abbrev caller : Cpu ℕ
caller = record {
  rax = 0;
  rbx = 11;
  rcx = 0;
  rdx = 0;
  rsi = 0;
  rdi = 8192;
  rbp = 4200;
  rsp = 4096;
  r10 = 0;
  r12 = 12;
  r13 = 13;
  r14 = 14;
  r15 = 15;
  rip = 0;
  memory = store_word (λ x. 0) 4096 77;
  kernel = 4;
}

-- Later, in another function, with another mask.
abbrev later : Cpu ℕ
later = record caller {
  rsi = 5;
  rsp = 2048;
  rbx = 0;
  r12 = 1;
  memory = (setjmp toy 100 caller).memory;
  kernel = 0;
}

setjmp-longjmp_example :
    ((setjmp toy 100 caller).rax ≡ 0)
    × Resumes (buffer_of caller (λ k. k % 2 ^ 64)) (λ k. k % 2 ^ 64) (setjmp toy 100 caller)
    × ((longjmp toy 100 later).rax ≡ later.rsi)
    × Resumes (buffer_of caller (λ k. k % 2 ^ 64)) (λ k. k % 2 ^ 64) (longjmp toy 100 later)
setjmp-longjmp_example =
    setjmp-longjmp toy 100 (λ k. k % 2 ^ 64) (λ w. w % 2 ^ 64) toy-SetsMask caller later
      (record {
        stack = omega arith;
        top = omega arith;
        buffer = omega arith;
        end_of = omega arith;
        apart = inr (omega arith);
      })
      (record {
        rbx-lt = omega arith;
        rbp-lt = omega arith;
        r12-lt = omega arith;
        r13-lt = omega arith;
        r14-lt = omega arith;
        r15-lt = omega arith;
        rdi-lt = omega arith;
        back-lt = rw (word_at-same (λ x. 0) 4096 77 (omega arith)) (omega arith);
      })
      refl (omega arith) (λ x low high. refl)

open_example :
    (wrapper_ret (val 32) (2 ^ 64 - 2) (process toy caller)
      ≡ ((open_file toy 100 caller).rax % 2 ^ 32, process toy (open_file toy 100 caller)))
    × ((open_file toy 100 caller).rip ≡ word_at caller.memory caller.rsp)
    × ((open_file toy 100 caller).rsp ≡ caller.rsp + 8)
open_example =
    open_lem toy 100 caller (record { wide = λ c n. rw n (omega arith); keeps = λ c n. rw n refl })
      (omega arith) (omega arith) (omega arith) (inl (omega arith))

abbrev toy_nanosleep : ℕ → Timespec → ℕ × Timespec × ℕ
toy_nanosleep k req = (2 ^ 64 - 4, record { tv_sec = 3; tv_nsec = 0 }, k)

sleep_example :
    ((
      (Assembly.sleep toy 100 (record caller { rdi = 10 })).rax % 2 ^ 32,
      (Assembly.sleep toy 100 (record caller { rdi = 10 })).kernel,
    )
      ≡ sleep toy_nanosleep 10 4)
    × ((Assembly.sleep toy 100 (record caller { rdi = 10 })).rip ≡ word_at caller.memory caller.rsp)
    × ((Assembly.sleep toy 100 (record caller { rdi = 10 })).rsp ≡ caller.rsp + 8)
sleep_example =
    sleep_lem toy toy_nanosleep
      (record {
        result-lt = λ k req. omega arith;
        rest-lt = λ k req. omega arith;
        result = λ c n. rw n refl;
        after = λ c n. rw n refl;
        writes = λ c n. rw n refl;
      })
      100 (record caller { rdi = 10 }) (omega arith) (omega arith) (omega arith)
