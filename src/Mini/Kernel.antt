-- ===== src/Mini/Kernel.antt =====
-- The system calls that 310551113_hw3/libmini.c makes, and the state of a process that uses it.
use advanced_programming_in.Base.{ℕ, ◌-◌, ◌%◌, ◌^◌, leb, Bool}
use advanced_programming_in.Base.Text.{Text}

-- The system calls of libmini.h that have a wrapper of the usual form. An address is a number;
-- `write` has the bytes that its buffer holds.
pub data Call : Type 0 where
  sys_read : ℕ → ℕ → ℕ → Call
  sys_write : ℕ → Text → ℕ → Call
  sys_close sys_dup sys_umask sys_setuid sys_setgid sys_alarm : ℕ → Call
  sys_mmap : ℕ → ℕ → ℕ → ℕ → ℕ → ℕ → Call
  sys_mprotect sys_readlink sys_chown sys_sigprocmask : ℕ → ℕ → ℕ → Call
  sys_munmap sys_dup2 sys_nanosleep sys_getcwd sys_rename sys_mkdir sys_creat sys_link :
      ℕ → ℕ → Call
  sys_chmod sys_gettimeofday : ℕ → ℕ → Call
  sys_pipe sys_chdir sys_rmdir sys_unlink : ℕ → Call
  sys_pause sys_fork sys_getuid sys_getgid sys_geteuid sys_getegid : Call

-- `struct sigaction`
pub record SigAction : Type 0 where
  pub sa_handler : ℕ
  pub sa_flags : ℕ
  pub sa_restorer : ℕ
  pub sa_mask : ℕ

-- The kernel: a call gives a `long`, as the number of its 64 bits. `rt_sigaction` also gives the
-- action that was in force. `myrt` is the address of `__myrt`.
pub record Kernel (K : Type 0) : Type 0 where
  pub call : K → Call → ℕ × K
  pub rt_sigaction : K → ℕ → SigAction → ℕ × SigAction × K
  pub rt_sigpending : K → ℕ → ℕ → ℕ × K
  pub exit : K → ℕ → K
  pub myrt : ℕ

-- `errno` is a `long` too.
pub record State (K : Type 0) : Type 0 where
  pub kernel : K
  pub errno : ℕ

-- `< 0` on a `long`.
unfoldable pub is_negative : ℕ → Bool
is_negative n = leb (2 ^ 63) n

-- `-ret`
unfoldable pub negate : ℕ → ℕ
negate n = (2 ^ 64 - n) % 2 ^ 64
