-- ===== src/Mini/Calls/Errors.antt =====
-- What the wrappers of 310551113_hw3/libmini.c do with the result of the kernel.
use advanced_programming_in.Base.{ℕ, ◌-◌, ◌^◌, ◌<◌, ◌≤◌, ◌≡◌, refl, arith}
use advanced_programming_in.Mini.Kernel.{Call, Kernel, State, is_negative, negate, sys_read}
use advanced_programming_in.Mini.Kernel.{sys_write, sys_close, sys_dup, sys_umask, sys_setuid}
use advanced_programming_in.Mini.Kernel.{sys_setgid, sys_alarm, sys_mmap, sys_mprotect}
use advanced_programming_in.Mini.Kernel.{sys_readlink, sys_chown, sys_sigprocmask, sys_munmap}
use advanced_programming_in.Mini.Kernel.{sys_dup2, sys_nanosleep, sys_getcwd, sys_rename}
use advanced_programming_in.Mini.Kernel.{sys_mkdir, sys_creat, sys_link, sys_chmod}
use advanced_programming_in.Mini.Kernel.{sys_gettimeofday, sys_pipe, sys_chdir, sys_rmdir}
use advanced_programming_in.Mini.Kernel.{sys_unlink, sys_pause, sys_fork, sys_getuid, sys_getgid}
use advanced_programming_in.Mini.Kernel.{sys_geteuid, sys_getegid}
use advanced_programming_in.Mini.Calls.{Returned, val, ptr, failure, cast, function_of}
use advanced_programming_in.Mini.Calls.{wrapper_ret, wrapper, read, write, close, mmap, mprotect}
use advanced_programming_in.Mini.Calls.{munmap, pipe, dup, dup2, pause, nanosleep, fork, getcwd}
use advanced_programming_in.Mini.Calls.{chdir, rename, mkdir, rmdir, creat, link, unlink}
use advanced_programming_in.Mini.Calls.{readlink, chmod, chown, umask, gettimeofday, getuid}
use advanced_programming_in.Mini.Calls.{getgid, setuid, setgid, geteuid, getegid, alarm}
use advanced_programming_in.Mini.Calls.{sigprocmask}

-- The type that the function of a call returns.
abbrev pub returned : Call → Returned
returned (sys_read fd buf count) = val 64
returned (sys_write fd buf count) = val 64
returned (sys_readlink path buf bufsz) = val 64
returned (sys_mmap addr len prot flags fd off) = ptr
returned (sys_getcwd buf size) = ptr
returned _ = val 32

function_of-wrapper :
    {K : Type 0} (kernel : Kernel K) (c : Call) (s : State K)
    → function_of kernel c s ≡ wrapper kernel (returned c) c s
unfolding read write close mmap mprotect munmap pipe dup dup2 pause nanosleep fork getcwd chdir
    rename mkdir rmdir creat link unlink readlink chmod chown umask gettimeofday getuid getgid
    setuid setgid geteuid getegid alarm sigprocmask
function_of-wrapper kernel (sys_read fd buf count) s = refl
function_of-wrapper kernel (sys_write fd buf count) s = refl
function_of-wrapper kernel (sys_close fd) s = refl
function_of-wrapper kernel (sys_mmap addr len prot flags fd off) s = refl
function_of-wrapper kernel (sys_mprotect addr len prot) s = refl
function_of-wrapper kernel (sys_munmap addr len) s = refl
function_of-wrapper kernel (sys_pipe filedes) s = refl
function_of-wrapper kernel (sys_dup filedes) s = refl
function_of-wrapper kernel (sys_dup2 oldfd newfd) s = refl
function_of-wrapper kernel sys_pause s = refl
function_of-wrapper kernel (sys_nanosleep rqtp rmtp) s = refl
function_of-wrapper kernel sys_fork s = refl
function_of-wrapper kernel (sys_getcwd buf size) s = refl
function_of-wrapper kernel (sys_chdir pathname) s = refl
function_of-wrapper kernel (sys_rename oldname newname) s = refl
function_of-wrapper kernel (sys_mkdir pathname mode) s = refl
function_of-wrapper kernel (sys_rmdir pathname) s = refl
function_of-wrapper kernel (sys_creat pathname mode) s = refl
function_of-wrapper kernel (sys_link oldname newname) s = refl
function_of-wrapper kernel (sys_unlink pathname) s = refl
function_of-wrapper kernel (sys_readlink path buf bufsz) s = refl
function_of-wrapper kernel (sys_chmod filename mode) s = refl
function_of-wrapper kernel (sys_chown filename user group) s = refl
function_of-wrapper kernel (sys_umask mask) s = refl
function_of-wrapper kernel (sys_gettimeofday tv tz) s = refl
function_of-wrapper kernel sys_getuid s = refl
function_of-wrapper kernel sys_getgid s = refl
function_of-wrapper kernel (sys_setuid uid) s = refl
function_of-wrapper kernel (sys_setgid gid) s = refl
function_of-wrapper kernel sys_geteuid s = refl
function_of-wrapper kernel sys_getegid s = refl
function_of-wrapper kernel (sys_alarm seconds) s = refl
function_of-wrapper kernel (sys_sigprocmask how mask old) s = refl

module _ {K : Type 0} (kernel : Kernel K) (c : Call) (s : State K) where
  -- The result of the kernel.
  abbrev pub result : ℕ
  result = (kernel.call s.kernel c).0

  -- The process after the call.
  abbrev pub after : ℕ → State K
  after errno = record { kernel = (kernel.call s.kernel c).1; errno = errno }

  -- For every wrapped system call: if the kernel gives an error number `e` as -e, the function
  -- returns -1 (or NULL, where it returns a pointer) and `errno` is `e`; if it gives a number that is
  -- not negative, the function returns that number as far as its type holds it, and `errno` is 0.
  pub function_of-errno :
      ((e : ℕ)
        → 0 < e
        → e ≤ 4095
        → result ≡ 2 ^ 64 - e
        → function_of kernel c s ≡ (failure (returned c), after e))
      × (result < 2 ^ 63 → function_of kernel c s ≡ (cast (returned c) result, after 0))
  unfolding wrapper wrapper_ret is_negative negate
  function_of-errno =
      rw (function_of-wrapper kernel c s) ((λ e h g eq. ground arith), (λ h. ground arith))
