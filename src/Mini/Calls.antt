-- ===== src/Mini/Calls.antt =====
-- The wrappers of 310551113_hw3/libmini.c: `WRAPPER_RETval`, `WRAPPER_RETptr`, and the functions
-- that end in one of them.
pub mod Errors
use advanced_programming_in.Base.{ℕ, ◌-◌, ◌%◌, ◌^◌, Bool, true, false, if◌then◌else◌}
use advanced_programming_in.Base.Text.{Text}
use advanced_programming_in.Mini.Kernel.{Call, Kernel, State, is_negative, negate, sys_read}
use advanced_programming_in.Mini.Kernel.{sys_write, sys_close, sys_dup, sys_umask, sys_setuid}
use advanced_programming_in.Mini.Kernel.{sys_setgid, sys_alarm, sys_mmap, sys_mprotect}
use advanced_programming_in.Mini.Kernel.{sys_readlink, sys_chown, sys_sigprocmask, sys_munmap}
use advanced_programming_in.Mini.Kernel.{sys_dup2, sys_nanosleep, sys_getcwd, sys_rename}
use advanced_programming_in.Mini.Kernel.{sys_mkdir, sys_creat, sys_link, sys_chmod}
use advanced_programming_in.Mini.Kernel.{sys_gettimeofday, sys_pipe, sys_chdir, sys_rmdir}
use advanced_programming_in.Mini.Kernel.{sys_unlink, sys_pause, sys_fork, sys_getuid, sys_getgid}
use advanced_programming_in.Mini.Kernel.{sys_geteuid, sys_getegid}

-- The type in a wrapper's macro: an integer of so many bits, or a pointer.
pub data Returned : Type 0 where
  val : ℕ → Returned
  ptr : Returned

-- What `return -1` and `return NULL` give.
abbrev pub failure : Returned → ℕ
failure (val width) = 2 ^ width - 1
failure ptr = 0

-- `(type) ret`
abbrev pub cast : Returned → ℕ → ℕ
cast (val width) ret = ret % 2 ^ width
cast ptr ret = ret

module _ {K : Type 0} where
  -- The macros, on the value of the system call.
  unfoldable pub wrapper_ret : Returned → ℕ → State K → ℕ × State K
  unfolding is_negative negate
  wrapper_ret type ret s =
      if is_negative ret
      then (failure type, record s { errno = negate ret })
      else (cast type ret, record s { errno = 0 })

module _ {K : Type 0} (kernel : Kernel K) where
  unfoldable pub wrapper : Returned → Call → State K → ℕ × State K
  unfolding wrapper_ret
  wrapper type c s =
      let (ret, k) = kernel.call s.kernel c in wrapper_ret type ret (record s { kernel = k })

  unfoldable pub read : ℕ → ℕ → ℕ → State K → ℕ × State K
  unfolding wrapper
  read fd buf count = wrapper (val 64) (sys_read fd buf count)

  unfoldable pub write : ℕ → Text → ℕ → State K → ℕ × State K
  unfolding wrapper
  write fd buf count = wrapper (val 64) (sys_write fd buf count)

  unfoldable pub close : ℕ → State K → ℕ × State K
  unfolding wrapper
  close fd = wrapper (val 32) (sys_close fd)

  unfoldable pub mmap : ℕ → ℕ → ℕ → ℕ → ℕ → ℕ → State K → ℕ × State K
  unfolding wrapper
  mmap addr len prot flags fd off = wrapper ptr (sys_mmap addr len prot flags fd off)

  unfoldable pub mprotect : ℕ → ℕ → ℕ → State K → ℕ × State K
  unfolding wrapper
  mprotect addr len prot = wrapper (val 32) (sys_mprotect addr len prot)

  unfoldable pub munmap : ℕ → ℕ → State K → ℕ × State K
  unfolding wrapper
  munmap addr len = wrapper (val 32) (sys_munmap addr len)

  unfoldable pub pipe : ℕ → State K → ℕ × State K
  unfolding wrapper
  pipe filedes = wrapper (val 32) (sys_pipe filedes)

  unfoldable pub dup : ℕ → State K → ℕ × State K
  unfolding wrapper
  dup filedes = wrapper (val 32) (sys_dup filedes)

  unfoldable pub dup2 : ℕ → ℕ → State K → ℕ × State K
  unfolding wrapper
  dup2 oldfd newfd = wrapper (val 32) (sys_dup2 oldfd newfd)

  unfoldable pub pause : State K → ℕ × State K
  unfolding wrapper
  pause = wrapper (val 32) sys_pause

  unfoldable pub nanosleep : ℕ → ℕ → State K → ℕ × State K
  unfolding wrapper
  nanosleep rqtp rmtp = wrapper (val 32) (sys_nanosleep rqtp rmtp)

  unfoldable pub fork : State K → ℕ × State K
  unfolding wrapper
  fork = wrapper (val 32) sys_fork

  unfoldable pub getcwd : ℕ → ℕ → State K → ℕ × State K
  unfolding wrapper
  getcwd buf size = wrapper ptr (sys_getcwd buf size)

  unfoldable pub chdir : ℕ → State K → ℕ × State K
  unfolding wrapper
  chdir pathname = wrapper (val 32) (sys_chdir pathname)

  unfoldable pub rename : ℕ → ℕ → State K → ℕ × State K
  unfolding wrapper
  rename oldname newname = wrapper (val 32) (sys_rename oldname newname)

  unfoldable pub mkdir : ℕ → ℕ → State K → ℕ × State K
  unfolding wrapper
  mkdir pathname mode = wrapper (val 32) (sys_mkdir pathname mode)

  unfoldable pub rmdir : ℕ → State K → ℕ × State K
  unfolding wrapper
  rmdir pathname = wrapper (val 32) (sys_rmdir pathname)

  unfoldable pub creat : ℕ → ℕ → State K → ℕ × State K
  unfolding wrapper
  creat pathname mode = wrapper (val 32) (sys_creat pathname mode)

  unfoldable pub link : ℕ → ℕ → State K → ℕ × State K
  unfolding wrapper
  link oldname newname = wrapper (val 32) (sys_link oldname newname)

  unfoldable pub unlink : ℕ → State K → ℕ × State K
  unfolding wrapper
  unlink pathname = wrapper (val 32) (sys_unlink pathname)

  unfoldable pub readlink : ℕ → ℕ → ℕ → State K → ℕ × State K
  unfolding wrapper
  readlink path buf bufsz = wrapper (val 64) (sys_readlink path buf bufsz)

  unfoldable pub chmod : ℕ → ℕ → State K → ℕ × State K
  unfolding wrapper
  chmod filename mode = wrapper (val 32) (sys_chmod filename mode)

  unfoldable pub chown : ℕ → ℕ → ℕ → State K → ℕ × State K
  unfolding wrapper
  chown filename user group = wrapper (val 32) (sys_chown filename user group)

  unfoldable pub umask : ℕ → State K → ℕ × State K
  unfolding wrapper
  umask mask = wrapper (val 32) (sys_umask mask)

  unfoldable pub gettimeofday : ℕ → ℕ → State K → ℕ × State K
  unfolding wrapper
  gettimeofday tv tz = wrapper (val 32) (sys_gettimeofday tv tz)

  unfoldable pub getuid : State K → ℕ × State K
  unfolding wrapper
  getuid = wrapper (val 32) sys_getuid

  unfoldable pub getgid : State K → ℕ × State K
  unfolding wrapper
  getgid = wrapper (val 32) sys_getgid

  unfoldable pub setuid : ℕ → State K → ℕ × State K
  unfolding wrapper
  setuid uid = wrapper (val 32) (sys_setuid uid)

  unfoldable pub setgid : ℕ → State K → ℕ × State K
  unfolding wrapper
  setgid gid = wrapper (val 32) (sys_setgid gid)

  unfoldable pub geteuid : State K → ℕ × State K
  unfolding wrapper
  geteuid = wrapper (val 32) sys_geteuid

  unfoldable pub getegid : State K → ℕ × State K
  unfolding wrapper
  getegid = wrapper (val 32) sys_getegid

  unfoldable pub alarm : ℕ → State K → ℕ × State K
  unfolding wrapper
  alarm seconds = wrapper (val 32) (sys_alarm seconds)

  unfoldable pub sigprocmask : ℕ → ℕ → ℕ → State K → ℕ × State K
  unfolding wrapper
  sigprocmask how mask old = wrapper (val 32) (sys_sigprocmask how mask old)

  -- The function that stands for a system call.
  abbrev pub function_of : Call → State K → ℕ × State K
  function_of (sys_read fd buf count) = read fd buf count
  function_of (sys_write fd buf count) = write fd buf count
  function_of (sys_close fd) = close fd
  function_of (sys_mmap addr len prot flags fd off) = mmap addr len prot flags fd off
  function_of (sys_mprotect addr len prot) = mprotect addr len prot
  function_of (sys_munmap addr len) = munmap addr len
  function_of (sys_pipe filedes) = pipe filedes
  function_of (sys_dup filedes) = dup filedes
  function_of (sys_dup2 oldfd newfd) = dup2 oldfd newfd
  function_of sys_pause = pause
  function_of (sys_nanosleep rqtp rmtp) = nanosleep rqtp rmtp
  function_of sys_fork = fork
  function_of (sys_getcwd buf size) = getcwd buf size
  function_of (sys_chdir pathname) = chdir pathname
  function_of (sys_rename oldname newname) = rename oldname newname
  function_of (sys_mkdir pathname mode) = mkdir pathname mode
  function_of (sys_rmdir pathname) = rmdir pathname
  function_of (sys_creat pathname mode) = creat pathname mode
  function_of (sys_link oldname newname) = link oldname newname
  function_of (sys_unlink pathname) = unlink pathname
  function_of (sys_readlink path buf bufsz) = readlink path buf bufsz
  function_of (sys_chmod filename mode) = chmod filename mode
  function_of (sys_chown filename user group) = chown filename user group
  function_of (sys_umask mask) = umask mask
  function_of (sys_gettimeofday tv tz) = gettimeofday tv tz
  function_of sys_getuid = getuid
  function_of sys_getgid = getgid
  function_of (sys_setuid uid) = setuid uid
  function_of (sys_setgid gid) = setgid gid
  function_of sys_geteuid = geteuid
  function_of sys_getegid = getegid
  function_of (sys_alarm seconds) = alarm seconds
  function_of (sys_sigprocmask how mask old) = sigprocmask how mask old

  -- `exit` ends the process: this is what it leaves.
  unfoldable pub exit : ℕ → State K → K
  exit error_code s = kernel.exit s.kernel error_code

  -- `sigpending` has no macro: it returns what the kernel returns, as an `int`.
  unfoldable pub sigpending : ℕ → State K → ℕ × State K
  sigpending set s =
      let (ret, k) = kernel.rt_sigpending s.kernel set 8 in (ret % 2 ^ 32, record s { kernel = k })
