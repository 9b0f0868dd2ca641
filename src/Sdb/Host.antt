-- ===== src/Sdb/Host.antt =====
-- What the debugger (310551113_hw4/sdb.cpp) takes from outside of its code: the kernel's calls
-- on the traced process, files, the disassembler, and the value of an undefined shift.
use advanced_programming_in.Base.{ℕ, ◌+◌, ◌*◌, ◌||◌, ◌==◌, ◌-◌, ◌<◌, ◌≡◌, Bool, true, Option}
use advanced_programming_in.Base.{some, List, ltb, leb, if◌then◌else◌, ◌&&◌}
use advanced_programming_in.Base.Text.{Text}
use advanced_programming_in.Base.Word.{word, byte_of}

-- What `waitpid` reports: an exit, a stop, or something else.
pub data WaitStatus : Type 0 where
  exited stopped other : WaitStatus

-- The registers that `getregs` prints.
pub record UserRegs : Type 0 where
  pub rax : ℕ
  pub rbx : ℕ
  pub rcx : ℕ
  pub rdx : ℕ
  pub r8 : ℕ
  pub r9 : ℕ
  pub r10 : ℕ
  pub r11 : ℕ
  pub r12 : ℕ
  pub r13 : ℕ
  pub r14 : ℕ
  pub r15 : ℕ
  pub rdi : ℕ
  pub rsi : ℕ
  pub rbp : ℕ
  pub rsp : ℕ
  pub rip : ℕ
  pub eflags : ℕ

-- A decoded instruction of the disassembler.
pub record Insn : Type 0 where
  pub address : ℕ
  pub bytes : List ℕ
  pub mnemonic : Text
  pub op_str : Text

-- `K` is the state of the kernel and of the traced process. `none` is a failed call.
pub record Host (K : Type 0) : Type 0 where
  -- `0xffffffffffffffff << 64`
  pub wide : ℕ
  pub peek_text : K → ℕ → ℕ → ℕ
  pub poke_text : K → ℕ → ℕ → ℕ → Option K
  pub peek_user : K → ℕ → ℕ → ℕ
  pub poke_user : K → ℕ → ℕ → ℕ → Option K
  pub get_regs : K → ℕ → Option UserRegs
  -- `PTRACE_CONT`, whose result is not looked at.
  pub resume : K → ℕ → K
  pub single_step : K → ℕ → Option K
  pub wait_child : K → ℕ → Option (WaitStatus × K)
  -- `fork`, with `PTRACE_TRACEME` and `execvp` of the program in the child.
  pub fork_traced : K → Text → Option (ℕ × K)
  pub set_exitkill : K → ℕ → K
  pub read_file : K → Text → Option (List ℕ)
  -- The lines of `/proc/<pid>/maps`.
  pub maps : K → ℕ → List Text
  -- `cs_open` and `cs_disasm` of some bytes at an address.
  pub disassemble : K → List ℕ → ℕ → Option (List Insn)

-- The registers of `user_regs_struct`, by their number, that hold any value: those of <sys/reg.h> up
-- to `RIP`, and `RSP`. Linux refuses some values for a segment register, `fs_base` and `gs_base`, and
-- masks those for `eflags`.
abbrev pub is_general : ℕ → Bool
is_general n = leb n 16 || n == 19

-- The documented effect of the calls on the memory of the process `pid`: a word is read from and
-- written to the eight bytes at its address, lowest byte first; a register is not memory. A write
-- to mapped memory succeeds, and so does one to a general register, which reads back as written.
pub record IsTracee {K : Type 0} (host : Host K) (pid : ℕ) (byte : K → ℕ → ℕ) (mapped : ℕ → Bool)
    : Type 0 where
  pub byte-lt : (k : K) (x : ℕ) → byte k x < 256
  pub peek_text-word : (k : K) (a : ℕ) → host.peek_text k pid a ≡ word (λ i. byte k (a + i))
  pub poke_text-some :
      (k : K) (a w : ℕ) → mapped a ≡ true → (k' : K) × (host.poke_text k pid a w ≡ some k')
  pub poke_text-byte :
      (k : K) (a w : ℕ) (k' : K)
      → host.poke_text k pid a w ≡ some k'
      → (x : ℕ) → byte k' x ≡ (if leb a x && ltb x (a + 8) then byte_of (x - a) w else byte k x)
  pub poke_user-some :
      (k : K) (n v : ℕ)
      → is_general n ≡ true
      → (k' : K) × (host.poke_user k pid (n * 8) v ≡ some k')
  pub poke_user-byte :
      (k : K) (reg v : ℕ) (k' : K)
      → host.poke_user k pid reg v ≡ some k'
      → (x : ℕ) → byte k' x ≡ byte k x
  pub peek_user-poke_user :
      (k : K) (n v : ℕ) (k' : K)
      → is_general n ≡ true
      → host.poke_user k pid (n * 8) v ≡ some k'
      → host.peek_user k' pid (n * 8) ≡ v
  pub peek_user-poke_text :
      (k : K) (a w : ℕ) (k' : K)
      → host.poke_text k pid a w ≡ some k'
      → (reg : ℕ) → host.peek_user k' pid reg ≡ host.peek_user k pid reg
