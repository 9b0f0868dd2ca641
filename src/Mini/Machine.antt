-- ===== src/Mini/Machine.antt =====
-- The part of an x86-64 processor that 310551113_hw3/libmini64.asm uses: registers, memory as
-- bytes, and the instructions as functions on them.
use advanced_programming_in.Base.{ℕ, ◌+◌, ◌-◌, ◌%◌, ◌^◌, ltb, leb, ◌&&◌, if◌then◌else◌}
use advanced_programming_in.Base.Word.{word, byte_of}
use advanced_programming_in.Mini.Kernel.{is_negative, negate}

-- The state of a thread, with the kernel around it.
pub record Cpu (K : Type 0) : Type 0 where
  pub rax : ℕ
  pub rbx : ℕ
  pub rcx : ℕ
  pub rdx : ℕ
  pub rsi : ℕ
  pub rdi : ℕ
  pub rbp : ℕ
  pub rsp : ℕ
  pub r10 : ℕ
  pub r12 : ℕ
  pub r13 : ℕ
  pub r14 : ℕ
  pub r15 : ℕ
  -- Where the thread goes on, set by `ret`.
  pub rip : ℕ
  pub memory : ℕ → ℕ
  pub kernel : K

pub data Reg : Type 0 where
  rax rbx rcx rdx rsi rdi rbp rsp r10 r12 r13 r14 r15 : Reg

-- What `syscall` changes.
pub record Answer (K : Type 0) : Type 0 where
  pub rax : ℕ
  pub rcx : ℕ
  pub memory : ℕ → ℕ
  pub kernel : K

-- The kernel, which reads its number and arguments in the registers.
pub record Os (K : Type 0) : Type 0 where
  pub answer : Cpu K → Answer K
  -- The address of `errno`.
  pub errno_at : ℕ

-- Eight bytes, lowest first.
abbrev pub word_at : (ℕ → ℕ) → ℕ → ℕ
word_at m a = word (λ i. m (a + i))

abbrev pub store_word : (ℕ → ℕ) → ℕ → ℕ → ℕ → ℕ
store_word m a v x = if leb a x && ltb x (a + 8) then byte_of (x - a) v else m x

abbrev pub minus : ℕ → ℕ → ℕ
minus a k = (a + (2 ^ 64 - k)) % 2 ^ 64

abbrev pub plus : ℕ → ℕ → ℕ
plus a k = (a + k) % 2 ^ 64

module _ {K : Type 0} where
  abbrev pub get : Reg → Cpu K → ℕ
  get rax c = c.rax
  get rbx c = c.rbx
  get rcx c = c.rcx
  get rdx c = c.rdx
  get rsi c = c.rsi
  get rdi c = c.rdi
  get rbp c = c.rbp
  get rsp c = c.rsp
  get r10 c = c.r10
  get r12 c = c.r12
  get r13 c = c.r13
  get r14 c = c.r14
  get r15 c = c.r15

  -- `mov r, imm`
  abbrev pub put : Reg → ℕ → Cpu K → Cpu K
  put rax v c = record c { rax = v }
  put rbx v c = record c { rbx = v }
  put rcx v c = record c { rcx = v }
  put rdx v c = record c { rdx = v }
  put rsi v c = record c { rsi = v }
  put rdi v c = record c { rdi = v }
  put rbp v c = record c { rbp = v }
  put rsp v c = record c { rsp = v }
  put r10 v c = record c { r10 = v }
  put r12 v c = record c { r12 = v }
  put r13 v c = record c { r13 = v }
  put r14 v c = record c { r14 = v }
  put r15 v c = record c { r15 = v }

  infixl 5 ◌>>◌
  -- One instruction and then another.
  abbrev pub ◌>>◌ : (Cpu K → Cpu K) → (Cpu K → Cpu K) → Cpu K → Cpu K
  ◌>>◌ first rest c = rest (first c)

  -- `mov r, s`
  abbrev pub mov : Reg → Reg → Cpu K → Cpu K
  mov r s c = put r (get s c) c

  -- `lea r, [s + d]`
  abbrev pub lea : Reg → Reg → ℕ → Cpu K → Cpu K
  lea r s d c = put r (plus (get s c) d) c

  -- `mov r, [s + d]`
  abbrev pub load : Reg → Reg → ℕ → Cpu K → Cpu K
  load r s d c = put r (word_at c.memory (plus (get s c) d)) c

  -- `mov [r + d], s`
  abbrev pub store : Reg → ℕ → Reg → Cpu K → Cpu K
  store r d s c = record c { memory = store_word c.memory (plus (get r c) d) (get s c) }

  -- `mov QWORD [r + d], imm`
  abbrev pub store_imm : Reg → ℕ → ℕ → Cpu K → Cpu K
  store_imm r d v c = record c { memory = store_word c.memory (plus (get r c) d) v }

  abbrev pub add : Reg → ℕ → Cpu K → Cpu K
  add r k c = put r (plus (get r c) k) c

  abbrev pub sub : Reg → ℕ → Cpu K → Cpu K
  sub r k c = put r (minus (get r c) k) c

  abbrev pub neg : Reg → Cpu K → Cpu K
  neg r c = put r (negate (get r c)) c

  abbrev pub push_value : ℕ → Cpu K → Cpu K
  push_value v c = record c { rsp = minus c.rsp 8; memory = store_word c.memory (minus c.rsp 8) v }

  abbrev pub push : Reg → Cpu K → Cpu K
  push r c = push_value (get r c) c

  abbrev pub pop : Reg → Cpu K → Cpu K
  pop r c = put r (word_at c.memory c.rsp) (record c { rsp = plus c.rsp 8 })

  abbrev pub ret : Cpu K → Cpu K
  ret c = record c { rip = word_at c.memory c.rsp; rsp = plus c.rsp 8 }

  -- `call`, with the address of the instruction behind it. The function is left by its `ret`.
  abbrev pub call : (Cpu K → Cpu K) → ℕ → Cpu K → Cpu K
  call function next c = function (push_value next c)

  abbrev pub syscall : Os K → Cpu K → Cpu K
  syscall os c =
      let a = os.answer c in
      record c { rax = a.rax; rcx = a.rcx; memory = a.memory; kernel = a.kernel }

  -- `cmp rax, 0` with a jump that is taken if it is not below.
  abbrev pub if_negative : (Cpu K → Cpu K) → (Cpu K → Cpu K) → Cpu K → Cpu K
  if_negative below above c = if is_negative c.rax then below c else above c
