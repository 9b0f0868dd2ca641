-- ===== src/Mini/Assembly/Open.antt =====
-- `open` of 310551113_hw3/libmini64.asm against the wrappers in C.
use advanced_programming_in.Base.{ℕ, ◌+◌, ◌-◌, ◌%◌, ◌^◌, ◌<◌, ◌≤◌, ◌≡◌, ◌⊎◌, inl, inr, refl, ap}
use advanced_programming_in.Base.{◌∙◌, arith, [], ◌∷◌, Bool-cases, if◌then◌else◌}
use advanced_programming_in.Mini.Kernel.{is_negative, negate, State}
use advanced_programming_in.Mini.Calls.{val, wrapper_ret}
use advanced_programming_in.Mini.Machine.{Cpu, rax, rcx, rdi, r10, Os, Answer, word_at}
use advanced_programming_in.Mini.Machine.{store_word, minus, plus, ◌>>◌, mov, put, neg, store}
use advanced_programming_in.Mini.Machine.{store_imm, if_negative, push, push_value, pop, ret}
use advanced_programming_in.Mini.Machine.{syscall}
use advanced_programming_in.Mini.Assembly.{open_file, gensys}
use advanced_programming_in.Mini.Assembly.Stack.{word_at-stores, word_at-same}

-- What `open` leaves in `errno`.
abbrev new_errno : ℕ → ℕ
new_errno r = if is_negative r then negate r else 0

new_errno-lt : (r : ℕ) → new_errno r < 2 ^ 64
unfolding is_negative negate
new_errno-lt r = ground arith

module _ {K : Type 0} (os : Os K) (next : ℕ) where
  -- What `open` does before the system call, and behind it.
  abbrev opening : Cpu K → Cpu K
  opening = do push_value next; push r10; mov r10 rcx; put rax 2

  abbrev failed : Cpu K → Cpu K
  unfolding negate
  failed = do neg rax; put rdi os.errno_at; store rdi 0 rax; put rax (2 ^ 64 - 1)

  abbrev succeeded : Cpu K → Cpu K
  succeeded = do put rdi os.errno_at; store_imm rdi 0 0

  abbrev opened : Cpu K → Cpu K
  unfolding is_negative
  opened = do pop r10; ret; if_negative failed succeeded; ret

  open_parts : (c : Cpu K) → open_file os next c ≡ opened (syscall os (opening c))
  unfolding open_file gensys
  open_parts c = refl

  abbrev branch : Cpu K → Cpu K
  unfolding is_negative
  branch = if_negative failed succeeded

  branch_lem :
      (d : Cpu K)
      → os.errno_at < 2 ^ 64
      → ((branch d).rax ≡ (if is_negative d.rax then 2 ^ 64 - 1 else d.rax))
        × ((branch d).memory ≡ store_word d.memory os.errno_at (new_errno d.rax))
        × ((branch d).rsp ≡ d.rsp)
        × ((branch d).kernel ≡ d.kernel)
  unfolding branch failed negate is_negative
  branch_lem d small =
      let place : plus os.errno_at 0 ≡ os.errno_at = omega arith in
      elim (Bool-cases (is_negative d.rax)) [
        | inl negative ↦ rw (negative, place) (refl, refl, refl, refl)
        | inr fine ↦ rw (fine, place) (refl, refl, refl, refl)
      ]

  opened_lem :
      (d : Cpu K) (t : ℕ)
      → d.rsp ≡ t
      → t + 24 < 2 ^ 64
      → os.errno_at < 2 ^ 64
      → ((opened d).rax ≡ (if is_negative d.rax then 2 ^ 64 - 1 else d.rax))
        × ((opened d).memory ≡ store_word d.memory os.errno_at (new_errno d.rax))
        × ((opened d).rip ≡ word_at (store_word d.memory os.errno_at (new_errno d.rax)) (t + 16))
        × ((opened d).rsp ≡ t + 24)
        × ((opened d).kernel ≡ d.kernel)
  unfolding opened branch
  opened_lem d t e small errno_small =
      let p2 : plus (plus d.rsp 8) 8 ≡ t + 16 = omega arith in
      let p3 : plus (t + 16) 8 ≡ t + 24 = omega arith in
      let f = ret (pop r10 d) in
      let (value, memory, sp, kernel) = branch_lem f errno_small in
      let top : (branch f).rsp ≡ t + 16 = sp ∙ p2 in
      (
        value,
        memory,
        ap (λ m. word_at m (branch f).rsp) memory
            ∙ ap (word_at (store_word d.memory os.errno_at (new_errno d.rax))) top,
        ap (λ x. plus x 8) top ∙ p3,
        kernel,
      )

-- The system call `open` as it is documented: it gives a `long` and writes nothing in the process.
pub record OpensFile {K : Type 0} (os : Os K) : Type 0 where
  pub wide : (c : Cpu K) → c.rax ≡ 2 → (os.answer c).rax < 2 ^ 64
  pub keeps : (c : Cpu K) → c.rax ≡ 2 → (os.answer c).memory ≡ c.memory

-- The process as the wrappers in C see it.
abbrev pub process : {K : Type 0} → Os K → Cpu K → State K
process os c = record { kernel = c.kernel; errno = word_at c.memory os.errno_at }

module _ {K : Type 0} (os : Os K) (next : ℕ) (c : Cpu K) (linux : OpensFile os) where
  -- The result of the system call, made with the arguments of `open`.
  abbrev pub opened_as : Answer K
  opened_as = os.answer (opening os next c)

  wrapped :
      (r : ℕ) (s : State K)
      → r < 2 ^ 64
      → wrapper_ret (val 32) r s
        ≡ ((if is_negative r then 2 ^ 64 - 1 else r) % 2 ^ 32, record s { errno = new_errno r })
  unfolding wrapper_ret is_negative negate
  wrapped r s small = elim (Bool-cases (is_negative r)) [
    | inl negative ↦ rw negative refl
    | inr fine ↦ rw fine refl
  ]

  -- `open` is the wrapper of its system call that the C functions would be: it returns to its caller
  -- with the `int` that the wrapper returns, and leaves in `errno` what the wrapper leaves.
  pub open_lem :
      16 ≤ c.rsp
      → c.rsp + 8 < 2 ^ 64
      → os.errno_at + 8 < 2 ^ 64
      → (os.errno_at + 8 ≤ c.rsp - 16) ⊎ (c.rsp + 8 ≤ os.errno_at)
      → (wrapper_ret (val 32) opened_as.rax (record (process os c) { kernel = opened_as.kernel })
          ≡ ((open_file os next c).rax % 2 ^ 32, process os (open_file os next c)))
        × ((open_file os next c).rip ≡ word_at c.memory c.rsp)
        × ((open_file os next c).rsp ≡ c.rsp + 8)
  unfolding open_file gensys
  open_lem low high errno_high apart =
      let d = syscall os (opening os next c) in
      let s16 : minus (minus c.rsp 8) 8 ≡ c.rsp - 16 = omega arith in
      let (value, memory, back, top, kernel) =
        opened_lem os next d (c.rsp - 16) s16 (omega arith) (omega arith) in
      let back_kept : word_at (store_word d.memory os.errno_at (new_errno d.rax)) (c.rsp - 16 + 16)
          ≡ word_at c.memory c.rsp =
        ap (word_at (store_word d.memory os.errno_at (new_errno d.rax))) (omega arith)
        ∙ ap (λ m. word_at (store_word m os.errno_at (new_errno d.rax)) c.rsp)
            (linux.keeps (opening os next c) refl)
        ∙ word_at-stores c.memory
            ((minus c.rsp 8, next)
              ∷ (minus (minus c.rsp 8) 8, c.r10)
              ∷ (os.errno_at, new_errno d.rax)
              ∷ [])
            c.rsp (ground arith) in
      let errno : word_at (open_file os next c).memory os.errno_at ≡ new_errno opened_as.rax =
        ap (λ m. word_at m os.errno_at) memory
        ∙ word_at-same d.memory os.errno_at (new_errno opened_as.rax)
            (new_errno-lt opened_as.rax) in
      (
        wrapped opened_as.rax (record (process os c) { kernel = opened_as.kernel })
              (linux.wide (opening os next c) refl)
            ∙ rw (value, errno, kernel) refl,
        back ∙ back_kept,
        top ∙ omega arith,
      )
