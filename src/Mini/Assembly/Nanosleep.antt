-- ===== src/Mini/Assembly/Nanosleep.antt =====
-- What `sleep` of 310551113_hw3/libmini64.asm has in memory around its system call.
use advanced_programming_in.Base.{ℕ, ◌+◌, ◌-◌, ◌^◌, ◌==◌, ◌<◌, ◌≤◌, ◌≡◌, ap, ◌∙◌, arith, List, []}
use advanced_programming_in.Base.{◌∷◌, ◌++◌, Bool, true, false, if◌then◌else◌}
use advanced_programming_in.Mini.Sleep.{Timespec}
use advanced_programming_in.Mini.Machine.{Cpu, Os, word_at, store_word}
use advanced_programming_in.Mini.Assembly.Stack.{stores, word_at-stores, word_at-stored}

-- A `struct timespec` in memory.
abbrev pub timespec_at : (ℕ → ℕ) → ℕ → Timespec
timespec_at m a = record { tv_sec = word_at m a; tv_nsec = word_at m (a + 8) }

abbrev pub store_timespec : (ℕ → ℕ) → ℕ → Timespec → ℕ → ℕ
store_timespec m a t = store_word (store_word m a t.tv_sec) (a + 8) t.tv_nsec

-- The system call `nanosleep` as it is documented: it reads the request at its first address, and
-- writes what remains at the second when a signal ends it (EINTR, 4).
pub record Sleeps {K : Type 0} (os : Os K) (nanosleep : K → Timespec → ℕ × Timespec × K)
    : Type 0 where
  pub result-lt : (k : K) (req : Timespec) → (nanosleep k req).0 < 2 ^ 64
  pub rest-lt : (k : K) (req : Timespec) → (nanosleep k req).1.tv_sec < 2 ^ 64
  pub result :
      (c : Cpu K)
      → c.rax ≡ 35
      → (os.answer c).rax ≡ (nanosleep c.kernel (timespec_at c.memory c.rdi)).0
  pub after :
      (c : Cpu K)
      → c.rax ≡ 35
      → (os.answer c).kernel ≡ (nanosleep c.kernel (timespec_at c.memory c.rdi)).2
  pub writes :
      (c : Cpu K)
      → c.rax ≡ 35
      → (os.answer c).memory ≡ (
          if (nanosleep c.kernel (timespec_at c.memory c.rdi)).0 == 2 ^ 64 - 4
          then store_timespec c.memory c.rsi (nanosleep c.kernel (timespec_at c.memory c.rdi)).1
          else c.memory)

module _ {K : Type 0} (nanosleep : K → Timespec → ℕ × Timespec × K) (next : ℕ) (c : Cpu K) where
  abbrev pub request : List (ℕ × ℕ)
  request = (c.rsp - 32, c.rdi) ∷ (c.rsp - 24, 0) ∷ (c.rsp - 40, next) ∷ (c.rsp - 48, c.r10) ∷ []

  -- What the system call gives.
  abbrev pub given : ℕ × Timespec × K
  given = nanosleep c.kernel (record { tv_sec = c.rdi; tv_nsec = 0 })

  -- Memory behind the system call.
  abbrev pub answered : Bool → ℕ → ℕ
  answered signal =
      if signal
      then store_timespec (stores c.memory request) (c.rsp - 16) given.1
      else stores c.memory request

  module _ (low : 48 ≤ c.rsp) (high : c.rsp + 8 < 2 ^ 64) where
    pub request_read :
        c.rdi < 2 ^ 32
        → timespec_at (stores c.memory request) (c.rsp - 32)
          ≡ record { tv_sec = c.rdi; tv_nsec = 0 }
    request_read seconds =
        let sec : word_at (stores c.memory request) (c.rsp - 32) ≡ c.rdi =
          word_at-stored c.memory (c.rsp - 32) c.rdi
            ((c.rsp - 24, 0) ∷ (c.rsp - 40, next) ∷ (c.rsp - 48, c.r10) ∷ []) (omega arith)
            (ground arith) in
        let nsec : word_at (stores c.memory request) (c.rsp - 24) ≡ 0 =
          word_at-stored (store_word c.memory (c.rsp - 32) c.rdi) (c.rsp - 24) 0
            ((c.rsp - 40, next) ∷ (c.rsp - 48, c.r10) ∷ []) (omega arith) (ground arith) in
        let next_word : c.rsp - 32 + 8 ≡ c.rsp - 24 = omega arith in
        let nsec_after = ap (word_at (stores c.memory request)) next_word ∙ nsec in
        λ i. record { tv_sec = sec i; tv_nsec = nsec_after i }

    pub back_kept : (signal : Bool) → word_at (answered signal) c.rsp ≡ word_at c.memory c.rsp
    back_kept true =
        word_at-stores c.memory
          (request ++ ((c.rsp - 16, given.1.tv_sec) ∷ (c.rsp - 16 + 8, given.1.tv_nsec) ∷ [])) c.rsp
          (ground arith)
    back_kept false = word_at-stores c.memory request c.rsp (ground arith)

    pub rest_read : given.1.tv_sec < 2 ^ 64 → word_at (answered true) (c.rsp - 16) ≡ given.1.tv_sec
    rest_read small =
        word_at-stored (stores c.memory request) (c.rsp - 16) given.1.tv_sec
          ((c.rsp - 16 + 8, given.1.tv_nsec) ∷ []) small (ground arith)
