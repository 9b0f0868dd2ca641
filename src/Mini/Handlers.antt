-- ===== src/Mini/Handlers.antt =====
-- `sigaction` and `signal` of 310551113_hw3/libmini.c.
use advanced_programming_in.Base.{ℕ, Bool-cases, inl, inr, Bool, true, ◌≤◌, ◌-◌, ◌^◌, ◌<◌, ◌≡◌}
use advanced_programming_in.Base.{refl, arith, bit_or, if◌then◌else◌, ◌==◌}
use advanced_programming_in.Base.Word.{as_long}
use advanced_programming_in.Mini.Signals.{sigemptyset}
use advanced_programming_in.Mini.Kernel.{Kernel, SigAction, State, is_negative, negate}
use advanced_programming_in.Mini.Calls.{val, wrapper_ret}

abbrev pub sa_restorer_flag : ℕ
sa_restorer_flag = 0x04000000

abbrev pub sa_interrupt : ℕ
sa_interrupt = 0x20000000

abbrev pub sa_restart : ℕ
sa_restart = 0x10000000

abbrev pub sigalrm : ℕ
sigalrm = 14

-- `SIG_ERR`, that is -1.
abbrev pub sig_err : ℕ
sig_err = 2 ^ 64 - 1

module _ {K : Type 0} (kernel : Kernel K) where
  -- What is done to `act`, where it stands, before the call.
  abbrev pub with_restorer : SigAction → SigAction
  with_restorer act = record act {
    sa_flags = bit_or act.sa_flags sa_restorer_flag;
    sa_restorer = kernel.myrt;
  }

  -- The result, the old action and the state.
  unfoldable pub sigaction : ℕ → SigAction → State K → ℕ × SigAction × State K
  unfolding wrapper_ret as_long
  sigaction signum act s =
      let (ret, oact, k) = kernel.rt_sigaction s.kernel signum (with_restorer act) in
      let (value, s') = wrapper_ret (val 32) ret (record s { kernel = k }) in
      (as_long value, oact, s')

  -- The action that `signal` makes; `sa_restorer` is set by `sigaction` and nothing before.
  abbrev pub act_of : ℕ → ℕ → SigAction
  act_of signo handler = record {
    sa_handler = handler;
    sa_flags = bit_or 0 (if signo == sigalrm then sa_interrupt else sa_restart);
    sa_restorer = 0;
    sa_mask = sigemptyset 0;
  }

  unfoldable pub signal : ℕ → ℕ → State K → ℕ × State K
  unfolding sigaction is_negative
  signal signo handler s =
      let (value, oact, s') = sigaction signo (act_of signo handler) s in
      if is_negative value then (sig_err, s') else (oact.sa_handler, s')

-- `rt_sigaction` as it is documented: for a valid signal it returns 0, gives the action that was in
-- force, and puts the new one in force for this signal only.
pub record KeepsActions {K : Type 0} (kernel : Kernel K) (action : K → ℕ → SigAction)
    (valid : ℕ → Bool) : Type 0 where
  pub done :
      (k : K) (n : ℕ) (act : SigAction) → valid n ≡ true → (kernel.rt_sigaction k n act).0 ≡ 0
  pub old :
      (k : K) (n : ℕ) (act : SigAction)
      → valid n ≡ true
      → (kernel.rt_sigaction k n act).1 ≡ action k n
  pub new :
      (k : K) (n : ℕ) (act : SigAction)
      → valid n ≡ true
      → (m : ℕ) → action (kernel.rt_sigaction k n act).2 m ≡ (if m == n then act else action k m)

flags_of :
    (signo : ℕ)
    → bit_or (bit_or 0 (if signo == sigalrm then sa_interrupt else sa_restart)) sa_restorer_flag
      ≡ (if signo == 14 then 0x24000000 else 0x14000000)
flags_of signo = elim (Bool-cases (signo == 14)) [
  | inl alarm ↦ rw alarm refl
  | inr other ↦ rw other refl
]

module _ {K : Type 0} (kernel : Kernel K) (action : K → ℕ → SigAction) (valid : ℕ → Bool)
    (keeps : KeepsActions kernel action valid) (signo handler : ℕ) (s : State K) where
  -- For a valid signal `signal` returns the handler that was in force and clears `errno`; then the new
  -- handler is in force, with an empty mask and the library's restorer, and system calls are
  -- restarted after it, but for SIGALRM interrupted; no other signal is affected.
  pub signal_lem :
      valid signo ≡ true
      → ((signal kernel signo handler s).0 ≡ (action s.kernel signo).sa_handler)
        × ((signal kernel signo handler s).1.errno ≡ 0)
        × ((m : ℕ)
            → action (signal kernel signo handler s).1.kernel m ≡ (
                if m == signo
                then record {
                  sa_handler = handler;
                  sa_flags = if signo == 14 then 0x24000000 else 0x14000000;
                  sa_restorer = kernel.myrt;
                  sa_mask = 0;
                }
                else action s.kernel m))
  unfolding signal sigaction wrapper_ret is_negative as_long sigemptyset
  signal_lem v =
      let act = with_restorer kernel (act_of kernel signo handler) in
      (
        ground (arith, keeps.done s.kernel signo act v, keeps.old s.kernel signo act v),
        ground (arith, keeps.done s.kernel signo act v),
        λ m. ground (
          arith,
          keeps.done s.kernel signo act v,
          keeps.new s.kernel signo act v m,
          flags_of signo,
        ),
      )

module _ {K : Type 0} (kernel : Kernel K) (signo handler : ℕ) (s : State K) where
  -- If the kernel gives an error number `e` as -e, `signal` returns SIG_ERR and `errno` is `e`.
  pub signal_failed :
      (e : ℕ)
      → 0 < e
      → e ≤ 4095
      → (kernel.rt_sigaction s.kernel signo (with_restorer kernel (act_of kernel signo handler))).0
        ≡ 2 ^ 64 - e
      → ((signal kernel signo handler s).0 ≡ sig_err)
        × ((signal kernel signo handler s).1.errno ≡ e)
  unfolding signal sigaction wrapper_ret is_negative as_long negate
  signal_failed e h g failed = ground arith
