-- ===== src/Mini/Tests.antt =====
-- The theorems on the library (310551113_hw3/libmini.c) with a small kernel.
use advanced_programming_in.Base.{ℕ, ◌-◌, ◌^◌, ◌<◌, ◌≤◌, ◌≡◌, refl, arith, Bool, ltb, none, some}
use advanced_programming_in.Base.{[], ◌∷◌, ◌++◌, get_elem?, if◌then◌else◌, ◌==◌}
use advanced_programming_in.Base.Text.{Text, text}
use advanced_programming_in.Mini.Signals.{sigaddset, sigdelset, sigismember, sigaddset-sigdelset}
use advanced_programming_in.Mini.Kernel.{Kernel, SigAction, State, sys_chdir}
use advanced_programming_in.Mini.Calls.{function_of, failure, cast}
use advanced_programming_in.Mini.Calls.Errors.{returned, result, after, function_of-errno}
use advanced_programming_in.Mini.Perror.{perror, errmsg}
use advanced_programming_in.Mini.Perror.Messages.{Accepts, front, printed, perror_known}
use advanced_programming_in.Mini.Perror.Messages.{perror_beyond}
use advanced_programming_in.Mini.Handlers.{signal, KeepsActions, signal_lem}

signals_example :
    (sigismember (sigaddset 4 14) 2 ≡ (if 2 == 14 then 1 else sigismember 4 2))
    × (sigismember (sigdelset 4 14) 2 ≡ (if 2 == 14 then 0 else sigismember 4 2))
signals_example = sigaddset-sigdelset 4 14 2 (omega arith) (omega arith) (omega arith) (omega arith)

-- The state of the kernel is the action of each signal. Signals end at 64, and all calls succeed.
abbrev toy : Kernel (ℕ → SigAction)
toy = record {
  call = λ k c. (0, k);
  rt_sigaction = λ k n act.
      if ltb n 65 then (0, k n, λ m. if m == n then act else k m) else (2 ^ 64 - 22, act, k);
  rt_sigpending = λ k set size. (0, k);
  exit = λ k status. k;
  myrt = 4096;
}

abbrev ignored : ℕ → SigAction
ignored n = record { sa_handler = 1; sa_flags = 0; sa_restorer = 0; sa_mask = 0 }

abbrev fresh : State (ℕ → SigAction)
fresh = record { kernel = ignored; errno = 40 }

calls_example :
    ((e : ℕ)
      → 0 < e
      → e ≤ 4095
      → result toy (sys_chdir 7) fresh ≡ 2 ^ 64 - e
      → function_of toy (sys_chdir 7) fresh
        ≡ (failure (returned (sys_chdir 7)), after toy (sys_chdir 7) fresh e))
    × (result toy (sys_chdir 7) fresh < 2 ^ 63
        → function_of toy (sys_chdir 7) fresh ≡ (
          cast (returned (sys_chdir 7)) (result toy (sys_chdir 7) fresh),
          after toy (sys_chdir 7) fresh 0,
        ))
calls_example = function_of-errno toy (sys_chdir 7) fresh

-- Three characters from 5 on.
abbrev word : ℕ → ℕ
word x = if x == 8 then 0 else 65

toy-Accepts : Accepts toy
toy-Accepts k s = omega arith

abbrev missing : State (ℕ → SigAction)
missing = record { kernel = ignored; errno = 2 }

perror_example :
    (message : Text) × (get_elem? errmsg 2 ≡ some message)
    × (perror toy (some (text "cat")) missing
        ≡ some (printed toy (front toy (some (text "cat")) ++ (message ∷ text "\n" ∷ [])) missing))
perror_example = perror_known toy (some (text "cat")) missing toy-Accepts (omega arith)

beyond_example : perror toy (some (text "cat")) fresh ≡ none
beyond_example = perror_beyond toy (text "cat") fresh toy-Accepts (omega arith)

abbrev valid : ℕ → Bool
valid n = ltb n 65

toy-KeepsActions : KeepsActions toy (λ k. k) valid
toy-KeepsActions = record {
  done = λ k n act v. ground arith;
  old = λ k n act v. ground arith;
  new = λ k n act v m. ground arith;
}

signal_example :
    ((signal toy 14 9 fresh).0 ≡ 1)
    × ((signal toy 14 9 fresh).1.errno ≡ 0)
    × ((m : ℕ)
        → (signal toy 14 9 fresh).1.kernel m ≡ (
            if m == 14
            then record {
              sa_handler = 9;
              sa_flags = if 14 == 14 then 0x24000000 else 0x14000000;
              sa_restorer = 4096;
              sa_mask = 0;
            }
            else ignored m))
signal_example = signal_lem toy (λ k. k) valid toy-KeepsActions 14 9 fresh refl
