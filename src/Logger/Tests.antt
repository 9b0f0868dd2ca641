-- ===== src/Logger/Tests.antt =====
-- The theorems on the logger (310551113_hw2) with a small C library and a small shell.
use advanced_programming_in.Logger.Calls.Request.{call_chmod, Request, run, call_creat}
use advanced_programming_in.Logger.Calls.Request.{call_write, call_close}
use advanced_programming_in.Logger.Functions.{line, Logger}
use advanced_programming_in.Logger.Resolve.Shown.{Looks}
use advanced_programming_in.Logger.Calls.Readable.{AreReadable}
use advanced_programming_in.Logger.Calls.Run.{run_transparent, run_shared}
use advanced_programming_in.Logger.Calls.Transparent.{IsResult, Acts, direct}
use advanced_programming_in.Base.{ℕ, ltb, ◌+◌, ◌≡◌, ◌≢◌, refl, arith, ◌==◌, inl, Option, none}
use advanced_programming_in.Base.{some, List, [], ◌∷◌, if◌then◌else◌}
use advanced_programming_in.Base.Text.{Text, text}
use advanced_programming_in.Logger.Resolve.{Name, Libc, chmod, chown, close, creat, creat64}
use advanced_programming_in.Logger.Resolve.{fclose, fopen, fread, fwrite, open_path, open64, read}
use advanced_programming_in.Logger.Resolve.{rename, tmpfile, tmpfile64, write}
use advanced_programming_in.Logger.Launcher.{Shell, output}
use advanced_programming_in.Logger.Launcher.Files.{KeepsTable, output_errors, output_file, fd}
use advanced_programming_in.Logger.Launcher.Files.{opened}

-- A process counts its calls and has the lines of file 5.
pub record Process : Type 0 where
  pub calls : ℕ
  pub log : List Text

-- `creat` gives a descriptor, all others 0.
abbrev value : Name → ℕ
value creat = 3
value _ = 0

-- A string stands everywhere but at 0.
abbrev texts : ℕ → ℕ → Option Text
texts v a = if a == 0 then none else some (text "a.txt")

abbrev files : ℕ → ℕ → Option ℕ
files v a = some 3

abbrev toy : Libc Process
toy = record {
  call = λ l f args. (value f, record l { calls = l.calls + 1 });
  string_at = λ l a. texts l.calls a;
  readlink = λ l path. (none, l);
  realpath = λ l path. (none, l);
  file_no = λ l stream. some 3;
  dprintf = λ l line. record l { log = line ∷ l.log };
  pointer = λ p. [];
  mismatched = λ p. [];
}

abbrev start : Process
start = record { calls = 0; log = [] }

abbrev view : Process → ℕ
view l = l.calls

abbrev spec : ℕ → Name → List ℕ → ℕ × ℕ
spec v f args = (value f, v + 1)

toy-fits : (v : ℕ) (f : Name) (args : List ℕ) → IsResult f (value f)
toy-fits v chmod args = omega arith
toy-fits v chown args = omega arith
toy-fits v close args = omega arith
toy-fits v creat args = omega arith
toy-fits v creat64 args = omega arith
toy-fits v fclose args = omega arith
toy-fits v fopen args = tt
toy-fits v fread args = tt
toy-fits v fwrite args = tt
toy-fits v open_path args = omega arith
toy-fits v open64 args = omega arith
toy-fits v read args = inl (omega arith)
toy-fits v rename args = omega arith
toy-fits v tmpfile args = tt
toy-fits v tmpfile64 args = tt
toy-fits v write args = inl (omega arith)

toy-Looks : Looks toy view texts files
toy-Looks = record {
  string_at-strings = λ l a. refl;
  file_no-streams = λ l a. refl;
  readlink-view = λ l path. refl;
  dprintf-view = λ l line. refl;
}

toy-Acts : Acts toy view spec
toy-Acts = record { value = λ l f args. refl; next = λ l f args. refl; fits = toy-fits }

abbrev calls : List Request
calls = call_creat 100 0x1a4 ∷ call_write 3 200 5 ∷ call_close 3 ∷ []

calls-AreReadable : AreReadable texts files spec calls 0
calls-AreReadable = ((text "a.txt", refl), ((text "a.txt", refl), (tt, tt)))

transparent_example :
    (s : Logger Process) × (run toy calls (record { statics = λ t. none; process = start })
      ≡ some ((direct spec calls 0).0, s))
    × (view s.process ≡ (direct spec calls 0).1)
transparent_example =
    run_transparent toy view texts files toy-Looks spec toy-Acts calls start
      (
        ((λ e. absurd (omega arith)), ((λ e. absurd (omega arith)), tt)),
        (((λ e. absurd (omega arith)), tt), (tt, tt)),
      )
      calls-AreReadable

-- `creat` after `chmod` gives what `chmod` gives, and `creat` is logged.
shared_example :
    (s : Logger Process) × (run toy
        (call_chmod 100 0x1a4 ∷ call_creat 300 0x1a4 ∷ [])
        (record { statics = λ t. none; process = start })
      ≡ some (0 ∷ 0 ∷ [], s))
    × (view s.process ≡ 2)
    × (shown : List Text) × (ret : Text) × (l₁ : Process) × (s.process
        ≡ toy.dprintf l₁ (line creat shown ret))
shared_example =
    run_shared toy view texts files toy-Looks spec toy-Acts (call_chmod 100 0x1a4)
      (call_creat 300 0x1a4) start refl (text "a.txt", refl) (text "a.txt", refl)

-- The table of open files; the next free number is 3.
abbrev Table : Type 0
Table = ℕ → Option Text

abbrev shell : Shell Table
shell = record {
  open_file = λ k name. (3, λ x. if x == 3 then some name else k x);
  dup2 = λ k a b. elim (k a) [ none ↦ k | some file ↦ λ x. if x == b then some file else k x ];
  close = λ k a. λ x. if x == a then none else k x;
  system = λ k line. k;
}

shell-KeepsTable : KeepsTable shell (λ k. k)
shell-KeepsTable = record {
  dup2_lem = λ k a b file e x. ground arith;
  dup2_none = λ k a b e x. ground arith;
  close_lem = λ k a x. refl;
}

abbrev terminal : Table
terminal x = if ltb x 3 then some (text "tty") else none

abbrev log_file : Table
log_file = opened shell (text "o") terminal

files_example :
    ((file : Text)
      → log_file 3 ≡ some file
      → fd shell (text "o") terminal ≢ 5
      → (x : ℕ)
      → output shell (b'o' ∷ []) terminal x
        ≡ (if x == 3 then none else if x == 5 then some file else log_file x))
    × (fd shell (text "o") terminal ≡ 5 → output shell (b'o' ∷ []) terminal 5 ≡ none)
    × (log_file 3 ≡ none
        → fd shell (text "o") terminal ≢ 5
        → output shell (b'o' ∷ []) terminal 5 ≡ log_file 5)
unfolding text
files_example = output_file shell (λ k. k) shell-KeepsTable b'o' [] terminal

errors_example :
    ((file : Text) → terminal 2 ≡ some file → output shell [] terminal 5 ≡ some file)
    × (terminal 2 ≡ none → output shell [] terminal 5 ≡ terminal 5)
errors_example = output_errors shell (λ k. k) shell-KeepsTable terminal
