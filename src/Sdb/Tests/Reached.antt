-- ===== src/Sdb/Tests/Reached.antt =====
-- The program of Toy is run, stepped and run again.
use advanced_programming_in.Base.{List, [], ◌∷◌, ◌++◌, ℕ, ◌≡◌, refl, arith}
use advanced_programming_in.Sdb.World.{hexify, World, done, checkstatus, debug}
use advanced_programming_in.Sdb.Config.{reg_offset, loaded, initial, Code}
use advanced_programming_in.Sdb.Shell.{read_options, arg_parser, middleware, command_of}
use advanced_programming_in.Base.Text.{Text, text, text_eq}
use advanced_programming_in.Sdb.Memory.Live.{IsSafe, Forks, Live, typed, here, next}
use advanced_programming_in.Sdb.Memory.Live.Begun.{main-Live, entered}
use advanced_programming_in.Base.Word.{word_of}
use advanced_programming_in.Sdb.Control.{load}
use advanced_programming_in.Sdb.Control.Elf.{elfinfo, scan_sections, field, byte_at}
use advanced_programming_in.Sdb.Tests.Toy.{Machine, machine, byte, toy, everywhere, toy-IsTracee}
use advanced_programming_in.Sdb.Tests.Toy.{orig, orig-IsByte, registers}
use advanced_programming_in.Sdb.Tests.Executions.{toy-IsSteady}

abbrev memory : ℕ → Machine → ℕ → ℕ
memory pid = byte

toy-Forks : Forks toy (text "prog") memory everywhere orig 16
toy-Forks k = (
  7,
  record {
    process = record { mem = orig; regs = registers };
    at_stop = record { mem = orig; regs = registers };
    forks = refl;
    stops = refl;
    own_memory = λ x. omega arith;
    set_exitkill-byte = λ k x. refl;
  },
  record { tracee = toy-IsTracee 7; steady = toy-IsSteady },
)

-- When `arg_parser` has returned.
abbrev loaded_world : World Machine
loaded_world = record {
  conf = record initial { program = text "prog"; status = loaded };
  kernel = machine;
  offsets = reg_offset;
  out =
      (text "** " ++ (text "program '" ++ text "prog" ++ text "' loaded. entry point " ++ hexify 0))
      ∷ [];
}

returns : arg_parser toy [] (text "prog" ∷ []) (entered machine) ≡ done tt loaded_world
unfolding arg_parser read_options load elfinfo scan_sections field byte_at word_of checkstatus debug
returns = refl

abbrev Goes : World Machine → List Text → Type 0
Goes w line =
    (code : Code) × (w' : World Machine) × (middleware toy line w ≡ done code w')
    × Live toy (text "prog") memory everywhere orig 16 w'

run-IsSafe : IsSafe everywhere (text "r" ∷ []) loaded_world
unfolding command_of text text_eq
run-IsSafe = tt

si-IsSafe : (w : World Machine) → IsSafe everywhere (text "si" ∷ []) w
unfolding command_of text text_eq
si-IsSafe w = tt

first : Goes loaded_world (text "r" ∷ [])
first =
    (main-Live toy (text "prog") memory everywhere orig orig-IsByte toy-Forks [] [] machine
        loaded_world loaded_world returns refl here).1
      (text "r" ∷ []) run-IsSafe

-- After `run`.
abbrev run_world : World Machine
run_world = first.1

second : Goes run_world (text "si" ∷ [])
second =
    (main-Live toy (text "prog") memory everywhere orig orig-IsByte toy-Forks [] [] machine
        loaded_world run_world returns refl
        (next here (typed (text "r" ∷ []) first.0 run-IsSafe first.2))).1
      (text "si" ∷ []) (si-IsSafe run_world)

-- After `run` and `si`.
abbrev stepped_world : World Machine
stepped_world = second.1
