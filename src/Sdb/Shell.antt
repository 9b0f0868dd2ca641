-- ===== src/Sdb/Shell.antt =====
-- The command line of the debugger (310551113_hw4/sdb.cpp): `sdb_parser`, `middleware`, `core`,
-- `arg_parser` and `main`.
pub mod Guard
pub mod Status
pub mod Transitions
pub mod Machine
pub mod Typed
pub mod Loop
pub mod Showing
use advanced_programming_in.Base.{ℕ, zero, suc, Bool, true, ◌||◌, List, [], ◌∷◌, ◌++◌}
use advanced_programming_in.Base.{if◌then◌else◌, ◌==◌}
use advanced_programming_in.Base.Text.{Text, text, text_eq, tokens}
use advanced_programming_in.Sdb.Config.{Code, success}
use advanced_programming_in.Sdb.Host.{Host}
use advanced_programming_in.Sdb.World.{M, pure, ◌>>=◌, ◌>>◌, set_config, errquit, writemsg}
use advanced_programming_in.Sdb.World.{lackarg, notgiven, undefined}
use advanced_programming_in.Sdb.Control.{setbreak, deletebreak}
use advanced_programming_in.Sdb.Inspect.{quit}
use advanced_programming_in.Sdb.Inspect.Maps
use advanced_programming_in.Sdb.Inspect
use advanced_programming_in.Sdb.Control

unfoldable pub sdb_parser : Text → List Text
sdb_parser command = tokens command

pub data Command : Type 0 where
  break cont delete disasm dump exit get getregs help list load run vmmap set si start : Command
  unknown : Command

-- The tests on `cmd[0]`, in their order.
unfoldable pub command_of : Text → Command
command_of c =
    if text_eq c (text "break") || text_eq c (text "b")
    then Command.break
    else if text_eq c (text "cont") || text_eq c (text "c")
    then Command.cont
    else if text_eq c (text "delete")
    then Command.delete
    else if text_eq c (text "disasm") || text_eq c (text "d")
    then Command.disasm
    else if text_eq c (text "dump") || text_eq c (text "x")
    then Command.dump
    else if text_eq c (text "exit") || text_eq c (text "q")
    then Command.exit
    else if text_eq c (text "get") || text_eq c (text "g")
    then Command.get
    else if text_eq c (text "getregs")
    then Command.getregs
    else if text_eq c (text "help") || text_eq c (text "h")
    then Command.help
    else if text_eq c (text "list") || text_eq c (text "l")
    then Command.list
    else if text_eq c (text "load")
    then Command.load
    else if text_eq c (text "run") || text_eq c (text "r")
    then Command.run
    else if text_eq c (text "vmmap") || text_eq c (text "m")
    then Command.vmmap
    else if text_eq c (text "set") || text_eq c (text "s")
    then Command.set
    else if text_eq c (text "si")
    then Command.si
    else if text_eq c (text "start")
    then Command.start
    else Command.unknown

unfoldable pub help_msg : Text
help_msg =
    text "- break {instruction-address}: add a break point\n"
    ++ text "- cont: continue execution\n"
    ++ text "- delete {break-point-id}: remove a break point\n"
    ++ text "- disasm addr: disassemble instructions in a file or a memory region\n"
    ++ text "- dump addr: dump memory content\n"
    ++ text "- exit: terminate the debugger\n"
    ++ text "- get reg: get a single value from a register\n"
    ++ text "- getregs: show registers\n"
    ++ text "- help: show this message\n"
    ++ text "- list: list break points\n"
    ++ text "- load {path/to/a/program}: load a program\n"
    ++ text "- run: run the program\n"
    ++ text "- vmmap: show memory layout\n"
    ++ text "- set reg val: get a single value to a register\n"
    ++ text "- si: step into instruction\n"
    ++ text "- start: start the program and stop at the first instruction"

unfoldable pub show_help : {K : Type 0} → M K Code
unfolding writemsg
show_help = do writemsg help_msg; pure success

-- `cin`: the lines that are ended, what stands behind them, and whether the end has been met.
pub record Input : Type 0 where
  pub lines : List Text
  pub behind : Text
  pub is_ended : Bool

-- `getline(cin, command)`. What stands behind the last line end is a line as well. When the end has
-- been met, nothing is read, and the command stays as it was.
unfoldable pub get_line : Text → Input → Text × Input
get_line command input = if input.is_ended then (command, input) else elim input.lines [
  | [] ↦ (input.behind, record input { is_ended = true })
  | line ∷ lines ↦ (line, record input { lines = lines })
]

module _ {K : Type 0} (host : Host K) where
  -- A handler of one argument, or the message that it is not given.
  abbrev with_arg : Text → List Text → (Text → M K Code) → M K Code
  with_arg name [] handler = notgiven name
  with_arg name (arg ∷ args) handler = handler arg

  abbrev with_two : List Text → (Text → Text → M K Code) → M K Code
  with_two [] handler = lackarg
  with_two (a ∷ []) handler = lackarg
  with_two (a ∷ b ∷ args) handler = handler a b

  -- `middleware` on `cmd[0]`, already recognised, and the rest.
  unfoldable pub dispatch : Command → Text → List Text → M K Code
  unfolding undefined
  dispatch Command.break c args = with_arg (text "address") args (setbreak host)
  dispatch Command.cont c args = Control.cont host
  dispatch Command.delete c args = with_arg (text "break-point-id") args (deletebreak host)
  dispatch Command.disasm c args = with_arg (text "address") args (Inspect.disasm host)
  dispatch Command.dump c args = with_arg (text "address") args (Inspect.dump host)
  dispatch Command.exit c args = quit host
  dispatch Command.get c args = with_arg (text "register") args (Inspect.get host)
  dispatch Command.getregs c args = Inspect.getregs host
  dispatch Command.help c args = show_help
  dispatch Command.list c args = Inspect.list host
  dispatch Command.load c args = with_arg (text "program path") args (Control.load host)
  dispatch Command.run c args = Control.run host
  dispatch Command.vmmap c args = Maps.vmmap host
  dispatch Command.set c args = with_two args (Inspect.set host)
  dispatch Command.si c args = Control.si host
  dispatch Command.start c args = Control.start host
  dispatch Command.unknown c args = undefined c

  unfoldable pub middleware : List Text → M K Code
  middleware [] = pure success
  middleware (c ∷ args) = dispatch (command_of c) c args

  -- So many rounds of the endless loop, with the command of the round before.
  unfoldable pub core : ℕ → Text → Input → M K (Unit {0})
  unfolding get_line writemsg
  core zero command input = pure tt
  core (suc rounds) command input =
      let (next, rest) = get_line command input in
      (do writemsg (text "sdb> "); _ ← middleware (sdb_parser next); core rounds next rest)

  -- What `getopt` finds, in its order: an option letter with its argument.
  unfoldable pub read_options : List (ℕ × Text) → M K (Unit {0})
  read_options [] = pure tt
  read_options ((opt, optarg) ∷ opts) = do
    if opt == b's' then set_config (λ c. record c { script = optarg }) else errquit
    read_options opts

  unfoldable pub arg_parser : List (ℕ × Text) → List Text → M K (Unit {0})
  unfolding read_options
  arg_parser opts [] = read_options opts
  arg_parser opts (program ∷ operands) = do
    read_options opts
    _ ← Control.load host program
    pure tt

  -- `main`, so many rounds of its loop long.
  unfoldable pub debugger : List (ℕ × Text) → List Text → ℕ → Input → M K (Unit {0})
  unfolding arg_parser core
  debugger opts operands rounds input = do arg_parser opts operands; core rounds [] input
