-- ===== src/Sdb/Memory/Live.antt =====
-- The debugger between two commands (310551113_hw4/sdb.cpp): with a process under the invariant, or
-- ready to start one; and lines of words as they are typed.
pub mod Ready
pub mod Commands
pub mod Edits
pub mod Starts
pub mod Lines
pub mod Reached
pub mod Begun
use advanced_programming_in.Sdb.Memory.Counter.{HasCounter}
use advanced_programming_in.Base.{ℕ, ◌^◌, ◌<◌, ◌≡◌, ◌≢◌, ◌⊎◌, refl, Bool, true, false, Option}
use advanced_programming_in.Base.{none, some, List, [], ◌∷◌, length}
use advanced_programming_in.Base.Text.{Text, text, strtoull_16, stoi, ℤ, pos}
use advanced_programming_in.Base.Word.{IsByte}
use advanced_programming_in.Sdb.Config.{Code, find, loaded}
use advanced_programming_in.Sdb.Host.{Host, IsTracee, is_general}
use advanced_programming_in.Sdb.World.{World, M, done}
use advanced_programming_in.Sdb.Shell.{middleware, command_of, Command}
use advanced_programming_in.Sdb.Memory.Consistent.{IsApartFrom, IsConsistent}
use advanced_programming_in.Sdb.Memory.Execution.{Paused}
use advanced_programming_in.Sdb.Memory.Steady.{IsSteady}
use advanced_programming_in.Sdb.Memory.Begin.{IsBegun}
use advanced_programming_in.Sdb.Memory.Readied.{IsKnown}

-- What the code needs of a command and its arguments, in the state in which it is typed: an address
-- for `break` is below 2 ^ 64, mapped, and apart from the breakpoints; a number for `delete` is read,
-- is not the one past the last breakpoint, and the program is stopped at no breakpoint; a register for
-- `set` is in the table and takes every value. Nothing is said of `disasm`, `exit` and `vmmap`.
abbrev pub IsSafeFor : {K : Type 0} → (ℕ → Bool) → Command → List Text → World K → Type 0
IsSafeFor mapped Command.break [] w = Unit
IsSafeFor mapped Command.break (addr ∷ args) w =
    (strtoull_16 addr < 2 ^ 64)
    × (mapped (strtoull_16 addr) ≡ true)
    × IsApartFrom w.conf.bps (strtoull_16 addr)
IsSafeFor mapped Command.delete [] w = Unit
IsSafeFor mapped Command.delete (name ∷ args) w =
    (z : ℤ) × (stoi name ≡ some z) × (z ≢ pos (length w.conf.bps)) × (w.conf.lid ≡ none)
IsSafeFor mapped Command.set [] w = Unit
IsSafeFor mapped Command.set (reg ∷ []) w = Unit
IsSafeFor mapped Command.set (reg ∷ val ∷ args) w =
    (v : ℕ) × (find w.offsets reg ≡ some v) × (is_general v ≡ true)
IsSafeFor mapped Command.disasm args w = true ≡ false
IsSafeFor mapped Command.exit args w = true ≡ false
IsSafeFor mapped Command.vmmap args w = true ≡ false
IsSafeFor mapped _ args w = Unit

-- The same of a line, which is blank or begins with a command or something else.
abbrev pub IsSafe : {K : Type 0} → (ℕ → Bool) → List Text → World K → Type 0
IsSafe mapped [] w = Unit
IsSafe mapped (c ∷ args) w = IsSafeFor mapped (command_of c) args w

module _ {K : Type 0} (host : Host K) (program : Text) (byte : ℕ → K → ℕ → ℕ) (mapped : ℕ → Bool)
    (orig : ℕ → ℕ) (r : ℕ) where
  -- A process of the program, whose memory is `byte pid`.
  pub record IsProcess (pid : ℕ) : Type 0 where
    pub tracee : IsTracee host pid (byte pid) mapped
    pub steady : IsSteady host pid (byte pid)

  -- Every fork gives such a process.
  abbrev pub Forks : Type 0
  Forks = (k : K) → (pid : ℕ) × IsBegun host k program pid (byte pid) orig × IsProcess pid

  abbrev pub IsPaused : World K → Type 0
  IsPaused w = (pid : ℕ) × IsProcess pid × Paused host pid (byte pid) mapped orig r w.conf.bps w

  -- The program is loaded, and the breakpoints of earlier processes can be set in a new one.
  pub record IsReady (w : World K) : Type 0 where
    pub status : w.conf.status ≡ loaded
    pub consistent : IsConsistent orig mapped orig w.conf.bps
    pub known : IsKnown w.conf
    pub register : HasCounter w.offsets r

  abbrev pub Live : World K → Type 0
  Live w = (w.conf.program ≡ program) × (IsPaused w ⊎ IsReady w)

  -- A safe line is typed, and returns.
  pub data Step : World K → World K → Type 0 where
    typed :
        {w w' : World K} (line : List Text) (code : Code)
        → IsSafe mapped line w
        → middleware host line w ≡ done code w'
        → Step w w'

  pub data Reach (w : World K) : World K → Type 0 where
    here : Reach w w
    next : {u v : World K} → Reach w u → Step u v → Reach w v
