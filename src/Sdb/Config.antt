-- ===== src/Sdb/Config.antt =====
-- The debugger's types and tables (310551113_hw4/sdb.cpp): return codes, the status and the
-- commands that want one, breakpoints, the configuration and the register table.
use advanced_programming_in.Base.{ℕ, Option, List, [], ◌∷◌, Bool, true, false, none, some}
use advanced_programming_in.Base.{if◌then◌else◌}
use advanced_programming_in.Base.Text.{Text, text, text_eq}

-- What a handler returns: 0, or one of the codes ERR_…, which are all negative.
pub data Code : Type 0 where
  success : Code
  err_wrongstatus err_lackarg err_undefined err_badwait : Code
  err_null err_badreg err_badbreakpoint err_nofile : Code

-- `ret < 0`
abbrev pub is_error : Code → Bool
is_error success = false
is_error _ = true

pub data Status : Type 0 where
  not_loaded loaded running : Status

abbrev pub same_status : Status → Status → Bool
same_status not_loaded not_loaded = true
same_status loaded loaded = true
same_status running running = true
same_status _ _ = false

unfoldable pub status_str : Status → Text
unfolding text
status_str not_loaded = text "NOT LOADED"
status_str loaded = text "LOADED"
status_str running = text "RUNNING"

-- The keys of `status_map`.
pub data Checked : Type 0 where
  break cont delete disasm dump get getregs load vmmap set si start : Checked

abbrev pub status_map : Checked → Status
status_map load = not_loaded
status_map start = loaded
status_map _ = running

-- `code` is a `long`, as the 64 bits that it holds. The field `inloop` is never used.
pub record Breakpoint : Type 0 where
  pub addr : ℕ
  pub code : ℕ

-- `lid` is -1 if there is no breakpoint to put back.
pub record SdbConfig : Type 0 where
  pub script : Text
  pub program : Text
  pub entrypoint : ℕ
  pub textsize : ℕ
  pub child : ℕ
  pub status : Status
  pub lid : Option ℕ
  pub bps : List Breakpoint

-- `reg_offset`, with the numbers that <sys/reg.h> gives the registers.
unfoldable pub reg_offset : List (Text × ℕ)
unfolding text
reg_offset =
    (text "r15", 0)
    ∷ (text "r14", 1)
    ∷ (text "r13", 2)
    ∷ (text "r12", 3)
    ∷ (text "rbp", 4)
    ∷ (text "rbx", 5)
    ∷ (text "r11", 6)
    ∷ (text "r10", 7)
    ∷ (text "r9", 8)
    ∷ (text "r8", 9)
    ∷ (text "rax", 10)
    ∷ (text "rcx", 11)
    ∷ (text "rdx", 12)
    ∷ (text "rsi", 13)
    ∷ (text "rdi", 14)
    ∷ (text "orig_rax", 15)
    ∷ (text "rip", 16)
    ∷ (text "cs", 17)
    ∷ (text "eflags", 18)
    ∷ (text "rsp", 19)
    ∷ (text "ss", 20)
    ∷ (text "fs_base", 21)
    ∷ (text "gs_base", 22)
    ∷ (text "ds", 23)
    ∷ (text "es", 24)
    ∷ (text "fs", 25)
    ∷ (text "gs", 26)
    ∷ []

-- `m.find(k)`, with the value that is found.
unfoldable pub find : List (Text × ℕ) → Text → Option ℕ
unfolding text_eq
find [] k = none
find ((j, v) ∷ m) k = if text_eq j k then some v else find m k

-- `m[k]` as a value, and the map behind it: a missing key is inserted with 0.
unfoldable pub at : List (Text × ℕ) → Text → ℕ × List (Text × ℕ)
unfolding find
at m k = elim (find m k) [ some v ↦ (v, m) | none ↦ (0, (k, 0) ∷ m) ]

-- The state before `main`: zeros, empty strings and the initialisers of the fields.
abbrev pub initial : SdbConfig
initial = record {
  script = [];
  program = [];
  entrypoint = 0;
  textsize = 0;
  child = 0;
  status = not_loaded;
  lid = none;
  bps = [];
}
