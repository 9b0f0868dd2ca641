-- ===== src/Sdb/World.antt =====
-- The debugger's state, and the monad of its handlers (310551113_hw4/sdb.cpp): `errquit`,
-- `writemsg`, `debug`, `lackarg`, `notgiven`, `undefined`, `checkstatus`, `hexify`.
use advanced_programming_in.Base.{ℕ, Bool, true, false, Option, none, some, List, [], ◌∷◌, ◌++◌}
use advanced_programming_in.Base.{if◌then◌else◌, get_elem?}
use advanced_programming_in.Base.Text.{Text, text, to_hex}
use advanced_programming_in.Sdb.Config.{SdbConfig, Breakpoint, Status, Checked, Code, err_lackarg}
use advanced_programming_in.Sdb.Config.{err_undefined, status_map, status_str, same_status, at}

-- `offsets` is the global map `reg_offset`, and `out` what was printed, line by line.
pub record World (K : Type 0) : Type 0 where
  pub conf : SdbConfig
  pub kernel : K
  pub offsets : List (Text × ℕ)
  pub out : List Text

-- A handler returns, or the debugger ends: by `exit`, by an exception that nothing catches, or
-- by a step that C++ leaves undefined.
pub data Result (K : Type 0) (A : Type 0) : Type 0 where
  done : A → World K → Result K A
  exited : ℕ → World K → Result K A
  aborted : Result K A
  undefined_behaviour : Result K A

abbrev pub M : Type 0 → Type 0 → Type 0
M K A = World K → Result K A

abbrev pub pure : {K A : Type 0} → A → M K A
pure a w = done a w

-- What follows is done only if a handler returns.
abbrev pub chain : {K A B : Type 0} → Result K A → (A → M K B) → Result K B
chain (done a w) f = f a w
chain (exited status w) f = exited status w
chain aborted f = aborted
chain undefined_behaviour f = undefined_behaviour

infixl 5 ◌>>=◌ ◌>>◌
abbrev pub ◌>>=◌ : {K A B : Type 0} → M K A → (A → M K B) → M K B
◌>>=◌ m f w = chain (m w) f

abbrev pub ◌>>◌ : {K B : Type 0} → M K (Unit {0}) → M K B → M K B
m >> k = m >>= λ _. k

abbrev pub state : {K : Type 0} → M K (World K)
state w = done w w

abbrev pub config : {K : Type 0} → M K SdbConfig
config w = done w.conf w

abbrev pub set_config : {K : Type 0} → (SdbConfig → SdbConfig) → M K (Unit {0})
set_config f w = done tt (record w { conf = f w.conf })

abbrev pub set_kernel : {K : Type 0} → K → M K (Unit {0})
set_kernel k w = done tt (record w { kernel = k })

-- `exit(-1)`; the message of `perror` goes to the error stream.
abbrev pub errquit : {K A : Type 0} → M K A
errquit w = exited 255 w

-- A call of the kernel whose failure ends the debugger.
abbrev pub call : {K : Type 0} → Option K → M K (Unit {0})
call none = errquit
call (some k) = set_kernel k

unfoldable pub writemsg : {K : Type 0} → Text → M K (Unit {0})
writemsg msg w = done tt (record w { out = w.out ++ (msg ∷ []) })

unfoldable pub debug : {K : Type 0} → Text → M K (Unit {0})
unfolding writemsg
debug msg = writemsg (text "** " ++ msg)

-- The world after a message of `debug`.
abbrev pub said : {K : Type 0} → Text → World K → World K
said msg w = record w { out = w.out ++ ((text "** " ++ msg) ∷ []) }

unfoldable pub lackarg : {K : Type 0} → M K Code
unfolding debug
lackarg = do debug (text "Not enough input arguments"); pure err_lackarg

unfoldable pub notgiven : {K : Type 0} → Text → M K Code
unfolding debug
notgiven arg = do debug (text "no " ++ arg ++ text " is given"); pure err_lackarg

unfoldable pub undefined : {K : Type 0} → Text → M K Code
unfolding debug
undefined command = do
  debug (text "Undefined command: \"" ++ command ++ text "\".  Try \"help\".")
  pure err_undefined

-- `"state must be …, current status: …"`
abbrev pub status_msg : Checked → Status → Text
status_msg command now =
    text "state must be "
    ++ status_str (status_map command)
    ++ text ", current status: "
    ++ status_str now

-- Whether a command may run now. If not, it says so.
unfoldable pub checkstatus : {K : Type 0} → Checked → M K Bool
unfolding debug
checkstatus command = do
  c ← config
  if same_status c.status (status_map command)
      then pure true
      else do debug (status_msg command c.status); pure false

unfoldable pub hexify : ℕ → Text
hexify x = text "0x" ++ to_hex x

-- `reg_offset[reg]`, which inserts a missing key.
unfoldable pub reg_index : {K : Type 0} → Text → M K ℕ
unfolding at
reg_index reg w = let (v, m) = at w.offsets reg in done v (record w { offsets = m })

-- `conf.bps[id]`, undefined out of range.
unfoldable pub breakpoint_at : {K : Type 0} → ℕ → M K Breakpoint
breakpoint_at id w = elim (get_elem? w.conf.bps id) [
  | none ↦ undefined_behaviour
  | some bp ↦ done bp w
]
