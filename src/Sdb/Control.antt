-- ===== src/Sdb/Control.antt =====
-- The commands that change breakpoints or run the program (310551113_hw4/sdb.cpp): `setbreak`,
-- `cont`, `deletebreak`, `load` with `elfinfo`, `run`, `si` and `start`.
pub mod Elf
use advanced_programming_in.Base.{ℕ, ◌+◌, ◌-◌, ◌%◌, ◌^◌, ltb, suc, length, erase_at, Bool, true}
use advanced_programming_in.Base.{false, ◌||◌, Option, none, some, List, [], ◌∷◌, ◌++◌}
use advanced_programming_in.Base.{if◌then◌else◌, ◌==◌}
use advanced_programming_in.Base.Text.{Text, text, to_decimal, strtoull_16, stoi, ℤ, pos, negsuc}
use advanced_programming_in.Sdb.Config.{Breakpoint, SdbConfig, Code, success, err_wrongstatus}
use advanced_programming_in.Sdb.Config.{err_badbreakpoint, err_nofile, is_error, Checked}
use advanced_programming_in.Sdb.Config.{not_loaded, loaded, running}
use advanced_programming_in.Sdb.Code.{alternate}
use advanced_programming_in.Sdb.Host.{Host}
use advanced_programming_in.Sdb.World.{M, aborted, pure, ◌>>=◌, ◌>>◌, state, config, set_config}
use advanced_programming_in.Sdb.World.{set_kernel, call, errquit, debug, checkstatus, hexify}
use advanced_programming_in.Sdb.World.{breakpoint_at}
use advanced_programming_in.Sdb.Stops.{trap, waitstatus, setallbreak}
use Elf.{elfinfo}

-- `lladdr < entrypoint || lladdr > entrypoint + textsize - 1`
unfoldable pub out_of_text : SdbConfig → ℕ → Bool
out_of_text c lladdr =
    ltb lladdr c.entrypoint || ltb ((c.entrypoint + c.textsize + 2 ^ 64 - 1) % 2 ^ 64) lladdr

-- The messages of the loop that looks for the address, and whether it was found.
unfoldable pub report_existing : {K : Type 0} → List Breakpoint → ℕ → ℕ → Bool → M K Bool
unfolding debug
report_existing [] id lladdr exist = pure exist
report_existing (bp ∷ bps) id lladdr exist =
    if bp.addr == lladdr
    then (do
      debug (text "the breakpoint is already exists. (breakpoint " ++ to_decimal id ++ text ")")
      report_existing bps (suc id) lladdr true)
    else report_existing bps (suc id) lladdr exist

module _ {K : Type 0} (host : Host K) where
  open host use {wide, peek_text, poke_text, resume, single_step, fork_traced, set_exitkill}

  -- `setbreak` behind its status and range tests.
  unfoldable pub place : ℕ → M K Code
  unfolding report_existing trap
  place lladdr = do
    w ← state
    let code = peek_text w.kernel w.conf.child lladdr
    exist ← report_existing w.conf.bps 0 lladdr false
    if exist then pure err_badbreakpoint else do
      w ← state
      call (poke_text w.kernel w.conf.child lladdr (trap code))
      let saved = alternate wide w.conf.bps code lladdr false true
      set_config (λ c. record c { bps = c.bps ++ (record { addr = lladdr; code = saved } ∷ []) })
      pure success

  unfoldable pub setbreak : Text → M K Code
  unfolding checkstatus
  setbreak addr = do
    ok ← checkstatus Checked.break
    c ← config
    let lladdr = strtoull_16 addr
    if ok
        then (if out_of_text c lladdr
            then (do
              debug (text "the address is out of the range of the text segment")
              pure err_badbreakpoint)
            else place lladdr)
        else pure err_wrongstatus

  -- `deletebreak` behind its tests.
  unfoldable pub remove : ℕ → Text → M K Code
  unfolding breakpoint_at debug
  remove did breakpoint_id = do
    c ← config
    bp ← breakpoint_at did
    w ← state
    call (poke_text w.kernel c.child bp.addr (alternate wide c.bps bp.code bp.addr true false))
    set_config (λ c. record c { bps = erase_at c.bps did })
    debug (text "breakpoint " ++ breakpoint_id ++ text " deleted")
    pure success

  -- `did > conf.bps.size()`, where a negative `int` becomes a large `size_t`.
  unfoldable pub too_large : ℤ → ℕ → Bool
  too_large (pos n) size = ltb size n
  too_large (negsuc n) size = true

  -- The number of a breakpoint that passed the test.
  abbrev pub index : ℤ → ℕ
  index (pos n) = n
  index (negsuc n) = 0

  unfoldable pub deletebreak : Text → M K Code
  unfolding checkstatus too_large debug
  deletebreak breakpoint_id = do
    ok ← checkstatus Checked.delete
    c ← config
    if ok
        then elim (stoi breakpoint_id) [
          | none ↦ λ w. aborted
          | some did ↦
              if too_large did (length c.bps)
              then (do
                debug (text "breakpoint " ++ breakpoint_id ++ text " does not exist")
                pure err_badbreakpoint)
              else remove (index did) breakpoint_id
        ]
        else pure err_wrongstatus

  unfoldable pub cont : M K Code
  unfolding checkstatus
  cont = do
    ok ← checkstatus Checked.cont
    w ← state
    if ok
        then (do
          set_kernel (resume w.kernel w.conf.child)
          set_config (λ c. record c { status = running })
          waitstatus host true)
        else pure err_wrongstatus

  unfoldable pub si : M K Code
  unfolding checkstatus
  si = do
    ok ← checkstatus Checked.si
    w ← state
    if ok
        then (do call (single_step w.kernel w.conf.child); waitstatus host false)
        else pure err_wrongstatus

  unfoldable pub load : Text → M K Code
  unfolding checkstatus elfinfo debug hexify
  load program = do
    ok ← checkstatus Checked.load
    if ok
        then (do
          set_config (λ c. record c { program = program })
          ret ← elfinfo host
          c ← config
          elim ret [
            | err_nofile ↦ do set_config (λ c. record c { program = [] }); pure err_nofile
            | _ ↦ do
              debug (
                  text "program '"
                  ++ c.program
                  ++ text "' loaded. entry point "
                  ++ hexify c.entrypoint)
              set_config (λ c. record c { status = loaded })
              pure success
          ])
        else pure err_wrongstatus

  -- The parent's branch of `start`. The child's is `fork_traced`.
  unfoldable pub launch : ℕ → M K Code
  unfolding debug
  launch pid = do
    set_config (λ c. record c { child = pid })
    ret ← waitstatus host false
    w ← state
    set_kernel (set_exitkill w.kernel w.conf.child)
    debug (text "pid " ++ to_decimal w.conf.child)
    _ ← setallbreak host
    set_config (λ c. record c { status = running })
    pure ret

  unfoldable pub start : M K Code
  unfolding checkstatus
  start = do
    ok ← checkstatus Checked.start
    w ← state
    if ok
        then elim (fork_traced w.kernel w.conf.program) [
          | none ↦ errquit
          | some (pid, k) ↦ do set_kernel k; launch pid
        ]
        else pure err_wrongstatus

  unfoldable pub run : M K Code
  unfolding debug
  run = do
    c ← config
    elim c.status [
      | not_loaded ↦ do
        debug (text "state must be LOADED or RUNNING, current status: NOT LOADED")
        pure err_wrongstatus
      | running ↦ do debug (text "program " ++ c.program ++ text " is already running"); cont
      | loaded ↦ do ret ← start; if is_error ret then pure ret else cont
    ]
