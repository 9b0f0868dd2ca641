-- ===== src/Sdb/Shell/Guard.antt =====
-- The status that each command wants (310551113_hw4/sdb.cpp: `status_map`, `checkstatus`).
use advanced_programming_in.Base.{refl, ◌≡◌, arith, Option, none, some, false, true, Bool, List}
use advanced_programming_in.Base.{[], ◌∷◌}
use advanced_programming_in.Sdb.Config.{err_lackarg, err_wrongstatus, Checked, status_map}
use advanced_programming_in.Sdb.Config.{same_status}
use advanced_programming_in.Sdb.World.{notgiven, lackarg, World, done, said, status_msg}
use advanced_programming_in.Base.Text.{Text}
use advanced_programming_in.Sdb.Host.{Host}
use advanced_programming_in.Sdb.Control.{setbreak, deletebreak}
use advanced_programming_in.Sdb.Shell.{Command, command_of, dispatch, middleware}
use advanced_programming_in.Sdb.Control
use advanced_programming_in.Sdb.Inspect
use advanced_programming_in.Sdb.Inspect.Maps

-- The key of `status_map` under which a command is checked, if it is.
abbrev pub checked : Command → Option Checked
checked Command.break = some Checked.break
checked Command.cont = some Checked.cont
checked Command.delete = some Checked.delete
checked Command.disasm = some Checked.disasm
checked Command.dump = some Checked.dump
checked Command.get = some Checked.get
checked Command.getregs = some Checked.getregs
checked Command.load = some Checked.load
checked Command.vmmap = some Checked.vmmap
checked Command.set = some Checked.set
checked Command.si = some Checked.si
checked Command.start = some Checked.start
checked _ = none

-- Whether the arguments that a command needs are given.
abbrev pub is_given : Command → List Text → Bool
is_given Command.break [] = false
is_given Command.delete [] = false
is_given Command.disasm [] = false
is_given Command.dump [] = false
is_given Command.get [] = false
is_given Command.load [] = false
is_given Command.set [] = false
is_given Command.set (a ∷ []) = false
is_given _ _ = true

module _ {K : Type 0} (host : Host K) (c : Text) (w : World K) where
  -- In another status than its own, a command that is checked only says so.
  pub dispatch_guard :
      (args : List Text) (command : Command) (key : Checked)
      → checked command ≡ some key
      → is_given command args ≡ true
      → same_status w.conf.status (status_map key) ≡ false
      → dispatch host command c args w
        ≡ done err_wrongstatus (said (status_msg key w.conf.status) w)
  unfolding dispatch setbreak deletebreak Control.cont Control.load Control.si Control.start
      Inspect.disasm Inspect.dump Inspect.get Inspect.getregs Inspect.set Maps.vmmap
  dispatch_guard [] command key e given h = ground arith
  dispatch_guard (a ∷ []) command key e given h = ground arith
  dispatch_guard (a ∷ b ∷ args) command key e given h = ground arith

  -- Without an argument that it needs, a command only says so.
  pub dispatch_lacking :
      (command : Command) (args : List Text)
      → is_given command args ≡ false
      → (out : List Text) × (dispatch host command c args w
          ≡ done err_lackarg (record w { out = out }))
  unfolding dispatch notgiven lackarg
  dispatch_lacking Command.break [] h = (_, refl)
  dispatch_lacking Command.delete [] h = (_, refl)
  dispatch_lacking Command.disasm [] h = (_, refl)
  dispatch_lacking Command.dump [] h = (_, refl)
  dispatch_lacking Command.get [] h = (_, refl)
  dispatch_lacking Command.load [] h = (_, refl)
  dispatch_lacking Command.set [] h = (_, refl)
  dispatch_lacking Command.set (a ∷ []) h = (_, refl)
  dispatch_lacking Command.set (a ∷ b ∷ args) h = cc
  dispatch_lacking Command.cont args h = cc
  dispatch_lacking _ _ h = cc

  -- Given in another status than its own, with the arguments that it needs or more, a command that
  -- is checked changes neither the program nor the configuration: it names both statuses and returns
  -- `ERR_WRONGSTATUS`.
  pub middleware_guard :
      (args : List Text) (key : Checked)
      → checked (command_of c) ≡ some key
      → is_given (command_of c) args ≡ true
      → same_status w.conf.status (status_map key) ≡ false
      → middleware host (c ∷ args) w ≡ done err_wrongstatus (said (status_msg key w.conf.status) w)
  unfolding middleware
  middleware_guard args key e given h = dispatch_guard args (command_of c) key e given h
