-- ===== src/Sdb/Shell/Showing.antt =====
-- The commands of 310551113_hw4/sdb.cpp that only show something: `get`, `getregs`, `help`, `list`,
-- `dump`, and what is no command.
use advanced_programming_in.Base.{ℕ, zero, suc, ◌*◌, ◌≡◌, refl, arith, Bool, Bool-cases, true}
use advanced_programming_in.Base.{false, Option-cases, some, inl, inr, List, [], ◌∷◌, ◌++◌}
use advanced_programming_in.Base.Text.{Text, text, to_decimal}
use advanced_programming_in.Sdb.Config.{Checked, Breakpoint, Code, find, at, success, same_status}
use advanced_programming_in.Sdb.Config.{running, err_null, err_lackarg, err_undefined, err_badreg}
use advanced_programming_in.Sdb.Config.{err_wrongstatus}
use advanced_programming_in.Sdb.Host.{Host}
use advanced_programming_in.Sdb.World.{World, said, status_msg, hexify, Result, done, reg_index}
use advanced_programming_in.Sdb.World.{writemsg, undefined, notgiven}
use advanced_programming_in.Sdb.Inspect.{dump_rounds, list_from}
use advanced_programming_in.Sdb.Shell.{Command, command_of, dispatch, middleware, show_help}
use advanced_programming_in.Sdb.Inspect

abbrev pub is_showing : Command → Bool
is_showing Command.get = true
is_showing Command.getregs = true
is_showing Command.help = true
is_showing Command.list = true
is_showing Command.dump = true
is_showing Command.unknown = true
is_showing _ = false

-- A handler returns, and nothing but the output changes.
abbrev pub Shows : {K : Type 0} → Result K Code → World K → Type 0
Shows r w = (code : Code) × (out : List Text) × (r ≡ done code (record w { out = out }))

-- What `get` shows.
abbrev pub value_text : Text → ℕ → Text
value_text reg value =
    reg ++ text " = " ++ to_decimal value ++ text " (" ++ hexify value ++ text ")"

module _ {K : Type 0} (host : Host K) where
  dump_rounds-Shows :
      (n a : ℕ) (head : Bool) (layout ascii : Text) (w : World K)
      → Shows (dump_rounds host n a head layout ascii w) w
  unfolding dump_rounds writemsg
  dump_rounds-Shows zero a head layout ascii w = (success, w.out, refl)
  dump_rounds-Shows (suc n) a true layout ascii w = dump_rounds-Shows n _ _ _ _ w
  dump_rounds-Shows (suc n) a false layout ascii w =
      dump_rounds-Shows n _ _ _ _ (record w { out = _ })

  list_from-Shows :
      (id : ℕ) (bps : List Breakpoint) (w : World K) → Shows (list_from host id bps w) w
  unfolding list_from writemsg
  list_from-Shows id [] w = (success, w.out, refl)
  list_from-Shows id (bp ∷ bps) w = list_from-Shows (suc id) bps (record w { out = _ })

  pub at-found :
      (m : List (Text × ℕ)) (reg : Text) (v : ℕ) → find m reg ≡ some v → at m reg ≡ (v, m)
  unfolding at
  at-found m reg v e = rw (at, e) refl

  get-Shows : (reg : Text) (w : World K) → Shows (Inspect.get host reg w) w
  unfolding Inspect.get reg_index writemsg
  get-Shows reg w = elim (Bool-cases (same_status w.conf.status running)) [
    | inl ok ↦ elim (Option-cases (find w.offsets reg)) [
      | inl missing ↦ (err_badreg, w.out, ground (arith, ok, missing))
      | inr (v, e) ↦ (
        success,
        w.out ++ (value_text reg (host.peek_user w.kernel w.conf.child (v * 8)) ∷ []),
        rw (ok, e) (rw (at-found w.offsets reg v e) refl),
      )
    ]
    | inr wrong ↦
        (err_wrongstatus, (said (status_msg Checked.get w.conf.status) w).out, rw wrong refl)
  ]

  getregs-Shows : (w : World K) → Shows (Inspect.getregs host w) w
  unfolding Inspect.getregs writemsg
  getregs-Shows w = elim (Bool-cases (same_status w.conf.status running)) [
    | inl ok ↦ elim (Option-cases (host.get_regs w.kernel w.conf.child)) [
      | inl failed ↦ (err_null, w.out, ground (arith, ok, failed))
      | inr (regs, e) ↦
          (success, w.out ++ (Inspect.regs_text host regs ∷ []), ground (arith, ok, e))
    ]
    | inr wrong ↦ (
      err_wrongstatus,
      (said (status_msg Checked.getregs w.conf.status) w).out,
      ground (arith, wrong),
    )
  ]

  dump-Shows : (addr : Text) (w : World K) → Shows (Inspect.dump host addr w) w
  unfolding Inspect.dump
  dump-Shows addr w = elim (Bool-cases (same_status w.conf.status running)) [
    | inl ok ↦ rw ok (dump_rounds-Shows 10 _ true [] [] w)
    | inr wrong ↦
        (err_wrongstatus, (said (status_msg Checked.dump w.conf.status) w).out, rw wrong refl)
  ]

  pub dispatch-Shows :
      (command : Command) (c : Text) (args : List Text) (w : World K)
      → is_showing command ≡ true
      → Shows (dispatch host command c args w) w
  unfolding dispatch notgiven undefined show_help Inspect.list writemsg
  dispatch-Shows Command.get c [] w h = (err_lackarg, _, refl)
  dispatch-Shows Command.get c (reg ∷ args) w h = get-Shows reg w
  dispatch-Shows Command.getregs c args w h = getregs-Shows w
  dispatch-Shows Command.help c args w h = (success, _, refl)
  dispatch-Shows Command.list c args w h = list_from-Shows 0 w.conf.bps w
  dispatch-Shows Command.dump c [] w h = (err_lackarg, _, refl)
  dispatch-Shows Command.dump c (addr ∷ args) w h = dump-Shows addr w
  dispatch-Shows Command.unknown c args w h = (err_undefined, _, refl)
  dispatch-Shows Command.break c args w h = cc
  dispatch-Shows Command.cont c args w h = cc
  dispatch-Shows Command.delete c args w h = cc
  dispatch-Shows Command.disasm c args w h = cc
  dispatch-Shows Command.exit c args w h = cc
  dispatch-Shows Command.load c args w h = cc
  dispatch-Shows Command.run c args w h = cc
  dispatch-Shows Command.vmmap c args w h = cc
  dispatch-Shows Command.set c args w h = cc
  dispatch-Shows Command.si c args w h = cc
  dispatch-Shows Command.start c args w h = cc

  -- `get`, `getregs`, `help`, `list`, `dump` and what is no command return in every state, with or
  -- without the arguments that they need, and nothing but the output changes.
  pub middleware-Shows :
      (c : Text) (args : List Text) (w : World K)
      → is_showing (command_of c) ≡ true
      → (code : Code) × (out : List Text) × (middleware host (c ∷ args) w
          ≡ done code (record w { out = out }))
  unfolding middleware
  middleware-Shows c args w h = dispatch-Shows (command_of c) c args w h
