-- ===== src/Sdb/Memory/Live/Commands.antt =====
-- Each safe command in a live debugger (310551113_hw4/sdb.cpp) returns, and the debugger is live.
use advanced_programming_in.Base.{[], true, false, some, ◌∷◌, ◌*◌, List, ℕ, ◌≡◌, inl, sym, Bool}
use advanced_programming_in.Sdb.World.{M, World, done}
use advanced_programming_in.Sdb.Host.{IsTracee, Host}
use mathlib.Core.Path.{subst}
use advanced_programming_in.Base.Text.{Text, strtoull_16}
use advanced_programming_in.Base.Word.{IsByte}
use advanced_programming_in.Sdb.Config.{Code, success, Checked, err_wrongstatus, err_lackarg}
use advanced_programming_in.Sdb.Config.{same_status, status_map}
use advanced_programming_in.Sdb.Control.{setbreak, deletebreak, too_large, out_of_text}
use advanced_programming_in.Sdb.Shell.{Command, dispatch}
use advanced_programming_in.Sdb.Memory.Execution.{Paused, cont-Returns, si-Returns}
use advanced_programming_in.Sdb.Memory.Steady.{IsTracked-same}
use advanced_programming_in.Sdb.Shell.Showing.{dispatch-Shows, is_showing}
use advanced_programming_in.Sdb.Memory.Registers.{set_lem}
use advanced_programming_in.Sdb.Memory.Kept.{cont-program, si-program, cont-Ends, si-Ends}
use advanced_programming_in.Sdb.Memory.Live.{IsSafeFor, IsProcess, Live}
use advanced_programming_in.Sdb.Shell.Guard.{checked, is_given, dispatch_guard, dispatch_lacking}
use advanced_programming_in.Sdb.Memory.Live.Ready.{After-done, told-Live, HaltedOrEnded-Live}
use advanced_programming_in.Sdb.Inspect
use advanced_programming_in.Sdb.Control

module _ {K : Type 0} (host : Host K) (program : Text) (byte : ℕ → K → ℕ → ℕ) (mapped : ℕ → Bool)
    (orig : ℕ → ℕ) (r : ℕ) (b : IsByte orig) where
  -- What is called returns, and the debugger is live.
  abbrev pub Returns : M K Code → World K → Type 0
  Returns part w =
      (code : Code) × (w' : World K) × (part w ≡ done code w')
      × Live host program byte mapped orig r w'

  pub cont-Live :
      (w : World K) (pid : ℕ)
      → w.conf.program ≡ program
      → IsProcess host program byte mapped orig r pid
      → Paused host pid (byte pid) mapped orig r w.conf.bps w
      → Returns (Control.cont host) w
  cont-Live w pid named process p =
      let (code, w', e, h) =
        cont-Returns host pid (byte pid) mapped orig r w.conf.bps process.tracee b process.steady w
          p in
      (
        code,
        w',
        e,
        HaltedOrEnded-Live host program byte mapped orig r pid w w' process p
            (After-done _ _ code w' (cont-program host program w named) e)
            (After-done _ _ code w' (cont-Ends host w p.started) e) h,
      )

  pub si-Live :
      (w : World K) (pid : ℕ)
      → w.conf.program ≡ program
      → IsProcess host program byte mapped orig r pid
      → Paused host pid (byte pid) mapped orig r w.conf.bps w
      → Returns (Control.si host) w
  si-Live w pid named process p =
      let (code, w', e, h) =
        si-Returns host pid (byte pid) mapped orig r w.conf.bps process.tracee b process.steady w
          p in
      (
        code,
        w',
        e,
        HaltedOrEnded-Live host program byte mapped orig r pid w w' process p
            (After-done _ _ code w' (si-program host program w named) e)
            (After-done _ _ code w' (si-Ends host w p.started) e) h,
      )

  pub set-Live :
      (reg val : Text) (w : World K) (pid : ℕ)
      → w.conf.program ≡ program
      → IsProcess host program byte mapped orig r pid
      → Paused host pid (byte pid) mapped orig r w.conf.bps w
      → IsSafeFor mapped Command.set (reg ∷ val ∷ []) w
      → Returns (Inspect.set host reg val) w
  set-Live reg val w pid named process p (v, known, general) =
      let here = subst (λ p. IsTracee host p (byte pid) mapped) (sym p.child) process.tracee in
      let (k, e, sets) = set_lem host (byte pid) mapped w here reg v known general p.started val in
      (
        success,
        _,
        sets,
        (
          named,
          inl (
            pid,
            process,
            record {
              tracked =
                  IsTracked-same orig mapped (byte pid w.kernel) (byte pid k) w.conf
                    (here.poke_user-byte w.kernel (v * 8) (strtoull_16 val) k e) p.tracked;
              started = p.started;
              child = p.child;
              breaks = p.breaks;
              register = p.register;
            },
          ),
        ),
      )

  -- The commands that only show something.
  pub show-Live :
      (command : Command) (c : Text) (args : List Text) (w : World K)
      → is_showing command ≡ true
      → Live host program byte mapped orig r w
      → Returns (dispatch host command c args) w
  show-Live command c args w shows live =
      let (code, out, e) = dispatch-Shows host command c args w shows in
      (code, _, e, told-Live host program byte mapped orig r w out live)

  -- Without an argument that it needs, a command only says so.
  pub lacking-Live :
      (command : Command) (c : Text) (args : List Text) (w : World K)
      → is_given command args ≡ false
      → Live host program byte mapped orig r w
      → Returns (dispatch host command c args) w
  lacking-Live command c args w lacks live =
      let (out, e) = dispatch_lacking host c w command args lacks in
      (err_lackarg, _, e, told-Live host program byte mapped orig r w out live)

  -- In another status than its own, a command only says so.
  pub refused-Live :
      (command : Command) (key : Checked) (c : Text) (args : List Text) (w : World K)
      → checked command ≡ some key
      → is_given command args ≡ true
      → same_status w.conf.status (status_map key) ≡ false
      → Live host program byte mapped orig r w
      → Returns (dispatch host command c args) w
  refused-Live command key c args w e given other live = (
    err_wrongstatus,
    _,
    dispatch_guard host c w args command key e given other,
    told-Live host program byte mapped orig r w _ live,
  )
