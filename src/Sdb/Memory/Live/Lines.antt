-- ===== src/Sdb/Memory/Live/Lines.antt =====
-- Every safe line in either state of a live debugger (310551113_hw4/sdb.cpp).
use advanced_programming_in.Base.{ℕ, ◌≡◌, inl, inr, refl, arith, Bool, false, List, [], ◌∷◌}
use advanced_programming_in.Base.Text.{Text}
use advanced_programming_in.Base.Word.{IsByte}
use advanced_programming_in.Sdb.Config.{Checked, success, same_status, status_map}
use advanced_programming_in.Sdb.Host.{Host}
use advanced_programming_in.Sdb.World.{World}
use advanced_programming_in.Sdb.Shell.{Command, command_of, dispatch, middleware}
use advanced_programming_in.Sdb.Memory.Live.{IsSafe, IsSafeFor, Forks, Live}
use advanced_programming_in.Sdb.Memory.Live.Commands.{Returns, cont-Live, si-Live, set-Live}
use advanced_programming_in.Sdb.Memory.Live.Commands.{show-Live, lacking-Live, refused-Live}
use advanced_programming_in.Sdb.Memory.Live.Edits.{setbreak-Live, deletebreak-Live}
use advanced_programming_in.Sdb.Memory.Live.Starts.{start-Live, run_ready, run-Paused}

module _ {K : Type 0} (host : Host K) (program : Text) (byte : ℕ → K → ℕ → ℕ) (mapped : ℕ → Bool)
    (orig : ℕ → ℕ) (r : ℕ) (b : IsByte orig) (forks : Forks host program byte mapped orig r) where
  -- `load` wants a debugger without a program, which is neither state.
  load_refused :
      (w : World K)
      → Live host program byte mapped orig r w
      → same_status w.conf.status (status_map Checked.load) ≡ false
  load_refused w (named, inl (pid, process, p)) = ground (arith, p.started)
  load_refused w (named, inr ready) = ground (arith, ready.status)

  module _ (c : Text) (w : World K) where
    -- The commands in both states.
    dispatch-Returns :
        (command : Command) (args : List Text)
        → Live host program byte mapped orig r w
        → IsSafeFor mapped command args w
        → Returns host program byte mapped orig r b (dispatch host command c args) w
    unfolding dispatch
    dispatch-Returns Command.break [] live safe =
        lacking-Live host program byte mapped orig r b Command.break c [] w refl live
    dispatch-Returns Command.break (addr ∷ args) (named, inl (pid, process, p)) safe =
        setbreak-Live host program byte mapped orig r b addr w pid named process p safe
    dispatch-Returns Command.break (addr ∷ args) (named, inr ready) safe =
        refused-Live host program byte mapped orig r b Command.break Checked.break c (addr ∷ args) w
          refl refl (ground (arith, ready.status)) (named, inr ready)
    dispatch-Returns Command.delete [] live safe =
        lacking-Live host program byte mapped orig r b Command.delete c [] w refl live
    dispatch-Returns Command.delete (name ∷ args) (named, inl (pid, process, p)) safe =
        deletebreak-Live host program byte mapped orig r b name w pid named process p safe
    dispatch-Returns Command.delete (name ∷ args) (named, inr ready) safe =
        refused-Live host program byte mapped orig r b Command.delete Checked.delete c (name ∷ args)
          w refl refl (ground (arith, ready.status)) (named, inr ready)
    dispatch-Returns Command.set [] live safe =
        lacking-Live host program byte mapped orig r b Command.set c [] w refl live
    dispatch-Returns Command.set (reg ∷ []) live safe =
        lacking-Live host program byte mapped orig r b Command.set c (reg ∷ []) w refl live
    dispatch-Returns Command.set (reg ∷ val ∷ args) (named, inl (pid, process, p)) safe =
        set-Live host program byte mapped orig r b reg val w pid named process p safe
    dispatch-Returns Command.set (reg ∷ val ∷ args) (named, inr ready) safe =
        refused-Live host program byte mapped orig r b Command.set Checked.set c (reg ∷ val ∷ args)
          w refl refl (ground (arith, ready.status)) (named, inr ready)
    dispatch-Returns Command.cont args (named, inl (pid, process, p)) safe =
        cont-Live host program byte mapped orig r b w pid named process p
    dispatch-Returns Command.cont args (named, inr ready) safe =
        refused-Live host program byte mapped orig r b Command.cont Checked.cont c args w refl refl
          (ground (arith, ready.status)) (named, inr ready)
    dispatch-Returns Command.si args (named, inl (pid, process, p)) safe =
        si-Live host program byte mapped orig r b w pid named process p
    dispatch-Returns Command.si args (named, inr ready) safe =
        refused-Live host program byte mapped orig r b Command.si Checked.si c args w refl refl
          (ground (arith, ready.status)) (named, inr ready)
    dispatch-Returns Command.run args (named, inl (pid, process, p)) safe =
        run-Paused host program byte mapped orig r b forks w pid named process p
    dispatch-Returns Command.run args (named, inr ready) safe =
        run_ready host program byte mapped orig r b forks w named ready
    dispatch-Returns Command.start args (named, inl (pid, process, p)) safe =
        refused-Live host program byte mapped orig r b Command.start Checked.start c args w refl
          refl (ground (arith, p.started)) (named, inl (pid, process, p))
    dispatch-Returns Command.start args (named, inr ready) safe =
        let (w', e, named', paused) =
          start-Live host program byte mapped orig r b forks w named ready in
        (success, w', e, (named', inl paused))
    dispatch-Returns Command.load [] live safe =
        lacking-Live host program byte mapped orig r b Command.load c [] w refl live
    dispatch-Returns Command.load (path ∷ args) live safe =
        refused-Live host program byte mapped orig r b Command.load Checked.load c (path ∷ args) w
          refl refl (load_refused w live) live
    dispatch-Returns Command.disasm args live safe = cc
    dispatch-Returns Command.exit args live safe = cc
    dispatch-Returns Command.vmmap args live safe = cc
    dispatch-Returns Command.dump args live safe =
        show-Live host program byte mapped orig r b Command.dump c args w refl live
    dispatch-Returns Command.get args live safe =
        show-Live host program byte mapped orig r b Command.get c args w refl live
    dispatch-Returns Command.getregs args live safe =
        show-Live host program byte mapped orig r b Command.getregs c args w refl live
    dispatch-Returns Command.help args live safe =
        show-Live host program byte mapped orig r b Command.help c args w refl live
    dispatch-Returns Command.list args live safe =
        show-Live host program byte mapped orig r b Command.list c args w refl live
    dispatch-Returns Command.unknown args live safe =
        show-Live host program byte mapped orig r b Command.unknown c args w refl live

  pub line_Returns :
      (line : List Text) (w : World K)
      → Live host program byte mapped orig r w
      → IsSafe mapped line w
      → Returns host program byte mapped orig r b (middleware host line) w
  unfolding middleware
  line_Returns [] w live safe = (success, w, refl, live)
  line_Returns (c ∷ args) w live safe = dispatch-Returns c w (command_of c) args live safe
