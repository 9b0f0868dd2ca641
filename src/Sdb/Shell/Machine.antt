-- ===== src/Sdb/Shell/Machine.antt =====
-- The status of 310551113_hw4/sdb.cpp from one command to the next.
use advanced_programming_in.Base.{ℕ, ◌≡◌, arith, true, false, List, [], ◌∷◌, refl, ◌⊎◌, inl, inr}
use advanced_programming_in.Base.{Option-cases}
use advanced_programming_in.Base.Text.{Text}
use advanced_programming_in.Sdb.Config.{Status, not_loaded, loaded, running}
use advanced_programming_in.Sdb.Host.{Host}
use advanced_programming_in.Sdb.World.{notgiven, lackarg, World, reg_index, Result}
use advanced_programming_in.Sdb.Control.{setbreak, deletebreak, launch}
use advanced_programming_in.Sdb.Shell.{Command, command_of, dispatch, middleware, show_help}
use advanced_programming_in.Sdb.Shell.Status.{After, After-chain, After-map, Has, HasOrEnded}
use advanced_programming_in.Sdb.Shell.Status.{call-status, waitstatus-status}
use advanced_programming_in.Sdb.Shell.Transitions.{allowed, setbreak-status, deletebreak-status}
use advanced_programming_in.Sdb.Shell.Transitions.{elfinfo-status, dump_rounds-status}
use advanced_programming_in.Sdb.Shell.Transitions.{print_insns-status, list_from-status}
use advanced_programming_in.Sdb.Shell.Transitions.{print_maps-status, setallbreak-status}
use advanced_programming_in.Sdb.Control
use advanced_programming_in.Sdb.Inspect
use advanced_programming_in.Sdb.Inspect.Maps

-- The status is one that may follow `s`.
abbrev Moves : {K : Type 0} → Status → World K → Type 0
Moves s w = allowed s w.conf.status ≡ true

stays : {K : Type 0} (s : Status) (w : World K) → Has s w → Moves s w
stays not_loaded w h = rw h refl
stays loaded w h = rw h refl
stays running w h = rw h refl

stayed : {K A : Type 0} (s : Status) (r : Result K A) → After (Has s) r → After (Moves s) r
stayed s r h = After-map (Moves s) (Has s) r (stays s) h

ends : {K : Type 0} (w : World K) → HasOrEnded running w → Moves running w
ends w (inl h) = rw h refl
ends w (inr h) = rw h refl

rose : (s : Status) → allowed running s ≡ true → allowed loaded s ≡ true
rose not_loaded h = h
rose loaded h = refl
rose running h = refl

module _ {K : Type 0} (host : Host K) where
  cont-status : (s : Status) (w : World K) → Has s w → After (Moves s) (Control.cont host w)
  unfolding Control.cont
  cont-status not_loaded w h = ground arith
  cont-status loaded w h = ground arith
  cont-status running w h = rw h (
      After-map (Moves running) (HasOrEnded running) _ ends
        (waitstatus-status host running true _ refl))

  si-status : (s : Status) (w : World K) → Has s w → After (Moves s) (Control.si host w)
  unfolding Control.si
  si-status not_loaded w h = ground arith
  si-status loaded w h = ground arith
  si-status running w h = rw h (
      After-chain (Moves running) (Has running) _ _
        (call-status (host.single_step w.kernel w.conf.child)
          (record w { conf = record w.conf { status = running } }) refl)
        λ _ w₁ h₁.
          After-map (Moves running) (HasOrEnded running) _ ends
            (waitstatus-status host running false w₁ h₁))

  launch-status : (pid : ℕ) (w : World K) → Has loaded w → After (Moves loaded) (launch host pid w)
  unfolding launch
  launch-status pid w h =
      After-chain (Moves loaded) (λ w₁. Has loaded w₁ ⊎ Has loaded w₁) _ _
        (waitstatus-status host loaded false (record w { conf = record w.conf { child = pid } }) h)
        λ ret w₁ h₁.
          After-chain (Moves loaded) (λ w₂. Unit {0}) _ _
            (After-map (λ w₂. Unit {0}) (Has w₁.conf.status) _ (λ _ _. tt)
              (setallbreak-status host w₁.conf.status _ refl))
            λ _ w₂ _. refl

  start-status : (s : Status) (w : World K) → Has s w → After (Moves s) (Control.start host w)
  unfolding Control.start
  start-status not_loaded w h = ground arith
  start-status loaded w h = elim (Option-cases (host.fork_traced w.kernel w.conf.program)) [
    | inl failed ↦ rw (h, failed) tt
    | inr ((pid, k), e) ↦
        rw (h, e)
          (launch-status pid (record w { kernel = k; conf = record w.conf { status = loaded } })
            refl)
  ]
  start-status running w h = ground arith

  load-status :
      (s : Status) (w : World K) (program : Text)
      → Has s w
      → After (Moves s) (Control.load host program w)
  unfolding Control.load
  load-status not_loaded w program h = rw h (
      After-chain (Moves not_loaded) (Has not_loaded) _ _
        (elfinfo-status host not_loaded
          (record w { conf = record w.conf { status = not_loaded; program = program } }) refl)
        λ ret w₁ h₁. ground arith)
  load-status loaded w program h = ground arith
  load-status running w program h = ground arith

  cont-started :
      (s : Status) (w : World K)
      → Has s w
      → Moves loaded w
      → After (Moves loaded) (Control.cont host w)
  cont-started not_loaded w h m = ground (arith, m, h)
  cont-started loaded w h m = cont-status loaded w h
  cont-started running w h m =
      After-map (Moves loaded) (Moves running) _ (λ w' m'. rose w'.conf.status m')
        (cont-status running w h)

  run-status : (s : Status) (w : World K) → Has s w → After (Moves s) (Control.run host w)
  unfolding Control.run
  run-status not_loaded w h = ground arith
  run-status loaded w h = rw h (
      After-chain (Moves loaded) (Moves loaded) _ _
        (start-status loaded (record w { conf = record w.conf { status = loaded } }) refl)
        λ ret w₁ h₁. ground (arith, cont-started w₁.conf.status w₁ refl h₁))
  run-status running w h = rw h (cont-status running _ refl)

  dump-status :
      (s : Status) (addr : Text) (w : World K) → Has s w → After (Has s) (Inspect.dump host addr w)
  unfolding Inspect.dump
  dump-status s addr w h = grind (arith, dump_rounds-status)

  disasm-status :
      (s : Status) (addr : Text) (w : World K)
      → Has s w
      → After (Has s) (Inspect.disasm host addr w)
  unfolding Inspect.disasm
  disasm-status s addr w h = grind (arith, print_insns-status)

  get-status :
      (s : Status) (reg : Text) (w : World K) → Has s w → After (Has s) (Inspect.get host reg w)
  unfolding Inspect.get reg_index
  get-status s reg w h = ground arith

  getregs-status : (s : Status) (w : World K) → Has s w → After (Has s) (Inspect.getregs host w)
  unfolding Inspect.getregs
  getregs-status s w h = ground arith

  list-status : (s : Status) (w : World K) → Has s w → After (Has s) (Inspect.list host w)
  unfolding Inspect.list
  list-status s w h = list_from-status host s 0 w.conf.bps w h

  set-status :
      (s : Status) (reg val : Text) (w : World K)
      → Has s w
      → After (Has s) (Inspect.set host reg val w)
  unfolding Inspect.set reg_index
  set-status s reg val w h = ground arith

  vmmap-status : (s : Status) (w : World K) → Has s w → After (Has s) (Maps.vmmap host w)
  unfolding Maps.vmmap
  vmmap-status s w h =
      ground (arith, print_maps-status host s (host.maps w.kernel w.conf.child) w h)

  dispatch-status :
      (command : Command) (c : Text) (args : List Text) (s : Status) (w : World K)
      → Has s w
      → After (Moves s) (dispatch host command c args w)
  unfolding dispatch show_help Inspect.quit notgiven lackarg
  dispatch-status Command.break c [] s w h = stays s w h
  dispatch-status Command.break c (a ∷ more) s w h = stayed s _ (setbreak-status host s a w h)
  dispatch-status Command.cont c args s w h = cont-status s w h
  dispatch-status Command.delete c [] s w h = stays s w h
  dispatch-status Command.delete c (a ∷ more) s w h = stayed s _ (deletebreak-status host s a w h)
  dispatch-status Command.disasm c [] s w h = stays s w h
  dispatch-status Command.disasm c (a ∷ more) s w h = stayed s _ (disasm-status s a w h)
  dispatch-status Command.dump c [] s w h = stays s w h
  dispatch-status Command.dump c (a ∷ more) s w h = stayed s _ (dump-status s a w h)
  dispatch-status Command.exit c args s w h = tt
  dispatch-status Command.get c [] s w h = stays s w h
  dispatch-status Command.get c (a ∷ more) s w h = stayed s _ (get-status s a w h)
  dispatch-status Command.getregs c args s w h = stayed s _ (getregs-status s w h)
  dispatch-status Command.help c args s w h = stays s w h
  dispatch-status Command.list c args s w h = stayed s _ (list-status s w h)
  dispatch-status Command.load c [] s w h = stays s w h
  dispatch-status Command.load c (a ∷ more) s w h = load-status s w a h
  dispatch-status Command.run c args s w h = run-status s w h
  dispatch-status Command.vmmap c args s w h = stayed s _ (vmmap-status s w h)
  dispatch-status Command.set c [] s w h = stays s w h
  dispatch-status Command.set c (a ∷ []) s w h = stays s w h
  dispatch-status Command.set c (a ∷ b ∷ more) s w h = stayed s _ (set-status s a b w h)
  dispatch-status Command.si c args s w h = si-status s w h
  dispatch-status Command.start c args s w h = start-status s w h
  dispatch-status Command.unknown c args s w h = stays s w h

-- From the end of one command to the end of the next, the status stays, goes from NOT LOADED to
-- LOADED, from LOADED to RUNNING or from RUNNING to LOADED: no other change happens, on any branch
-- of any command that returns.
pub middleware_status :
    {K : Type 0} (host : Host K) (cmd : List Text) (w : World K)
    → After (λ w'. allowed w.conf.status w'.conf.status ≡ true) (middleware host cmd w)
unfolding middleware
middleware_status host [] w = stays w.conf.status w refl
middleware_status host (c ∷ args) w =
    dispatch-status host (command_of c) c args w.conf.status w refl
