-- ===== src/Sdb/Memory/Kept.antt =====
-- What the commands of 310551113_hw4/sdb.cpp that run the program leave alone: the name of the
-- program, and, when the program has ended, the last breakpoint and the table of registers.
use advanced_programming_in.Base.{inl, inr, Option-cases, ℕ, ◌≡◌, arith, Option, none, some, Bool}
use advanced_programming_in.Base.{true, false, List, [], ◌∷◌, refl}
use advanced_programming_in.Base.Text.{Text}
use advanced_programming_in.Sdb.Config.{Breakpoint, loaded, running}
use advanced_programming_in.Sdb.Host.{Host, WaitStatus, exited, stopped, other}
use advanced_programming_in.Sdb.World.{World, Result, call, reg_index}
use advanced_programming_in.Sdb.Stops.{trap, sort, resetbreak, restore_at, restoreifbreak}
use advanced_programming_in.Sdb.Stops.{poke_all, setallbreak, on_wait, waitstatus}
use advanced_programming_in.Sdb.Control.{cont, si, launch, start}
use advanced_programming_in.Sdb.Shell.Status.{After, After-chain, After-map, Has}
use advanced_programming_in.Sdb.Shell.Status.{resetbreak-status, restoreifbreak-status}

-- The program is `p`.
abbrev pub Runs : {K : Type 0} → Text → World K → Type 0
Runs p w = w.conf.program ≡ p

call-program :
    {K : Type 0} (p : Text) (k : Option K) (w : World K) → Runs p w → After (Runs p) (call k w)
call-program p none w h = tt
call-program p (some k) w h = h

module _ {K : Type 0} (host : Host K) (p : Text) where
  resetbreak-program : (w : World K) → Runs p w → After (Runs p) (resetbreak host w)
  unfolding resetbreak
  resetbreak-program w h = ground arith

  restore_at-program :
      (id rip : ℕ) (w : World K) → Runs p w → After (Runs p) (restore_at host id rip w)
  unfolding restore_at reg_index
  restore_at-program id rip w h = ground arith

  restoreifbreak-program :
      (is_cont : Bool) (w : World K) → Runs p w → After (Runs p) (restoreifbreak host is_cont w)
  unfolding restoreifbreak reg_index
  restoreifbreak-program is_cont w h = grind (arith, restore_at-program)

  poke_all-program :
      (child : ℕ) (bps : List Breakpoint) (w : World K)
      → Runs p w
      → After (Runs p) (poke_all host child bps w)
  unfolding poke_all
  poke_all-program child [] w h = h
  poke_all-program child (bp ∷ bps) w h =
      After-chain (Runs p) (Runs p) (call (host.poke_text w.kernel child bp.addr (trap bp.code)) w)
        _ (call-program p (host.poke_text w.kernel child bp.addr (trap bp.code)) w h)
        (λ _ w' h'. poke_all-program child bps w' h')

  on_wait-program :
      (is_cont : Bool) (report : WaitStatus) (w : World K)
      → Runs p w
      → After (Runs p) (on_wait host is_cont report w)
  unfolding on_wait
  on_wait-program is_cont exited w h = h
  on_wait-program is_cont stopped w h =
      After-chain (Runs p) (Runs p) (resetbreak host (record w { out = _ })) _
        (resetbreak-program (record w { out = _ }) h)
        λ _ w₁ h₁.
          After-chain (Runs p) (Runs p) (restoreifbreak host is_cont w₁) _
            (restoreifbreak-program is_cont w₁ h₁) λ _ w₂ h₂. h₂
  on_wait-program is_cont other w h = h

  waitstatus-program :
      (is_cont : Bool) (w : World K) → Runs p w → After (Runs p) (waitstatus host is_cont w)
  unfolding waitstatus
  waitstatus-program is_cont w h = elim (Option-cases (host.wait_child w.kernel w.conf.child)) [
    | inl failed ↦ rw failed tt
    | inr ((report, k), e) ↦ rw e (on_wait-program is_cont report (record w { kernel = k }) h)
  ]

  pub cont-program : (w : World K) → Runs p w → After (Runs p) (cont host w)
  unfolding cont
  cont-program w h = grind (arith, waitstatus-program)

  pub si-program : (w : World K) → Runs p w → After (Runs p) (si host w)
  unfolding si
  si-program w h = grind (arith, waitstatus-program)

  launch-program : (pid : ℕ) (w : World K) → Runs p w → After (Runs p) (launch host pid w)
  unfolding launch setallbreak
  launch-program pid w h =
      After-chain (Runs p) (Runs p) _ _
        (waitstatus-program false (record w { conf = record w.conf { child = pid } }) h)
        λ ret w₁ h₁.
          After-chain (Runs p) (Runs p) _ _ (poke_all-program w₁.conf.child (sort w₁.conf.bps) _ h₁)
            λ _ w₂ h₂. h₂

  pub start-program : (w : World K) → Runs p w → After (Runs p) (start host w)
  unfolding start
  start-program w h = elim (Option-cases (host.fork_traced w.kernel w.conf.program)) [
    | inl failed ↦ ground (arith, failed)
    | inr ((pid, k), e) ↦ ground (arith, e, launch-program pid (record w { kernel = k }) h)
  ]

-- Either the program is not ended, or the last breakpoint and the registers are as they were.
abbrev pub Ends : {K : Type 0} → World K → World K → Type 0
Ends w w' = w'.conf.status ≡ loaded → (w'.conf.lid ≡ w.conf.lid) × (w'.offsets ≡ w.offsets)

module _ {K : Type 0} (host : Host K) where
  still_running :
      {A : Type 0} (w : World K) (r : Result K A) → After (Has running) r → After (Ends w) r
  still_running w r h =
      After-map (Ends w) (Has running) r (λ w' e f. absurd (ground (arith, e, f))) h

  on_wait-Ends :
      (is_cont : Bool) (report : WaitStatus) (w : World K)
      → Has running w
      → After (Ends w) (on_wait host is_cont report w)
  unfolding on_wait
  on_wait-Ends is_cont exited w h = λ e. (refl, refl)
  on_wait-Ends is_cont stopped w h =
      After-chain (Ends w) (Has running) (resetbreak host (record w { out = _ })) _
        (resetbreak-status host running (record w { out = _ }) h)
        λ _ w₁ h₁.
          After-chain (Ends w) (Has running) (restoreifbreak host is_cont w₁) _
            (restoreifbreak-status host running is_cont w₁ h₁)
            λ _ w₂ h₂. λ e. absurd (ground (arith, h₂, e))
  on_wait-Ends is_cont other w h = λ e. (refl, refl)

  waitstatus-Ends :
      (is_cont : Bool) (w : World K) → Has running w → After (Ends w) (waitstatus host is_cont w)
  unfolding waitstatus
  waitstatus-Ends is_cont w h = elim (Option-cases (host.wait_child w.kernel w.conf.child)) [
    | inl failed ↦ rw failed tt
    | inr ((report, k), e) ↦ rw e (on_wait-Ends is_cont report (record w { kernel = k }) h)
  ]

  pub cont-Ends : (w : World K) → Has running w → After (Ends w) (cont host w)
  unfolding cont
  cont-Ends w h = rw h (
      waitstatus-Ends true
        (record w {
          kernel = host.resume w.kernel w.conf.child;
          conf = record w.conf { status = running };
        })
        refl)

  pub si-Ends : (w : World K) → Has running w → After (Ends w) (si host w)
  unfolding si
  si-Ends w h = elim (Option-cases (host.single_step w.kernel w.conf.child)) [
    | inl failed ↦ rw (h, failed) tt
    | inr (k, e) ↦
        rw (h, e)
          (waitstatus-Ends false
            (record w { kernel = k; conf = record w.conf { status = running } }) refl)
  ]
