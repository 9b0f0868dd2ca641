-- ===== src/Sdb/Shell/Status.antt =====
-- The status as a state machine (310551113_hw4/sdb.cpp): the transitions that commands make.
use advanced_programming_in.Base.{inl, inr, Option-cases, ◌⊎◌, ℕ, ◌≡◌, arith, Option, none, some}
use advanced_programming_in.Base.{Bool, List, [], ◌∷◌, refl}
use advanced_programming_in.Sdb.Stops.{trap, resetbreak, restore_at, restoreifbreak, poke_all}
use advanced_programming_in.Sdb.Stops.{on_wait, waitstatus}
use advanced_programming_in.Sdb.Config.{Breakpoint, Status, loaded}
use advanced_programming_in.Sdb.Host.{Host, WaitStatus, exited, stopped, other}
use advanced_programming_in.Sdb.World.{World, Result, done, aborted, undefined_behaviour, M}
use advanced_programming_in.Sdb.World.{chain, call, reg_index}

-- `P` of the world in which a handler returns.
abbrev pub After : {K A : Type 0} → (World K → Type 0) → Result K A → Type 0
After P (done a w) = P w
After P (Result.exited status w) = Unit
After P aborted = Unit
After P undefined_behaviour = Unit

-- What holds after the first part of a handler is handed to the rest.
pub After-chain :
    {K A B : Type 0} (P Q : World K → Type 0) (r : Result K A) (f : A → M K B)
    → After Q r
    → ((a : A) (w : World K) → Q w → After P (f a w))
    → After P (chain r f)
After-chain P Q (done a w) f first rest = rest a w first
After-chain P Q (Result.exited status w) f first rest = tt
After-chain P Q aborted f first rest = tt
After-chain P Q undefined_behaviour f first rest = tt

pub After-map :
    {K A : Type 0} (P Q : World K → Type 0) (r : Result K A)
    → ((w : World K) → Q w → P w)
    → After Q r
    → After P r
After-map P Q (done a w) f h = f w h
After-map P Q (Result.exited status w) f h = tt
After-map P Q aborted f h = tt
After-map P Q undefined_behaviour f h = tt

-- The status is `s`.
abbrev pub Has : {K : Type 0} → Status → World K → Type 0
Has s w = w.conf.status ≡ s

-- The status is `s`, or the program has ended.
abbrev pub HasOrEnded : {K : Type 0} → Status → World K → Type 0
HasOrEnded s w = (w.conf.status ≡ s) ⊎ (w.conf.status ≡ loaded)

pub call-status :
    {K : Type 0} {s : Status} (k : Option K) (w : World K) → Has s w → After (Has s) (call k w)
call-status none w h = tt
call-status (some k) w h = h

module _ {K : Type 0} (host : Host K) (s : Status) where
  pub resetbreak-status : (w : World K) → Has s w → After (Has s) (resetbreak host w)
  unfolding resetbreak
  resetbreak-status w h = ground arith

  restore_at-status :
      (id rip : ℕ) (w : World K) → Has s w → After (Has s) (restore_at host id rip w)
  unfolding restore_at reg_index
  restore_at-status id rip w h = ground arith

  pub restoreifbreak-status :
      (cont : Bool) (w : World K) → Has s w → After (Has s) (restoreifbreak host cont w)
  unfolding restoreifbreak reg_index
  restoreifbreak-status cont w h = grind (arith, restore_at-status)

  pub poke_all-status :
      (child : ℕ) (bps : List Breakpoint) (w : World K)
      → Has s w
      → After (Has s) (poke_all host child bps w)
  unfolding poke_all
  poke_all-status child [] w h = h
  poke_all-status child (bp ∷ bps) w h =
      After-chain (Has s) (Has s) (call (host.poke_text w.kernel child bp.addr (trap bp.code)) w) _
        (call-status (host.poke_text w.kernel child bp.addr (trap bp.code)) w h)
        (λ _ w' h'. poke_all-status child bps w' h')

  on_wait-status :
      (cont : Bool) (report : WaitStatus) (w : World K)
      → Has s w
      → After (HasOrEnded s) (on_wait host cont report w)
  unfolding on_wait
  on_wait-status cont exited w h = inr refl
  on_wait-status cont stopped w h =
      After-chain (HasOrEnded s) (Has s) (resetbreak host (record w { out = _ })) _
        (resetbreak-status (record w { out = _ }) h)
        λ _ w₁ h₁.
          After-chain (HasOrEnded s) (Has s) (restoreifbreak host cont w₁) _
            (restoreifbreak-status cont w₁ h₁) λ _ w₂ h₂. inl h₂
  on_wait-status cont other w h = inl h

  pub waitstatus-status :
      (cont : Bool) (w : World K) → Has s w → After (HasOrEnded s) (waitstatus host cont w)
  unfolding waitstatus
  waitstatus-status cont w h = elim (Option-cases (host.wait_child w.kernel w.conf.child)) [
    | inl failed ↦ rw failed tt
    | inr ((report, k), e) ↦ rw e (on_wait-status cont report (record w { kernel = k }) h)
  ]
