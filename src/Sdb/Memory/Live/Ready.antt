-- ===== src/Sdb/Memory/Live/Ready.antt =====
-- What is left of the invariant when the program has ended (310551113_hw4/sdb.cpp).
use advanced_programming_in.Sdb.Memory.Counter.{HasCounter}
use mathlib.Core.Path.{subst}
use advanced_programming_in.Base.{ℕ, ◌≡◌, ◌∙◌, inl, inr, refl, sym, ap, arith, Bool, Option, none}
use advanced_programming_in.Base.{some, List, get_elem?}
use advanced_programming_in.Base.Text.{Text}
use advanced_programming_in.Sdb.Config.{Breakpoint}
use advanced_programming_in.Sdb.Host.{Host}
use advanced_programming_in.Sdb.World.{World, Result, done}
use advanced_programming_in.Sdb.Shell.Status.{After}
use advanced_programming_in.Sdb.Memory.Consistent.{IsConsistent, IsArmedFor}
use advanced_programming_in.Sdb.Memory.Execution.{Paused, HaltedOrEnded}
use advanced_programming_in.Sdb.Memory.Readied.{with_memory}
use advanced_programming_in.Sdb.Memory.Kept.{Ends}
use advanced_programming_in.Sdb.Memory.Live.{IsProcess, Live}

pub After-done :
    {K A : Type 0} (P : World K → Type 0) (r : Result K A) (a : A) (w : World K)
    → After P r
    → r ≡ done a w
    → P w
After-done P r a w h e = subst (After P) e h

-- A handler that returns does so in one world.
abbrev world_of : {K A : Type 0} → World K → Result K A → World K
world_of v (done a w) = w
world_of v _ = v

pub done-injective :
    {K A : Type 0} (r : Result K A) (a a' : A) (w w' : World K)
    → r ≡ done a w
    → r ≡ done a' w'
    → w ≡ w'
done-injective r a a' w w' e e' = ap (world_of w) (sym e ∙ e')

pub IsArmedFor-known :
    (mem : ℕ → ℕ) (bps : List Breakpoint) (lid : Option ℕ)
    → IsArmedFor mem bps lid
    → (id : ℕ) → lid ≡ some id
    → (bp : Breakpoint) × (get_elem? bps id ≡ some bp)
IsArmedFor-known mem bps none a id e = cc
IsArmedFor-known mem bps (some n) (bp, present, a) id e = (bp, ground (arith, e, present))

module _ {K : Type 0} (host : Host K) (program : Text) (byte : ℕ → K → ℕ → ℕ) (mapped : ℕ → Bool)
    (orig : ℕ → ℕ) (r : ℕ) where
  -- Only what was printed changes.
  pub told-Paused :
      (pid : ℕ) (bps : List Breakpoint) (w : World K) (out : List Text)
      → Paused host pid (byte pid) mapped orig r bps w
      → Paused host pid (byte pid) mapped orig r bps (record w { out = out })
  told-Paused pid bps w out p = record {
    tracked = p.tracked;
    started = p.started;
    child = p.child;
    breaks = p.breaks;
    register = p.register;
  }

  pub told-Live :
      (w : World K) (out : List Text)
      → Live host program byte mapped orig r w
      → Live host program byte mapped orig r (record w { out = out })
  told-Live w out (named, inl (pid, process, p)) =
      (named, inl (pid, process, told-Paused pid w.conf.bps w out p))
  told-Live w out (named, inr ready) = (
    named,
    inr (record {
      status = ready.status;
      consistent = ready.consistent;
      known = ready.known;
      register = ready.register;
    }),
  )

  -- Behind a command that ran the process, which was paused in `w`.
  pub HaltedOrEnded-Live :
      (pid : ℕ) (w w' : World K)
      → IsProcess host program byte mapped orig r pid
      → Paused host pid (byte pid) mapped orig r w.conf.bps w
      → w'.conf.program ≡ program
      → Ends w w'
      → HaltedOrEnded host pid (byte pid) mapped orig r w.conf.bps w'
      → Live host program byte mapped orig r w'
  HaltedOrEnded-Live pid w w' process p named ends (inl halted) = (
    named,
    inl (
      pid,
      process,
      record {
        tracked = halted.paused.tracked;
        started = halted.paused.started;
        child = halted.paused.child;
        breaks = refl;
        register = halted.paused.register;
      },
    ),
  )
  HaltedOrEnded-Live pid w w' process p named ends (inr (status, kept)) =
      let (lid, offsets) = ends status in
      (
        named,
        inr (record {
          status = status;
          consistent = subst (IsConsistent orig mapped orig) (sym kept) (
              with_memory orig mapped (byte pid w.kernel) orig w.conf.bps p.tracked.consistent
                (λ x. inl refl));
          known = λ id e.
              let (bp, present) =
                IsArmedFor-known (byte pid w.kernel) w.conf.bps w.conf.lid p.tracked.armed id
                  (sym lid ∙ e) in
              (bp, ap (λ l. get_elem? l id) kept ∙ present);
          register = subst (λ o. HasCounter o r) (sym offsets) p.register;
        }),
      )
