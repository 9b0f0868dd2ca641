-- ===== src/Sdb/Memory/Live/Reached.antt =====
-- Everything that can be reached by safe lines (310551113_hw4/sdb.cpp).
use mathlib.Core.Path.{subst}
use advanced_programming_in.Base.{ℕ, ◌≡◌, Bool, List}
use advanced_programming_in.Base.Text.{Text}
use advanced_programming_in.Base.Word.{IsByte}
use advanced_programming_in.Sdb.Config.{Code}
use advanced_programming_in.Sdb.Host.{Host}
use advanced_programming_in.Sdb.World.{World, done}
use advanced_programming_in.Sdb.Shell.{middleware}
use advanced_programming_in.Sdb.Memory.Live.{IsSafe, Forks, Live, Step, typed, Reach, here, next}
use advanced_programming_in.Sdb.Memory.Live.Ready.{done-injective}
use advanced_programming_in.Sdb.Memory.Live.Lines.{line_Returns}

module _ {K : Type 0} (host : Host K) (program : Text) (byte : ℕ → K → ℕ → ℕ) (mapped : ℕ → Bool)
    (orig : ℕ → ℕ) (r : ℕ) (b : IsByte orig) (forks : Forks host program byte mapped orig r) where
  Step-Live :
      {u v : World K}
      → Step host program byte mapped orig r u v
      → Live host program byte mapped orig r u
      → Live host program byte mapped orig r v
  Step-Live (typed line code safe e) live =
      let (code', w', e', live') =
        line_Returns host program byte mapped orig r b forks line _ live safe in
      subst (Live host program byte mapped orig r) (done-injective _ code' code w' _ e' e) live'

  Reach-Live :
      {w v : World K}
      → Reach host program byte mapped orig r w v
      → Live host program byte mapped orig r w
      → Live host program byte mapped orig r v
  Reach-Live here live = live
  Reach-Live (next reach step) live = Step-Live step (Reach-Live reach live)

  -- Every fork of the loaded program gives a process that does not write to its own memory and ends by
  -- no signal. From a debugger that is ready to start the program, or has it stopped under the
  -- invariant, with lines that are each safe where they are typed: whatever is reached, the debugger is
  -- again in one of these two states, and the next safe line returns there. So over any number of
  -- processes one after the other, whenever a process is stopped, memory is the program but for the
  -- breakpoints that are set at that time, and all of them are in memory but for those in the word of
  -- the one it is stopped at.
  pub reached-Live :
      (w v : World K)
      → Live host program byte mapped orig r w
      → Reach host program byte mapped orig r w v
      → Live host program byte mapped orig r v
        × ((line : List Text)
            → IsSafe mapped line v
            → (code : Code) × (v' : World K) × (middleware host line v ≡ done code v')
              × Live host program byte mapped orig r v')
  reached-Live w v live reach =
      let live_there = Reach-Live reach live in
      (
        live_there,
        λ line safe. line_Returns host program byte mapped orig r b forks line v live_there safe,
      )
