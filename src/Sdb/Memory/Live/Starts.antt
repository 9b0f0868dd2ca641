-- ===== src/Sdb/Memory/Live/Starts.antt =====
-- `start` and `run` in a live debugger (310551113_hw4/sdb.cpp).
use advanced_programming_in.Sdb.Memory.Begin.{IsBegun, start-Paused}
use mathlib.Core.Path.{subst}
use advanced_programming_in.Base.{ℕ, ◌≡◌, refl, sym, arith, Bool, ◌++◌}
use advanced_programming_in.Base.Text.{Text, text}
use advanced_programming_in.Base.Word.{IsByte}
use advanced_programming_in.Sdb.Config.{success}
use advanced_programming_in.Sdb.Host.{Host}
use advanced_programming_in.Sdb.World.{World, done, said}
use advanced_programming_in.Sdb.Control.{setbreak, deletebreak, too_large, out_of_text}
use advanced_programming_in.Sdb.Memory.Execution.{Paused}
use advanced_programming_in.Sdb.Memory.Kept.{start-program}
use advanced_programming_in.Sdb.Memory.Live.{IsProcess, IsPaused, IsReady, Forks}
use advanced_programming_in.Sdb.Memory.Live.Commands.{Returns, cont-Live}
use advanced_programming_in.Sdb.Memory.Live.Ready.{After-done, told-Paused}
use advanced_programming_in.Sdb.Control

module _ {K : Type 0} (host : Host K) (program : Text) (byte : ℕ → K → ℕ → ℕ) (mapped : ℕ → Bool)
    (orig : ℕ → ℕ) (r : ℕ) (b : IsByte orig) (forks : Forks host program byte mapped orig r) where
  pub start-Live :
      (w : World K)
      → w.conf.program ≡ program
      → IsReady host program byte mapped orig r w
      → (w' : World K) × (Control.start host w ≡ done success w')
        × (w'.conf.program ≡ program)
        × IsPaused host program byte mapped orig r w'
  start-Live w named ready =
      let (pid, begun, process) = forks w.kernel in
      let (w', e, paused, all_set) =
        start-Paused host pid (byte pid) mapped orig process.tracee b w r ready.status
          (subst (λ t. IsBegun host w.kernel t pid (byte pid) orig) (sym named) begun)
          ready.consistent ready.known ready.register in
      (
        w',
        e,
        After-done _ _ success w' (start-program host program w named) e,
        (
          pid,
          process,
          record {
            tracked = paused.tracked;
            started = paused.started;
            child = paused.child;
            breaks = refl;
            register = paused.register;
          },
        ),
      )

  pub run_ready :
      (w : World K)
      → w.conf.program ≡ program
      → IsReady host program byte mapped orig r w
      → Returns host program byte mapped orig r b (Control.run host) w
  unfolding Control.run
  run_ready w named ready =
      let (w₁, starts, named₁, (pid, process, p)) = start-Live w named ready in
      let (code, w', conts, live) =
        cont-Live host program byte mapped orig r b w₁ pid named₁ process p in
      (code, w', ground (arith, ready.status, starts, conts), live)

  pub run-Paused :
      (w : World K) (pid : ℕ)
      → w.conf.program ≡ program
      → IsProcess host program byte mapped orig r pid
      → Paused host pid (byte pid) mapped orig r w.conf.bps w
      → Returns host program byte mapped orig r b (Control.run host) w
  unfolding Control.run
  run-Paused w pid named process p =
      let told = said (text "program " ++ w.conf.program ++ text " is already running") w in
      let (code, w', conts, live) =
        cont-Live host program byte mapped orig r b told pid named process
          (told-Paused host program byte mapped orig r pid w.conf.bps w _ p) in
      (code, w', ground (arith, p.started, conts), live)
