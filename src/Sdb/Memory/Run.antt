-- ===== src/Sdb/Memory/Run.antt =====
-- `run` of 310551113_hw4/sdb.cpp: `start` and then `cont`, or `cont` alone.
use advanced_programming_in.Sdb.Memory.Counter.{HasCounter}
use advanced_programming_in.Base.{Bool, ℕ, ◌≡◌, ◌⊎◌, arith, inl, inr, ◌++◌}
use advanced_programming_in.Base.Text.{text}
use advanced_programming_in.Base.Word.{IsByte}
use advanced_programming_in.Sdb.Config.{Code, loaded}
use advanced_programming_in.Sdb.Host.{Host, IsTracee}
use advanced_programming_in.Sdb.World.{World, done, said}
use advanced_programming_in.Sdb.Control.{run}
use advanced_programming_in.Sdb.Memory.Consistent.{IsConsistent}
use advanced_programming_in.Sdb.Memory.Execution.{Paused, HaltedOrEnded, Returns, cont-Returns}
use advanced_programming_in.Sdb.Memory.Steady.{IsSteady}
use advanced_programming_in.Sdb.Memory.Begin.{IsBegun, start-Paused}
use advanced_programming_in.Sdb.Memory.Readied.{IsKnown}

module _ {K : Type 0} (host : Host K) (pid : ℕ) (byte : K → ℕ → ℕ) (mapped : ℕ → Bool)
    (orig : ℕ → ℕ) (r : ℕ) where
  -- The program is loaded, and a process of it begins as it should.
  pub record Startable (w : World K) : Type 0 where
    pub status : w.conf.status ≡ loaded
    pub begun : IsBegun host w.kernel w.conf.program pid byte orig
    pub consistent : IsConsistent orig mapped orig w.conf.bps
    pub known : IsKnown w.conf
    pub register : HasCounter w.offsets r

  module _ (tracee : IsTracee host pid byte mapped) (b : IsByte orig)
      (steady : IsSteady host pid byte) where
    run_loaded :
        (w : World K) → Startable w → Returns host pid byte mapped orig r w.conf.bps (run host) w
    unfolding run
    run_loaded w s =
        let (w₁, starts, paused, all_set) =
          start-Paused host pid byte mapped orig tracee b w r s.status s.begun s.consistent s.known
            s.register in
        let (code, w₂, conts, h) =
          cont-Returns host pid byte mapped orig r w.conf.bps tracee b steady w₁ paused in
        (code, w₂, ground (arith, s.status, starts, conts), h)

    run_running :
        (w : World K)
        → Paused host pid byte mapped orig r w.conf.bps w
        → Returns host pid byte mapped orig r w.conf.bps (run host) w
    unfolding run
    run_running w p =
        let told = said (text "program " ++ w.conf.program ++ text " is already running") w in
        let (code, w₁, conts, h) =
          cont-Returns host pid byte mapped orig r w.conf.bps tracee b steady told (record {
            tracked = p.tracked;
            started = p.started;
            child = p.child;
            breaks = p.breaks;
            register = p.register;
          }) in
        (code, w₁, ground (arith, p.started, conts), h)

    -- `run` of a steady program that is loaded, or that is stopped under the invariant, returns: the
    -- process of a loaded program is started with all breakpoints, and then it is resumed. Either it
    -- has then ended, or it is stopped under the invariant, at a breakpoint with the program counter
    -- there and the program's own bytes; the breakpoints are as they were.
    pub run-HaltedOrEnded :
        (w : World K)
        → Startable w ⊎ Paused host pid byte mapped orig r w.conf.bps w
        → (code : Code) × (w' : World K) × (run host w ≡ done code w')
          × HaltedOrEnded host pid byte mapped orig r w.conf.bps w'
    run-HaltedOrEnded w (inl s) = run_loaded w s
    run-HaltedOrEnded w (inr p) = run_running w p
