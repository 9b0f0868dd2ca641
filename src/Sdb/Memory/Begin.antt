-- ===== src/Sdb/Memory/Begin.antt =====
-- `start` of 310551113_hw4/sdb.cpp: a new process under the breakpoints of an earlier one.
use advanced_programming_in.Sdb.Memory.Counter.{HasCounter}
use mathlib.Core.Path.{subst}
use advanced_programming_in.Base.{ℕ, ◌≡◌, ◌∙◌, refl, sym, ap, arith, inl, inr, Bool, false}
use advanced_programming_in.Base.{Option, none, some, List, ◌++◌, get_elem?, if◌then◌else◌}
use advanced_programming_in.Base.Text.{Text, text, to_decimal}
use advanced_programming_in.Base.Word.{IsByte}
use advanced_programming_in.Sdb.Config.{Breakpoint, SdbConfig, success, running, loaded}
use advanced_programming_in.Sdb.Code.Overlay.{has}
use advanced_programming_in.Sdb.Host.{Host, IsTracee, stopped}
use advanced_programming_in.Sdb.World.{World, done, said}
use advanced_programming_in.Sdb.Stops.{waitstatus}
use advanced_programming_in.Sdb.Control.{launch, start}
use advanced_programming_in.Sdb.Memory.Bytes.{IsGenuine}
use advanced_programming_in.Sdb.Memory.Consistent.{IsConsistent, IsArmed, IsArmedFor}
use advanced_programming_in.Sdb.Memory.Launch.{on_kernel, setallbreak_lem}
use advanced_programming_in.Sdb.Memory.Stop.Track.{waitstatus_from, woken, interrupted}
use advanced_programming_in.Sdb.Memory.Execution.{Paused}
use advanced_programming_in.Sdb.Memory.Readied.{IsKnown, reset_Readied, restore_Readied}
use advanced_programming_in.Sdb.Memory.Readied.{with_memory}

-- The documented effect of `fork` and of the calls at the start of a process: its memory is the
-- program's, it stops once, and an option is no memory.
pub record IsBegun {K : Type 0} (host : Host K) (k₀ : K) (program : Text) (pid : ℕ)
    (byte : K → ℕ → ℕ) (orig : ℕ → ℕ) : Type 0 where
  pub process : K
  pub at_stop : K
  pub forks : host.fork_traced k₀ program ≡ some (pid, process)
  pub stops : host.wait_child process pid ≡ some (stopped, at_stop)
  pub own_memory : (x : ℕ) → byte at_stop x ≡ orig x
  pub set_exitkill-byte : (k : K) (x : ℕ) → byte (host.set_exitkill k pid) x ≡ byte k x

module _ {K : Type 0} (host : Host K) (pid : ℕ) (byte : K → ℕ → ℕ) (mapped : ℕ → Bool)
    (orig : ℕ → ℕ) (tracee : IsTracee host pid byte mapped) (b : IsByte orig) where
  -- `w` has the child and its kernel already.
  waitstatus_fresh :
      (w : World K) (r : ℕ) (k : K) (same : w.conf.child ≡ pid)
      → host.wait_child w.kernel w.conf.child ≡ some (stopped, k)
      → IsConsistent orig mapped (byte k) w.conf.bps
      → IsKnown w.conf
      → HasCounter w.offsets r
      → (w' : World K) × (waitstatus host false w ≡ done success w')
        × IsConsistent orig mapped (byte w'.kernel) w'.conf.bps
        × (w'.conf.bps ≡ w.conf.bps)
        × (w'.conf.child ≡ w.conf.child)
        × (w'.offsets ≡ w.offsets)
        × IsKnown w'.conf
  waitstatus_fresh w r k same waits c known register =
      let here = subst (λ p. IsTracee host p byte mapped) (sym same) tracee in
      let (k₁, resets, c₁) =
        reset_Readied host byte mapped orig (interrupted host byte mapped orig w here b k) here b c
          w.conf.lid refl known in
      let (w', restores, s) =
        restore_Readied host byte mapped orig (woken host byte mapped orig w here b k₁) here b c₁ r
          register refl in
      (
        w',
        waitstatus_from host byte mapped orig w here b false k k₁ waits resets w' restores,
        s.consistent,
        s.same_breaks,
        s.same_child,
        s.same_offsets,
        s.known,
      )

  armed_for :
      (mem : ℕ → ℕ) (c : SdbConfig) → IsKnown c → IsArmed mem c.bps → IsArmedFor mem c.bps c.lid
  armed_for mem c known a = by c.lid known
    where
      by :
          (lid : Option ℕ)
          → ((id : ℕ) → lid ≡ some id → (bp : Breakpoint) × (get_elem? c.bps id ≡ some bp))
          → IsArmedFor mem c.bps lid
      by none k = a
      by (some id) k = let (bp, present) = k id refl in (bp, present, λ x h. inr (a x h))

  -- Every breakpoint is in memory, and all other bytes are the program's.
  abbrev pub IsAllSet : World K → List Breakpoint → Type 0
  IsAllSet w bps = (x : ℕ) → byte w.kernel x ≡ (if has bps x then 0xcc else orig x)

  exact-IsGenuine :
      (mem : ℕ → ℕ) (bps : List Breakpoint)
      → ((x : ℕ) → mem x ≡ (if has bps x then 0xcc else orig x))
      → IsGenuine orig mem bps
  exact-IsGenuine mem bps e x = ground (arith, e x)

  exact-IsArmed :
      (mem : ℕ → ℕ) (bps : List Breakpoint)
      → ((x : ℕ) → mem x ≡ (if has bps x then 0xcc else orig x))
      → IsArmed mem bps
  exact-IsArmed mem bps e x h = ground (arith, e x)

  -- What `launch` does behind `waitstatus`.
  abbrev unkillable : World K → World K
  unkillable w =
      said (text "pid " ++ to_decimal w.conf.child)
        (record w { kernel = host.set_exitkill w.kernel w.conf.child })

  launch_lem :
      (w : World K) (r : ℕ) (begun : IsBegun host w.kernel w.conf.program pid byte orig)
      → IsConsistent orig mapped orig w.conf.bps
      → IsKnown w.conf
      → HasCounter w.offsets r
      → (w' : World K) × (launch host pid (record w { kernel = begun.process }) ≡ done success w')
        × Paused host pid byte mapped orig r w.conf.bps w'
        × IsAllSet w' w.conf.bps
  unfolding launch
  launch_lem w r begun c known register =
      let w₀ : World K = record w {
        kernel = begun.process;
        conf = record w.conf { child = pid };
      } in
      let (w₁, runs, c₁, breaks, child, offsets, known₁) =
        waitstatus_fresh w₀ r begun.at_stop refl begun.stops
          (with_memory orig mapped orig (byte begun.at_stop) w.conf.bps c
            (λ x. inl (begun.own_memory x)))
          known register in
      let genuine : IsGenuine orig (byte (unkillable w₁).kernel) w₁.conf.bps = λ x. ground (
        arith,
        ap (λ p. byte (host.set_exitkill w₁.kernel p) x) child,
        begun.set_exitkill-byte w₁.kernel x,
        c₁.genuine x,
      ) in
      let (k, sets, bytes) =
        setallbreak_lem host byte mapped orig pid tracee b (unkillable w₁) child c₁.original
          c₁.on_mapped genuine in
      let w' : World K = record (on_kernel (unkillable w₁) k) {
        conf = record w₁.conf { status = running };
      } in
      (
        w',
        ground (arith, runs, sets),
        record {
          tracked = record {
            consistent =
                with_memory orig mapped (byte w₁.kernel) (byte k) w₁.conf.bps c₁
                  (exact-IsGenuine (byte k) w₁.conf.bps bytes);
            armed = armed_for (byte k) w₁.conf known₁ (exact-IsArmed (byte k) w₁.conf.bps bytes);
          };
          started = refl;
          child = child;
          breaks = breaks;
          register = subst (λ o. HasCounter o r) (sym offsets) register;
        },
        λ x. bytes x ∙ ap (λ l. if has l x then 0xcc else orig x) breaks,
      )

  -- If the status is LOADED and the process begins as it should, then `start` returns 0, and the new
  -- process is stopped with the breakpoints as they were, all of them in memory, and the program's own
  -- bytes everywhere else. The breakpoints may be those of an earlier process, which may have ended
  -- while it was stopped at one of them.
  pub start-Paused :
      (w : World K) (r : ℕ)
      → w.conf.status ≡ loaded
      → IsBegun host w.kernel w.conf.program pid byte orig
      → IsConsistent orig mapped orig w.conf.bps
      → IsKnown w.conf
      → HasCounter w.offsets r
      → (w' : World K) × (start host w ≡ done success w')
        × Paused host pid byte mapped orig r w.conf.bps w'
        × IsAllSet w' w.conf.bps
  unfolding start
  start-Paused w r status begun c known register =
      let (w', runs, paused, all_set) = launch_lem w r begun c known register in
      (w', ground (arith, status, begun.forks, runs), paused, all_set)
