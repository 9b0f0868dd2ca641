-- ===== src/Sdb/Memory/Execution.antt =====
-- A sequence of `cont` and `si` (310551113_hw4/sdb.cpp): the invariant at every stop.
use advanced_programming_in.Sdb.Memory.Counter.{HasCounter}
use mathlib.Core.Path.{subst}
use advanced_programming_in.Base.{ℕ, ◌+◌, ◌*◌, ◌<◌, ◌≡◌, ◌∙◌, ◌⊎◌, refl, sym, ap, arith, inl, inr}
use advanced_programming_in.Base.{Bool, true, false, some, List, [], ◌∷◌, ◌++◌, get_elem?}
use advanced_programming_in.Base.Text.{text, to_decimal}
use advanced_programming_in.Base.Word.{IsByte}
use advanced_programming_in.Sdb.Config.{Breakpoint, Code, success, err_wrongstatus, running}
use advanced_programming_in.Sdb.Config.{loaded, Checked}
use advanced_programming_in.Sdb.Host.{Host, IsTracee, exited}
use advanced_programming_in.Sdb.World.{World, M, done, said, pure, ◌>>=◌, status_msg}
use advanced_programming_in.Sdb.Stops.{waitstatus, on_wait}
use advanced_programming_in.Sdb.Control.{cont, si}
use advanced_programming_in.Sdb.Memory.Consistent.{IsTracked}
use advanced_programming_in.Sdb.Memory.Stop.{index_of-get}
use advanced_programming_in.Sdb.Memory.Stop.Track.{Stopped, waitstatus_stopped}
use advanced_programming_in.Sdb.Memory.Steady.{IsSteady, IsTracked-same}

pub data Move : Type 0 where
  resumes steps : Move

abbrev pub mover : {K : Type 0} → Host K → Move → M K Code
mover host resumes = cont host
mover host steps = si host

-- The commands one after the other, with what each returns.
pub execution : {K : Type 0} → Host K → List Move → M K (List Code)
execution host [] = pure []
execution host (v ∷ vs) = do code ← mover host v; codes ← execution host vs; pure (code ∷ codes)

module _ {K : Type 0} (host : Host K) (pid : ℕ) (byte : K → ℕ → ℕ) (mapped : ℕ → Bool)
    (orig : ℕ → ℕ) (r : ℕ) (bps : List Breakpoint) where
  -- The program is stopped with these breakpoints, and the invariant holds.
  pub record Paused (w : World K) : Type 0 where
    pub tracked : IsTracked orig mapped (byte w.kernel) w.conf
    pub started : w.conf.status ≡ running
    pub child : w.conf.child ≡ pid
    pub breaks : w.conf.bps ≡ bps
    pub register : HasCounter w.offsets r

  -- If it is stopped at one of them, then the program counter is its address, and its eight bytes
  -- are the program's own.
  pub record Halted (w : World K) : Type 0 where
    pub paused : Paused w
    pub at_break :
        (id : ℕ)
        → w.conf.lid ≡ some id
        → (bp : Breakpoint) × (get_elem? bps id ≡ some bp)
          × (host.peek_user w.kernel pid (r * 8) ≡ bp.addr)
          × ((i : ℕ) → i < 8 → byte w.kernel (bp.addr + i) ≡ orig (bp.addr + i))

  -- Stopped, or the program has ended.
  abbrev Ended : World K → Type 0
  Ended w = (w.conf.status ≡ loaded) × (w.conf.bps ≡ bps)

  abbrev pub HaltedOrEnded : World K → Type 0
  HaltedOrEnded w = Halted w ⊎ Ended w

  abbrev pub PausedOrEnded : World K → Type 0
  PausedOrEnded w = Paused w ⊎ Ended w

  still_PausedOrEnded : (w : World K) → HaltedOrEnded w → PausedOrEnded w
  still_PausedOrEnded w (inl h) = inl h.paused
  still_PausedOrEnded w (inr e) = inr e

  abbrev pub Returns : M K Code → World K → Type 0
  Returns part w = (code : Code) × (w' : World K) × (part w ≡ done code w') × HaltedOrEnded w'

  module _ (tracee : IsTracee host pid byte mapped) (b : IsByte orig)
      (steady : IsSteady host pid byte) where
    Stopped-Halted :
        (w : World K) (is_cont : Bool) (same : w.conf.child ≡ pid) (at : ℕ) (w' : World K)
        → w.conf.status ≡ running
        → w.conf.bps ≡ bps
        → HasCounter w.offsets r
        → Stopped host byte mapped orig w
            (subst (λ p. IsTracee host p byte mapped) (sym same) tracee)
            b
            is_cont
            at
            r
            w'
        → Halted w'
    Stopped-Halted w is_cont same at w' started breaks register s = record {
      paused = record {
        tracked = s.tracked;
        started = s.same_status ∙ started;
        child = s.same_child ∙ same;
        breaks = s.same_breaks ∙ breaks;
        register = subst (λ o. HasCounter o r) (sym s.same_offsets) register;
      };
      at_break = λ id here.
          let (bp, present, at_bp) = index_of-get w.conf.bps at id (sym s.last ∙ here) in
          let (back, bytes) = s.back (λ e. ground (arith, e, here)) in
          (
            bp,
            ap (λ l. get_elem? l id) (sym breaks) ∙ present,
            ap (λ p. host.peek_user w'.kernel p (r * 8)) (sym same) ∙ back ∙ sym at_bp,
            λ i lt.
                ap (λ x. byte w'.kernel (x + i)) at_bp
                ∙ bytes i lt
                ∙ ap (λ x. orig (x + i)) (sym at_bp),
          );
    }

    -- The world when the program has exited.
    abbrev ended : K → World K → World K
    ended k' w =
        let left = record w { kernel = k'; out = w.out ++ (text "wait: exit" ∷ []) } in
        record (said
          (text "child process "
            ++ to_decimal w.conf.child
            ++ text " terminiated normally (code 0)")
          left) { conf = record w.conf { status = loaded } }

    waitstatus_exited :
        (is_cont : Bool) (k' : K) (w : World K)
        → host.wait_child w.kernel w.conf.child ≡ some (exited, k')
        → (w' : World K) × (waitstatus host is_cont w ≡ done success w')
          × (w'.conf.status ≡ loaded)
          × (w'.conf.bps ≡ w.conf.bps)
    unfolding waitstatus on_wait
    waitstatus_exited is_cont k' w e = (ended k' w, rw (e, waitstatus) refl, refl, refl)

    -- When the program has been made to run, in the kernel of `w`.
    waits :
        (is_cont : Bool) (w : World K)
        → w.conf.child ≡ pid
        → w.conf.status ≡ running
        → w.conf.bps ≡ bps
        → HasCounter w.offsets r
        → IsTracked orig mapped (byte w.kernel) w.conf
        → Returns (waitstatus host is_cont) w
    waits is_cont w same started breaks register t = elim (steady.wait_child-some w.kernel) [
      | inl (k, e, bytes) ↦
          let (w', s) =
            waitstatus_stopped host byte mapped orig w
              (subst (λ p. IsTracee host p byte mapped) (sym same) tracee) b is_cont r k
              (ap (λ p. host.wait_child w.kernel p) same ∙ e)
              (IsTracked-same orig mapped (byte w.kernel) (byte k) w.conf bytes t) register in
          (success, w', s.runs, inl (Stopped-Halted w is_cont same _ w' started breaks register s))
      | inr (k, e) ↦
          let (w', runs, ended, kept) =
            waitstatus_exited is_cont k w (ap (λ p. host.wait_child w.kernel p) same ∙ e) in
          (success, w', runs, inr (ended, kept ∙ breaks))
    ]

    pub cont-Returns : (w : World K) → Paused w → Returns (cont host) w
    unfolding cont
    cont-Returns w h =
        let started = record w {
          kernel = host.resume w.kernel w.conf.child;
          conf = record w.conf { status = running };
        } in
        let same_bytes = λ (x : ℕ).
          ap (λ p. byte (host.resume w.kernel p) x) h.child ∙ steady.resume-byte w.kernel x in
        let (code, w', runs, h') = waits true started h.child refl h.breaks h.register (
          IsTracked-same orig mapped (byte w.kernel) _ started.conf same_bytes
            (record { consistent = h.tracked.consistent; armed = h.tracked.armed })) in
        (code, w', ground (arith, h.started, runs), h')

    pub si-Returns : (w : World K) → Paused w → Returns (si host) w
    unfolding si
    si-Returns w h =
        let (k, stepped, same_bytes) = steady.single_step-some w.kernel in
        let (code, w', runs, h') =
          waits false (record w { kernel = k }) h.child h.started h.breaks h.register
            (IsTracked-same orig mapped (byte w.kernel) (byte k) w.conf same_bytes h.tracked) in
        (
          code,
          w',
          ground (arith, h.started, ap (λ p. host.single_step w.kernel p) h.child ∙ stepped, runs),
          h',
        )

    ended-Returns :
        (v : Move) (w : World K)
        → w.conf.status ≡ loaded
        → w.conf.bps ≡ bps
        → Returns (mover host v) w
    unfolding cont si
    ended-Returns resumes w e kept = (
      err_wrongstatus,
      said (status_msg Checked.cont w.conf.status) w,
      ground arith,
      inr (e, kept),
    )
    ended-Returns steps w e kept =
        (err_wrongstatus, said (status_msg Checked.si w.conf.status) w, ground arith, inr (e, kept))

    mover-Returns : (v : Move) (w : World K) → PausedOrEnded w → Returns (mover host v) w
    mover-Returns resumes w (inl h) = cont-Returns w h
    mover-Returns steps w (inl h) = si-Returns w h
    mover-Returns v w (inr (e, kept)) = ended-Returns v w e kept

    execution-return :
        (vs : List Move) (w : World K)
        → HaltedOrEnded w
        → (codes : List Code) × (w' : World K) × (execution host vs w ≡ done codes w')
          × HaltedOrEnded w'
    unfolding execution
    execution-return [] w h = ([], w, refl, h)
    execution-return (v ∷ vs) w h =
        let (code, w₁, runs, h₁) = mover-Returns v w (still_PausedOrEnded w h) in
        let (codes, w₂, rest, h₂) = execution-return vs w₁ h₁ in
        (code ∷ codes, w₂, rw (runs, rest) refl, h₂)

    -- Any sequence of `cont` and `si` of a steady program returns, with the breakpoints as they were.
    -- Behind its last command either the program has ended, or it is stopped and the invariant holds:
    -- every breakpoint is in memory, but perhaps those in the word of the one it is stopped at, where
    -- the program counter is and whose bytes are the program's own; all other bytes are the program's.
    pub execution-HaltedOrEnded :
        (v : Move) (vs : List Move) (w : World K)
        → PausedOrEnded w
        → (codes : List Code) × (w' : World K) × (execution host (v ∷ vs) w ≡ done codes w')
          × HaltedOrEnded w'
    unfolding execution
    execution-HaltedOrEnded v vs w h =
        let (code, w₁, runs, h₁) = mover-Returns v w h in
        let (codes, w₂, rest, h₂) = execution-return vs w₁ h₁ in
        (code ∷ codes, w₂, rw (runs, rest) refl, h₂)
