-- ===== src/Sdb/Memory/Stop/Track.antt =====
-- The invariant across a stop of the program (310551113_hw4/sdb.cpp): `resetbreak`,
-- `restoreifbreak` and `waitstatus`.
use advanced_programming_in.Sdb.Memory.Counter.{HasCounter}
use mathlib.Core.Path.{subst}
use advanced_programming_in.Base.{ℕ, ◌+◌, ◌-◌, ◌*◌, ◌%◌, ◌^◌, ◌<◌, ◌≡◌, ◌≢◌, refl, arith, Bool}
use advanced_programming_in.Base.{none, some, Option, ◌++◌, ◌∷◌, [], if◌then◌else◌}
use advanced_programming_in.Base.Text.{Text, text}
use advanced_programming_in.Base.Word.{IsByte}
use advanced_programming_in.Sdb.Config.{success, find}
use advanced_programming_in.Sdb.Host.{Host, IsTracee, stopped}
use advanced_programming_in.Sdb.World.{World, done, said, reg_index}
use advanced_programming_in.Sdb.Stops.{resetbreak, restoreifbreak, index_of, on_wait, waitstatus}
use advanced_programming_in.Sdb.Memory.Consistent.{IsConsistent, IsArmed, IsArmedFor, IsTracked}
use advanced_programming_in.Sdb.Memory.Stop.{index_of-get, resetbreak_lem, restore_at_bytes}
use advanced_programming_in.Sdb.Memory.Stop.{stop_msg}

pub reg_index-found :
    {K : Type 0} (reg : Text) (r : ℕ) (w : World K)
    → find w.offsets reg ≡ some r
    → reg_index reg w ≡ done r w
unfolding reg_index
reg_index-found reg r w e = ground arith

-- The kernel and `lid` are replaced.
abbrev pub moved : {K : Type 0} → World K → K → Option ℕ → World K
moved w k lid = record w { kernel = k; conf = record w.conf { lid = lid } }

-- Where the program stopped: the program counter, without the one byte of an executed `int3`.
abbrev pub stop_address : {K : Type 0} → Host K → World K → Bool → ℕ → ℕ
stop_address host w cont r =
    (host.peek_user w.kernel w.conf.child (r * 8) + 2 ^ 64 - (if cont then 1 else 0)) % 2 ^ 64

module _ {K : Type 0} (host : Host K) (byte : K → ℕ → ℕ) (mapped : ℕ → Bool) (orig : ℕ → ℕ)
    (w : World K) (tracee : IsTracee host w.conf.child byte mapped) (b : IsByte orig) where
  resetbreak_by :
      (lid : Option ℕ)
      → w.conf.lid ≡ lid
      → IsConsistent orig mapped (byte w.kernel) w.conf.bps
      → IsArmedFor (byte w.kernel) w.conf.bps lid
      → (k : K) × (resetbreak host w ≡ done success (moved w k none))
        × IsTracked orig mapped (byte k) (moved w k none).conf
        × ((reg : ℕ) → host.peek_user k w.conf.child reg ≡ host.peek_user w.kernel w.conf.child reg)
  unfolding resetbreak
  resetbreak_by none e c armed =
      (w.kernel, ground arith, record { consistent = c; armed = armed }, λ reg. refl)
  resetbreak_by (some id) e c (bp, present, armed) =
      let (k, runs, c', armed', regs) =
        resetbreak_lem host byte mapped orig w tracee b c id bp present e armed in
      (k, runs, record { consistent = c'; armed = armed' }, regs)

  -- Whatever `lid` was: then it is -1 and every breakpoint is in memory.
  pub resetbreak-IsTracked :
      IsTracked orig mapped (byte w.kernel) w.conf
      → (k : K) × (resetbreak host w ≡ done success (moved w k none))
        × IsTracked orig mapped (byte k) (moved w k none).conf
        × ((reg : ℕ) → host.peek_user k w.conf.child reg ≡ host.peek_user w.kernel w.conf.child reg)
  resetbreak-IsTracked t = resetbreak_by w.conf.lid refl t.consistent t.armed

  -- At no breakpoint nothing happens.
  pub restoreifbreak_miss :
      (cont : Bool) (r : ℕ)
      → HasCounter w.offsets r
      → index_of w.conf.bps (stop_address host w cont r) ≡ none
      → restoreifbreak host cont w ≡ done success w
  unfolding restoreifbreak
  restoreifbreak_miss cont r register miss =
      ground (arith, reg_index-found (text "rip") r w register.0)

  pub restoreifbreak_hit :
      (cont : Bool) (r id : ℕ)
      → HasCounter w.offsets r
      → index_of w.conf.bps (stop_address host w cont r) ≡ some id
      → IsTracked orig mapped (byte w.kernel) w.conf
      → w.conf.lid ≡ none
      → (k : K) × (restoreifbreak host cont w
          ≡ done success (
              said (stop_msg (host.peek_user w.kernel w.conf.child (r * 8))) (moved w k (some id))))
        × (host.peek_user k w.conf.child (r * 8) ≡ stop_address host w cont r)
        × ((i : ℕ)
            → i < 8
            → byte k (stop_address host w cont r + i) ≡ orig (stop_address host w cont r + i))
        × IsTracked orig mapped (byte k) (moved w k (some id)).conf
  unfolding restoreifbreak
  restoreifbreak_hit cont r id register hit t fresh =
      let (bp, present, here) = index_of-get w.conf.bps (stop_address host w cont r) id hit in
      let armed : IsArmed (byte w.kernel) w.conf.bps =
        subst (λ l. IsArmedFor (byte w.kernel) w.conf.bps l) fresh t.armed in
      let rip = host.peek_user w.kernel w.conf.child (r * 8) in
      let (k, runs, back, bytes) =
        restore_at_bytes host byte mapped orig w tracee b t.consistent id bp present rip r
          register in
      (
        k,
        ground (arith, reg_index-found (text "rip") r w register.0, runs),
        ground (arith, back, here),
        λ i lt. ground (arith, bytes (stop_address host w cont r + i)),
        record {
          consistent = record {
            original = t.consistent.original;
            genuine = λ x. ground (arith, bytes x, t.consistent.genuine x);
            apart = t.consistent.apart;
            distinct = t.consistent.distinct;
            on_mapped = t.consistent.on_mapped;
          };
          armed = (bp, present, λ x h. ground (arith, bytes x, armed x h));
        },
      )

module _ {K : Type 0} (host : Host K) (byte : K → ℕ → ℕ) (mapped : ℕ → Bool) (orig : ℕ → ℕ)
    (w : World K) (tracee : IsTracee host w.conf.child byte mapped) (b : IsByte orig) where
  -- The world when `restoreifbreak` begins.
  abbrev pub woken : K → World K
  woken k = record (moved w k none) { out = w.out ++ (text "wait: stopped" ∷ []) }

  pub waitstatus_from :
      (cont : Bool) (k₀ k : K)
      → host.wait_child w.kernel w.conf.child ≡ some (stopped, k₀)
      → resetbreak host (record w { kernel = k₀; out = w.out ++ (text "wait: stopped" ∷ []) })
        ≡ done success (woken k)
      → (w' : World K) → restoreifbreak host cont (woken k) ≡ done success w'
      → waitstatus host cont w ≡ done success w'
  unfolding waitstatus on_wait
  waitstatus_from cont k₀ k waits resets w' restores = ground (arith, resets, restores)

  -- What a stop leaves: the world `w'`, in which the program counter is back at the breakpoint.
  pub record Stopped (cont : Bool) (at : ℕ) (r : ℕ) (w' : World K) : Type 0 where
    pub runs : waitstatus host cont w ≡ done success w'
    pub tracked : IsTracked orig mapped (byte w'.kernel) w'.conf
    pub same_breaks : w'.conf.bps ≡ w.conf.bps
    pub same_status : w'.conf.status ≡ w.conf.status
    pub same_child : w'.conf.child ≡ w.conf.child
    pub same_offsets : w'.offsets ≡ w.offsets
    pub last : w'.conf.lid ≡ index_of w.conf.bps at
    pub back :
        w'.conf.lid ≢ none
        → (host.peek_user w'.kernel w.conf.child (r * 8) ≡ at)
          × ((i : ℕ) → i < 8 → byte w'.kernel (at + i) ≡ orig (at + i))

  -- `k₀` is the kernel at the stop, where memory is still as the debugger left it.
  abbrev pub interrupted : K → World K
  interrupted k₀ = record w { kernel = k₀; out = w.out ++ (text "wait: stopped" ∷ []) }

  reset :
      (k₀ : K)
      → IsTracked orig mapped (byte k₀) w.conf
      → (k : K) × (resetbreak host (interrupted k₀) ≡ done success (woken k))
        × IsTracked orig mapped (byte k) (woken k).conf
        × ((reg : ℕ) → host.peek_user k w.conf.child reg ≡ host.peek_user k₀ w.conf.child reg)
  reset k₀ t = resetbreak-IsTracked host byte mapped orig (interrupted k₀) tracee b t

  waitstatus_by :
      (cont : Bool) (r : ℕ) (k₀ : K)
      → host.wait_child w.kernel w.conf.child ≡ some (stopped, k₀)
      → IsTracked orig mapped (byte k₀) w.conf
      → HasCounter w.offsets r
      → (found : Option ℕ)
      → index_of w.conf.bps (stop_address host (record w { kernel = k₀ }) cont r) ≡ found
      → (w' : World K) × Stopped cont (stop_address host (record w { kernel = k₀ }) cont r) r w'
  waitstatus_by cont r k₀ waits t register none miss =
      let (k, resets, t₁, regs) = reset k₀ t in
      let quiet =
        restoreifbreak_miss host byte mapped orig (woken k) tracee b cont r register
          (rw (regs (r * 8)) miss) in
      (
        woken k,
        record {
          runs = waitstatus_from cont k₀ k waits resets (woken k) quiet;
          tracked = t₁;
          same_breaks = refl;
          same_status = refl;
          same_child = refl;
          same_offsets = refl;
          last = rw miss;
          back = λ no_last. absurd (no_last refl);
        },
      )
  waitstatus_by cont r k₀ waits t register (some id) hit =
      let (k, resets, t₁, regs) = reset k₀ t in
      let (k', runs, back, bytes, t') =
        restoreifbreak_hit host byte mapped orig (woken k) tracee b cont r id register
          (rw (regs (r * 8)) hit) t₁ refl in
      let w' : World K =
        said (stop_msg (host.peek_user k w.conf.child (r * 8))) (moved (woken k) k' (some id)) in
      (
        w',
        record {
          runs = waitstatus_from cont k₀ k waits resets w' runs;
          tracked = t';
          same_breaks = refl;
          same_status = refl;
          same_child = refl;
          same_offsets = refl;
          last = rw hit;
          back = λ _. (rw (regs (r * 8)) at back, λ i lt. rw (regs (r * 8)) at (bytes i lt));
        },
      )

  -- If the child is reported as stopped, the invariant held of its memory and `rip` is in the
  -- register table, then `waitstatus` returns 0 and the invariant holds, with the same breakpoints,
  -- status, process and register table; `lid` is the breakpoint that the program is at, or -1, and at a breakpoint the
  -- program counter is its address and its eight bytes are the program's own.
  pub waitstatus_stopped :
      (cont : Bool) (r : ℕ) (k₀ : K)
      → host.wait_child w.kernel w.conf.child ≡ some (stopped, k₀)
      → IsTracked orig mapped (byte k₀) w.conf
      → HasCounter w.offsets r
      → (w' : World K) × Stopped cont (stop_address host (record w { kernel = k₀ }) cont r) r w'
  waitstatus_stopped cont r k₀ waits t register =
      waitstatus_by cont r k₀ waits t register
        (index_of w.conf.bps (stop_address host (record w { kernel = k₀ }) cont r)) refl
