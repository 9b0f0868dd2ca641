-- ===== src/Sdb/Memory/Live/Edits.antt =====
-- `break` and `delete` in a live debugger with a process (310551113_hw4/sdb.cpp).
use advanced_programming_in.Base.{ℕ, ◌≡◌, inl, inr, refl, sym, arith, Bool, Bool-cases, ltb}
use advanced_programming_in.Base.{length, get_elem?_within, [], ◌∷◌}
use advanced_programming_in.Sdb.World.{World}
use advanced_programming_in.Sdb.Host.{IsTracee, Host}
use mathlib.Core.Path.{subst}
use advanced_programming_in.Base.Text.{Text, strtoull_16, pos, negsuc}
use advanced_programming_in.Base.Word.{IsByte}
use advanced_programming_in.Sdb.Config.{success, err_badbreakpoint}
use advanced_programming_in.Sdb.Code.Overlay.{has}
use advanced_programming_in.Sdb.Control.{too_large, out_of_text, setbreak, deletebreak}
use advanced_programming_in.Sdb.Memory.Consistent.{IsArmedFor}
use advanced_programming_in.Sdb.Memory.Set.{setbreak_lem, setbreak_rejects}
use advanced_programming_in.Sdb.Memory.Delete.{deletebreak_lem}
use advanced_programming_in.Sdb.Memory.Edits.{deletebreak_rejects, past}
use advanced_programming_in.Sdb.Memory.Execution.{Paused}
use advanced_programming_in.Sdb.Memory.Live.{IsSafeFor, IsProcess, Live}
use advanced_programming_in.Sdb.Shell.{Command}
use advanced_programming_in.Sdb.Memory.Live.Ready.{told-Live}
use advanced_programming_in.Sdb.Memory.Live.Commands.{Returns}

module _ {K : Type 0} (host : Host K) (program : Text) (byte : ℕ → K → ℕ → ℕ) (mapped : ℕ → Bool)
    (orig : ℕ → ℕ) (r : ℕ) (b : IsByte orig) where
  pub setbreak-Live :
      (addr : Text) (w : World K) (pid : ℕ)
      → w.conf.program ≡ program
      → IsProcess host program byte mapped orig r pid
      → Paused host pid (byte pid) mapped orig r w.conf.bps w
      → IsSafeFor mapped Command.break (addr ∷ []) w
      → Returns host program byte mapped orig r b (setbreak host addr) w
  setbreak-Live addr w pid named process p (fits, m, apart) =
      let a = strtoull_16 addr in
      let live : Live host program byte mapped orig r w = (named, inl (pid, process, p)) in
      elim (Bool-cases (out_of_text w.conf a)) [
        | inl outside ↦ (
          err_badbreakpoint,
          _,
          (setbreak_rejects host addr w).1 p.started outside,
          told-Live host program byte mapped orig r w _ live,
        )
        | inr inside ↦ elim (Bool-cases (has w.conf.bps a)) [
          | inl present ↦
              let (out, e) = (setbreak_rejects host addr w).2 p.started inside present in
              (err_badbreakpoint, _, e, told-Live host program byte mapped orig r w out live)
          | inr absent ↦
              let (k, e, bytes, tracked) =
                setbreak_lem host (byte pid) mapped orig w
                  (subst (λ p. IsTracee host p (byte pid) mapped) (sym p.child) process.tracee) b
                  p.tracked.consistent a fits m apart addr refl p.started inside absent
                  p.tracked.armed in
              (
                success,
                _,
                e,
                (
                  named,
                  inl (
                    pid,
                    process,
                    record {
                      tracked = tracked;
                      started = p.started;
                      child = p.child;
                      breaks = refl;
                      register = p.register;
                    },
                  ),
                ),
              )
        ]
      ]

  pub deletebreak-Live :
      (name : Text) (w : World K) (pid : ℕ)
      → w.conf.program ≡ program
      → IsProcess host program byte mapped orig r pid
      → Paused host pid (byte pid) mapped orig r w.conf.bps w
      → IsSafeFor mapped Command.delete (name ∷ []) w
      → Returns host program byte mapped orig r b (deletebreak host name) w
  deletebreak-Live name w pid named process p (negsuc n, read, other, unhit) = (
    err_badbreakpoint,
    _,
    deletebreak_rejects host name (negsuc n) w read (unfold too_large in refl) p.started,
    told-Live host program byte mapped orig r w _ (named, inl (pid, process, p)),
  )
  deletebreak-Live name w pid named process p (pos id, read, other, unhit) =
      elim (Bool-cases (ltb id (length w.conf.bps))) [
        | inl within ↦
            let (bp, present) = get_elem?_within w.conf.bps id (ground (arith, within)) in
            let (k, e, bytes, tracked) =
              deletebreak_lem host (byte pid) mapped orig w
                (subst (λ p. IsTracee host p (byte pid) mapped) (sym p.child) process.tracee) b
                p.tracked.consistent
                (subst (λ l. IsArmedFor (byte pid w.kernel) w.conf.bps l) unhit p.tracked.armed) id
                bp present name read p.started unhit in
            (
              success,
              _,
              e,
              (
                named,
                inl (
                  pid,
                  process,
                  record {
                    tracked = tracked;
                    started = p.started;
                    child = p.child;
                    breaks = refl;
                    register = p.register;
                  },
                ),
              ),
            )
        | inr beyond ↦ (
          err_badbreakpoint,
          _,
          deletebreak_rejects host name (pos id) w read
              (unfold too_large in past id (length w.conf.bps) beyond other) p.started,
          told-Live host program byte mapped orig r w _ (named, inl (pid, process, p)),
        )
      ]
