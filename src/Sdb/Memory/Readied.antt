-- ===== src/Sdb/Memory/Readied.antt =====
-- What `start` of 310551113_hw4/sdb.cpp finds of the last breakpoint of an earlier process: `resetbreak`
-- and `restoreifbreak` when only the consistency of the breakpoints is known.
use advanced_programming_in.Sdb.Memory.Counter.{HasCounter}
use advanced_programming_in.Base.{ℕ, ◌*◌, ◌≡◌, refl, arith, inl, inr, Option-cases, Bool, false}
use advanced_programming_in.Base.{Option, none, some, List, get_elem?}
use advanced_programming_in.Base.Text.{text}
use advanced_programming_in.Base.Word.{IsByte}
use advanced_programming_in.Sdb.Config.{Breakpoint, SdbConfig, success}
use advanced_programming_in.Sdb.Host.{Host, IsTracee}
use advanced_programming_in.Sdb.World.{World, done, said}
use advanced_programming_in.Sdb.Stops.{resetbreak, restoreifbreak, index_of}
use advanced_programming_in.Sdb.Memory.Bytes.{IsGenuine}
use advanced_programming_in.Sdb.Memory.Consistent.{IsConsistent}
use advanced_programming_in.Sdb.Memory.Stop.{index_of-get, resetbreak_bytes, restore_at_bytes}
use advanced_programming_in.Sdb.Memory.Stop.{stop_msg}
use advanced_programming_in.Sdb.Memory.Stop.Track.{moved, stop_address, reg_index-found}
use advanced_programming_in.Sdb.Memory.Stop.Track.{restoreifbreak_miss}

-- The last breakpoint, if there is one, is one of them.
abbrev pub IsKnown : SdbConfig → Type 0
IsKnown c = (id : ℕ) → c.lid ≡ some id → (bp : Breakpoint) × (get_elem? c.bps id ≡ some bp)

-- Another memory for the same breakpoints.
pub with_memory :
    (orig : ℕ → ℕ) (mapped : ℕ → Bool) (m n : ℕ → ℕ) (bps : List Breakpoint)
    → IsConsistent orig mapped m bps
    → IsGenuine orig n bps
    → IsConsistent orig mapped n bps
with_memory orig mapped m n bps c g = record {
  original = c.original;
  genuine = g;
  apart = c.apart;
  distinct = c.distinct;
  on_mapped = c.on_mapped;
}

module _ {K : Type 0} (host : Host K) (byte : K → ℕ → ℕ) (mapped : ℕ → Bool) (orig : ℕ → ℕ)
    (w : World K) (tracee : IsTracee host w.conf.child byte mapped) (b : IsByte orig)
    (c : IsConsistent orig mapped (byte w.kernel) w.conf.bps) where
  -- The world `w'` has the configuration of `w`, but perhaps another last breakpoint.
  pub record Readied (w' : World K) : Type 0 where
    pub consistent : IsConsistent orig mapped (byte w'.kernel) w'.conf.bps
    pub same_breaks : w'.conf.bps ≡ w.conf.bps
    pub same_child : w'.conf.child ≡ w.conf.child
    pub same_offsets : w'.offsets ≡ w.offsets
    pub known : IsKnown w'.conf

  pub reset_Readied :
      (lid : Option ℕ)
      → w.conf.lid ≡ lid
      → IsKnown w.conf
      → (k : K) × (resetbreak host w ≡ done success (moved w k none))
        × IsConsistent orig mapped (byte k) w.conf.bps
  unfolding resetbreak
  reset_Readied none e known = (w.kernel, ground arith, c)
  reset_Readied (some id) e known =
      let (bp, present) = known id e in
      let (k, runs, bytes, regs) =
        resetbreak_bytes host byte mapped orig w tracee b c id bp present e in
      (
        k,
        runs,
        with_memory orig mapped (byte w.kernel) (byte k) w.conf.bps c
            λ x. ground (arith, bytes x, c.genuine x),
      )

  pub restore_Readied :
      (r : ℕ)
      → HasCounter w.offsets r
      → w.conf.lid ≡ none
      → (w' : World K) × (restoreifbreak host false w ≡ done success w') × Readied w'
  unfolding restoreifbreak
  restore_Readied r register fresh =
      elim (Option-cases (index_of w.conf.bps (stop_address host w false r))) [
        | inl miss ↦ (
          w,
          restoreifbreak_miss host byte mapped orig w tracee b false r register miss,
          record {
            consistent = c;
            same_breaks = refl;
            same_child = refl;
            same_offsets = refl;
            known = λ id e. ground (arith, fresh, e);
          },
        )
        | inr (id, hit) ↦
            let (bp, present, here) = index_of-get w.conf.bps _ id hit in
            let rip = host.peek_user w.kernel w.conf.child (r * 8) in
            let (k, runs, back, bytes) =
              restore_at_bytes host byte mapped orig w tracee b c id bp present rip r register in
            (
              said (stop_msg rip) (moved w k (some id)),
              ground (arith, reg_index-found (text "rip") r w register.0, runs),
              record {
                consistent =
                    with_memory orig mapped (byte w.kernel) (byte k) w.conf.bps c
                      λ x. ground (arith, bytes x, c.genuine x);
                same_breaks = refl;
                same_child = refl;
                same_offsets = refl;
                known = λ n e. (bp, ground (arith, present, e));
              },
            )
      ]
