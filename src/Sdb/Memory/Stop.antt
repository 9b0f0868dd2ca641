-- ===== src/Sdb/Memory/Stop.antt =====
-- `resetbreak` and `restoreifbreak` (310551113_hw4/sdb.cpp): the breakpoint that the program was
-- stopped at is put back, and the one that it stops at now is taken out.
pub mod Track
use advanced_programming_in.Sdb.Memory.Counter.{HasCounter}
use advanced_programming_in.Base.{ℕ, zero, suc, ◌+◌, ◌-◌, ◌*◌, ◌%◌, ◌^◌, ◌<◌, ◌≤◌, ◌≡◌, ◌∙◌, refl}
use advanced_programming_in.Base.{ap, arith, Bool-cases, inl, inr, Bool, true, false, none, some}
use advanced_programming_in.Base.{List, [], ◌∷◌, ◌++◌, All, All-get_elem?, get_elem?, ◌==◌, ltb}
use advanced_programming_in.Base.{leb, if◌then◌else◌, ◌&&◌, ◌⊎◌}
use advanced_programming_in.Base.Text.{Text, text, to_hex, pad_left}
use advanced_programming_in.Base.Word.{word, word-ext, IsByte}
use advanced_programming_in.Sdb.Config.{Breakpoint, success, find, at}
use advanced_programming_in.Sdb.Code.{alternate}
use advanced_programming_in.Sdb.Code.Overlay.{has, alternate-arm, alternate-restore}
use advanced_programming_in.Sdb.Host.{Host, IsTracee}
use advanced_programming_in.Sdb.World.{World, done, said, reg_index}
use advanced_programming_in.Sdb.Stops.{resetbreak, restoreifbreak, restore_at, index_of}
use advanced_programming_in.Sdb.Memory.Bytes.{bytes_at, IsOriginal, written, poke_word}
use advanced_programming_in.Sdb.Memory.Consistent.{IsApartFrom, IsConsistent, IsArmed, IsArmedBut}
use advanced_programming_in.Sdb.Memory.Consistent.{in_word, IsApartFrom-IsClear}
use advanced_programming_in.Sdb.Memory.Consistent.{IsOriginal-IsSaved}

pub index_of-get :
    (bps : List Breakpoint) (x id : ℕ)
    → index_of bps x ≡ some id
    → (bp : Breakpoint) × (get_elem? bps id ≡ some bp) × (bp.addr ≡ x)
unfolding index_of
index_of-get [] x id h = cc
index_of-get (bp ∷ bps) x zero h = (bp, refl, ground arith)
index_of-get (bp ∷ bps) x (suc id) h = index_of-get bps x id (ground arith)

abbrev pub stop_msg : ℕ → Text
stop_msg rip = text "breakpoint @ " ++ pad_left 10 32 (to_hex rip) ++ text ": ..."

module _ {K : Type 0} (host : Host K) (byte : K → ℕ → ℕ) (mapped : ℕ → Bool) (orig : ℕ → ℕ)
    (w : World K) (tracee : IsTracee host w.conf.child byte mapped) (b : IsByte orig)
    (c : IsConsistent orig mapped (byte w.kernel) w.conf.bps) (id : ℕ) (bp : Breakpoint)
    (present : get_elem? w.conf.bps id ≡ some bp) where
  here_apart : IsApartFrom w.conf.bps bp.addr
  here_apart = All-get_elem? (λ p. IsApartFrom w.conf.bps p.addr) w.conf.bps id present c.apart

  here-IsOriginal : IsOriginal orig bp
  here-IsOriginal = All-get_elem? (IsOriginal orig) w.conf.bps id present c.original

  here_mapped : mapped bp.addr ≡ true
  here_mapped = All-get_elem? (λ p. mapped p.addr ≡ true) w.conf.bps id present c.on_mapped

  abbrev armed_byte : ℕ → ℕ
  armed_byte i = if has w.conf.bps (bp.addr + i) then 0xcc else orig (bp.addr + i)

  arm_word : alternate host.wide w.conf.bps bp.code bp.addr true true ≡ word armed_byte
  arm_word = rw here-IsOriginal (
      alternate-arm host.wide bp.addr true w.conf.bps (bytes_at orig bp.addr) (λ i. b (bp.addr + i))
        (IsApartFrom-IsClear w.conf.bps bp.addr here_apart)
      ∙ word-ext _ _ (λ i lt. ground arith))

  restore_word :
      alternate host.wide w.conf.bps bp.code bp.addr false false ≡ word (bytes_at orig bp.addr)
  restore_word = rw here-IsOriginal (
      alternate-restore host.wide bp.addr false w.conf.bps (bytes_at orig bp.addr) orig
        (λ i. b (bp.addr + i)) (IsApartFrom-IsClear w.conf.bps bp.addr here_apart)
        (IsOriginal-IsSaved orig w.conf.bps b c.original)
      ∙ word-ext _ _ (λ i lt. ground arith))

  -- All breakpoints in the word of the old stop are written back, and nothing else changes.
  pub resetbreak_bytes :
      w.conf.lid ≡ some id
      → (k : K) × (resetbreak host w
          ≡ done success (record w { kernel = k; conf = record w.conf { lid = none } }))
        × ((x : ℕ)
            → byte k x ≡ (
                if in_word bp x
                then if has w.conf.bps x then 0xcc else orig x
                else byte w.kernel x))
        × ((reg : ℕ) → host.peek_user k w.conf.child reg ≡ host.peek_user w.kernel w.conf.child reg)
  unfolding resetbreak
  resetbreak_bytes last =
      let (k, e) = tracee.poke_text-some w.kernel bp.addr (word armed_byte) here_mapped in
      (
        k,
        ground (arith, arm_word, present, e),
        λ x. ground (
          arith,
          poke_word tracee w.kernel bp.addr armed_byte k (λ i. ground (arith, b (bp.addr + i))) e x,
        ),
        tracee.peek_user-poke_text w.kernel bp.addr (word armed_byte) k e,
      )

  -- The invariant is kept, and now every breakpoint is in memory.
  pub resetbreak_lem :
      w.conf.lid ≡ some id
      → IsArmedBut (byte w.kernel) w.conf.bps bp
      → (k : K) × (resetbreak host w
          ≡ done success (record w { kernel = k; conf = record w.conf { lid = none } }))
        × IsConsistent orig mapped (byte k) w.conf.bps
        × IsArmed (byte k) w.conf.bps
        × ((reg : ℕ) → host.peek_user k w.conf.child reg ≡ host.peek_user w.kernel w.conf.child reg)
  resetbreak_lem last armed =
      let (k, runs, bytes, regs) = resetbreak_bytes last in
      (
        k,
        runs,
        record {
          original = c.original;
          genuine = λ x. ground (arith, bytes x, c.genuine x);
          apart = c.apart;
          distinct = c.distinct;
          on_mapped = c.on_mapped;
        },
        λ x h. ground (arith, bytes x, armed x h),
        regs,
      )

  -- The program counter is moved to the breakpoint, whose word is the program's own again; no
  -- byte outside of the word changes.
  pub restore_at_bytes :
      (rip r : ℕ)
      → HasCounter w.offsets r
      → (k : K) × (restore_at host id rip w
          ≡ done success (
              said
                (stop_msg rip)
                (record w { kernel = k; conf = record w.conf { lid = some id } })))
        × (host.peek_user k w.conf.child (r * 8) ≡ bp.addr)
        × ((x : ℕ) → byte k x ≡ (if in_word bp x then orig x else byte w.kernel x))
  unfolding restore_at reg_index
  restore_at_bytes rip r register =
      let (k₁, e₁) = tracee.poke_user-some w.kernel r bp.addr register.1 in
      let (k, e) = tracee.poke_text-some k₁ bp.addr (word (bytes_at orig bp.addr)) here_mapped in
      (
        k,
        ground (arith, restore_word, present, register.0, e₁, e),
        ground (
          arith,
          tracee.peek_user-poke_text k₁ bp.addr (word (bytes_at orig bp.addr)) k e (r * 8),
          tracee.peek_user-poke_user w.kernel r bp.addr k₁ register.1 e₁,
        ),
        λ x. ground (
          arith,
          poke_word tracee k₁ bp.addr (bytes_at orig bp.addr) k (λ i. b (bp.addr + i)) e x,
          tracee.poke_user-byte w.kernel (r * 8) bp.addr k₁ e₁ x,
        ),
      )
