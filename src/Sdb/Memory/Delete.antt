-- ===== src/Sdb/Memory/Delete.antt =====
-- `deletebreak` (310551113_hw4/sdb.cpp): what it does to memory, and its two faults.
use mathlib.Core.Path.{subst}
use advanced_programming_in.Base.{[], ◌∷◌, zero, sym, refl, not, List, Bool, ℕ, suc, ◌+◌, ◌<◌}
use advanced_programming_in.Base.{◌≡◌, ◌∙◌, arith, false, true, none, some, length, get_elem?}
use advanced_programming_in.Base.{erase_at, if◌then◌else◌, ◌==◌, ◌&&◌, All-get_elem?}
use advanced_programming_in.Base.{All-erase_at, All-map, ◌++◌}
use advanced_programming_in.Base.Text.{Text, text, stoi, pos}
use advanced_programming_in.Base.Word.{word, word-ext, IsByte}
use advanced_programming_in.Sdb.Config.{Breakpoint, success, running}
use advanced_programming_in.Sdb.Code.{alternate}
use advanced_programming_in.Sdb.Code.Overlay.{has, alternate-arm}
use advanced_programming_in.Sdb.Host.{Host, IsTracee}
use advanced_programming_in.Sdb.World.{World, done, undefined_behaviour, said}
use advanced_programming_in.Sdb.Stops.{resetbreak}
use advanced_programming_in.Sdb.Control.{deletebreak, remove}
use advanced_programming_in.Sdb.Memory.Bytes.{bytes_at, IsOriginal, poke_word}
use advanced_programming_in.Sdb.Memory.Consistent.{IsApart, IsApartFrom, IsConsistent, IsArmed}
use advanced_programming_in.Sdb.Memory.Consistent.{IsArmedFor, IsTracked, IsApartFrom-IsClear}
use advanced_programming_in.Sdb.Memory.Consistent.{has-erase_at, IsDistinct-erase_at}

-- The world without the breakpoint.
abbrev pub without_break : {K : Type 0} → World K → K → ℕ → Text → World K
without_break w k id name =
    said (text "breakpoint " ++ name ++ text " deleted")
      (record w { kernel = k; conf = record w.conf { bps = erase_at w.conf.bps id } })

get_elem?-lt :
    (bps : List Breakpoint) (id : ℕ) (bp : Breakpoint)
    → get_elem? bps id ≡ some bp
    → id < length bps
get_elem?-lt [] id bp e = cc
get_elem?-lt (b ∷ bps) zero bp e = omega arith
get_elem?-lt (b ∷ bps) (suc id) bp e = omega (arith, get_elem?-lt bps id bp e)

module _ {K : Type 0} (host : Host K) (byte : K → ℕ → ℕ) (mapped : ℕ → Bool) (orig : ℕ → ℕ)
    (w : World K) (tracee : IsTracee host w.conf.child byte mapped) (b : IsByte orig)
    (c : IsConsistent orig mapped (byte w.kernel) w.conf.bps)
    (armed : IsArmed (byte w.kernel) w.conf.bps) (id : ℕ) (bp : Breakpoint)
    (present : get_elem? w.conf.bps id ≡ some bp) where
  abbrev kept_byte : ℕ → ℕ
  kept_byte i = if not (i == 0) && has w.conf.bps (bp.addr + i) then 0xcc else orig (bp.addr + i)

  delete_word : alternate host.wide w.conf.bps bp.code bp.addr true false ≡ word kept_byte
  delete_word = rw (All-get_elem? (IsOriginal orig) w.conf.bps id present c.original) (
      alternate-arm host.wide bp.addr false w.conf.bps (bytes_at orig bp.addr)
        (λ i. b (bp.addr + i))
        (IsApartFrom-IsClear w.conf.bps bp.addr
          (All-get_elem? (λ p. IsApartFrom w.conf.bps p.addr) w.conf.bps id present c.apart))
      ∙ word-ext _ _ (λ i lt. ground arith))

  remove_bytes :
      (name : Text)
      → (k : K) × (remove host id name w ≡ done success (without_break w k id name))
        × ((x : ℕ) → byte k x ≡ (if x == bp.addr then orig x else byte w.kernel x))
  unfolding remove
  remove_bytes name =
      let (k, e) =
        tracee.poke_text-some w.kernel bp.addr (word kept_byte)
          (All-get_elem? (λ p. mapped p.addr ≡ true) w.conf.bps id present c.on_mapped) in
      (
        k,
        ground (arith, delete_word, present, e),
        λ x. ground (
          arith,
          poke_word tracee w.kernel bp.addr kept_byte k (λ i. ground (arith, b (bp.addr + i))) e x,
          armed x,
          c.genuine x,
        ),
      )

  erase-IsConsistent :
      (k : K)
      → ((x : ℕ) → byte k x ≡ (if x == bp.addr then orig x else byte w.kernel x))
      → IsConsistent orig mapped (byte k) (erase_at w.conf.bps id)
  erase-IsConsistent k bytes = record {
    original = All-erase_at (IsOriginal orig) w.conf.bps id c.original;
    genuine = λ x.
        ground (arith, bytes x, c.genuine x, has-erase_at w.conf.bps id bp x present c.distinct);
    apart =
        All-erase_at (λ p. IsApartFrom (erase_at w.conf.bps id) p.addr) w.conf.bps id
          (All-map (λ p. IsApartFrom w.conf.bps p.addr)
            (λ p. IsApartFrom (erase_at w.conf.bps id) p.addr) w.conf.bps
            (λ p. All-erase_at (λ q. IsApart p.addr q.addr) w.conf.bps id) c.apart);
    distinct = IsDistinct-erase_at w.conf.bps id c.distinct;
    on_mapped = All-erase_at (λ p. mapped p.addr ≡ true) w.conf.bps id c.on_mapped;
  }

  -- While the program runs, with the breakpoints consistent, every one of them in memory and `lid`
  -- at -1, for the number of a breakpoint: the byte at the deleted one is the program's own again,
  -- no other byte changes, the other breakpoints keep their order, and the invariant holds.
  pub deletebreak_lem :
      (name : Text)
      → stoi name ≡ some (pos id)
      → w.conf.status ≡ running
      → w.conf.lid ≡ none
      → (k : K) × (deletebreak host name w ≡ done success (without_break w k id name))
        × ((x : ℕ) → byte k x ≡ (if x == bp.addr then orig x else byte w.kernel x))
        × IsTracked orig mapped (byte k) (without_break w k id name).conf
  unfolding deletebreak
  deletebreak_lem name read started fresh =
      let (k, runs, bytes) = remove_bytes name in
      (
        k,
        ground (arith, runs, get_elem?-lt w.conf.bps id bp present),
        bytes,
        record {
          consistent = erase-IsConsistent k bytes;
          armed =
              subst (λ l. IsArmedFor (byte k) (erase_at w.conf.bps id) l) (sym fresh)
                λ x h.
                  ground
                    (arith, bytes x, armed x, has-erase_at w.conf.bps id bp x present c.distinct);
        },
      )

get_elem?-length : (bps : List Breakpoint) → get_elem? bps (length bps) ≡ none
get_elem?-length [] = refl
get_elem?-length (bp ∷ bps) = get_elem?-length bps

-- While the program runs, the number one past the last breakpoint passes the test of
-- `deletebreak`, and the vector is read out of its bounds.
pub deletebreak_past_end :
    {K : Type 0} (host : Host K) (name : Text) (w : World K)
    → stoi name ≡ some (pos (length w.conf.bps))
    → w.conf.status ≡ running
    → deletebreak host name w ≡ undefined_behaviour
unfolding deletebreak remove
deletebreak_past_end host name w read started = ground (arith, get_elem?-length w.conf.bps)

erase_at-last :
    (bps : List Breakpoint) (id : ℕ) → length bps ≡ suc id → get_elem? (erase_at bps id) id ≡ none
erase_at-last [] id e = absurd (omega arith)
erase_at-last (bp ∷ []) zero e = refl
erase_at-last (bp ∷ c ∷ bps) zero e = absurd (omega arith)
erase_at-last (bp ∷ bps) (suc id) e = erase_at-last bps id (omega arith)

-- If `conf.lid` is the last breakpoint and that is deleted, then `resetbreak`, which the next
-- stop calls, reads the vector out of its bounds.
pub resetbreak-deletebreak :
    {K : Type 0} (host : Host K) (name : Text) (id : ℕ) (w w' : World K)
    → stoi name ≡ some (pos id)
    → w.conf.status ≡ running
    → w.conf.lid ≡ some id
    → length w.conf.bps ≡ suc id
    → deletebreak host name w ≡ done success w'
    → resetbreak host w' ≡ undefined_behaviour
unfolding deletebreak remove resetbreak
resetbreak-deletebreak host name id w w' read started last size runs =
    ground (arith, erase_at-last w.conf.bps id size)
