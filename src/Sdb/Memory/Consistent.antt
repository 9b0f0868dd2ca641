-- ===== src/Sdb/Memory/Consistent.antt =====
-- The invariant of breakpoints and memory (310551113_hw4/sdb.cpp), and how it reads.
use advanced_programming_in.Base.{◌==◌, not, erase_at, none, ltb, ◌&&◌, ◌⊎◌, leb, Option, ℕ, ◌+◌}
use advanced_programming_in.Base.{◌%◌, ◌^◌, ◌<◌, ◌≡◌, ◌≢◌, ◌∙◌, refl, ap, arith, suc, zero, Bool}
use advanced_programming_in.Base.{true, false, some, List, [], ◌∷◌, ◌++◌, All, ◌||◌, get_elem?}
use advanced_programming_in.Base.Word.{word, word_of, word-ext, IsByte}
use advanced_programming_in.Sdb.Config.{Breakpoint, SdbConfig}
use advanced_programming_in.Sdb.Code.{alternate}
use advanced_programming_in.Sdb.Code.Overlay.{has, IsClear, IsSaved, alternate-restore}
use advanced_programming_in.Sdb.Memory.Bytes.{bytes_at, IsOriginal, IsGenuine}

-- Two addresses of 64 bits that are less than 2 ^ 31 and not exactly 7 apart.
abbrev pub IsApart : ℕ → ℕ → Type 0
IsApart a x =
    (x < a + 2 ^ 31) × (a < x + 2 ^ 31) × (x < 2 ^ 64) × (a < 2 ^ 64) × (x ≢ a + 7) × (a ≢ x + 7)

abbrev pub IsApartFrom : List Breakpoint → ℕ → Type 0
IsApartFrom bps a = All (λ bp. IsApart a bp.addr) bps

-- No two breakpoints share an address.
abbrev pub IsDistinct : List Breakpoint → Type 0
IsDistinct [] = Unit
IsDistinct (bp ∷ bps) = (has bps bp.addr ≡ false) × IsDistinct bps

-- Each breakpoint holds the program's word, memory differs from the program only by the 0xcc of
-- breakpoints, the breakpoints are apart and distinct, and they lie in mapped memory.
pub record IsConsistent (orig : ℕ → ℕ) (mapped : ℕ → Bool) (mem : ℕ → ℕ) (bps : List Breakpoint)
    : Type 0 where
  pub original : All (IsOriginal orig) bps
  pub genuine : IsGenuine orig mem bps
  pub apart : All (λ bp. IsApartFrom bps bp.addr) bps
  pub distinct : IsDistinct bps
  pub on_mapped : All (λ bp. mapped bp.addr ≡ true) bps

-- Every breakpoint is in memory.
abbrev pub IsArmed : (ℕ → ℕ) → List Breakpoint → Type 0
IsArmed mem bps = (x : ℕ) → has bps x ≡ true → mem x ≡ 0xcc

-- The address is one of the eight bytes of the breakpoint's word.
abbrev pub in_word : Breakpoint → ℕ → Bool
in_word bp x = leb bp.addr x && ltb x (bp.addr + 8)

-- Every breakpoint is in memory, but perhaps those in the word of `bp`.
abbrev pub IsArmedBut : (ℕ → ℕ) → List Breakpoint → Breakpoint → Type 0
IsArmedBut mem bps bp = (x : ℕ) → has bps x ≡ true → (in_word bp x ≡ true) ⊎ (mem x ≡ 0xcc)

-- What is in memory, by `conf.lid`: with -1 all breakpoints; otherwise `lid` is the number of a
-- breakpoint, and only those in its word may be out of memory.
abbrev pub IsArmedFor : (ℕ → ℕ) → List Breakpoint → Option ℕ → Type 0
IsArmedFor mem bps none = IsArmed mem bps
IsArmedFor mem bps (some id) =
    (bp : Breakpoint) × (get_elem? bps id ≡ some bp) × IsArmedBut mem bps bp

-- The invariant of the debugger while the program is stopped.
pub record IsTracked (orig : ℕ → ℕ) (mapped : ℕ → Bool) (mem : ℕ → ℕ) (c : SdbConfig) : Type 0 where
  pub consistent : IsConsistent orig mapped mem c.bps
  pub armed : IsArmedFor mem c.bps c.lid

pub IsApartFrom-IsClear : (bps : List Breakpoint) (a : ℕ) → IsApartFrom bps a → All (IsClear a) bps
IsApartFrom-IsClear [] a h = tt
IsApartFrom-IsClear (bp ∷ bps) a h = (omega arith, IsApartFrom-IsClear bps a h.1)

word-mod : (f : ℕ → ℕ) → IsByte f → word f % 256 ≡ f 0
unfolding word word_of
word-mod f b = omega (arith, b 0)

pub IsOriginal-IsSaved :
    (orig : ℕ → ℕ) (bps : List Breakpoint)
    → IsByte orig
    → All (IsOriginal orig) bps
    → All (IsSaved orig) bps
IsOriginal-IsSaved orig [] b h = tt
IsOriginal-IsSaved orig (bp ∷ bps) b h = (
  rw (h.0) (word-mod (bytes_at orig bp.addr) (λ i. b (bp.addr + i)) ∙ ap orig (omega arith)),
  IsOriginal-IsSaved orig bps b h.1,
)

pub has-append : (bps cps : List Breakpoint) (x : ℕ) → has (bps ++ cps) x ≡ (has bps x || has cps x)
unfolding has
has-append [] cps x = refl
has-append (bp ∷ bps) cps x = ground (arith, has-append bps cps x)

pub has_of_get :
    (bps : List Breakpoint) (id : ℕ) (bp : Breakpoint)
    → get_elem? bps id ≡ some bp
    → has bps bp.addr ≡ true
unfolding has
has_of_get [] id bp e = cc
has_of_get (b ∷ bps) zero bp e = ground arith
has_of_get (b ∷ bps) (suc id) bp e = ground (arith, has_of_get bps id bp e)

pub IsDistinct-append :
    (bps : List Breakpoint) (bp : Breakpoint)
    → has bps bp.addr ≡ false
    → IsDistinct bps
    → IsDistinct (bps ++ (bp ∷ []))
unfolding has
IsDistinct-append [] bp h d = (refl, tt)
IsDistinct-append (b ∷ bps) bp h d =
    (ground (arith, has-append bps (bp ∷ []) b.addr), IsDistinct-append bps bp (ground arith) d.1)

has-erase_at-le :
    (bps : List Breakpoint) (id x : ℕ) → has (erase_at bps id) x ≡ true → has bps x ≡ true
unfolding has
has-erase_at-le [] id x h = h
has-erase_at-le (b ∷ bps) zero x h = ground arith
has-erase_at-le (b ∷ bps) (suc id) x h = ground (arith, has-erase_at-le bps id x)

pub IsDistinct-erase_at :
    (bps : List Breakpoint) (id : ℕ) → IsDistinct bps → IsDistinct (erase_at bps id)
IsDistinct-erase_at [] id d = d
IsDistinct-erase_at (b ∷ bps) zero d = d.1
IsDistinct-erase_at (b ∷ bps) (suc id) d =
    (ground (arith, has-erase_at-le bps id b.addr), IsDistinct-erase_at bps id d.1)

-- Without a breakpoint exactly its address is gone.
pub has-erase_at :
    (bps : List Breakpoint) (id : ℕ) (bp : Breakpoint) (x : ℕ)
    → get_elem? bps id ≡ some bp
    → IsDistinct bps
    → has (erase_at bps id) x ≡ (has bps x && not (bp.addr == x))
unfolding has
has-erase_at [] id bp x e d = cc
has-erase_at (b ∷ bps) zero bp x e d = ground arith
has-erase_at (b ∷ bps) (suc id) bp x e d =
    ground (arith, has-erase_at bps id bp x e d.1, has_of_get bps id bp e)

module _ (orig : ℕ → ℕ) (wide a : ℕ) (bps : List Breakpoint) (b : IsByte orig)
    (apart : IsApartFrom bps a) where
  -- A word that memory holds becomes the program's own.
  pub alternate-genuine :
      (mem : ℕ → ℕ)
      → IsByte mem
      → All (IsOriginal orig) bps
      → IsGenuine orig mem bps
      → alternate wide bps (word (bytes_at mem a)) a false true ≡ word (bytes_at orig a)
  alternate-genuine mem m saved genuine =
      alternate-restore wide a true bps (bytes_at mem a) orig (λ i. m (a + i))
        (IsApartFrom-IsClear bps a apart) (IsOriginal-IsSaved orig bps b saved)
      ∙ word-ext _ _ (λ i lt. ground (arith, genuine (a + i)))
