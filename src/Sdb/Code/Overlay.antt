-- ===== src/Sdb/Code/Overlay.antt =====
-- What `alternate` does to the bytes of a word that lies at an address.
use advanced_programming_in.Base.{ℕ, ◌+◌, ◌%◌, ◌^◌, ◌<◌, ◌≡◌, ◌≢◌, refl, ◌∙◌, arith, bit_and, ltb}
use advanced_programming_in.Base.{leb, ◌==◌, if◌then◌else◌, Bool, true, false, ◌&&◌, ◌||◌, List}
use advanced_programming_in.Base.{[], ◌∷◌, All, Bool-cases, inl, inr}
use advanced_programming_in.Base.Bits.{bit_and_mask}
use advanced_programming_in.Base.Word.{word, word-ext, IsByte, put}
use advanced_programming_in.Sdb.Config.{Breakpoint}
use advanced_programming_in.Sdb.Code.{alterpart, alternate, dist}
use advanced_programming_in.Sdb.Code.Alter.{alterpart_lem}
use native.Mathlib.Numerals.{add-one}

-- There is a breakpoint at the address.
unfoldable pub has : List Breakpoint → ℕ → Bool
has [] x = false
has (bp ∷ bps) x = bp.addr == x || has bps x

-- Addresses of 64 bits, so close that their distance is an `int`, and not 7 apart: the byte of
-- offset 8 is the one that `alterpart` cannot replace.
abbrev pub IsClear : ℕ → Breakpoint → Type 0
IsClear a bp =
    (bp.addr < a + 2 ^ 31)
    × (a < bp.addr + 2 ^ 31)
    × (bp.addr < 2 ^ 64)
    × (a < 2 ^ 64)
    × (bp.addr ≢ a + 7)

-- The low byte of the saved code is the byte of `orig` at the breakpoint's address.
abbrev pub IsSaved : (ℕ → ℕ) → Breakpoint → Type 0
IsSaved orig bp = bp.code % 256 ≡ orig bp.addr

abbrev pub start_of : Bool → ℕ
start_of include_self = if include_self then 0 else 1

abbrev code_for : Bool → Breakpoint → ℕ
code_for to_0xcc bp = if to_0xcc then 0xcc else bit_and bp.code 0xff

-- One breakpoint's effect on the bytes at address `a`.
abbrev cover : Bool → Bool → ℕ → Breakpoint → (ℕ → ℕ) → ℕ → ℕ
cover to_0xcc include_self a bp f i =
    if leb (start_of include_self) i && (bp.addr == a + i) then code_for to_0xcc bp else f i

overlay : Bool → Bool → ℕ → List Breakpoint → (ℕ → ℕ) → ℕ → ℕ
overlay to_0xcc include_self a [] f = f
overlay to_0xcc include_self a (bp ∷ bps) f =
    overlay to_0xcc include_self a bps (cover to_0xcc include_self a bp f)

code_for-lt : (to_0xcc : Bool) (bp : Breakpoint) → code_for to_0xcc bp < 256
code_for-lt true bp = omega arith
code_for-lt false bp = omega (arith, bit_and_mask 8 bp.code)

module _ (to_0xcc include_self : Bool) (a : ℕ) where
  cover-IsByte :
      (bp : Breakpoint) (f : ℕ → ℕ) → IsByte f → IsByte (cover to_0xcc include_self a bp f)
  cover-IsByte bp f b i = ground (arith, b i, code_for-lt to_0xcc bp)

  put-cover :
      (bp : Breakpoint) (f : ℕ → ℕ)
      → IsClear a bp
      → (leb (start_of include_self) (dist bp.addr a) && ltb (dist bp.addr a) 8) ≡ true
      → word (put (dist bp.addr a) (code_for to_0xcc bp) f)
        ≡ word (cover to_0xcc include_self a bp f)
  unfolding dist
  put-cover bp f clear inside = word-ext _ _ λ i lt. ground arith

  skip-cover :
      (bp : Breakpoint) (f : ℕ → ℕ)
      → IsClear a bp
      → (leb (start_of include_self) (dist bp.addr a) && ltb (dist bp.addr a) 8) ≡ false
      → word f ≡ word (cover to_0xcc include_self a bp f)
  unfolding dist
  skip-cover bp f clear outside = word-ext _ _ λ i lt. ground arith

  -- A round of the loop is one cover.
  alterpart-cover :
      (wide : ℕ) (bp : Breakpoint) (f : ℕ → ℕ)
      → IsByte f
      → IsClear a bp
      → (if leb (start_of include_self) (dist bp.addr a) && ltb (dist bp.addr a) 8
          then alterpart wide (word f) (dist bp.addr a + 1) (code_for to_0xcc bp)
          else word f)
        ≡ word (cover to_0xcc include_self a bp f)
  alterpart-cover wide bp f b clear =
      elim (Bool-cases (leb (start_of include_self) (dist bp.addr a) && ltb (dist bp.addr a) 8)) [
        | inl inside ↦
            rw
              (
                inside,
                add-one,
                alterpart_lem wide (dist bp.addr a) (code_for to_0xcc bp) f b
                    (reach bp clear inside) (code_for-lt to_0xcc bp),
              )
              (put-cover bp f clear inside)
        | inr outside ↦ rw outside (skip-cover bp f clear outside)
      ]
    where
      reach :
          (p : Breakpoint)
          → IsClear a p
          → (leb (start_of include_self) (dist p.addr a) && ltb (dist p.addr a) 8) ≡ true
          → dist p.addr a < 7
      reach p c inside = unfold dist in ground arith

  alternate-overlay :
      (wide : ℕ) (bps : List Breakpoint) (f : ℕ → ℕ)
      → IsByte f
      → All (IsClear a) bps
      → alternate wide bps (word f) a to_0xcc include_self
        ≡ word (overlay to_0xcc include_self a bps f)
  unfolding alternate overlay
  alternate-overlay wide [] f b clear = refl
  alternate-overlay wide (bp ∷ bps) f b clear =
      rw (alterpart-cover wide bp f b clear.0) (
        alternate-overlay wide bps (cover to_0xcc include_self a bp f) (cover-IsByte bp f b)
          clear.1)

module _ (include_self : Bool) (a : ℕ) where
  overlay-arm :
      (bps : List Breakpoint) (f : ℕ → ℕ) (i : ℕ)
      → overlay true include_self a bps f i
        ≡ (if leb (start_of include_self) i && has bps (a + i) then 0xcc else f i)
  unfolding overlay has
  overlay-arm [] f i = ground arith
  overlay-arm (bp ∷ bps) f i = ground (arith, overlay-arm bps (cover true include_self a bp f) i)

  overlay-restore :
      (orig : ℕ → ℕ) (bps : List Breakpoint) (f : ℕ → ℕ) (i : ℕ)
      → All (IsSaved orig) bps
      → overlay false include_self a bps f i
        ≡ (if leb (start_of include_self) i && has bps (a + i) then orig (a + i) else f i)
  unfolding overlay has
  overlay-restore orig [] f i saved = ground arith
  overlay-restore orig (bp ∷ bps) f i saved = ground (
    arith,
    bit_and_mask 8 bp.code,
    overlay-restore orig bps (cover false include_self a bp f) i saved.1,
  )

module _ (wide a : ℕ) (include_self : Bool) (bps : List Breakpoint) (f : ℕ → ℕ) where
  -- With `to_0xcc`, for breakpoints of 64-bit addresses that are less than 2 ^ 31 away and not
  -- exactly 7 above: every byte at a breakpoint becomes 0xcc, the first one only with
  -- `include_self`, and all other bytes stay.
  pub alternate-arm :
      IsByte f
      → All (IsClear a) bps
      → alternate wide bps (word f) a true include_self
        ≡ word (λ i. if leb (start_of include_self) i && has bps (a + i) then 0xcc else f i)
  alternate-arm b clear =
      alternate-overlay true include_self a wide bps f b clear
      ∙ word-ext _ _ (λ i lt. overlay-arm include_self a bps f i)

  -- Without `to_0xcc`, for such breakpoints whose saved codes begin with the program's byte: every
  -- byte at a breakpoint becomes the program's own, the first one only with `include_self`, and
  -- all other bytes stay.
  pub alternate-restore :
      (orig : ℕ → ℕ)
      → IsByte f
      → All (IsClear a) bps
      → All (IsSaved orig) bps
      → alternate wide bps (word f) a false include_self
        ≡ word (λ i. if leb (start_of include_self) i && has bps (a + i) then orig (a + i) else f i)
  alternate-restore orig b clear saved =
      alternate-overlay false include_self a wide bps f b clear
      ∙ word-ext _ _ (λ i lt. overlay-restore include_self a orig bps f i saved)
