-- ===== src/Sdb/Memory/Edits.antt =====
-- Sequences of `break` and `delete` (310551113_hw4/sdb.cpp), and the list of addresses that they edit.
use advanced_programming_in.Base.{ℕ, zero, suc, ◌^◌, ◌<◌, ◌≡◌, ◌≢◌, refl, ap, arith, Bool, true}
use advanced_programming_in.Base.{false, ltb, Option, some, List, [], ◌∷◌, ◌++◌, All, length}
use advanced_programming_in.Base.{erase_at, if◌then◌else◌, ◌==◌}
use advanced_programming_in.Base.Text.{Text, text, strtoull_16, stoi, ℤ, pos}
use advanced_programming_in.Sdb.Config.{Breakpoint, Code, err_badbreakpoint, running}
use advanced_programming_in.Sdb.Code.Overlay.{has}
use advanced_programming_in.Sdb.Host.{Host}
use advanced_programming_in.Sdb.World.{World, M, done, said, pure, ◌>>=◌}
use advanced_programming_in.Sdb.Control.{setbreak, deletebreak, too_large}
use advanced_programming_in.Sdb.Memory.Consistent.{IsApart, IsApartFrom}

-- A command with its argument as it is typed.
pub data Edit : Type 0 where
  set delete : Text → Edit

abbrev pub handler : {K : Type 0} → Host K → Edit → M K Code
handler host (set addr) = setbreak host addr
handler host (delete name) = deletebreak host name

-- The commands one after the other, with what each returns.
unfoldable pub session : {K : Type 0} → Host K → List Edit → M K (List Code)
session host [] = pure []
session host (e ∷ es) = do code ← handler host e; codes ← session host es; pure (code ∷ codes)

-- The abstract debugger: a list of addresses.
abbrev pub member : List ℕ → ℕ → Bool
member [] x = false
member (a ∷ addrs) x = if a == x then true else member addrs x

abbrev pub removed : Option ℤ → List ℕ → List ℕ
removed (some (pos id)) addrs = erase_at addrs id
removed _ addrs = addrs

module _ (outside : ℕ → Bool) where
  abbrev pub after : Edit → List ℕ → List ℕ
  after (set addr) addrs =
      if outside (strtoull_16 addr)
      then addrs
      else if member addrs (strtoull_16 addr)
      then addrs
      else addrs ++ (strtoull_16 addr ∷ [])
  after (delete name) addrs = removed (stoi name) addrs

  abbrev pub after_all : List Edit → List ℕ → List ℕ
  after_all [] addrs = addrs
  after_all (e ∷ es) addrs = after_all es (after e addrs)

-- What the code needs: an address to be set is below 2 ^ 64, mapped, and apart from the breakpoints;
-- a number to be deleted is a number, and not the one past the last.
abbrev pub IsSafe : (ℕ → Bool) → Edit → List ℕ → Type 0
IsSafe mapped (set addr) addrs =
    (strtoull_16 addr < 2 ^ 64)
    × (mapped (strtoull_16 addr) ≡ true)
    × All (λ x. IsApart (strtoull_16 addr) x) addrs
IsSafe mapped (delete name) addrs = (z : ℤ) × (stoi name ≡ some z) × (z ≢ pos (length addrs))

abbrev pub AreSafe : (ℕ → Bool) → (ℕ → Bool) → List Edit → List ℕ → Type 0
AreSafe outside mapped [] addrs = Unit
AreSafe outside mapped (e ∷ es) addrs =
    IsSafe mapped e addrs × AreSafe outside mapped es (after outside e addrs)

abbrev pub addrs_of : List Breakpoint → List ℕ
addrs_of [] = []
addrs_of (bp ∷ bps) = bp.addr ∷ addrs_of bps

pub has-member : (bps : List Breakpoint) (x : ℕ) → has bps x ≡ member (addrs_of bps) x
unfolding has
has-member [] x = refl
has-member (bp ∷ bps) x = ground (arith, has-member bps x)

pub addrs_of-append :
    (bps cps : List Breakpoint) → addrs_of (bps ++ cps) ≡ addrs_of bps ++ addrs_of cps
addrs_of-append [] cps = refl
addrs_of-append (bp ∷ bps) cps = ap (λ t. bp.addr ∷ t) (addrs_of-append bps cps)

pub addrs_of-erase_at :
    (bps : List Breakpoint) (i : ℕ) → addrs_of (erase_at bps i) ≡ erase_at (addrs_of bps) i
addrs_of-erase_at [] i = refl
addrs_of-erase_at (bp ∷ bps) zero = refl
addrs_of-erase_at (bp ∷ bps) (suc i) = ap (λ t. bp.addr ∷ t) (addrs_of-erase_at bps i)

pub length-addrs_of : (bps : List Breakpoint) → length (addrs_of bps) ≡ length bps
length-addrs_of [] = refl
length-addrs_of (bp ∷ bps) = ap suc (length-addrs_of bps)

pub erase_at_beyond :
    (addrs : List ℕ) (i : ℕ) → ltb (length addrs) i ≡ true → erase_at addrs i ≡ addrs
erase_at_beyond [] i h = refl
erase_at_beyond (a ∷ addrs) zero h = absurd (ground arith)
erase_at_beyond (a ∷ addrs) (suc i) h = ap (λ t. a ∷ t) (erase_at_beyond addrs i (ground arith))

pub apart_of :
    (bps : List Breakpoint) (a : ℕ) → All (λ x. IsApart a x) (addrs_of bps) → IsApartFrom bps a
apart_of [] a h = tt
apart_of (bp ∷ bps) a h = (h.0, apart_of bps a h.1)

pub deletebreak_rejects :
    {K : Type 0} (host : Host K) (name : Text) (z : ℤ) (w : World K)
    → stoi name ≡ some z
    → too_large host z (length w.conf.bps) ≡ true
    → w.conf.status ≡ running
    → deletebreak host name w
      ≡ done err_badbreakpoint (said (text "breakpoint " ++ name ++ text " does not exist") w)
unfolding deletebreak
deletebreak_rejects host name z w read large started = ground arith

pub past : (id n : ℕ) → ltb id n ≡ false → pos id ≢ pos n → ltb n id ≡ true
past id n h other = ground (arith, other)
