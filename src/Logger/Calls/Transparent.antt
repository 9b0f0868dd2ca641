-- ===== src/Logger/Calls/Transparent.antt =====
-- When a logged program (310551113_hw2/lib.cpp) gets what it gets without the logger.
use advanced_programming_in.Logger.Calls.Request.{Request, name_of, args_of}
use advanced_programming_in.Base.{ℕ, Bool, true, false, ◌-◌, ◌%◌, ◌^◌, ◌<◌, ◌≡◌, refl, arith}
use advanced_programming_in.Base.{◌==◌, ◌⊎◌, Option, none, some, List, [], ◌∷◌, All}
use advanced_programming_in.Base.{if◌then◌else◌}
use advanced_programming_in.Base.Word.{as_long}
use advanced_programming_in.Logger.Resolve.{Name, Libc, chmod, chown, close, creat, creat64}
use advanced_programming_in.Logger.Resolve.{fclose, fopen, fread, fwrite, open_path, open64, read}
use advanced_programming_in.Logger.Resolve.{rename, tmpfile, tmpfile64, write}
use advanced_programming_in.Logger.Functions.{Logger, type_of, first_of}

-- What the function makes of the number that the C library returns.
abbrev pub returned : Name → ℕ → ℕ
returned fopen value = value
returned fread value = value
returned fwrite value = value
returned tmpfile value = value
returned tmpfile64 value = value
returned read value = as_long (value % 2 ^ 32)
returned write value = as_long (value % 2 ^ 32)
returned _ value = value % 2 ^ 32

-- The results that C allows: 32 bits for an `int`. `read` and `write` return -1 or a number that the
-- kernel keeps below 2 ^ 31.
abbrev pub IsResult : Name → ℕ → Type 0
IsResult fopen value = Unit
IsResult fread value = Unit
IsResult fwrite value = Unit
IsResult tmpfile value = Unit
IsResult tmpfile64 value = Unit
IsResult read value = (value < 2 ^ 31) ⊎ (value ≡ 2 ^ 64 - 1)
IsResult write value = (value < 2 ^ 31) ⊎ (value ≡ 2 ^ 64 - 1)
IsResult _ value = value < 2 ^ 32

pub returned_same : (f : Name) (value : ℕ) → IsResult f value → returned f value ≡ value
unfolding as_long
returned_same chmod value h = ground arith
returned_same chown value h = ground arith
returned_same close value h = ground arith
returned_same creat value h = ground arith
returned_same creat64 value h = ground arith
returned_same fclose value h = ground arith
returned_same fopen value h = refl
returned_same fread value h = refl
returned_same fwrite value h = refl
returned_same open_path value h = ground arith
returned_same open64 value h = ground arith
returned_same read value h = ground arith
returned_same rename value h = ground arith
returned_same tmpfile value h = refl
returned_same tmpfile64 value h = refl
returned_same write value h = ground arith

-- The functions of the C library act on the state as `spec`.
pub record Acts {L V : Type 0} (libc : Libc L) (view : L → V) (spec : V → Name → List ℕ → ℕ × V)
    : Type 0 where
  pub value : (l : L) (f : Name) (args : List ℕ) → (libc.call l f args).0 ≡ (spec (view l) f args).0
  pub next :
      (l : L) (f : Name) (args : List ℕ) → view (libc.call l f args).1 ≡ (spec (view l) f args).1
  pub fits : (v : V) (f : Name) (args : List ℕ) → IsResult f (spec v f args).0

-- The calls without the logger.
abbrev pub direct : {V : Type 0} → (V → Name → List ℕ → ℕ × V) → List Request → V → List ℕ × V
direct spec [] v = ([], v)
direct spec (r ∷ rs) v =
    let (value, v₁) = spec v (name_of r) (args_of r) in
    let (values, v₂) = direct spec rs v₁ in (value ∷ values, v₂)

-- Calls of one type are calls of one function.
abbrev pub Agree : Name → Name → Type 0
Agree f g = type_of f ≡ type_of g → f ≡ g

abbrev pub IsClashFree : List Request → Type 0
IsClashFree [] = Unit
IsClashFree (r ∷ rs) = All (λ q. Agree (name_of r) (name_of q)) rs × IsClashFree rs

-- The variable of the function's instance is not set, or it holds the function itself.
abbrev pub IsOwn : {L : Type 0} → Logger L → Name → Type 0
IsOwn s f = first_of (s.statics (type_of f)) f ≡ f

own_of :
    (o : Option Name) (f g : Name) (same : Bool)
    → (same ≡ true → f ≡ g)
    → first_of o g ≡ g
    → first_of (if same then some f else o) g ≡ g
own_of o f g true agree own = agree refl
own_of o f g false agree own = own

pub still-IsOwn :
    {L : Type 0} (r : Name) (rs : List Request) (s s₁ : Logger L)
    → ((t : ℕ) → s₁.statics t ≡ (if t == type_of r then some r else s.statics t))
    → All (λ q. Agree r (name_of q)) rs
    → All (λ q. IsOwn s (name_of q)) rs
    → All (λ q. IsOwn s₁ (name_of q)) rs
still-IsOwn r [] s s₁ st agree own = tt
still-IsOwn r (q ∷ rs) s s₁ st agree own = (
  rw (st (type_of (name_of q))) (
      own_of (s.statics (type_of (name_of q))) r (name_of q) (type_of (name_of q) == type_of r)
        (λ e. agree.0 (ground arith)) own.0),
  still-IsOwn r rs s s₁ st agree.1 own.1,
)

pub fresh-IsOwn :
    {L : Type 0} (l : L) (rs : List Request)
    → All (λ q. IsOwn {L = L} (record { statics = λ t. none; process = l }) (name_of q)) rs
fresh-IsOwn l [] = tt
fresh-IsOwn l (q ∷ rs) = (refl, fresh-IsOwn l rs)
