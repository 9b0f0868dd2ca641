-- ===== src/Base/Lists.antt =====
-- Lists indexed by native numbers, and predicates on them.
use Prim.Native.Nat.{ℕ, zero, suc, ◌+◌, ◌≤◌, ◌<◌}
use mathlib.Core.Path.{◌≡◌, refl}
use mathlib.Core.Option.{Option, none, some}
use mathlib.Core.List.{List, [], ◌∷◌, ◌++◌}
use native.Mathlib.Omega.{arith}

module _ {ℓ} {A : Type ℓ} where
  abbrev pub length : List A → ℕ
  length [] = 0
  length (x ∷ xs) = suc (length xs)

  abbrev pub get_elem? : List A → ℕ → Option A
  get_elem? [] i = none
  get_elem? (x ∷ xs) zero = some x
  get_elem? (x ∷ xs) (suc i) = get_elem? xs i

  -- `v.erase(v.begin() + i)`; out of range it changes nothing.
  abbrev pub erase_at : List A → ℕ → List A
  erase_at [] i = []
  erase_at (x ∷ xs) zero = xs
  erase_at (x ∷ xs) (suc i) = x ∷ erase_at xs i

  pub get_elem?_beyond : (xs : List A) (i : ℕ) → length xs ≤ i → get_elem? xs i ≡ none
  get_elem?_beyond [] i h = refl
  get_elem?_beyond (x ∷ xs) zero h = absurd (omega arith)
  get_elem?_beyond (x ∷ xs) (suc i) h = get_elem?_beyond xs i (omega arith)

  pub get_elem?_within : (xs : List A) (i : ℕ) → i < length xs → (x : A) × (get_elem? xs i ≡ some x)
  get_elem?_within [] i h = absurd (omega arith)
  get_elem?_within (x ∷ xs) zero h = (x, refl)
  get_elem?_within (x ∷ xs) (suc i) h = get_elem?_within xs i (omega arith)

  pub length-append : (xs ys : List A) → length (xs ++ ys) ≡ length xs + length ys
  length-append [] ys = omega arith
  length-append (x ∷ xs) ys = omega (arith, length-append xs ys)

abbrev pub All {ℓ κ} : {A : Type ℓ} → (A → Type κ) → List A → Type κ
All P [] = Unit
All P (x ∷ xs) = P x × All P xs

module _ {ℓ κ} {A : Type ℓ} (P : A → Type κ) where
  pub All-erase_at : (xs : List A) (i : ℕ) → All P xs → All P (erase_at xs i)
  All-erase_at [] i p = p
  All-erase_at (x ∷ xs) zero p = p.1
  All-erase_at (x ∷ xs) (suc i) p = (p.0, All-erase_at xs i p.1)

  pub All-get_elem? : (xs : List A) (i : ℕ) {x : A} → get_elem? xs i ≡ some x → All P xs → P x
  All-get_elem? [] i e p = cc
  All-get_elem? (x ∷ xs) zero e p = ground (arith, p.0)
  All-get_elem? (x ∷ xs) (suc i) e p = All-get_elem? xs i e p.1

  pub All-append : (front back : List A) → All P front → All P back → All P (front ++ back)
  All-append [] back p q = q
  All-append (x ∷ front) back p q = (p.0, All-append front back p.1 q)

pub All-map {ℓ κ μ} :
    {A : Type ℓ} (P : A → Type κ) (Q : A → Type μ) (xs : List A)
    → ((x : A) → P x → Q x)
    → All P xs
    → All Q xs
All-map P Q [] f p = tt
All-map P Q (x ∷ xs) f p = (f x p.0, All-map P Q xs f p.1)
