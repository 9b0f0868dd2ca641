-- ===== src/Draft/Files/Component.antt =====
-- The last component of a path, as `processCommand` of 310551113_hw1/_hw1.cpp finds it.
use mathlib.Core.List.{append_assoc}
use advanced_programming_in.Base.{ℕ, zero, suc, ◌+◌, ◌≤◌, ◌<◌, ◌==◌, ◌≡◌, refl, sym, ap, ◌∙◌, ◌⊎◌}
use advanced_programming_in.Base.{inl, inr, arith, true, false, Bool-cases, Option-cases, none}
use advanced_programming_in.Base.{some, [], ◌∷◌, ◌++◌, length, All}
use advanced_programming_in.Base.Text.{Text, text}
use advanced_programming_in.Draft.Files.{find, starts_with, drop, strip, process_command}

-- No character is a slash.
abbrev pub HasNoSlash : Text → Type 0
HasNoSlash s = All (λ c. (c == b'/') ≡ false) s

-- What stands behind the last slash, or everything if there is none.
abbrev pub IsLastOf : Text → Text → Type 0
IsLastOf s last = HasNoSlash last × ((s ≡ last) ⊎ ((front : Text) × (s ≡ front ++ (b'/' ∷ last))))

find_here : (c : ℕ) (s : Text) → (c == b'/') ≡ true → find (text "/") (c ∷ s) ≡ some 0
unfolding find starts_with text
find_here c s h = ground arith

find_later :
    (c : ℕ) (s : Text) (i : ℕ)
    → (c == b'/') ≡ false
    → find (text "/") s ≡ some i
    → find (text "/") (c ∷ s) ≡ some (suc i)
unfolding find starts_with text
find_later c s i h e = ground arith

find_nowhere :
    (c : ℕ) (s : Text)
    → (c == b'/') ≡ false
    → find (text "/") s ≡ none
    → find (text "/") (c ∷ s) ≡ none
unfolding find starts_with text
find_nowhere c s h e = ground arith

-- `find` by its first character.
find-HasNoSlash : (s : Text) → find (text "/") s ≡ none → HasNoSlash s
find-HasNoSlash [] h = tt
find-HasNoSlash (c ∷ s) h = elim (Bool-cases (c == b'/')) [
  | inl here ↦ ground (arith, find_here c s here, h)
  | inr other ↦ elim (Option-cases (find (text "/") s)) [
    | inl absent ↦ (other, find-HasNoSlash s absent)
    | inr (i, found) ↦ ground (arith, find_later c s i other found, h)
  ]
]

drop-suc : (n c : ℕ) (s : Text) → drop (suc n + 1) (c ∷ s) ≡ drop (n + 1) s
unfolding drop
drop-suc n c s = ap (λ k. drop k (c ∷ s)) (let same : suc n + 1 ≡ suc (n + 1) = omega arith in same)

drop-zero : (c : ℕ) (s : Text) → drop (0 + 1) (c ∷ s) ≡ s
unfolding drop
drop-zero c s = refl

-- Where the first slash stands.
abbrev IsSlash : Text → ℕ → Type 0
IsSlash s i =
    (front : Text) × (s ≡ front ++ (b'/' ∷ drop (i + 1) s)) × (length (drop (i + 1) s) < length s)

find-IsSlash : (s : Text) (i : ℕ) → find (text "/") s ≡ some i → IsSlash s i
unfolding drop find starts_with text
find-IsSlash [] i h = cc
find-IsSlash (c ∷ s) i h = elim (Bool-cases (c == b'/')) [
  | inl here ↦
      let index : i ≡ 0 = ground (arith, find_here c s here, h) in
      let slash : c ≡ b'/' = ground arith in
      rw (index, drop-zero c s) ([], ap (λ t. t ∷ s) slash, omega arith)
  | inr other ↦ elim (Option-cases (find (text "/") s)) [
    | inl absent ↦ ground (arith, find_nowhere c s other absent, h)
    | inr (k, found) ↦
        let index : i ≡ suc k = ground (arith, find_later c s k other found, h) in
        let (front, e, shorter) = find-IsSlash s k found in
        rw (index, drop-suc k c s) (c ∷ front, ap (λ t. c ∷ t) e, omega (arith, shorter))
  ]
]

-- What is last behind a slash is last in the whole.
behind :
    (s front rest last : Text) → s ≡ front ++ (b'/' ∷ rest) → IsLastOf rest last → IsLastOf s last
behind s front rest last e (none_left, inl same) =
    (none_left, inr (front, e ∙ ap (λ t. front ++ (b'/' ∷ t)) same))
behind s front rest last e (none_left, inr (more, split)) = (
  none_left,
  inr (
    front ++ (b'/' ∷ more),
    e ∙ ap (λ t. front ++ (b'/' ∷ t)) split ∙ sym (append_assoc front (b'/' ∷ more) (b'/' ∷ last)),
  ),
)

strip-IsLastOf : (fuel : ℕ) (s : Text) → length s ≤ fuel → IsLastOf s (strip fuel s)
unfolding strip
strip-IsLastOf zero [] h = (tt, inl refl)
strip-IsLastOf zero (c ∷ s) h = absurd (omega arith)
strip-IsLastOf (suc fuel) s h = elim (Option-cases (find (text "/") s)) [
  | inl absent ↦ rw (absent, strip) (find-HasNoSlash s absent, inl refl)
  | inr (i, found) ↦
      let (front, e, shorter) = find-IsSlash s i found in
      rw (found, strip)
        (behind s front (drop (i + 1) s) _ e
          (strip-IsLastOf fuel (drop (i + 1) s) (omega (arith, shorter))))
]

-- The loop of `processCommand` ends, and leaves what stands behind the last slash of the command, or
-- the whole command if there is no slash in it.
pub process_command-IsLastOf : (command : Text) → IsLastOf command (process_command command)
unfolding process_command
process_command-IsLastOf command = strip-IsLastOf (length command) command (omega arith)
