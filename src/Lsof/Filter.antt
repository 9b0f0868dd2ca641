-- ===== src/Lsof/Filter.antt =====
-- The options of 310551113_hw1/hw1.cpp: `Filter`, its constructor and `filt`.
use advanced_programming_in.Base.{ℕ, suc, ◌-◌, ◌/◌, Bool-cases, Option-cases, inl, inr, ◌+◌, ◌%◌}
use advanced_programming_in.Base.{◌≡◌, arith, ltb, ◌==◌, Bool, true, ◌&&◌, Option, none, some}
use advanced_programming_in.Base.{List, [], ◌∷◌, if◌then◌else◌, length}
use advanced_programming_in.Base.Text.{Text, text, text_eq}

-- `std::regex`: a pattern that is no regular expression throws.
pub record Matcher (R : Type 0) : Type 0 where
  pub compile : Text → Option R
  pub search : Text → R → Bool
  pub match_all : Text → R → Bool

pub record Filter (R : Type 0) : Type 0 where
  pub command : R
  pub filename : R
  pub kind : R

-- How a part of the program ends: with a value, by `exit(1)`, by an exception that nothing
-- catches, or with a step that C++ leaves undefined.
pub data Outcome {ℓ} (A : Type ℓ) : Type ℓ where
  made : A → Outcome A
  exited aborted undefined_behaviour : Outcome A

-- What follows a part that may not return.
unfoldable pub and_then {ℓ κ} : {A : Type ℓ} {B : Type κ} → Outcome A → (A → Outcome B) → Outcome B
and_then (made a) f = f a
and_then exited f = exited
and_then aborted f = aborted
and_then undefined_behaviour f = undefined_behaviour

-- `regex` of a value that may be missing: a null pointer has no characters to read.
unfoldable pub set_option :
    {R : Type 0} → Matcher R → Filter R → Text → Option Text → Outcome (Filter R)
set_option m f name none = undefined_behaviour
set_option m f name (some value) = elim (m.compile value) [
  | none ↦ aborted
  | some r ↦
      if text_eq name (text "c")
      then made (record f { command = r })
      else if text_eq name (text "f")
      then made (record f { filename = r })
      else made (record f { kind = r })
]

-- The names that are taken.
unfoldable pub is_option : Text → Bool
is_option name =
    if text_eq name (text "c")
    then true
    else if text_eq name (text "f")
    then true
    else text_eq name (text "t")

-- The name of an option, behind `-`.
unfoldable pub option_name : Text → Option Text
unfolding is_option
option_name [] = none
option_name (c ∷ name) = if c == b'-' && is_option name then some name else none

-- The loop over `argv`. The option that stands last takes `argv[argc]`, which is null.
unfoldable pub read_args : {R : Type 0} → Matcher R → Filter R → List Text → Outcome (Filter R)
unfolding option_name set_option and_then
read_args m f [] = made f
read_args m f (arg ∷ []) = elim (option_name arg) [
  | none ↦ exited
  | some name ↦ set_option m f name none
]
read_args m f (arg ∷ value ∷ more) = elim (option_name arg) [
  | none ↦ exited
  | some name ↦ and_then (set_option m f name (some value)) (λ f'. read_args m f' more)
]

-- The constructor, on `argv` without the name of the program.
unfoldable pub new_filter : {R : Type 0} → Matcher R → List Text → Outcome (Filter R)
unfolding read_args
new_filter m args =
    let argc = suc (length args) in
    elim (m.compile (text ".*")) [
      | none ↦ aborted
      | some any ↦
          if ltb 1 argc && argc % 2 == 0
          then exited
          else read_args m (record { command = any; filename = any; kind = any }) args
    ]

unfoldable pub filt : {R : Type 0} → Matcher R → Filter R → Text → Text → Text → Bool
filt m f c n t = m.search c f.command && m.search n f.filename && m.match_all t f.kind

-- No step that C++ leaves undefined is taken.
abbrev pub IsDefined : {A : Type 0} → Outcome A → Type 0
IsDefined undefined_behaviour = ⊥
IsDefined _ = Unit

set_option-value :
    {R : Type 0} (m : Matcher R) (f : Filter R) (name value : Text)
    → IsDefined (set_option m f name (some value))
unfolding set_option
set_option-value m f name value = ground arith

and_then-IsDefined :
    {A B : Type 0} (r : Outcome A) (f : A → Outcome B)
    → IsDefined r
    → ((a : A) → IsDefined (f a))
    → IsDefined (and_then r f)
unfolding and_then
and_then-IsDefined (made a) f h k = k a
and_then-IsDefined exited f h k = tt
and_then-IsDefined aborted f h k = tt
and_then-IsDefined undefined_behaviour f h k = absurd h

read_args-even :
    {R : Type 0} (m : Matcher R) (f : Filter R) (args : List Text) (k : ℕ)
    → length args ≡ k + k
    → IsDefined (read_args m f args)
unfolding read_args
read_args-even m f [] k e = tt
read_args-even m f (arg ∷ []) k e = absurd (omega arith)
read_args-even {R = R} m f (arg ∷ value ∷ more) k e = elim (Option-cases (option_name arg)) [
  | inl unknown ↦ ground arith
  | inr (name, known) ↦
      let rest = λ (f' : Filter R). read_args m f' more in
      ground (
        arith,
        and_then-IsDefined (set_option m f name (some value)) rest (set_option-value m f name value)
            λ f'. read_args-even m f' more (k - 1) (omega arith),
      )
]

-- Whatever the arguments are, and whatever the patterns compile to, the options are read without
-- an undefined step: in particular no option takes `argv[argc]` as its value.
pub new_filter-IsDefined :
    {R : Type 0} (m : Matcher R) (args : List Text) → IsDefined (new_filter m args)
unfolding new_filter
new_filter-IsDefined m args = elim (Option-cases (m.compile (text ".*"))) [
  | inl invalid ↦ ground arith
  | inr (any, valid) ↦ elim (Bool-cases (ltb 1 (suc (length args)) && suc (length args) % 2 == 0)) [
    | inl odd ↦ ground arith
    | inr even ↦ ground (
      arith,
      read_args-even m (record { command = any; filename = any; kind = any }) args (length args / 2)
          (ground arith),
    )
  ]
]
