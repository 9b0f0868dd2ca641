-- ===== src/Draft/Options/Trailing.antt =====
-- An option of 310551113_hw1/_hw1.cpp without a value.
use advanced_programming_in.Base.{◌≡◌, refl, Option-cases, ◌↔◌, inl, inr, ◌⊎◌, sym, ◌∙◌, ap, none}
use advanced_programming_in.Base.{some, List, [], ◌∷◌, ◌++◌, arith}
use advanced_programming_in.Base.Text.{Text, text}
use advanced_programming_in.Lsof.Filter.{Matcher, Outcome, made, aborted, undefined_behaviour}
use advanced_programming_in.Lsof.Filter.{and_then}
use advanced_programming_in.Draft.Options.{Filter, Pattern, option_of, with_pattern, set_pattern}
use advanced_programming_in.Draft.Options.{read_options, set_filter}

-- The last argument is an option, and those before it are accepted.
abbrev pub EndsInOption : {R : Type 0} → (List Text → Outcome (Filter R)) → List Text → Type 0
EndsInOption {R = R} accept args =
    (front : List Text) × (arg : Text) × (pattern : Pattern) × (f : Filter R) × (args
      ≡ front ++ (arg ∷ []))
    × (option_of arg ≡ some pattern)
    × (accept front ≡ made f)

module _ {R : Type 0} (m : Matcher R) where
  set_pattern-cases :
      (f : Filter R) (pattern : Pattern) (value : Text)
      → (set_pattern m f pattern value ≡ aborted)
        ⊎ ((f' : Filter R) × (set_pattern m f pattern value ≡ made f'))
  unfolding set_pattern
  set_pattern-cases f pattern value = elim (Option-cases (m.compile value)) [
    | inl invalid ↦ inl (rw (invalid, set_pattern) refl)
    | inr (r, valid) ↦ inr (with_pattern f pattern r, rw (valid, set_pattern) refl)
  ]

  read_skip :
      (f : Filter R) (arg : Text) (rest : List Text)
      → option_of arg ≡ none
      → read_options m f (arg ∷ rest) ≡ read_options m f rest
  unfolding read_options
  read_skip f arg [] h = rw (h, read_options) refl
  read_skip f arg (v ∷ rest) h = rw (h, read_options) refl

  read_last :
      (f : Filter R) (arg : Text) (pattern : Pattern)
      → option_of arg ≡ some pattern
      → read_options m f (arg ∷ []) ≡ undefined_behaviour
  unfolding read_options
  read_last f arg pattern h = rw (h, read_options) refl

  read_value :
      (f : Filter R) (arg value : Text) (rest : List Text) (pattern : Pattern)
      → option_of arg ≡ some pattern
      → read_options m f (arg ∷ value ∷ rest)
        ≡ and_then (set_pattern m f pattern value) (λ f'. read_options m f' rest)
  unfolding read_options
  read_value f arg value rest pattern h = rw (h, read_options) refl

  read_aborted :
      (f : Filter R) (arg value : Text) (rest : List Text) (pattern : Pattern)
      → option_of arg ≡ some pattern
      → set_pattern m f pattern value ≡ aborted
      → read_options m f (arg ∷ value ∷ rest) ≡ aborted
  unfolding and_then
  read_aborted f arg value rest pattern h e = rw (read_value f arg value rest pattern h, e) refl

  read_set :
      (f f' : Filter R) (arg value : Text) (rest : List Text) (pattern : Pattern)
      → option_of arg ≡ some pattern
      → set_pattern m f pattern value ≡ made f'
      → read_options m f (arg ∷ value ∷ rest) ≡ read_options m f' rest
  unfolding and_then
  read_set f f' arg value rest pattern h e = rw (read_value f arg value rest pattern h, e) refl

  last_undefined :
      (f g : Filter R) (front : List Text) (arg : Text) (pattern : Pattern)
      → option_of arg ≡ some pattern
      → read_options m f front ≡ made g
      → read_options m f (front ++ (arg ∷ [])) ≡ undefined_behaviour
  last_undefined f g [] arg pattern h e = read_last f arg pattern h
  last_undefined f g (a ∷ []) arg pattern h e = elim (Option-cases (option_of a)) [
    | inl skipped ↦ read_skip f a (arg ∷ []) skipped ∙ read_last f arg pattern h
    | inr (p, taken) ↦ ground (arith, read_last f a p taken, e)
  ]
  last_undefined f g (a ∷ v ∷ front) arg pattern h e = elim (Option-cases (option_of a)) [
    | inl skipped ↦
        read_skip f a (v ∷ front ++ (arg ∷ [])) skipped
        ∙ last_undefined f g (v ∷ front) arg pattern h (sym (read_skip f a (v ∷ front) skipped) ∙ e)
    | inr (p, taken) ↦ elim (set_pattern-cases f p v) [
      | inl invalid ↦ ground (arith, read_aborted f a v front p taken invalid, e)
      | inr (f', valid) ↦
          read_set f f' a v (front ++ (arg ∷ [])) p taken valid
          ∙ last_undefined f' g front arg pattern h
              (sym (read_set f f' a v front p taken valid) ∙ e)
    ]
  ]

  skip-EndsInOption :
      (f : Filter R) (a : Text) (args : List Text)
      → option_of a ≡ none
      → EndsInOption (read_options m f) args
      → EndsInOption (read_options m f) (a ∷ args)
  skip-EndsInOption f a args skipped (front, arg, pattern, g, e, h, accepted) =
      (a ∷ front, arg, pattern, g, ap (λ t. a ∷ t) e, h, read_skip f a front skipped ∙ accepted)

  set-EndsInOption :
      (f f' : Filter R) (a v : Text) (args : List Text) (p : Pattern)
      → option_of a ≡ some p
      → set_pattern m f p v ≡ made f'
      → EndsInOption (read_options m f') args
      → EndsInOption (read_options m f) (a ∷ v ∷ args)
  set-EndsInOption f f' a v args p taken valid (front, arg, pattern, g, e, h, accepted) = (
    a ∷ v ∷ front,
    arg,
    pattern,
    g,
    ap (λ t. a ∷ v ∷ t) e,
    h,
    read_set f f' a v front p taken valid ∙ accepted,
  )

  undefined_last :
      (f : Filter R) (args : List Text)
      → read_options m f args ≡ undefined_behaviour
      → EndsInOption (read_options m f) args
  unfolding read_options
  undefined_last f [] e = cc
  undefined_last f (a ∷ []) e = elim (Option-cases (option_of a)) [
    | inl skipped ↦ ground (arith, read_skip f a [] skipped, e)
    | inr (p, taken) ↦ ([], a, p, f, refl, taken, refl)
  ]
  undefined_last f (a ∷ v ∷ args) e = elim (Option-cases (option_of a)) [
    | inl skipped ↦
        skip-EndsInOption f a (v ∷ args) skipped
          (undefined_last f (v ∷ args) (sym (read_skip f a (v ∷ args) skipped) ∙ e))
    | inr (p, taken) ↦ elim (set_pattern-cases f p v) [
      | inl invalid ↦ ground (arith, read_aborted f a v args p taken invalid, e)
      | inr (f', valid) ↦
          set-EndsInOption f f' a v args p taken valid
            (undefined_last f' args (sym (read_set f f' a v args p taken valid) ∙ e))
    ]
  ]

  read_options_undefined :
      (f : Filter R) (args : List Text)
      → (read_options m f args ≡ undefined_behaviour) ↔ EndsInOption (read_options m f) args
  read_options_undefined f args = (
    undefined_last f args,
    λ (front, arg, pattern, g, e, h, accepted).
        ap (read_options m f) e ∙ last_undefined f g front arg pattern h accepted,
  )

set_filter_invalid :
    {R : Type 0} (m : Matcher R) (argv : List Text)
    → m.compile (text ".*") ≡ none
    → set_filter m argv ≡ aborted
unfolding set_filter
set_filter_invalid m argv invalid = rw (invalid, set_filter) refl

set_filter_valid :
    {R : Type 0} (m : Matcher R) (any : R) (argv : List Text)
    → m.compile (text ".*") ≡ some any
    → set_filter m argv ≡ read_options m (record { command = any; filename = any; type = any }) argv
unfolding set_filter
set_filter_valid m any argv valid = rw (valid, set_filter) refl

-- The options are read with an undefined step exactly if the last argument is an option, and the
-- arguments before it are accepted: the option then takes the null pointer `argv[argc]`.
pub set_filter_undefined :
    {R : Type 0} (m : Matcher R) (argv : List Text)
    → (set_filter m argv ≡ undefined_behaviour) ↔ EndsInOption (set_filter m) argv
set_filter_undefined m argv = elim (Option-cases (m.compile (text ".*"))) [
  | inl invalid ↦ (
    λ e. ground (arith, set_filter_invalid m argv invalid, e),
    λ (front, arg, pattern, g, e, h, accepted).
        ground (arith, set_filter_invalid m front invalid, accepted),
  )
  | inr (any, valid) ↦
      let read =
        read_options_undefined m (record { command = any; filename = any; type = any }) argv in
      (
        (λ e.
            let (front, arg, pattern, g, split, h, accepted) =
              read.0 (sym (set_filter_valid m any argv valid) ∙ e) in
            (front, arg, pattern, g, split, h, set_filter_valid m any front valid ∙ accepted)),
        λ (front, arg, pattern, g, split, h, accepted).
            set_filter_valid m any argv valid
            ∙ read.1 (
              front,
              arg,
              pattern,
              g,
              split,
              h,
              sym (set_filter_valid m any front valid) ∙ accepted,
            ),
      )
]
