-- ===== src/Draft/Options.antt =====
-- The options of 310551113_hw1/_hw1.cpp: `Filter` and `setFilter`.
pub mod Trailing
use advanced_programming_in.Base.{Bool, true, false, ◌&&◌, Option, none, some, List, [], ◌∷◌}
use advanced_programming_in.Base.{if◌then◌else◌}
use advanced_programming_in.Base.Text.{Text, text, text_eq}
use advanced_programming_in.Lsof.Filter.{Matcher, Outcome, made, aborted, undefined_behaviour}
use advanced_programming_in.Lsof.Filter.{and_then}

pub record Filter (R : Type 0) : Type 0 where
  pub command : R
  pub filename : R
  pub type : R

-- `Filter::process`
unfoldable pub shows_process : {R : Type 0} → Matcher R → Filter R → Text → Bool
shows_process m f command = m.search command f.command

-- `Filter::file`
unfoldable pub shows_file : {R : Type 0} → Matcher R → Filter R → Text → Text → Bool
shows_file m f filename type = m.search filename f.filename && m.match_all type f.type

-- The three options.
pub data Pattern : Type 0 where
  of_command of_filename of_type : Pattern

unfoldable pub option_of : Text → Option Pattern
option_of arg =
    if text_eq arg (text "-c")
    then some of_command
    else if text_eq arg (text "-f")
    then some of_filename
    else if text_eq arg (text "-t")
    then some of_type
    else none

unfoldable pub with_pattern : {R : Type 0} → Filter R → Pattern → R → Filter R
with_pattern f of_command r = record f { command = r }
with_pattern f of_filename r = record f { filename = r }
with_pattern f of_type r = record f { type = r }

-- `regex(argv[++i])`, which throws if the pattern is no regular expression.
unfoldable pub set_pattern :
    {R : Type 0} → Matcher R → Filter R → Pattern → Text → Outcome (Filter R)
unfolding with_pattern
set_pattern m f pattern value = elim (m.compile value) [
  | none ↦ aborted
  | some r ↦ made (with_pattern f pattern r)
]

-- The loop over `argv`. What is no option is skipped; an option that stands last takes `argv[argc]`,
-- which is null.
unfoldable pub read_options : {R : Type 0} → Matcher R → Filter R → List Text → Outcome (Filter R)
unfolding option_of set_pattern and_then
read_options m f [] = made f
read_options m f (arg ∷ []) = elim (option_of arg) [
  | none ↦ made f
  | some pattern ↦ undefined_behaviour
]
read_options m f (arg ∷ value ∷ more) = elim (option_of arg) [
  | none ↦ read_options m f (value ∷ more)
  | some pattern ↦ and_then (set_pattern m f pattern value) (λ f'. read_options m f' more)
]

-- `setFilter`, on `argv` with the name of the program.
unfoldable pub set_filter : {R : Type 0} → Matcher R → List Text → Outcome (Filter R)
unfolding read_options
set_filter m argv = elim (m.compile (text ".*")) [
  | none ↦ aborted
  | some any ↦ read_options m (record { command = any; filename = any; type = any }) argv
]
