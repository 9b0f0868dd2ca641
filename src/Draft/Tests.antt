-- ===== src/Draft/Tests.antt =====
-- The theorems on the first version (310551113_hw1/_hw1.cpp) at a small set of files.
use advanced_programming_in.Base.{ℕ, ◌≡◌, ◌↔◌, true, false, some, none, List, [], ◌∷◌, All}
use advanced_programming_in.Base.{length, if◌then◌else◌}
use advanced_programming_in.Base.Text.{Text, text, text_eq}
use advanced_programming_in.Lsof.Filter.{Matcher, undefined_behaviour}
use advanced_programming_in.Lsof.Table.Aligned.{Makes}
use advanced_programming_in.Draft.Options.{set_filter}
use advanced_programming_in.Draft.Options.Trailing.{EndsInOption, set_filter_undefined}
use advanced_programming_in.Draft.Files.{Disk, directory, fifo, process_command}
use advanced_programming_in.Draft.Files.Component.{IsLastOf, process_command-IsLastOf}
use advanced_programming_in.Draft.Table.{list_open}
use advanced_programming_in.Draft.Table.Aligned.{list_open_aligned}

-- Every pattern matches.
abbrev matcher : Matcher Text
matcher = record { compile = λ t. some t; search = λ s r. true; match_all = λ s r. true }

-- One process, with a pipe.
abbrev disk : Disk
disk = record {
  lines = λ path.
      if text_eq path (text "/proc/7/status") then text "Uid: 0" ∷ [] else text "/bin/sh" ∷ [];
  entries = λ path.
      if text_eq path (text "/proc")
      then some (text "7" ∷ [])
      else if text_eq path (text "/proc/7")
      then some (text "cmdline" ∷ text "status" ∷ text "exe" ∷ text "fd" ∷ [])
      else some (text "0" ∷ []);
  status = λ path. if text_eq path (text "/proc/7") then some directory else some fifo;
  is_symlink = λ path. some false;
  read_symlink = λ path. some (text "pipe:[12]");
  open_read = λ path. none;
  fstat_ino = λ fd. none;
  lstat_mode = λ path. some 0x140;
  user_name = λ uid. some (text "root");
}

abbrev argv : List Text
argv = text "hw1" ∷ text "-c" ∷ text "sh" ∷ []

lines_example :
    Makes
      (λ lines. (width : ℕ) × All (λ line. length line ≡ width) lines)
      (list_open matcher disk argv)
lines_example = list_open_aligned matcher disk argv

trailing_example :
    (set_filter matcher (text "hw1" ∷ text "-c" ∷ text "sh" ∷ text "-t" ∷ []) ≡ undefined_behaviour)
    ↔ EndsInOption (set_filter matcher) (text "hw1" ∷ text "-c" ∷ text "sh" ∷ text "-t" ∷ [])
trailing_example =
    set_filter_undefined matcher (text "hw1" ∷ text "-c" ∷ text "sh" ∷ text "-t" ∷ [])

component_example : IsLastOf (text "/usr/bin/sh") (process_command (text "/usr/bin/sh"))
component_example = process_command-IsLastOf (text "/usr/bin/sh")
