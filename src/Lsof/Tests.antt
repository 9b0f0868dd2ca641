-- ===== src/Lsof/Tests.antt =====
-- The theorems on the lister (310551113_hw1/hw1.cpp) at a small set of files.
use advanced_programming_in.Base.{ℕ, ◌≡◌, true, some, none, [], ◌∷◌, All, length, if◌then◌else◌}
use advanced_programming_in.Base.Text.{Text, text, text_eq}
use advanced_programming_in.Lsof.Filter.{Matcher, new_filter, IsDefined, new_filter-IsDefined}
use advanced_programming_in.Lsof.Filter.{made, and_then}
use advanced_programming_in.Lsof.Files.{Disk, to, is_failed, safe_readlink}
use advanced_programming_in.Lsof.Process.{get_maps, get_special_file}
use advanced_programming_in.Lsof.Process.Pool.{IsFresh, get_maps-IsFresh}
use advanced_programming_in.Lsof.Process.Errors.{get_special_file-is_failed}
use advanced_programming_in.Lsof.Table.{list_files}
use advanced_programming_in.Lsof.Table.Rows.{read_all, all_cells, table, list_files-table}
use advanced_programming_in.Lsof.Table.Aligned.{Makes, list_files_aligned}

-- Every pattern matches.
abbrev matcher : Matcher Text
matcher = record { compile = λ t. some t; search = λ s r. true; match_all = λ s r. true }

-- One process, with one open file.
abbrev disk : Disk
disk = record {
  lines = λ path. some (text "Uid: 0" ∷ []);
  link_of = λ path. to (text "/bin/sh");
  stat = λ path. some (record { st_mode = 0x81a4; st_ino = 5 });
  lstat = λ path. some (record { st_mode = 0xa1c0; st_ino = 6 });
  readdir =
      λ path. if text_eq path (text "/proc") then some (text "7" ∷ []) else some (text "0" ∷ []);
  user_name = λ uid. some (text "root");
}

options_example : IsDefined (new_filter matcher (text "-c" ∷ text "sh" ∷ []))
options_example = new_filter-IsDefined matcher (text "-c" ∷ text "sh" ∷ [])

aligned_example :
    Makes
      (λ lines. (width : ℕ) × All (λ line. length line ≡ width) lines)
      (list_files matcher disk (text "-c" ∷ text "sh" ∷ []))
aligned_example = list_files_aligned matcher disk (text "-c" ∷ text "sh" ∷ [])

-- A library that is mapped twice, behind the program's own file.
abbrev mapping : Disk
mapping = record disk {
  lines = λ path. some (
      text "400-401 r-xp 0 08:01 5 /bin/sh"
      ∷ text "700-701 r-xp 0 08:01 9 /lib/c"
      ∷ text "701-702 rw-p 0 08:01 9 /lib/c"
      ∷ []);
}

maps_example : IsFresh (text "5" ∷ []) (get_maps mapping (text "5" ∷ []) (text "/proc/7/maps"))
maps_example = get_maps-IsFresh mapping (text "5" ∷ []) (text "/proc/7/maps")

-- The files that links name are gone.
abbrev gone : Disk
gone = record disk { stat = λ path. none; lstat = λ path. none }

special_example :
    is_failed (get_special_file gone [] (text "/proc/7/exe") (text "txt")).1
    ≡ is_failed (safe_readlink gone (text "/proc/7/exe")).1
special_example = get_special_file-is_failed gone [] (text "/proc/7/exe") (text "txt")

table_example :
    list_files matcher disk (text "-c" ∷ text "sh" ∷ [])
    ≡ and_then (new_filter matcher (text "-c" ∷ text "sh" ∷ [])) (λ f.
      and_then
        (read_all disk (text "/proc"))
        (λ processes. made (table (all_cells matcher f processes))))
table_example = list_files-table matcher disk (text "-c" ∷ text "sh" ∷ [])
