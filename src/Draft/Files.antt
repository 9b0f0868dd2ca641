-- ===== src/Draft/Files.antt =====
-- What 310551113_hw1/_hw1.cpp reads of one file: `getCommand`, `processCommand`, `getProcUid`,
-- `getProcUser`, `getMode`, `getInode`, `extractInode`, `safeReadSymlink`.
pub mod Component
use advanced_programming_in.Base.{ℕ, zero, suc, ◌+◌, ◌-◌, ◌%◌, ◌^◌, bit_and, leb, ◌==◌, Bool}
use advanced_programming_in.Base.{true, false, ◌&&◌, ◌||◌, Option, none, some, List, [], ◌∷◌}
use advanced_programming_in.Base.{◌++◌, if◌then◌else◌, length}
use advanced_programming_in.Base.Text.{Text, text, text_eq, tokens, stoi, int_text}
use advanced_programming_in.Lsof.Filter.{Outcome, made, aborted, undefined_behaviour, and_then}
use advanced_programming_in.Lsof.Files.{prefix, first_number, no_uid, uid_of}
use advanced_programming_in.Lsof.Process.{insert}

pub record File : Type 0 where
  pub fd : Text
  pub type : Text
  pub node : Text
  pub name : Text

abbrev pub no_file : File
no_file = record { fd = []; type = []; node = []; name = [] }

-- What a link stands for.
pub data FileType : Type 0 where
  directory regular character_file fifo socket other absent : FileType

-- The files, as long as the program runs. A file that cannot be opened has no lines; `none` is an
-- exception of std::filesystem, or a failed call.
pub record Disk : Type 0 where
  pub lines : Text → List Text
  pub entries : Text → Option (List Text)
  pub status : Text → Option FileType
  pub is_symlink : Text → Option Bool
  pub read_symlink : Text → Option Text
  pub open_read : Text → Option ℕ
  pub fstat_ino : ℕ → Option ℕ
  pub lstat_mode : Text → Option ℕ
  pub user_name : ℕ → Option Text

unfoldable pub drop : ℕ → Text → Text
drop zero s = s
drop (suc n) [] = []
drop (suc n) (c ∷ s) = drop n s

unfoldable pub starts_with : Text → Text → Bool
starts_with [] s = true
starts_with (d ∷ t) [] = false
starts_with (d ∷ t) (c ∷ s) = c == d && starts_with t s

-- `s.find(t)`: where `t` stands first.
unfoldable pub find : Text → Text → Option ℕ
unfolding starts_with
find t [] = if starts_with t [] then some 0 else none
find t (c ∷ s) =
    let later = find t s in
    if starts_with t (c ∷ s) then some 0 else elim later [ none ↦ none | some i ↦ some (suc i) ]

-- `getline(ss, command, '\0')`
unfoldable pub until_zero : Text → Text
until_zero [] = []
until_zero (c ∷ s) = let rest = until_zero s in if c == 0 then [] else c ∷ rest

unfoldable pub get_command : Disk → Text → Text
unfolding until_zero
get_command d path = elim (d.lines path) [ [] ↦ [] | line ∷ more ↦ until_zero line ]

-- The loop of `processCommand`. Each round drops a character at least.
unfoldable pub strip : ℕ → Text → Text
unfolding find drop
strip zero command = command
strip (suc fuel) command = elim (find (text "/") command) [
  | none ↦ command
  | some slash ↦ strip fuel (drop (slash + 1) command)
]

unfoldable pub process_command : Text → Text
unfolding strip
process_command command = strip (length command) command

-- `stoi` throws above the range of `int`.
unfoldable pub proc_uid_in : List Text → Outcome ℕ
unfolding first_number prefix
proc_uid_in [] = made no_uid
proc_uid_in (line ∷ lines) =
    let rest = proc_uid_in lines in
    if text_eq (prefix 3 line) (text "Uid")
    then elim (first_number (tokens line)) [
      | none ↦ made no_uid
      | some buf ↦ elim (stoi buf) [ none ↦ aborted | some uid ↦ made (uid_of uid) ]
    ]
    else rest

unfoldable pub get_proc_uid : Disk → Text → Outcome ℕ
unfolding proc_uid_in
get_proc_uid d path = proc_uid_in (d.lines path)

-- The result of `getpwuid` is not tested.
unfoldable pub get_proc_user : Disk → Text → Outcome Text
unfolding get_proc_uid and_then
get_proc_user d path =
    and_then (get_proc_uid d path)
      λ uid. elim (d.user_name uid) [ none ↦ undefined_behaviour | some name ↦ made name ]

-- `S_IRUSR` and `S_IWUSR`.
unfoldable pub get_mode : Disk → Text → Text
get_mode d filename = elim (d.lstat_mode filename) [
  | none ↦ text "x"
  | some st_mode ↦
      let readable = if bit_and st_mode 0x100 == 0 then [] else text "r" in
      if bit_and st_mode 0x80 == 0
      then readable
      else if text_eq readable (text "r")
      then text "u"
      else text "w"
]

-- An `int`, given as the number of its bits; -1 stands for an error.
unfoldable pub get_inode : Disk → Text → ℕ
get_inode d filename = elim (d.open_read filename) [
  | none ↦ 2 ^ 32 - 1
  | some fd ↦ elim (d.fstat_ino fd) [ none ↦ 2 ^ 32 - 1 | some st_ino ↦ st_ino % 2 ^ 32 ]
]

-- A count below 0 is as good as none: `substr` then takes the rest.
unfoldable pub extract_inode : Text → Text
unfolding find drop prefix
extract_inode filename =
    let s : ℕ = elim (find (text "[") filename) [ none ↦ 0 | some i ↦ i + 1 ] in
    elim (find (text "]") filename) [
      | none ↦ drop s filename
      | some j ↦ if leb s j then prefix (j - s) (drop s filename) else drop s filename
    ]

-- `if (del)`: -1, the number for nothing found, is true as well, and takes the whole name.
unfoldable pub before_deleted : Text → Text
unfolding find prefix
before_deleted name = elim (find (text "(deleted)") name) [
  | none ↦ name
  | some del ↦ if del == 0 then name else prefix del name
]

-- The file, and the pool of inodes.
unfoldable pub safe_read_symlink : Disk → Text → Text → File → List Text → File × List Text
unfolding before_deleted get_inode extract_inode insert int_text
safe_read_symlink d path type file pool = elim (d.read_symlink path) [
  | none ↦ (record file { type = text "unknown"; name = path ++ text " (Permission denied)" }, pool)
  | some link ↦
      let name = before_deleted link in
      let node = int_text (get_inode d path) in
      let named_node = int_text (get_inode d name) in
      if text_eq type (text "FIFO") || text_eq type (text "SOCK")
      then (
        record file {
          type = type;
          name = name;
          node = if text_eq node (text "-1") then extract_inode name else node;
        },
        pool,
      )
      else (record file { type = type; name = name; node = named_node }, insert named_node pool)
]
