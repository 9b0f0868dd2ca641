-- ===== src/Lsof/Files.antt =====
-- What 310551113_hw1/hw1.cpp reads of one file under /proc: `is_number`, `get_command`, `get_uid`,
-- `get_user`, `safe_readlink`, `get_from_stat`, `clear_deleted`.
use advanced_programming_in.Base.{ℕ, zero, suc, ◌-◌, ◌^◌, bit_and, ◌==◌, Bool, true, false, ◌&&◌}
use advanced_programming_in.Base.{Option, none, some, List, [], ◌∷◌, ◌++◌, if◌then◌else◌}
use advanced_programming_in.Base.Text.{Text, text, text_eq, tokens, is_digit, stoi, to_decimal, ℤ}
use advanced_programming_in.Base.Text.{pos, negsuc}
use advanced_programming_in.Lsof.Filter.{Outcome, made, aborted, and_then}

-- The values 0, -1 and 1 of `err`.
pub data Err : Type 0 where
  fine denied failed : Err

unfoldable pub is_failed : Err → Bool
is_failed failed = true
is_failed _ = false

-- `readlink`: a path, `EACCES` or another error.
pub data Link : Type 0 where
  to : Text → Link
  no_access other_error : Link

pub record Stat : Type 0 where
  pub st_mode : ℕ
  pub st_ino : ℕ

-- The files, as long as the program runs. `lines` is a file read by `getline`.
pub record Disk : Type 0 where
  pub lines : Text → Option (List Text)
  pub link_of : Text → Link
  pub stat : Text → Option Stat
  pub lstat : Text → Option Stat
  pub readdir : Text → Option (List Text)
  pub user_name : ℕ → Option Text

unfoldable pub is_number : Text → Bool
is_number [] = true
is_number (c ∷ s) = is_digit c && is_number s

unfoldable pub prefix : ℕ → Text → Text
prefix zero s = []
prefix (suc n) [] = []
prefix (suc n) (c ∷ s) = c ∷ prefix n s

unfoldable pub get_command : Disk → Text → Text × Err
get_command d pid_path = elim (d.lines (pid_path ++ text "/comm")) [
  | none ↦ ([], failed)
  | some [] ↦ ([], fine)
  | some (line ∷ lines) ↦ (line, fine)
]

unfoldable pub first_number : List Text → Option Text
unfolding is_number
first_number [] = none
first_number (buf ∷ bufs) = if is_number buf then some buf else first_number bufs

-- -1 as a `uid_t`.
abbrev pub no_uid : ℕ
no_uid = 2 ^ 32 - 1

-- An `int` as a `uid_t`.
abbrev pub uid_of : ℤ → ℕ
uid_of (pos n) = n
uid_of (negsuc n) = 2 ^ 32 - suc n

unfoldable pub uid_in : List Text → Outcome (ℕ × Err)
unfolding first_number prefix
uid_in [] = made (no_uid, failed)
uid_in (line ∷ lines) =
    if text_eq (prefix 3 line) (text "Uid")
    then elim (first_number (tokens line)) [
      | none ↦ made (no_uid, failed)
      | some buf ↦ elim (stoi buf) [ none ↦ aborted | some uid ↦ made (uid_of uid, fine) ]
    ]
    else uid_in lines

unfoldable pub get_uid : Disk → Text → Outcome (ℕ × Err)
unfolding uid_in
get_uid d pid_path = elim (d.lines (pid_path ++ text "/status")) [
  | none ↦ made (no_uid, failed)
  | some lines ↦ uid_in lines
]

unfoldable pub user_of : Disk → ℕ × Err → Text × Err
user_of d (uid, failed) = ([], failed)
user_of d (uid, _) = elim (d.user_name uid) [ none ↦ ([], failed) | some name ↦ (name, fine) ]

unfoldable pub get_user : Disk → Text → Outcome (Text × Err)
unfolding get_uid user_of and_then
get_user d pid_path = and_then (get_uid d pid_path) (λ r. made (user_of d r))

-- The buffer takes 1023 characters.
unfoldable pub safe_readlink : Disk → Text → Text × Err
unfolding prefix
safe_readlink d link_path = elim (d.link_of link_path) [
  | to buf ↦ (prefix 1023 buf, fine)
  | no_access ↦ (link_path ++ text " (Permission denied)", denied)
  | other_error ↦ ([], failed)
]

-- The values that `target` has.
pub data Target : Type 0 where
  kind node mode : Target

-- `switch (buf.st_mode & S_IFMT)`
unfoldable pub kind_of : ℕ → Text
kind_of st_mode =
    let format = bit_and st_mode 0xf000 in
    if format == 0x2000
    then text "CHR"
    else if format == 0x4000
    then text "DIR"
    else if format == 0x1000
    then text "FIFO"
    else if format == 0x8000
    then text "REG"
    else if format == 0xc000
    then text "SOCK"
    else text "unknown"

-- `S_IRUSR` and `S_IWUSR`.
unfoldable pub mode_of : ℕ → Text
mode_of st_mode =
    let readable = if bit_and st_mode 0x100 == 0 then [] else text "r" in
    if bit_and st_mode 0x80 == 0
    then readable
    else if text_eq readable (text "r")
    then text "u"
    else text "w"

unfoldable pub shown_stat : Target → Stat → Text
unfolding kind_of mode_of
shown_stat kind buf = kind_of buf.st_mode
shown_stat node buf = to_decimal buf.st_ino
shown_stat mode buf = mode_of buf.st_mode

unfoldable pub unknown_stat : Target → Text
unknown_stat kind = text "unknown"
unknown_stat _ = []

-- `if (errno = EACCES)` assigns, so every error of `stat` counts as a missing permission. A
-- success leaves `err` as it was.
unfoldable pub get_from_stat : Disk → Text → Target → Bool → Err → Text × Err
unfolding shown_stat unknown_stat
get_from_stat d file_path target through_link err =
    elim (if through_link then d.stat file_path else d.lstat file_path) [
      | none ↦ (unknown_stat target, denied)
      | some buf ↦ (shown_stat target buf, err)
    ]

unfoldable pub first_word : List Text → Text
first_word [] = []
first_word (buf ∷ bufs) = buf

unfoldable pub clear_deleted : Text → Text
unfolding first_word
clear_deleted filename = first_word (tokens filename)
