-- ===== src/Lsof/Process.antt =====
-- The files of a process in 310551113_hw1/hw1.cpp: `get_special_file`, `get_maps`, `iterate_fd`,
-- `iterate_pid`, with the set `inode_pool` as a list.
pub mod Pool
pub mod Errors
use advanced_programming_in.Base.{Bool, true, false, Option, none, some, List, [], ◌∷◌, ◌++◌}
use advanced_programming_in.Base.{if◌then◌else◌, get_elem?}
use advanced_programming_in.Base.Text.{Text, text, text_eq, tokens}
use advanced_programming_in.Lsof.Filter.{Outcome, made, and_then}
use advanced_programming_in.Lsof.Files.{Err, fine, failed, is_failed, Disk, kind, node, mode}
use advanced_programming_in.Lsof.Files.{is_number, get_command, get_user, safe_readlink}
use advanced_programming_in.Lsof.Files.{get_from_stat, clear_deleted}

pub record File : Type 0 where
  pub fd : Text
  pub type : Text
  pub node : Text
  pub name : Text

pub record Process : Type 0 where
  pub command : Text
  pub pid : Text
  pub user : Text
  pub files : List File

abbrev pub no_file : File
no_file = record { fd = []; type = []; node = []; name = [] }

unfoldable pub contains : List Text → Text → Bool
contains [] n = false
contains (m ∷ pool) n = if text_eq m n then true else contains pool n

-- `inode_pool.insert`
unfoldable pub insert : Text → List Text → List Text
unfolding contains
insert n pool = if contains pool n then pool else n ∷ pool

-- The result, `err` and the pool.
unfoldable pub get_special_file : Disk → List Text → Text → Text → File × Err × List Text
unfolding insert is_failed
get_special_file d pool file_path fd =
    let (link, err) = safe_readlink d file_path in
    let (type, err₁) = get_from_stat d file_path kind true err in
    let (ino, err₂) = get_from_stat d file_path node true err₁ in
    if is_failed err
    then (no_file, err, pool)
    else if is_failed err₁
    then (no_file, err₁, pool)
    else if is_failed err₂
    then (no_file, err₂, pool)
    else (
      record { fd = fd; type = type; node = ino; name = clear_deleted link },
      err₂,
      if text_eq fd (text "txt") then insert ino pool else pool,
    )

-- Word 4 of a line is the inode; a line with `0` there maps no file.
unfoldable pub map_node : List Text → Option Text
map_node words = elim (get_elem? words 4) [
  | none ↦ none
  | some buf ↦ if text_eq buf (text "0") then none else some buf
]

-- Word 5 is the name.
unfoldable pub map_name : List Text → Text
map_name words = elim (get_elem? words 5) [ none ↦ [] | some buf ↦ buf ]

unfoldable pub is_deleted : List Text → Bool
is_deleted words = elim (get_elem? words 6) [
  | none ↦ false
  | some buf ↦ text_eq buf (text "(deleted)")
]

unfoldable pub map_type : Disk → List Text → Err → Text × Err
unfolding is_deleted map_name
map_type d words err =
    if is_deleted words then (text "DEL", err) else get_from_stat d (map_name words) kind false err

abbrev pub mem_file : Text → Text → Text → File
mem_file type n name = record { fd = text "mem"; type = type; node = n; name = name }

-- `if (!is_file) continue;`
abbrev pub if_some : {A B : Type 0} → Option A → B → (A → B) → B
if_some none skipped rest = skipped
if_some (some a) skipped rest = rest a

-- The loop of `get_maps`, with the files so far.
unfoldable pub maps_from :
    Disk → List Text → List File → Err → List Text → List File × Err × List Text
unfolding map_node map_type contains insert is_failed
maps_from d pool files err [] = (files, err, pool)
maps_from d pool files err (line ∷ lines) =
    let words = tokens line in
    let (type, err₁) = map_type d words err in
    let skipped = maps_from d pool files err lines in
    let known = maps_from d pool files err₁ lines in
    if_some (map_node words) skipped (λ n.
      let file = mem_file type n (map_name words) in
      let added = maps_from d (insert n pool) (files ++ (file ∷ [])) err₁ lines in
      if is_failed err₁ then ([], err₁, pool) else if contains pool n then known else added)

unfoldable pub get_maps : Disk → List Text → Text → List File × Err × List Text
unfolding maps_from
get_maps d pool map_path = elim (d.lines map_path) [
  | none ↦ ([], failed, pool)
  | some lines ↦ maps_from d pool [] fine lines
]

-- The file of one entry of the directory `fd`.
unfoldable pub fd_file : Disk → Text → Text → Err → File × Err
unfolding is_failed
fd_file d path link err =
    let (perms, err₁) = get_from_stat d path mode false err in
    let (type, err₂) = get_from_stat d path kind true err₁ in
    let (ino, err₃) = get_from_stat d path node true err₂ in
    let (name, err₄) = safe_readlink d path in
    if is_failed err₁
    then (no_file, err₁)
    else if is_failed err₂
    then (no_file, err₂)
    else if is_failed err₃
    then (no_file, err₃)
    else (record { fd = link ++ perms; type = type; node = ino; name = clear_deleted name }, err₄)

unfoldable pub fds_from : Disk → Text → List File → Err → List Text → List File × Err
unfolding is_number fd_file is_failed
fds_from d fd_path files err [] = (files, err)
fds_from d fd_path files err (link ∷ links) =
    let (file, err₁) = fd_file d (fd_path ++ text "/" ++ link) link err in
    let skipped = fds_from d fd_path files err links in
    let added = fds_from d fd_path (files ++ (file ∷ [])) err₁ links in
    if is_number link then (if is_failed err₁ then ([], err₁) else added) else skipped

unfoldable pub iterate_fd : Disk → Text → List File × Err
unfolding fds_from
iterate_fd d fd_path = elim (d.readdir fd_path) [
  | none ↦ ([], fine)
  | some links ↦ fds_from d fd_path [] fine links
]

-- The loop over `fds` and `filenames`: the files, whether it failed, and the pool.
unfoldable pub special_files :
    Disk → List Text → Text → List (Text × Text) → Option (List File × List Text)
unfolding get_special_file is_failed
special_files d pool pid_path [] = some ([], pool)
special_files d pool pid_path ((fd, filename) ∷ more) =
    let (file, err, pool₁) = get_special_file d pool (pid_path ++ text "/" ++ filename) fd in
    let rest = special_files d pool₁ pid_path more in
    if is_failed err
    then none
    else elim rest [ none ↦ none | some (files, pool₂) ↦ some (file ∷ files, pool₂) ]

abbrev pub specials : List (Text × Text)
specials = (text "cwd", text "cwd") ∷ (text "rtd", text "root") ∷ (text "txt", text "exe") ∷ []

-- The files of a process in their order, if it can be read.
unfoldable pub process_files : Disk → Text → Option (List File)
unfolding special_files get_maps iterate_fd is_failed
process_files d pid_path = elim (special_files d [] pid_path specials) [
  | none ↦ none
  | some (special, pool) ↦
      let (mapped, err, pool₁) = get_maps d pool (pid_path ++ text "/maps") in
      let (opened, err₁) = iterate_fd d (pid_path ++ text "/fd") in
      if is_failed err then none else some (special ++ mapped ++ opened)
]

-- `none` stands for the result 1, after which the process is dropped.
unfoldable pub iterate_pid : Disk → Text → Text → Outcome (Option Process)
unfolding process_files is_failed get_command get_user and_then
iterate_pid d pid_path pid =
    let (command, err) = get_command d pid_path in
    if is_failed err
    then made none
    else and_then (get_user d pid_path) λ (user, err₁).
      if is_failed err₁ then made none else elim (process_files d pid_path) [
        | none ↦ made none
        | some files ↦
            made (some (record { command = command; pid = pid; user = user; files = files }))
      ]
