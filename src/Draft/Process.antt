-- ===== src/Draft/Process.antt =====
-- The files of a process in 310551113_hw1/_hw1.cpp: `getMappedFiles`, `iterateFd`,
-- `iterateProcess`, with the set `inodePool` as a list.
use advanced_programming_in.Base.{ℕ, ◌+◌, ◌%◌, ◌==◌, Bool, true, false, ◌&&◌, ◌||◌, Option, none}
use advanced_programming_in.Base.{some, List, [], ◌∷◌, ◌++◌, if◌then◌else◌}
use advanced_programming_in.Base.Text.{Text, text, text_eq, tokens, ℤ}
use advanced_programming_in.Lsof.Filter.{Matcher, Outcome, made, aborted, and_then}
use advanced_programming_in.Lsof.Process.{contains, insert}
use advanced_programming_in.Draft.Options.{Filter, shows_file}
use advanced_programming_in.Draft.Files.{File, no_file, FileType, directory, regular}
use advanced_programming_in.Draft.Files.{character_file, fifo, socket, other, absent, Disk, find}
use advanced_programming_in.Draft.Files.{get_command, process_command, get_proc_user, get_mode}
use advanced_programming_in.Draft.Files.{safe_read_symlink}

pub record Process : Type 0 where
  pub command : Text
  pub pid : ℤ
  pub user : Text
  pub files : List File

-- Word 4 of every seven is the inode, word 5 the name, and word 6 may tell that the file is gone.
unfoldable pub map_word : ℕ → Text → File × List Text → File × List Text
unfolding insert find
map_word i buf (file, pool) =
    if i % 7 == 4
    then (record file { node = buf }, insert buf pool)
    else if i % 7 == 5
    then (record file { name = buf }, pool)
    else if i % 7 == 6
    then (
      elim (find (text "deleted") buf) [ none ↦ file | some _ ↦ record file { fd = text "DEL" } ],
      pool,
    )
    else (file, pool)

-- The loop over the words of a line. An inode that is known, or 0, ends it.
unfoldable pub map_words : ℕ → List Text → File × List Text → File × List Text
unfolding map_word contains
map_words i [] s = s
map_words i (buf ∷ bufs) s =
    let rest = map_words (i + 1) bufs (map_word i buf s) in
    if i % 7 == 4 && (contains s.1 buf || text_eq buf (text "0")) then s else rest

unfoldable pub type_name : FileType → Text
type_name directory = text "DIR"
type_name regular = text "REG"
type_name character_file = text "CHR"
type_name fifo = text "FIFO"
type_name socket = text "SOCK"
type_name other = text "unknown"
type_name absent = []

unfoldable pub with_mode : Disk → Text → File × List Text → File × List Text
unfolding get_mode
with_mode d path (file, pool) = (record file { fd = file.fd ++ get_mode d path }, pool)

-- The file of one entry of the directory `fd`; `none` if an exception is thrown.
unfoldable pub fd_file : Disk → Text → Text → List Text → Option (File × List Text)
unfolding type_name safe_read_symlink with_mode
fd_file d path entry pool = elim (d.read_symlink path) [
  | none ↦ none
  | some name ↦
      let file = record no_file { fd = entry; name = name } in
      let read = λ (type : Text). safe_read_symlink d path type file pool in
      elim (d.status path) [
        | none ↦ none
        | some absent ↦ some (with_mode d path (file, pool))
        | some type ↦ some (with_mode d path (read (type_name type)))
      ]
]

module _ {R : Type 0} (m : Matcher R) (f : Filter R) where
  -- `if (f.file(file.name, file.type)) proc.files.push_back(file);`
  unfoldable pub add_file : File → Process → Process
  unfolding shows_file
  add_file file proc =
      if shows_file m f file.name file.type
      then record proc { files = proc.files ++ (file ∷ []) }
      else proc

  unfoldable pub maps_from : List Text → Process × List Text → Process × List Text
  unfolding map_words add_file
  maps_from [] s = s
  maps_from (line ∷ lines) (proc, pool) =
      let (file, pool₁) =
        map_words 0 (tokens line) (record no_file { fd = text "mem"; type = text "REG" }, pool) in
      maps_from lines ((if text_eq file.node [] then proc else add_file file proc), pool₁)

  unfoldable pub get_mapped_files : Disk → Text → Process × List Text → Process × List Text
  unfolding maps_from
  get_mapped_files d path s = maps_from (d.lines path) s

  -- The loop of `iterateFd`, and whether it ended by an exception.
  unfoldable pub fds_from :
      Disk → Text → List Text → Process × List Text → (Process × List Text) × Bool
  unfolding fd_file add_file
  fds_from d fd_path [] s = (s, false)
  fds_from d fd_path (entry ∷ entries) (proc, pool) =
      elim (fd_file d (fd_path ++ text "/" ++ entry) entry pool) [
        | none ↦ ((proc, pool), true)
        | some r ↦ fds_from d fd_path entries (add_file (r.0) proc, r.1)
      ]

  unfoldable pub iterate_fd : Disk → Text → Process × List Text → (Process × List Text) × Bool
  unfolding fds_from
  iterate_fd d fd_path s = elim (d.entries fd_path) [
    | none ↦ (s, true)
    | some entries ↦ fds_from d fd_path entries s
  ]

  -- `catch` around `iterateFd`: what was added stays.
  unfoldable pub fds_or_nofd : Disk → Text → Process × List Text → Process × List Text
  unfolding iterate_fd add_file
  fds_or_nofd d fd_path s =
      let ((proc, pool), is_thrown) = iterate_fd d fd_path s in
      let nofd = record no_file {
        fd = text "NOFD";
        name = fd_path ++ text " (permission denied)";
      } in
      if is_thrown then (add_file nofd proc, pool) else (proc, pool)

  unfoldable pub special_file :
      Disk → Text → Text → Text → Process × List Text → Process × List Text
  unfolding safe_read_symlink add_file
  special_file d path fd type (proc, pool) =
      let (file, pool₁) = safe_read_symlink d path type (record no_file { fd = fd }) pool in
      (add_file file proc, pool₁)

  -- One entry of the directory of a process.
  unfoldable pub visit : Disk → Text → Text → Process × List Text → Outcome (Process × List Text)
  unfolding get_command process_command get_proc_user special_file get_mapped_files fds_or_nofd
      and_then
  visit d path entry s =
      if text_eq entry (text "cmdline")
      then made (record (s.0) { command = process_command (get_command d path) }, s.1)
      else if text_eq entry (text "status")
      then and_then (get_proc_user d path) (λ user. made (record (s.0) { user = user }, s.1))
      else if text_eq entry (text "cwd")
      then made (special_file d path (text "cwd") (text "DIR") s)
      else if text_eq entry (text "exe")
      then made (special_file d path (text "txt") (text "REG") s)
      else if text_eq entry (text "root")
      then made (special_file d path (text "rtd") (text "DIR") s)
      else if text_eq entry (text "maps")
      then made (get_mapped_files d path s)
      else if text_eq entry (text "fd")
      then made (fds_or_nofd d path s)
      else made s

  unfoldable pub visit_all :
      Disk → Text → List Text → Process × List Text → Outcome (Process × List Text)
  unfolding visit and_then
  visit_all d proc_path [] s = made s
  visit_all d proc_path (entry ∷ entries) s =
      and_then (visit d (proc_path ++ text "/" ++ entry) entry s)
        (λ s'. visit_all d proc_path entries s')

  -- The process with the number `pid`, when the pool has been cleared.
  unfoldable pub iterate_process : Disk → Text → ℤ → Outcome Process
  unfolding visit_all and_then
  iterate_process d proc_path pid = elim (d.entries proc_path) [
    | none ↦ aborted
    | some entries ↦
        and_then
          (visit_all d proc_path entries
            (record { command = []; pid = pid; user = []; files = [] }, []))
          (λ s. made s.0)
  ]
