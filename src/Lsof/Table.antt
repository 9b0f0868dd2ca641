-- ===== src/Lsof/Table.antt =====
-- The table of 310551113_hw1/hw1.cpp: `init_maxlen`, `update_maxlen`, `iterate_proc`, `output`.
pub mod Aligned
pub mod Widths
pub mod Rows
use advanced_programming_in.Base.{ℕ, zero, suc, ◌+◌, leb, Bool, true, false, Option, none, some}
use advanced_programming_in.Base.{List, [], ◌∷◌, ◌++◌, if◌then◌else◌, length}
use advanced_programming_in.Base.Text.{Text, text, pad_right}
use advanced_programming_in.Lsof.Filter.{Matcher, Filter, filt, new_filter, Outcome, made, exited}
use advanced_programming_in.Lsof.Filter.{and_then}
use advanced_programming_in.Lsof.Files.{Disk, is_number}
use advanced_programming_in.Lsof.Process.{File, Process, iterate_pid}

abbrev pub columns : List Text
columns =
    text "COMMAND"
    ∷ text "PID"
    ∷ text "USER"
    ∷ text "FD"
    ∷ text "TYPE"
    ∷ text "NODE"
    ∷ text "NAME"
    ∷ []

unfoldable pub lengths : List Text → List ℕ
lengths [] = []
lengths (c ∷ cs) = length c ∷ lengths cs

-- `maxlen`, a number for each of `columns`, in their order.
unfoldable pub init_maxlen : List ℕ
unfolding lengths text
init_maxlen = lengths columns

-- `max(maxlen[columns[j]], int(cols[j].size()))`
unfoldable pub widen : List ℕ → List Text → List ℕ
widen [] cols = []
widen (n ∷ ns) [] = n ∷ ns
widen (n ∷ ns) (c ∷ cols) = (if leb (length c) n then n else length c) ∷ widen ns cols

unfoldable pub cols_of : Process → File → List Text
cols_of p file = p.command ∷ p.pid ∷ p.user ∷ file.fd ∷ file.type ∷ file.node ∷ file.name ∷ []

-- `cout << setw(maxlen[columns[k]] + 2) << left << cols[k]` for each column.
unfoldable pub row : List ℕ → List Text → Text
unfolding pad_right
row [] cols = []
row (n ∷ ns) [] = []
row (n ∷ ns) (c ∷ cols) = pad_right (n + 2) c ++ row ns cols

-- `if (err != 1)`
abbrev pub if_read : {A : Type 0} → Option Process → A → (Process → A) → A
if_read none skipped added = skipped
if_read (some process) skipped added = added process

module _ {R : Type 0} (m : Matcher R) (f : Filter R) where
  unfoldable pub widen_files : Process → List File → List ℕ → List ℕ
  unfolding widen cols_of filt
  widen_files p [] maxlen = maxlen
  widen_files p (file ∷ files) maxlen =
      widen_files p files
        (if filt m f p.command file.name file.type then widen maxlen (cols_of p file) else maxlen)

  unfoldable pub update_maxlen : Process → List ℕ → List ℕ
  unfolding widen_files
  update_maxlen p maxlen = widen_files p p.files maxlen

  -- The loop of `iterate_proc`, with the processes so far.
  unfoldable pub procs_from :
      Disk → Text → List Process → List ℕ → List Text → Outcome (List Process × List ℕ)
  unfolding update_maxlen is_number and_then
  procs_from d proc_path processes maxlen [] = made (processes, maxlen)
  procs_from d proc_path processes maxlen (pid ∷ entries) =
      let skipped = procs_from d proc_path processes maxlen entries in
      if is_number pid
      then and_then (iterate_pid d (proc_path ++ text "/" ++ pid) pid) (λ r.
        if_read r skipped (λ process.
          procs_from d proc_path (processes ++ (process ∷ [])) (update_maxlen process maxlen)
            entries))
      else skipped

  unfoldable pub iterate_proc : Disk → Text → Outcome (List Process × List ℕ)
  unfolding procs_from init_maxlen
  iterate_proc d proc_path = elim (d.readdir proc_path) [
    | none ↦ exited
    | some entries ↦ procs_from d proc_path [] init_maxlen entries
  ]

  unfoldable pub rows_of : List ℕ → Process → List File → List Text
  unfolding row cols_of filt
  rows_of maxlen p [] = []
  rows_of maxlen p (file ∷ files) =
      let rest = rows_of maxlen p files in
      if filt m f p.command file.name file.type then row maxlen (cols_of p file) ∷ rest else rest

  unfoldable pub body : List ℕ → List Process → List Text
  unfolding rows_of
  body maxlen [] = []
  body maxlen (p ∷ processes) = rows_of maxlen p p.files ++ body maxlen processes

  unfoldable pub output : List ℕ → List Process → List Text
  unfolding body row
  output maxlen processes = row maxlen columns ∷ body maxlen processes

-- `main`: the lines that are printed.
unfoldable pub list_files : {R : Type 0} → Matcher R → Disk → List Text → Outcome (List Text)
unfolding iterate_proc output and_then new_filter
list_files m d args = and_then (new_filter m args) λ f.
    and_then (iterate_proc m f d (text "/proc"))
      λ (processes, maxlen). made (output m f maxlen processes)
