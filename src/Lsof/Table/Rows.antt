-- ===== src/Lsof/Table/Rows.antt =====
-- The table of 310551113_hw1/hw1.cpp against one that is made in two passes.
use mathlib.Core.List.{append_assoc, append-nil}
use advanced_programming_in.Base.{ℕ, ◌≡◌, refl, sym, ap, ◌∙◌, arith, Bool-cases, inl, inr, Option}
use advanced_programming_in.Base.{Option-cases, none, some, List, [], ◌∷◌, ◌++◌, map}
use advanced_programming_in.Base.{if◌then◌else◌}
use advanced_programming_in.Base.Text.{Text, text}
use advanced_programming_in.Lsof.Filter.{Matcher, Filter, filt, new_filter, Outcome, made, exited}
use advanced_programming_in.Lsof.Filter.{aborted, undefined_behaviour, and_then}
use advanced_programming_in.Lsof.Files.{Disk, is_number}
use advanced_programming_in.Lsof.Process.{File, Process, iterate_pid}
use advanced_programming_in.Lsof.Table.{columns, init_maxlen, widen, cols_of, row, widen_files}
use advanced_programming_in.Lsof.Table.{update_maxlen, procs_from, iterate_proc, rows_of, body}
use advanced_programming_in.Lsof.Table.{output, list_files, if_read}

-- The processes that can be read, in the order of the directory.
pub read_from : Disk → Text → List Text → Outcome (List Process)
read_from d proc_path [] = made []
read_from d proc_path (pid ∷ entries) =
    let rest = read_from d proc_path entries in
    if is_number pid
    then and_then (iterate_pid d (proc_path ++ text "/" ++ pid) pid)
        (λ r. if_read r rest (λ process. and_then rest (λ processes. made (process ∷ processes))))
    else rest

pub read_all : Disk → Text → Outcome (List Process)
read_all d proc_path = elim (d.readdir proc_path) [
  | none ↦ exited
  | some entries ↦ read_from d proc_path entries
]

-- The widths of the headings, widened by one row of cells after the other.
abbrev pub widened : List ℕ → List (List Text) → List ℕ
widened ns [] = ns
widened ns (cols ∷ rows) = widened (widen ns cols) rows

-- A table is printed when all its cells are known.
abbrev pub table : List (List Text) → List Text
table rows = let widths = widened init_maxlen rows in row widths columns ∷ map (row widths) rows

widened-append :
    (ns : List ℕ) (rows more : List (List Text))
    → widened ns (rows ++ more) ≡ widened (widened ns rows) more
widened-append ns [] more = refl
widened-append ns (cols ∷ rows) more = widened-append (widen ns cols) rows more

map-append : {A B : Type 0} (f : A → B) (xs ys : List A) → map f (xs ++ ys) ≡ map f xs ++ map f ys
map-append f [] ys = refl
map-append f (x ∷ xs) ys = ap (λ t. f x ∷ t) (map-append f xs ys)

and_then_assoc :
    {A B C : Type 0} (r : Outcome A) (f : A → Outcome B) (g : B → Outcome C)
    → and_then (and_then r f) g ≡ and_then r (λ a. and_then (f a) g)
unfolding and_then
and_then_assoc (made a) f g = refl
and_then_assoc exited f g = refl
and_then_assoc aborted f g = refl
and_then_assoc undefined_behaviour f g = refl

and_then_ext :
    {A B : Type 0} (r : Outcome A) {f g : A → Outcome B}
    → ((a : A) → f a ≡ g a)
    → and_then r f ≡ and_then r g
unfolding and_then
and_then_ext (made a) h = h a
and_then_ext exited h = refl
and_then_ext aborted h = refl
and_then_ext undefined_behaviour h = refl

if_read_lem :
    {A B : Type 0} (r : Option Process) (j : A → Outcome B) (x : Outcome B) (y : Outcome A)
    (k : Process → Outcome B) (l : Process → Outcome A)
    → x ≡ and_then y j
    → ((p : Process) → k p ≡ and_then (l p) j)
    → if_read r x k ≡ and_then (if_read r y l) j
if_read_lem none j x y k l h g = h
if_read_lem (some p) j x y k l h g = g p

module _ {R : Type 0} (m : Matcher R) (f : Filter R) where
  -- The cells of the files that pass the filter.
  abbrev pub cells_of : Process → List File → List (List Text)
  cells_of p [] = []
  cells_of p (file ∷ files) =
      let rest = cells_of p files in
      if filt m f p.command file.name file.type then cols_of p file ∷ rest else rest

  abbrev pub all_cells : List Process → List (List Text)
  all_cells [] = []
  all_cells (p ∷ processes) = cells_of p p.files ++ all_cells processes

  widen_files-widened :
      (p : Process) (files : List File) (ns : List ℕ)
      → widen_files m f p files ns ≡ widened ns (cells_of p files)
  unfolding widen_files
  widen_files-widened p [] ns = refl
  widen_files-widened p (file ∷ files) ns =
      elim (Bool-cases (filt m f p.command file.name file.type)) [
        | inl shown ↦ rw shown (widen_files-widened p files (widen ns (cols_of p file)))
        | inr hidden ↦ rw hidden (widen_files-widened p files ns)
      ]

  rows_of-map :
      (ns : List ℕ) (p : Process) (files : List File)
      → rows_of m f ns p files ≡ map (row ns) (cells_of p files)
  unfolding rows_of
  rows_of-map ns p [] = refl
  rows_of-map ns p (file ∷ files) = elim (Bool-cases (filt m f p.command file.name file.type)) [
    | inl shown ↦ rw shown (ap (λ t. row ns (cols_of p file) ∷ t) (rows_of-map ns p files))
    | inr hidden ↦ rw hidden (rows_of-map ns p files)
  ]

  body-map :
      (ns : List ℕ) (processes : List Process)
      → body m f ns processes ≡ map (row ns) (all_cells processes)
  unfolding body
  body-map ns [] = refl
  body-map ns (p ∷ processes) =
      rw (rows_of-map ns p p.files, body-map ns processes)
        (sym (map-append (row ns) (cells_of p p.files) (all_cells processes)))

  -- What the loop makes of the processes that are read.
  abbrev joined_to : List Process → List ℕ → List Process → Outcome (List Process × List ℕ)
  joined_to processes ns more = made (processes ++ more, widened ns (all_cells more))

  joined_to-cons :
      (processes : List Process) (ns : List ℕ) (p : Process) (more : List Process)
      → joined_to (processes ++ (p ∷ [])) (update_maxlen m f p ns) more
        ≡ joined_to processes ns (p ∷ more)
  unfolding update_maxlen
  joined_to-cons processes ns p more =
      rw
        (
          widen_files-widened p p.files ns,
          widened-append ns (cells_of p p.files) (all_cells more),
          append_assoc,
        )
        refl

  procs_from-read_from :
      (d : Disk) (proc_path : Text) (entries : List Text) (processes : List Process) (ns : List ℕ)
      → procs_from m f d proc_path processes ns entries
        ≡ and_then (read_from d proc_path entries) (joined_to processes ns)
  unfolding procs_from read_from
  procs_from-read_from d proc_path [] processes ns =
      ap (λ t. made (t, ns)) (sym (append-nil processes))
  procs_from-read_from d proc_path (pid ∷ entries) processes ns =
      elim (Bool-cases (is_number pid)) [
        | inl number ↦
            let rest = read_from d proc_path entries in
            let with_process = λ (p : Process). and_then rest (λ more. made (p ∷ more)) in
            rw number (
              and_then_ext (iterate_pid d (proc_path ++ text "/" ++ pid) pid) (λ r.
                if_read_lem r (joined_to processes ns) _ rest _ with_process
                  (procs_from-read_from d proc_path entries processes ns)
                  λ p.
                    procs_from-read_from d proc_path entries (processes ++ (p ∷ []))
                      (update_maxlen m f p ns)
                    ∙ and_then_ext rest (joined_to-cons processes ns p)
                    ∙ sym (and_then_assoc rest _ (joined_to processes ns)))
              ∙ sym (and_then_assoc (iterate_pid d (proc_path ++ text "/" ++ pid) pid) _ _))
        | inr other ↦ rw other (procs_from-read_from d proc_path entries processes ns)
      ]

  iterate_proc-read_all :
      (d : Disk) (proc_path : Text)
      → iterate_proc m f d proc_path ≡ and_then (read_all d proc_path) (joined_to [] init_maxlen)
  unfolding iterate_proc read_all and_then
  iterate_proc-read_all d proc_path = elim (Option-cases (d.readdir proc_path)) [
    | inl absent ↦ ground arith
    | inr (entries, e) ↦ ground (arith, procs_from-read_from d proc_path entries [] init_maxlen)
  ]

  output-table :
      (processes : List Process)
      → output m f (widened init_maxlen (all_cells processes)) processes
        ≡ table (all_cells processes)
  unfolding output
  output-table processes =
      ap (λ t. row (widened init_maxlen (all_cells processes)) columns ∷ t)
        (body-map (widened init_maxlen (all_cells processes)) processes)

-- The lister prints the table of a second pass: all processes are read first, in the order of the
-- directory, then the cells of the files that pass the filter are laid out with the widths that the
-- headings and these cells need, one line for each file in the order of its process.
pub list_files-table :
    {R : Type 0} (m : Matcher R) (d : Disk) (args : List Text)
    → list_files m d args
      ≡ and_then (new_filter m args) (λ f.
        and_then (read_all d (text "/proc")) (λ processes. made (table (all_cells m f processes))))
unfolding list_files
list_files-table m d args = and_then_ext (new_filter m args) λ f.
    ap (λ t. and_then t (λ r. made (output m f r.1 r.0)))
      (iterate_proc-read_all m f d (text "/proc"))
    ∙ and_then_assoc (read_all d (text "/proc")) _ _
    ∙ and_then_ext (read_all d (text "/proc")) λ processes. ap made (output-table m f processes)
