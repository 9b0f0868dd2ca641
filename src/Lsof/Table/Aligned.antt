-- ===== src/Lsof/Table/Aligned.antt =====
-- The columns of the table of 310551113_hw1/hw1.cpp.
use advanced_programming_in.Lsof.Table.Widths.{Fits, Wider, line_width, Wider-refl, Wider-trans}
use advanced_programming_in.Lsof.Table.Widths.{Fits-Wider, widen-Wider, widen-Fits, length-row}
use advanced_programming_in.Lsof.Table.Widths.{Wider-length, init_maxlen-Fits, seven}
use advanced_programming_in.Base.{ℕ, Option-cases, ◌≡◌, arith, true, Option, none, some, List, []}
use advanced_programming_in.Base.{◌∷◌, ◌++◌, if◌then◌else◌, length, All, All-append, All-map}
use advanced_programming_in.Base.{Bool-cases, inl, inr}
use advanced_programming_in.Base.Text.{Text, text}
use advanced_programming_in.Lsof.Filter.{Matcher, Filter, filt, new_filter, Outcome, made, exited}
use advanced_programming_in.Lsof.Filter.{aborted, undefined_behaviour, and_then}
use advanced_programming_in.Lsof.Files.{Disk, is_number}
use advanced_programming_in.Lsof.Process.{File, Process, iterate_pid}
use advanced_programming_in.Lsof.Table.{columns, init_maxlen, widen, cols_of, widen_files}
use advanced_programming_in.Lsof.Table.{update_maxlen, procs_from, iterate_proc, rows_of, body}
use advanced_programming_in.Lsof.Table.{output, if_read, list_files}

-- What a part of the program makes satisfies `P`.
abbrev pub Makes {ℓ} : {A : Type 0} → (A → Type ℓ) → Outcome A → Type ℓ
Makes P (made a) = P a
Makes P exited = Unit
Makes P aborted = Unit
Makes P undefined_behaviour = Unit

pub and_then-Makes :
    {A B : Type 0} (P : B → Type 0) (Q : A → Type 0) (r : Outcome A) (k : A → Outcome B)
    → Makes Q r
    → ((a : A) → Q a → Makes P (k a))
    → Makes P (and_then r k)
unfolding and_then
and_then-Makes P Q (made a) k h g = g a h
and_then-Makes P Q exited k h g = tt
and_then-Makes P Q aborted k h g = tt
and_then-Makes P Q undefined_behaviour k h g = tt

pub Makes-any : {A : Type 0} (r : Outcome A) → Makes (λ a. Unit {0}) r
Makes-any (made a) = tt
Makes-any exited = tt
Makes-any aborted = tt
Makes-any undefined_behaviour = tt

if_read-Makes :
    {A : Type 0} (P : A → Type 0) (r : Option Process) (a : Outcome A) (k : Process → Outcome A)
    → Makes P a
    → ((p : Process) → Makes P (k p))
    → Makes P (if_read r a k)
if_read-Makes P none a k h g = h
if_read-Makes P (some p) a k h g = g p

module _ {R : Type 0} (m : Matcher R) (f : Filter R) where
  -- The files that pass the filter fit.
  abbrev FitsFiles : List ℕ → Process → List File → Type 0
  FitsFiles maxlen p files =
      All (λ file. filt m f p.command file.name file.type ≡ true → Fits maxlen (cols_of p file))
        files

  FitsFiles-Wider :
      (ns ks : List ℕ) (p : Process) (files : List File)
      → Wider ns ks
      → FitsFiles ns p files
      → FitsFiles ks p files
  FitsFiles-Wider ns ks p files h =
      All-map _ _ files λ file fits shown. Fits-Wider ns ks (cols_of p file) (fits shown) h

  -- The widths after one file.
  abbrev next : Process → File → List ℕ → List ℕ
  next p file maxlen =
      if filt m f p.command file.name file.type then widen maxlen (cols_of p file) else maxlen

  next-Wider : (p : Process) (file : File) (maxlen : List ℕ) → Wider maxlen (next p file maxlen)
  next-Wider p file maxlen = elim (Bool-cases (filt m f p.command file.name file.type)) [
    | inl shown ↦ rw shown (widen-Wider maxlen (cols_of p file))
    | inr hidden ↦ rw hidden (Wider-refl maxlen)
  ]

  next-Fits :
      (p : Process) (file : File) (maxlen : List ℕ)
      → length maxlen ≡ 7
      → filt m f p.command file.name file.type ≡ true
      → Fits (next p file maxlen) (cols_of p file)
  unfolding cols_of
  next-Fits p file maxlen e shown = rw shown (widen-Fits maxlen (cols_of p file) e)

  widen_files-Wider :
      (p : Process) (files : List File) (maxlen : List ℕ)
      → Wider maxlen (widen_files m f p files maxlen)
  unfolding widen_files
  widen_files-Wider p [] maxlen = Wider-refl maxlen
  widen_files-Wider p (file ∷ files) maxlen =
      Wider-trans maxlen (next p file maxlen) _ (next-Wider p file maxlen)
        (widen_files-Wider p files (next p file maxlen))

  widen_files-FitsFiles :
      (p : Process) (files : List File) (maxlen : List ℕ)
      → length maxlen ≡ 7
      → FitsFiles (widen_files m f p files maxlen) p files
  unfolding widen_files
  widen_files-FitsFiles p [] maxlen e = tt
  widen_files-FitsFiles p (file ∷ files) maxlen e = (
    (λ shown.
        Fits-Wider (next p file maxlen) _ (cols_of p file) (next-Fits p file maxlen e shown)
          (widen_files-Wider p files (next p file maxlen))),
    widen_files-FitsFiles p files (next p file maxlen)
        (omega (arith, Wider-length maxlen _ (next-Wider p file maxlen))),
  )

  update_maxlen-Wider : (p : Process) (maxlen : List ℕ) → Wider maxlen (update_maxlen m f p maxlen)
  unfolding update_maxlen
  update_maxlen-Wider p maxlen = widen_files-Wider p p.files maxlen

  -- The columns hold their headings and all that is to be shown of the processes.
  abbrev pub Holds : List Process × List ℕ → Type 0
  Holds (processes, maxlen) =
      Wider init_maxlen maxlen × All (λ p. FitsFiles maxlen p p.files) processes

  update_maxlen-Holds :
      (processes : List Process) (maxlen : List ℕ) (p : Process)
      → Holds (processes, maxlen)
      → Holds (processes ++ (p ∷ []), update_maxlen m f p maxlen)
  unfolding update_maxlen
  update_maxlen-Holds processes maxlen p (wide, held) = (
    Wider-trans init_maxlen maxlen _ wide (update_maxlen-Wider p maxlen),
    All-append (λ q. FitsFiles (update_maxlen m f p maxlen) q q.files) processes (p ∷ [])
        (All-map _ _ processes
          (λ q h. FitsFiles-Wider maxlen _ q q.files (update_maxlen-Wider p maxlen) h) held)
        (widen_files-FitsFiles p p.files maxlen (seven maxlen wide), tt),
  )

  procs_from-Holds :
      (d : Disk) (proc_path : Text) (processes : List Process) (maxlen : List ℕ)
      (entries : List Text)
      → Holds (processes, maxlen)
      → Makes Holds (procs_from m f d proc_path processes maxlen entries)
  unfolding procs_from
  procs_from-Holds d proc_path processes maxlen [] h = h
  procs_from-Holds d proc_path processes maxlen (pid ∷ entries) h =
      elim (Bool-cases (is_number pid)) [
        | inl number ↦ rw number (
            and_then-Makes Holds (λ _. Unit) (iterate_pid d (proc_path ++ text "/" ++ pid) pid) _
              (Makes-any _)
              λ r _.
                if_read-Makes Holds r _ _ (procs_from-Holds d proc_path processes maxlen entries h)
                  λ process.
                    procs_from-Holds d proc_path (processes ++ (process ∷ []))
                      (update_maxlen m f process maxlen) entries
                      (update_maxlen-Holds processes maxlen process h))
        | inr other ↦ rw other (procs_from-Holds d proc_path processes maxlen entries h)
      ]

  iterate_proc-Holds : (d : Disk) (proc_path : Text) → Makes Holds (iterate_proc m f d proc_path)
  unfolding iterate_proc
  iterate_proc-Holds d proc_path = elim (Option-cases (d.readdir proc_path)) [
    | inl absent ↦ ground arith
    | inr (entries, e) ↦
        ground
          (arith, procs_from-Holds d proc_path [] init_maxlen entries (Wider-refl init_maxlen, tt))
  ]

  rows_of-line_width :
      (maxlen : List ℕ) (p : Process) (files : List File)
      → FitsFiles maxlen p files
      → All (λ line. length line ≡ line_width maxlen) (rows_of m f maxlen p files)
  unfolding rows_of
  rows_of-line_width maxlen p [] h = tt
  rows_of-line_width maxlen p (file ∷ files) h =
      elim (Bool-cases (filt m f p.command file.name file.type)) [
        | inl shown ↦
            rw shown (
              length-row maxlen (cols_of p file) (h.0 shown),
              rows_of-line_width maxlen p files h.1,
            )
        | inr hidden ↦ rw hidden (rows_of-line_width maxlen p files h.1)
      ]

  body-line_width :
      (maxlen : List ℕ) (processes : List Process)
      → All (λ p. FitsFiles maxlen p p.files) processes
      → All (λ line. length line ≡ line_width maxlen) (body m f maxlen processes)
  unfolding body
  body-line_width maxlen [] h = tt
  body-line_width maxlen (p ∷ processes) h =
      All-append (λ line. length line ≡ line_width maxlen) (rows_of m f maxlen p p.files) _
        (rows_of-line_width maxlen p p.files h.0) (body-line_width maxlen processes h.1)

  output-line_width :
      (processes : List Process) (maxlen : List ℕ)
      → Holds (processes, maxlen)
      → All (λ line. length line ≡ line_width maxlen) (output m f maxlen processes)
  unfolding output
  output-line_width processes maxlen (wide, held) = (
    length-row maxlen columns (Fits-Wider init_maxlen maxlen columns init_maxlen-Fits wide),
    body-line_width maxlen processes held,
  )

-- If the lister prints anything, then all its lines have the same length, the heading included: no
-- cell is longer than its column, whatever the options and the files are.
pub list_files_aligned :
    {R : Type 0} (m : Matcher R) (d : Disk) (args : List Text)
    → Makes (λ lines. (width : ℕ) × All (λ line. length line ≡ width) lines) (list_files m d args)
unfolding list_files
list_files_aligned m d args =
    and_then-Makes _ (λ _. Unit {0}) (new_filter m args) _ (Makes-any _)
      λ f _.
        and_then-Makes _ (Holds m f) (iterate_proc m f d (text "/proc")) _
          (iterate_proc-Holds m f d (text "/proc"))
          λ (processes, maxlen) held.
            (line_width maxlen, output-line_width m f processes maxlen held)
