-- ===== src/Draft/Table/Aligned.antt =====
-- The columns of the table of 310551113_hw1/_hw1.cpp.
use advanced_programming_in.Base.{ℕ, ◌+◌, ◌≤◌, ◌≡◌, ◌∙◌, arith, Bool-cases, inl, inr}
use advanced_programming_in.Base.{Option-cases, List, [], ◌∷◌, ◌++◌, length, length-append, All}
use advanced_programming_in.Base.{All-append, All-map}
use advanced_programming_in.Base.Text.{Text, text, pad_right, stoi}
use advanced_programming_in.Lsof.Filter.{Matcher, Outcome, made, exited, aborted}
use advanced_programming_in.Lsof.Filter.{undefined_behaviour}
use advanced_programming_in.Lsof.Table.Widths.{length-pad_right}
use advanced_programming_in.Lsof.Table.Aligned.{Makes, Makes-any, and_then-Makes}
use advanced_programming_in.Draft.Options.{Filter, shows_process, set_filter}
use advanced_programming_in.Draft.Files.{File, Disk}
use advanced_programming_in.Draft.Process.{Process, iterate_process}
use advanced_programming_in.Draft.Table.Widths.{Wider, FileFits, ProcessFits, Fits, Wider-refl}
use advanced_programming_in.Draft.Table.Widths.{Wider-trans, Fits-Wider, update_max_lem}
use advanced_programming_in.Draft.Table.{MaxLength, max_length, to_string, update_max, row, show}
use advanced_programming_in.Draft.Table.{show_all, output, Listed, list_process, numbered}
use advanced_programming_in.Draft.Table.{base_entry, catching, base_from, iterate_base, list_open}

-- The length of a line: two blanks behind each column.
abbrev line_width : MaxLength → ℕ
line_width l = l.command + l.pid + l.user + l.fd + l.type + l.node + l.name + 14

length-cell :
    (n k : ℕ) (cell rest : Text)
    → length cell ≤ n
    → length rest ≡ k
    → length (pad_right (n + 2) cell ++ rest) ≡ n + 2 + k
length-cell n k cell rest h e = omega (
  arith,
  length-append (pad_right (n + 2) cell) rest,
  length-pad_right (n + 2) cell (omega arith),
  e,
)

length-row :
    (l : MaxLength) (c p u : Text) (file : File)
    → (length c ≤ l.command) × (length p ≤ l.pid) × (length u ≤ l.user)
    → FileFits l file
    → length (row l c p u file.fd file.type file.node file.name) ≡ line_width l
unfolding row
length-row l c p u file (hc, hp, hu) (hf, ht, hn, hm) =
    length-cell l.command _ c _ hc (
      length-cell l.pid _ p _ hp (
        length-cell l.user _ u _ hu (
          length-cell l.fd _ file.fd _ hf (
            length-cell l.type _ file.type _ ht (
              length-cell l.node _ file.node _ hn
                (length-pad_right (l.name + 2) file.name (omega arith)))))))
    ∙ omega arith

show-line_width :
    (l : MaxLength) (p : Process) (files : List File)
    → ProcessFits l p
    → All (FileFits l) files
    → All (λ line. length line ≡ line_width l) (show l p files)
unfolding show
show-line_width l p [] h k = tt
show-line_width l p (file ∷ files) h k =
    (length-row l p.command (to_string p.pid) p.user file h k.0, show-line_width l p files h k.1)

show_all-line_width :
    (l : MaxLength) (processes : List Process)
    → All (Fits l) processes
    → All (λ line. length line ≡ line_width l) (show_all l processes)
unfolding show_all
show_all-line_width l [] h = tt
show_all-line_width l (p ∷ processes) h =
    All-append (λ line. length line ≡ line_width l) (show l p p.files) (show_all l processes)
      (show-line_width l p p.files h.0.0 h.0.1) (show_all-line_width l processes h.1)

-- The columns hold their headings and what is listed.
abbrev Holds : Listed → Type 0
Holds (processes, l) = Wider max_length l × All (Fits l) processes

abbrev heading : File
heading = record { fd = text "FD"; type = text "TYPE"; node = text "NODE"; name = text "NAME" }

output-line_width :
    (processes : List Process) (l : MaxLength)
    → Holds (processes, l)
    → All (λ line. length line ≡ line_width l) (output l processes)
unfolding output text
output-line_width processes l (wide, held) = (
  length-row l (text "COMMAND") (text "PID") (text "USER") heading
      (omega arith, omega arith, omega arith) (omega arith, omega arith, omega arith, omega arith),
  show_all-line_width l processes held,
)

catching-Makes :
    {A : Type 0} (P : A → Type 0) (r : Outcome A) (a : A) → Makes P r → P a → Makes P (catching r a)
unfolding catching
catching-Makes P (made b) a h k = h
catching-Makes P exited a h k = tt
catching-Makes P aborted a h k = k
catching-Makes P undefined_behaviour a h k = tt

module _ {R : Type 0} (m : Matcher R) (f : Filter R) where
  list_process-Holds : (p : Process) (s : Listed) → Holds s → Holds (list_process m f p s)
  unfolding list_process
  list_process-Holds p (processes, l) (wide, held) =
      elim (Bool-cases (shows_process m f p.command)) [
        | inl shown ↦
            let (wider, fits) = update_max_lem p l in
            rw shown (
              Wider-trans max_length l _ wide wider,
              All-append (Fits (update_max p l)) processes (p ∷ [])
                  (All-map _ _ processes (Fits-Wider l (update_max p l) wider) held) (fits, tt),
            )
        | inr hidden ↦ rw hidden (wide, held)
      ]

  numbered-Holds :
      (d : Disk) (path entry : Text) (s : Listed)
      → Holds s
      → Makes Holds (numbered m f d path entry s)
  unfolding numbered
  numbered-Holds d path entry s h = elim (Option-cases (stoi entry)) [
    | inl large ↦ ground arith
    | inr (pid, e) ↦
        rw (e, numbered)
          (and_then-Makes Holds (λ _. Unit) (iterate_process m f d path pid) _ (Makes-any _)
            λ p _. list_process-Holds p s h)
  ]

  base_entry-Holds :
      (d : Disk) (path entry : Text) (s : Listed)
      → Holds s
      → Makes Holds (base_entry m f d path entry s)
  unfolding base_entry
  base_entry-Holds d path entry s h = ground (arith, numbered-Holds d path entry s h, h)

  base_from-Holds :
      (d : Disk) (base_path : Text) (entries : List Text) (s : Listed)
      → Holds s
      → Makes Holds (base_from m f d base_path entries s)
  unfolding base_from
  base_from-Holds d base_path [] s h = h
  base_from-Holds d base_path (entry ∷ entries) s h =
      and_then-Makes Holds Holds _ _
        (catching-Makes Holds _ s (base_entry-Holds d (base_path ++ text "/" ++ entry) entry s h) h)
        λ s' h'. base_from-Holds d base_path entries s' h'

  iterate_base-Holds : (d : Disk) (base_path : Text) → Makes Holds (iterate_base m f d base_path)
  unfolding iterate_base
  iterate_base-Holds d base_path = elim (Option-cases (d.entries base_path)) [
    | inl absent ↦ ground arith
    | inr (entries, e) ↦
        rw (e, iterate_base)
          (base_from-Holds d base_path entries ([], max_length) (Wider-refl max_length, tt))
  ]

-- If the first version prints anything, then all its lines have the same length, the heading
-- included, whatever the options and the files are.
pub list_open_aligned :
    {R : Type 0} (m : Matcher R) (d : Disk) (argv : List Text)
    → Makes (λ lines. (width : ℕ) × All (λ line. length line ≡ width) lines) (list_open m d argv)
unfolding list_open
list_open_aligned m d argv =
    and_then-Makes _ (λ _. Unit {0}) (set_filter m argv) _ (Makes-any _)
      λ f _.
        and_then-Makes _ Holds (iterate_base m f d (text "/proc")) _
          (iterate_base-Holds m f d (text "/proc"))
          λ (processes, l) held. (line_width l, output-line_width processes l held)
