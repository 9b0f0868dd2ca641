-- ===== src/Draft/Table.antt =====
-- The table of 310551113_hw1/_hw1.cpp: `MaxLength`, `updateMax`, `iterateBase`, `show`, `output`.
pub mod Aligned
pub mod Widths
use advanced_programming_in.Base.{ℕ, suc, ◌+◌, leb, Bool, true, false, Option, none, some, List}
use advanced_programming_in.Base.{[], ◌∷◌, ◌++◌, if◌then◌else◌, length}
use advanced_programming_in.Base.Text.{Text, text, pad_right, stoi, to_decimal, ℤ, pos, negsuc}
use advanced_programming_in.Lsof.Filter.{Matcher, Outcome, made, exited, aborted}
use advanced_programming_in.Lsof.Filter.{undefined_behaviour, and_then}
use advanced_programming_in.Lsof.Files.{is_number}
use advanced_programming_in.Draft.Options.{Filter, shows_process, set_filter}
use advanced_programming_in.Draft.Files.{File, FileType, directory, Disk}
use advanced_programming_in.Draft.Process.{Process, iterate_process}

pub record MaxLength : Type 0 where
  pub command : ℕ
  pub pid : ℕ
  pub user : ℕ
  pub fd : ℕ
  pub type : ℕ
  pub node : ℕ
  pub name : ℕ

abbrev pub max_length : MaxLength
max_length = record { command = 7; pid = 3; user = 4; fd = 2; type = 4; node = 4; name = 4 }

unfoldable pub max : ℕ → ℕ → ℕ
max a b = if leb b a then a else b

-- `to_string` of an `int`.
unfoldable pub to_string : ℤ → Text
unfolding to_decimal
to_string (pos n) = to_decimal n
to_string (negsuc n) = text "-" ++ to_decimal (suc n)

unfoldable pub update_max_files : List File → MaxLength → MaxLength
unfolding max
update_max_files [] maxlen = maxlen
update_max_files (file ∷ files) maxlen = update_max_files files (record maxlen {
  fd = max maxlen.fd (length file.fd);
  type = max maxlen.type (length file.type);
  node = max maxlen.node (length file.node);
  name = max maxlen.name (length file.name);
})

unfoldable pub update_max : Process → MaxLength → MaxLength
unfolding update_max_files max to_string
update_max proc maxlen = update_max_files proc.files (record maxlen {
  command = max maxlen.command (length proc.command);
  pid = max maxlen.pid (length (to_string proc.pid));
  user = max maxlen.user (length proc.user);
})

-- `cout << setw(maxlen.command + 2) << left << …` for each column.
unfoldable pub row : MaxLength → Text → Text → Text → Text → Text → Text → Text → Text
unfolding pad_right
row maxlen command pid user fd type node name =
    pad_right (maxlen.command + 2) command
    ++ (pad_right (maxlen.pid + 2) pid
        ++ (pad_right (maxlen.user + 2) user
            ++ (pad_right (maxlen.fd + 2) fd
                ++ (pad_right (maxlen.type + 2) type
                    ++ (pad_right (maxlen.node + 2) node ++ pad_right (maxlen.name + 2) name)))))

-- `Process::show`, from one of the files on.
unfoldable pub show : MaxLength → Process → List File → List Text
unfolding row to_string
show maxlen p [] = []
show maxlen p (file ∷ files) =
    row maxlen p.command (to_string p.pid) p.user file.fd file.type file.node file.name
    ∷ show maxlen p files

unfoldable pub show_all : MaxLength → List Process → List Text
unfolding show
show_all maxlen [] = []
show_all maxlen (p ∷ processes) = show maxlen p p.files ++ show_all maxlen processes

unfoldable pub output : MaxLength → List Process → List Text
unfolding row show_all
output maxlen processes =
    row maxlen (text "COMMAND") (text "PID") (text "USER") (text "FD") (text "TYPE") (text "NODE")
      (text "NAME")
    ∷ show_all maxlen processes

-- `catch (exception &e) { continue; }`: an exception that leaves a part is `aborted` until then.
unfoldable pub catching {ℓ} : {A : Type ℓ} → Outcome A → A → Outcome A
catching (made a) handler = made a
catching exited handler = exited
catching aborted handler = made handler
catching undefined_behaviour handler = undefined_behaviour

unfoldable pub is_directory : FileType → Bool
is_directory directory = true
is_directory _ = false

-- `processes`, and the widths.
abbrev pub Listed : Type 0
Listed = List Process × MaxLength

module _ {R : Type 0} (m : Matcher R) (f : Filter R) where
  unfoldable pub list_process : Process → Listed → Listed
  unfolding shows_process update_max
  list_process proc (processes, maxlen) =
      if shows_process m f proc.command
      then (processes ++ (proc ∷ []), update_max proc maxlen)
      else (processes, maxlen)

  unfoldable pub numbered : Disk → Text → Text → Listed → Outcome Listed
  unfolding iterate_process list_process and_then
  numbered d path entry s = elim (stoi entry) [
    | none ↦ aborted
    | some pid ↦ and_then (iterate_process m f d path pid) (λ proc. made (list_process proc s))
  ]

  -- The body of the loop of `iterateBase`.
  unfoldable pub base_entry : Disk → Text → Text → Listed → Outcome Listed
  unfolding is_directory is_number numbered
  base_entry d path entry s = elim (d.status path) [
    | none ↦ aborted
    | some t ↦
        if is_directory t
        then elim (d.is_symlink path) [
          | none ↦ aborted
          | some true ↦ made s
          | some false ↦ if is_number entry then numbered d path entry s else made s
        ]
        else made s
  ]

  unfoldable pub base_from : Disk → Text → List Text → Listed → Outcome Listed
  unfolding base_entry catching and_then
  base_from d base_path [] s = made s
  base_from d base_path (entry ∷ entries) s =
      and_then (catching (base_entry d (base_path ++ text "/" ++ entry) entry s) s)
        (λ s'. base_from d base_path entries s')

  unfoldable pub iterate_base : Disk → Text → Outcome Listed
  unfolding base_from
  iterate_base d base_path = elim (d.entries base_path) [
    | none ↦ aborted
    | some entries ↦ base_from d base_path entries ([], max_length)
  ]

-- `main`: the lines that are printed.
unfoldable pub list_open : {R : Type 0} → Matcher R → Disk → List Text → Outcome (List Text)
unfolding set_filter iterate_base output and_then
list_open m d argv = and_then (set_filter m argv) λ f.
    and_then (iterate_base m f d (text "/proc"))
      λ (processes, maxlen). made (output maxlen processes)
