-- ===== src/Draft/Table/Widths.antt =====
-- What `updateMax` of 310551113_hw1/_hw1.cpp does to the widths of the columns.
use advanced_programming_in.Base.{ℕ, ◌≤◌, arith, List, [], ◌∷◌, length, All, All-map}
use advanced_programming_in.Draft.Files.{File}
use advanced_programming_in.Draft.Process.{Process}
use advanced_programming_in.Draft.Table.{MaxLength, max, to_string, update_max_files, update_max}

-- At least as wide, column by column.
abbrev pub Wider : MaxLength → MaxLength → Type 0
Wider a b =
    (a.command ≤ b.command)
    × (a.pid ≤ b.pid)
    × (a.user ≤ b.user)
    × (a.fd ≤ b.fd)
    × (a.type ≤ b.type)
    × (a.node ≤ b.node)
    × (a.name ≤ b.name)

-- The cells of a file are as long as their columns at most, and so are those of its process.
abbrev pub FileFits : MaxLength → File → Type 0
FileFits l file =
    (length file.fd ≤ l.fd)
    × (length file.type ≤ l.type)
    × (length file.node ≤ l.node)
    × (length file.name ≤ l.name)

abbrev pub ProcessFits : MaxLength → Process → Type 0
ProcessFits l p =
    (length p.command ≤ l.command) × (length (to_string p.pid) ≤ l.pid) × (length p.user ≤ l.user)

abbrev pub Fits : MaxLength → Process → Type 0
Fits l p = ProcessFits l p × All (FileFits l) p.files

pub Wider-refl : (a : MaxLength) → Wider a a
Wider-refl a = ground arith

pub Wider-trans : (a b c : MaxLength) → Wider a b → Wider b c → Wider a c
Wider-trans a b c h k = ground arith

le_max : (a b : ℕ) → (a ≤ max a b) × (b ≤ max a b)
unfolding max
le_max a b = ground arith

FileFits-Wider : (a b : MaxLength) → Wider a b → (file : File) → FileFits a file → FileFits b file
FileFits-Wider a b h file k = ground arith

ProcessFits-Wider : (a b : MaxLength) (p : Process) → Wider a b → ProcessFits a p → ProcessFits b p
ProcessFits-Wider a b p h k = ground arith

pub Fits-Wider : (a b : MaxLength) → Wider a b → (p : Process) → Fits a p → Fits b p
Fits-Wider a b h p (k, files) =
    (ProcessFits-Wider a b p h k, All-map _ _ p.files (FileFits-Wider a b h) files)

-- The widths after one file.
abbrev next : File → MaxLength → MaxLength
next file l = update_max_files (file ∷ []) l

next_lem : (file : File) (l : MaxLength) → Wider l (next file l) × FileFits (next file l) file
unfolding update_max_files
next_lem file l = ground (
  arith,
  le_max l.fd (length file.fd),
  le_max l.type (length file.type),
  le_max l.node (length file.node),
  le_max l.name (length file.name),
)

update_max_files_lem :
    (files : List File) (l : MaxLength)
    → Wider l (update_max_files files l) × All (FileFits (update_max_files files l)) files
unfolding update_max_files
update_max_files_lem [] l = (Wider-refl l, tt)
update_max_files_lem (file ∷ files) l =
    let (wider, fits) = next_lem file l in
    let (rest, others) = update_max_files_lem files (next file l) in
    (
      Wider-trans l (next file l) _ wider rest,
      (FileFits-Wider (next file l) _ rest file fits, others),
    )

-- The widths after the process itself.
abbrev with_process : Process → MaxLength → MaxLength
with_process p l = record l {
  command = max l.command (length p.command);
  pid = max l.pid (length (to_string p.pid));
  user = max l.user (length p.user);
}

with_process_lem :
    (p : Process) (l : MaxLength) → Wider l (with_process p l) × ProcessFits (with_process p l) p
with_process_lem p l = ground (
  arith,
  le_max l.command (length p.command),
  le_max l.pid (length (to_string p.pid)),
  le_max l.user (length p.user),
)

pub update_max_lem :
    (p : Process) (l : MaxLength) → Wider l (update_max p l) × Fits (update_max p l) p
unfolding update_max
update_max_lem p l =
    let (wider, fits) = with_process_lem p l in
    let (rest, files) = update_max_files_lem p.files (with_process p l) in
    (
      Wider-trans l (with_process p l) _ wider rest,
      (ProcessFits-Wider (with_process p l) _ p rest fits, files),
    )
