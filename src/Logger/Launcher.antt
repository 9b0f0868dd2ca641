-- ===== src/Logger/Launcher.antt =====
-- The launcher of 310551113_hw2/hw2.cpp: `cmd_parser`, `concat_cmd`, `output`, `main`.
pub mod Words
pub mod Files
use advanced_programming_in.Base.{ℕ, ◌==◌, List, [], ◌∷◌, ◌++◌, if◌then◌else◌}
use advanced_programming_in.Base.Text.{Text, text}

-- What `getopt` finds: an option letter with its argument, in order, and then the rest of `argv`. A
-- letter that is not an option comes as `?`.
pub record CommandLine : Type 0 where
  pub options : List (ℕ × Text)
  pub operands : List Text

pub record Settings : Type 0 where
  pub so_path : Text
  pub output_file : Text

abbrev pub defaults : Settings
defaults = record { so_path = text "./logger.so"; output_file = [] }

-- The kernel and the shell: descriptors are numbers, -1 as 2 ^ 32 - 1.
pub record Shell (K : Type 0) : Type 0 where
  pub open_file : K → Text → ℕ × K
  pub dup2 : K → ℕ → ℕ → K
  pub close : K → ℕ → K
  pub system : K → Text → K

-- How the program ends: it returns 0, or `exit(EXIT_FAILURE)` after the usage message.
pub data Ended (A : Type 0) : Type 0 where
  ended : A → Ended A
  usage : Ended A

unfoldable pub cmd_parser : List (ℕ × Text) → Settings → Ended Settings
cmd_parser [] s = ended s
cmd_parser ((opt, optarg) ∷ opts) s =
    let as_path = cmd_parser opts (record s { so_path = optarg }) in
    let as_file = cmd_parser opts (record s { output_file = optarg }) in
    if opt == b'p' then as_path else if opt == b'o' then as_file else usage

unfoldable pub add_words : Text → List Text → Text
add_words logger_cmd [] = logger_cmd
add_words logger_cmd (c ∷ cmd) = add_words (logger_cmd ++ (c ++ (32 ∷ []))) cmd

unfoldable pub concat_cmd : Text → List Text → Text
unfolding add_words
concat_cmd so_path cmd = add_words (text "LD_PRELOAD=" ++ (so_path ++ (32 ∷ []))) cmd

module _ {K : Type 0} (shell : Shell K) where
  unfoldable pub output : Text → K → K
  output [] k = shell.dup2 k 2 5
  output (c ∷ output_file) k =
      let (fd, k₁) = shell.open_file k (c ∷ output_file) in shell.close (shell.dup2 k₁ fd 5) fd

  -- What is left of the command line is the command.
  unfoldable pub launch : CommandLine → K → Ended K
  unfolding cmd_parser concat_cmd output
  launch argv k = elim (cmd_parser argv.options defaults) [
    | usage ↦ usage
    | ended s ↦ ended (shell.system (output s.output_file k) (concat_cmd s.so_path argv.operands))
  ]
