-- ===== src/Logger/Launcher/Words.antt =====
-- The command line that 310551113_hw2/hw2.cpp hands to the shell.
use advanced_programming_in.Base.{◌≡◌, sym, ◌∙◌, List, [], ◌∷◌, ◌++◌}
use mathlib.Core.List.{append_assoc, append-nil}
use advanced_programming_in.Base.Text.{Text, text, unwords}
use advanced_programming_in.Logger.Launcher.{add_words, concat_cmd}

add_words-unwords : (s : Text) (cmd : List Text) → add_words s cmd ≡ s ++ unwords cmd
unfolding add_words unwords
add_words-unwords s [] = sym (append-nil s)
add_words-unwords s (c ∷ cmd) = add_words-unwords (s ++ (c ++ (32 ∷ []))) cmd ∙ simp append_assoc

-- The setting and the words of the command, a blank behind each.
pub concat_cmd-unwords :
    (so_path : Text) (cmd : List Text)
    → concat_cmd so_path cmd ≡ unwords ((text "LD_PRELOAD=" ++ so_path) ∷ cmd)
unfolding concat_cmd unwords
concat_cmd-unwords so_path cmd =
    add_words-unwords (text "LD_PRELOAD=" ++ (so_path ++ (32 ∷ []))) cmd ∙ simp append_assoc

-- A word with a blank in it cannot be told from two words: nothing is quoted.
pub concat_cmd_joins :
    (so_path u v : Text) (cmd : List Text)
    → concat_cmd so_path ((u ++ (32 ∷ v)) ∷ cmd) ≡ concat_cmd so_path (u ∷ v ∷ cmd)
unfolding concat_cmd add_words
concat_cmd_joins so_path u v cmd = simp append_assoc
