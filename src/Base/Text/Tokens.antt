-- ===== src/Base/Text/Tokens.antt =====
-- `stringstream ss(s); while (ss >> buf) …`: the words of a text between white space.
use advanced_programming_in.Base.{◌++◌, sym}
use mathlib.Core.Path.{◌≡◌, refl, ◌∙◌, ap}
use mathlib.Core.Logic.{◌≢◌}
use mathlib.Core.Bool.{true, false}
use mathlib.Core.List.{List, [], ◌∷◌, ◌++◌, append_assoc, append-nil}
use advanced_programming_in.Base.Lists.{All}
use advanced_programming_in.Base.Text.Chars.{Text, is_space}

-- A word is extracted only if it has a character.
unfoldable pub flush : Text → List Text → List Text
flush [] ws = ws
flush (c ∷ s) ws = (c ∷ s) ∷ ws

-- `cur` is what was read of the present word.
unfoldable pub tokens_from : Text → Text → List Text
unfolding flush
tokens_from cur [] = flush cur []
tokens_from cur (c ∷ s) = elim (is_space c) [
  | true ↦ flush cur (tokens_from [] s)
  | false ↦ tokens_from (cur ++ (c ∷ [])) s
]

unfoldable pub tokens : Text → List Text
unfolding tokens_from is_space
tokens s = tokens_from [] s

-- A word as it can be extracted: not empty, and without white space.
abbrev pub IsWord : Text → Type 0
IsWord w = (w ≢ []) × All (λ c. is_space c ≡ false) w

-- The words, a blank behind each.
unfoldable pub unwords : List Text → Text
unwords [] = []
unwords (w ∷ ws) = w ++ (32 ∷ unwords ws)

tokens_from-append :
    (cur w s : Text)
    → All (λ c. is_space c ≡ false) w
    → tokens_from cur (w ++ s) ≡ tokens_from (cur ++ w) s
unfolding tokens_from
tokens_from-append cur [] s h = rw append-nil refl
tokens_from-append cur (c ∷ w) s h =
    rw (h.0, tokens_from) (tokens_from-append (cur ++ (c ∷ [])) w s h.1 ∙ rw append_assoc refl)

tokens_from-blank : (w s : Text) → w ≢ [] → tokens_from w (32 ∷ s) ≡ w ∷ tokens_from [] s
unfolding tokens_from is_space
tokens_from-blank [] s h = absurd (h refl)
tokens_from-blank (c ∷ w) s h = refl

-- The words of a line that is built from words are those words.
pub tokens-unwords : (ws : List Text) → All IsWord ws → tokens (unwords ws) ≡ ws
unfolding tokens unwords
tokens-unwords [] h = refl
tokens-unwords (w ∷ ws) h =
    tokens_from-append [] w (32 ∷ unwords ws) h.0.1
    ∙ tokens_from-blank w (unwords ws) h.0.0
    ∙ ap (λ t. w ∷ t) (tokens-unwords ws h.1)

tokens_from-last : (w : Text) → w ≢ [] → tokens_from w [] ≡ w ∷ []
unfolding tokens_from flush
tokens_from-last [] h = absurd (h refl)
tokens_from-last (c ∷ w) h = refl

-- A line of two words with a blank between them.
pub tokens_pair : (u w : Text) → IsWord u → IsWord w → tokens (u ++ (32 ∷ w)) ≡ u ∷ w ∷ []
unfolding tokens
tokens_pair u w h g =
    tokens_from-append [] u (32 ∷ w) h.1
    ∙ tokens_from-blank u w h.0
    ∙ ap (λ t. u ∷ t)
        (ap (tokens_from []) (sym (append-nil w))
          ∙ tokens_from-append [] w [] g.1
          ∙ tokens_from-last w g.0)
