-- ===== src/Sdb/Shell/Loop.antt =====
-- The endless loop of 310551113_hw4/sdb.cpp (`core`): how it ends, and what it does when the input has
-- ended.
use mathlib.Core.List.{append-nil, append_assoc}
use advanced_programming_in.Base.{ℕ, zero, suc, ◌<◌, arith, ◌≡◌, ◌∙◌, refl, sym, ap, true, false}
use advanced_programming_in.Base.{List, [], ◌∷◌, ◌++◌, length}
use advanced_programming_in.Base.Text.{Text, text}
use advanced_programming_in.Sdb.Config.{Code, success}
use advanced_programming_in.Sdb.Host.{Host}
use advanced_programming_in.Sdb.World.{World, Result, M, done, exited, chain, pure, ◌>>=◌, ◌>>◌}
use advanced_programming_in.Sdb.World.{writemsg}
use advanced_programming_in.Sdb.Inspect.{quit}
use advanced_programming_in.Sdb.Shell.{Command, command_of, sdb_parser, dispatch, middleware}
use advanced_programming_in.Sdb.Shell.{Input, get_line, core}

chain-chain :
    {K A B C : Type 0} (r : Result K A) (f : A → M K B) (g : B → M K C)
    → chain (chain r f) g ≡ chain r (λ a w. chain (f a w) g)
chain-chain (done a w) f g = refl
chain-chain (exited status w) f g = refl
chain-chain Result.aborted f g = refl
chain-chain Result.undefined_behaviour f g = refl

-- The world behind the prompt.
abbrev pub prompted : {K : Type 0} → World K → World K
prompted w = record w { out = w.out ++ (text "sdb> " ∷ []) }

-- The line is the command `exit`.
abbrev pub IsExit : Text → Type 0
IsExit line =
    (c : Text) × (args : List Text) × (sdb_parser line ≡ c ∷ args) × (command_of c ≡ Command.exit)

abbrev pub typed_in : List Text → Text → Input
typed_in lines behind = record { lines = lines; behind = behind; is_ended = false }

get_line_line :
    (line : Text) (lines : List Text) (behind command : Text)
    → get_line command (typed_in (line ∷ lines) behind) ≡ (line, typed_in lines behind)
unfolding get_line
get_line_line line lines behind command = refl

last_line :
    (behind command : Text)
    → get_line command (typed_in [] behind)
      ≡ (behind, record { lines = []; behind = behind; is_ended = true })
unfolding get_line
last_line behind command = refl

ended_line :
    (line : Text)
    → get_line line (record { lines = []; behind = line; is_ended = true })
      ≡ (line, record { lines = []; behind = line; is_ended = true })
unfolding get_line
ended_line line = refl

-- So many prompts.
abbrev pub prompts : ℕ → List Text
prompts zero = []
prompts (suc n) = text "sdb> " ∷ prompts n

module _ {K : Type 0} (host : Host K) where
  -- One round, on a line.
  abbrev pub round : Text → M K Code
  unfolding writemsg
  round line = do writemsg (text "sdb> "); middleware host (sdb_parser line)

  round_exit : (line : Text) (w : World K) → IsExit line → round line w ≡ exited 0 (prompted w)
  unfolding round writemsg middleware dispatch quit
  round_exit line w (c, args, words, is_exit) = rw (words, is_exit) refl

  core-round :
      (n : ℕ) (command line : Text) (before after : Input) (w : World K)
      → get_line command before ≡ (line, after)
      → core host (suc n) command before w ≡ chain (round line w) (λ _. core host n line after)
  unfolding core round writemsg
  core-round n command line before after w e = rw e refl

  -- If a line is the command `exit`, then the loop, in more rounds than there are lines before it,
  -- does with those lines what it does with them alone, and then, if they have all returned, prompts
  -- and ends the debugger with 0.
  pub core_exits :
      (lines more : List Text) (line behind command : Text) (rounds : ℕ) (w : World K)
      → IsExit line
      → length lines < rounds
      → core host rounds command (typed_in (lines ++ (line ∷ more)) behind) w
        ≡ chain
            (core host (length lines) command (typed_in (lines ++ (line ∷ more)) behind) w)
            (λ _ w'. exited 0 (prompted w'))
  unfolding core
  core_exits lines more line behind command zero w q enough = absurd (omega arith)
  core_exits [] more line behind command (suc n) w q enough =
      core-round n command line (typed_in (line ∷ more) behind) (typed_in more behind) w
        (get_line_line line more behind command)
      ∙ ap (λ r. chain r (λ _. core host n line (typed_in more behind))) (round_exit line w q)
  core_exits (l ∷ lines) more line behind command (suc n) w q enough =
      let left = typed_in (lines ++ (line ∷ more)) behind in
      let read = get_line_line l (lines ++ (line ∷ more)) behind command in
      let ends : Unit {0} → M K (Unit {0}) = λ _ w'. exited 0 (prompted w') in
      core-round n command l (typed_in (l ∷ (lines ++ (line ∷ more))) behind) left w read
      ∙ (λ i.
          chain (round l w) (λ _ w'. core_exits lines more line behind l n w' q (omega arith) i))
      ∙ sym (chain-chain (round l w) (λ _. core host (length lines) l left) ends)
      ∙ ap (λ r. chain r ends)
          (sym (
            core-round (length lines) command l (typed_in (l ∷ (lines ++ (line ∷ more))) behind)
              left w read))

  abbrev pub repeated : ℕ → M K Code → M K (Unit {0})
  repeated zero m = pure tt
  repeated (suc n) m = do _ ← m; repeated n m

  -- When the end has been met, every round has the same line.
  core_ended :
      (n : ℕ) (line : Text) (w : World K)
      → core host n line (record { lines = []; behind = line; is_ended = true }) w
        ≡ repeated n (round line) w
  unfolding core
  core_ended zero line w = refl
  core_ended (suc n) line w =
      let over : Input = record { lines = []; behind = line; is_ended = true } in
      core-round n line line over over w (ended_line line)
      ∙ (λ i. chain (round line w) (λ _ w'. core_ended n line w' i))

  round_blank :
      (line : Text) (w : World K) → sdb_parser line ≡ [] → round line w ≡ done success (prompted w)
  unfolding round writemsg middleware
  round_blank line w blank = rw blank refl

  repeated_blank :
      (n : ℕ) (line : Text) (w : World K)
      → sdb_parser line ≡ []
      → repeated n (round line) w ≡ done tt (record w { out = w.out ++ prompts n })
  repeated_blank zero line w blank = rw append-nil refl
  repeated_blank (suc n) line w blank =
      ap (λ r. chain r (λ _. repeated n (round line))) (round_blank line w blank)
      ∙ repeated_blank n line (prompted w) blank
      ∙ rw append_assoc refl

  -- When all lines have been read, the loop does not stop: in any number of rounds it runs what stands
  -- behind the last line end again and again, and if that is blank it only prints its prompt.
  pub core_at_end :
      (n : ℕ) (behind command : Text) (w : World K)
      → (core host (suc n) command (typed_in [] behind) w ≡ repeated (suc n) (round behind) w)
        × (sdb_parser behind ≡ []
            → core host (suc n) command (typed_in [] behind) w
              ≡ done tt (record w { out = w.out ++ prompts (suc n) }))
  core_at_end n behind command w =
      let all =
        core-round n command behind (typed_in [] behind)
          (record { lines = []; behind = behind; is_ended = true }) w (last_line behind command)
        ∙ (λ i. chain (round behind w) (λ _ w'. core_ended n behind w' i)) in
      (all, λ blank. all ∙ repeated_blank (suc n) behind w blank)
