-- ===== src/Sdb/Tests/Loops.antt =====
-- The loop of the debugger on short inputs.
use advanced_programming_in.Base.{◌≡◌, refl, arith, [], ◌∷◌, ◌++◌}
use advanced_programming_in.Base.Text.{text, text_eq, is_space, unwords, Text, IsWord}
use advanced_programming_in.Sdb.Shell.Typed.{sdb_parser-unwords}
use advanced_programming_in.Sdb.World.{done, exited, chain}
use advanced_programming_in.Sdb.Shell.{sdb_parser, command_of, core}
use advanced_programming_in.Sdb.Shell.Loop.{IsExit, typed_in, prompted, prompts, round, repeated}
use advanced_programming_in.Sdb.Shell.Loop.{core_exits, core_at_end}
use advanced_programming_in.Sdb.Tests.Toy.{toy, world}

-- The command as it is typed, with a blank behind it.
abbrev quit_line : Text
quit_line = unwords (text "q" ∷ [])

q-IsWord : IsWord (text "q")
unfolding text is_space
q-IsWord = ((λ e. cc), (refl, tt))

quit_line-IsExit : IsExit quit_line
unfolding text command_of text_eq
quit_line-IsExit = (text "q", [], sdb_parser-unwords (text "q" ∷ []) (q-IsWord, tt), refl)

exits_example :
    core toy 9 [] (typed_in (text "list" ∷ text "si" ∷ quit_line ∷ text "cont" ∷ []) []) world
    ≡ chain
        (core toy 2 [] (typed_in (text "list" ∷ text "si" ∷ quit_line ∷ text "cont" ∷ []) []) world)
        (λ _ w'. exited 0 (prompted w'))
exits_example =
    core_exits toy (text "list" ∷ text "si" ∷ []) (text "cont" ∷ []) quit_line [] [] 9 world
      quit_line-IsExit (omega arith)

end_example :
    (core toy 4 (text "list") (typed_in [] (text " ")) world
      ≡ repeated toy 4 (round toy (text " ")) world)
    × (sdb_parser (text " ") ≡ []
        → core toy 4 (text "list") (typed_in [] (text " ")) world
          ≡ done tt (record world { out = world.out ++ prompts 4 }))
end_example = core_at_end toy 3 (text " ") (text "list") world
