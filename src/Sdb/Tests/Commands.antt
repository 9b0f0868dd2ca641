-- ===== src/Sdb/Tests/Commands.antt =====
-- Commands as they are typed, to the program of Toy.
use advanced_programming_in.Base.Text.{Text, text_eq, text}
use advanced_programming_in.Base.{◌++◌, List, ◌≡◌, refl, arith, true, [], ◌∷◌}
use advanced_programming_in.Sdb.Config.{success, Code, running}
use advanced_programming_in.Sdb.World.{done, hexify}
use advanced_programming_in.Sdb.Tests.Toy.{byte, toy, everywhere, toy-IsTracee, orig, orig-IsByte}
use advanced_programming_in.Sdb.Tests.Toy.{world, world-IsConsistent}
use advanced_programming_in.Sdb.Shell.Showing.{is_showing, middleware-Shows}
use advanced_programming_in.Sdb.Inspect.Dumped.{dump_lem, dump_lines}
use advanced_programming_in.Sdb.Shell.{command_of, middleware}
use advanced_programming_in.Sdb.Inspect.{code_bytes}
use advanced_programming_in.Sdb.Inspect.Shown.{shown, listed_words, code_bytes-shown}
use advanced_programming_in.Sdb.Shell.Machine.{middleware_status}
use advanced_programming_in.Sdb.Shell.Status.{After}
use advanced_programming_in.Sdb.Shell.Transitions.{allowed}
use advanced_programming_in.Sdb.Shell.Typed.{strtoull_16-hexify}
use advanced_programming_in.Sdb.Inspect

status_example :
    After (λ w'. allowed running w'.conf.status ≡ true) (middleware toy (text "si" ∷ []) world)
status_example = middleware_status toy (text "si" ∷ []) world

shown_example : code_bytes toy world 2 0xffc ≡ listed_words 2 0xffc (shown orig world.conf.bps)
shown_example =
    code_bytes-shown toy byte everywhere orig world (toy-IsTracee 7) orig-IsByte
      world-IsConsistent.genuine 2 0xffc (omega arith) ((omega arith, tt), ((omega arith, tt), tt))

x-is_showing : is_showing (command_of (text "x")) ≡ true
unfolding command_of text text_eq
x-is_showing = refl

showing_example :
    (code : Code) × (out : List Text) × (middleware toy (text "x" ∷ text "1000" ∷ []) world
      ≡ done code (record world { out = out }))
showing_example = middleware-Shows toy (text "x") (text "1000" ∷ []) world x-is_showing

dump_example :
    Inspect.dump toy (hexify 0x1000) world
    ≡ done success
        (record world { out = world.out ++ dump_lines 5 0x1000 (shown orig world.conf.bps) })
dump_example =
    dump_lem toy byte everywhere orig orig-IsByte (hexify 0x1000) 0x1000 world (toy-IsTracee 7)
      world-IsConsistent.genuine (strtoull_16-hexify 0x1000 (omega arith)) refl (omega arith)
      (ground arith)
