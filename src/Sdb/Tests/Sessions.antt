-- ===== src/Sdb/Tests/Sessions.antt =====
-- A session with the program of Toy: a breakpoint is set, and an earlier one is deleted.
use advanced_programming_in.Sdb.Memory.Edits.{Edit, set, delete, session, member, after_all}
use advanced_programming_in.Sdb.Memory.Edits.{IsSafe, AreSafe}
use advanced_programming_in.Sdb.Memory.Session.{Refines, session-Refines}
use advanced_programming_in.Base.{ℕ, ◌≡◌, ◌≢◌, ◌||◌, refl, arith, Bool, ltb, some, List, [], ◌∷◌}
use advanced_programming_in.Base.{if◌then◌else◌}
use advanced_programming_in.Base.Text.{text, strtoull_16, stoi, ℤ, pos, hex_value, skip_space}
use advanced_programming_in.Base.Text.{sign, skip_0x, saturate}
use advanced_programming_in.Sdb.Config.{Code}
use advanced_programming_in.Sdb.Code.Overlay.{has}
use advanced_programming_in.Sdb.World.{World, done}
use advanced_programming_in.Sdb.Control.{out_of_text}
use advanced_programming_in.Sdb.Tests.Toy.{Machine, byte, toy, everywhere, toy-IsTracee, orig}
use advanced_programming_in.Sdb.Tests.Toy.{orig-IsByte, world, world-IsConsistent}

abbrev outside : ℕ → Bool
outside x = ltb x 0x1000 || ltb 0x1fff x

world-Refines : Refines toy 7 byte everywhere orig outside world (0x1000 ∷ [])
unfolding out_of_text has
world-Refines = record {
  addresses = refl;
  consistent = world-IsConsistent;
  armed = λ x h. ground arith;
  started = refl;
  unhit = refl;
  child = refl;
  text_range = λ x. refl;
}

abbrev edits : List Edit
edits = set (text "0x1003") ∷ delete (text "0") ∷ []

set-IsSafe : IsSafe everywhere (set (text "0x1003")) (0x1000 ∷ [])
unfolding strtoull_16 text hex_value skip_space sign skip_0x saturate
set-IsSafe = (omega arith, refl, (omega arith, tt))

delete-IsSafe : (z : ℤ) × (stoi (text "0") ≡ some z) × (z ≢ pos 2)
unfolding stoi text skip_space sign
delete-IsSafe = (pos 0, refl, λ e. cc)

edits-AreSafe : AreSafe outside everywhere edits (0x1000 ∷ [])
unfolding strtoull_16 text hex_value skip_space sign skip_0x saturate
edits-AreSafe = (set-IsSafe, (delete-IsSafe, tt))

session_example :
    (codes : List Code) × (w' : World Machine) × (session toy edits world ≡ done codes w')
    × Refines toy 7 byte everywhere orig outside w' (after_all outside edits (0x1000 ∷ []))
    × ((x : ℕ)
        → byte w'.kernel x
          ≡ (if member (after_all outside edits (0x1000 ∷ [])) x then 0xcc else orig x))
session_example =
    session-Refines toy 7 byte everywhere orig outside (toy-IsTracee 7) orig-IsByte edits world
      (0x1000 ∷ []) world-Refines edits-AreSafe
