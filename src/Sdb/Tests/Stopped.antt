-- ===== src/Sdb/Tests/Stopped.antt =====
-- A program that is stopped, and its breakpoints.
use advanced_programming_in.Sdb.Shell.{Command, command_of, middleware}
use advanced_programming_in.Sdb.Memory.Counter.{HasCounter}
use advanced_programming_in.Sdb.Shell.Guard.{checked, is_given, middleware_guard}
use advanced_programming_in.Base.Word.{byte_of, word, put}
use advanced_programming_in.Sdb.Control.{remove, setbreak, deletebreak, out_of_text}
use advanced_programming_in.Base.Text.{text_eq, text, strtoull_16, hex_value, skip_space, sign}
use advanced_programming_in.Base.Text.{skip_0x, saturate, stoi, pos}
use advanced_programming_in.Base.{◌-◌, ltb, ap, ℕ, ◌+◌, ◌^◌, ◌≡◌, refl, arith, true, false}
use advanced_programming_in.Base.{bit_or, some, [], ◌∷◌, leb, ◌==◌, if◌then◌else◌, ◌&&◌}
use advanced_programming_in.Sdb.Config.{success, running, err_wrongstatus, find, reg_offset}
use advanced_programming_in.Sdb.Config.{Checked}
use advanced_programming_in.Sdb.Code.{alterpart, alternate}
use advanced_programming_in.Sdb.Code.Alter.{alterpart_top}
use advanced_programming_in.Sdb.Code.Overlay.{has}
use advanced_programming_in.Sdb.World.{World, done, undefined_behaviour, said, status_msg}
use advanced_programming_in.Sdb.Stops.{index_of, resetbreak}
use advanced_programming_in.Sdb.Memory.Bytes.{bytes_at}
use advanced_programming_in.Sdb.Memory.Consistent.{IsTracked}
use advanced_programming_in.Sdb.Memory.Set.{with_break, setbreak_lem}
use advanced_programming_in.Sdb.Memory.Delete.{without_break, deletebreak_lem}
use advanced_programming_in.Sdb.Memory.Delete.{deletebreak_past_end, resetbreak-deletebreak}
use advanced_programming_in.Sdb.Memory.Stop.Track.{Stopped, stop_address, waitstatus_stopped}
use advanced_programming_in.Sdb.Tests.Toy.{Machine, byte, toy, everywhere, toy-IsTracee, orig}
use advanced_programming_in.Sdb.Tests.Toy.{orig-IsByte, first_break, machine, world}
use advanced_programming_in.Sdb.Tests.Toy.{world-IsConsistent}

read_address : strtoull_16 (text "0x1003") ≡ 0x1003
unfolding strtoull_16 text hex_value skip_space sign skip_0x saturate
read_address = refl

inside_text : out_of_text world.conf 0x1003 ≡ false
unfolding out_of_text
inside_text = refl

absent : has world.conf.bps 0x1003 ≡ false
unfolding has
absent = refl

armed : (x : ℕ) → has world.conf.bps x ≡ true → byte machine x ≡ 0xcc
unfolding has
armed x h = ground arith

world-IsTracked : IsTracked orig everywhere (byte machine) world.conf
world-IsTracked = record { consistent = world-IsConsistent; armed = armed }

setbreak_example :
    (k : Machine) × (setbreak toy (text "0x1003") world
      ≡ done success (with_break world k 0x1003 (word (bytes_at orig 0x1003))))
    × ((x : ℕ) → byte k x ≡ (if x == 0x1003 then 0xcc else byte machine x))
    × IsTracked orig everywhere
        (byte k)
        (with_break world k 0x1003 (word (bytes_at orig 0x1003))).conf
setbreak_example =
    setbreak_lem toy byte everywhere orig world (toy-IsTracee 7) orig-IsByte world-IsConsistent
      0x1003 (omega arith) refl (omega arith) (text "0x1003") read_address refl inside_text absent
      armed

rip_register : HasCounter reg_offset 16
unfolding find reg_offset text
rip_register = (refl, refl)

stopped_example :
    (w' : World Machine) × Stopped toy byte everywhere orig world
      (toy-IsTracee 7)
      orig-IsByte
      true
      (stop_address toy world true 16)
      16
      w'
stopped_example =
    waitstatus_stopped toy byte everywhere orig world (toy-IsTracee 7) orig-IsByte true 16 machine
      refl world-IsTracked rip_register

-- The stop is at the breakpoint.
stop_found : index_of world.conf.bps (stop_address toy world true 16) ≡ some 0
unfolding index_of
stop_found = refl

read_number : stoi (text "0") ≡ some (pos 0)
unfolding stoi text skip_space sign
read_number = refl

deletebreak_example :
    (k : Machine) × (deletebreak toy (text "0") world
      ≡ done success (without_break world k 0 (text "0")))
    × ((x : ℕ) → byte k x ≡ (if x == 0x1000 then orig x else byte machine x))
    × IsTracked orig everywhere (byte k) (without_break world k 0 (text "0")).conf
deletebreak_example =
    deletebreak_lem toy byte everywhere orig world (toy-IsTracee 7) orig-IsByte world-IsConsistent
      armed 0 first_break refl (text "0") read_number refl refl

abbrev no_breaks : World Machine
no_breaks = record world { conf = record world.conf { bps = [] } }

past_end_example : deletebreak toy (text "0") no_breaks ≡ undefined_behaviour
past_end_example = deletebreak_past_end toy (text "0") no_breaks read_number refl

-- The program is stopped at its only breakpoint.
abbrev at_break : World Machine
at_break = record world { conf = record world.conf { lid = some 0 } }

abbrev after_delete : World Machine
after_delete =
    without_break at_break
      (record machine {
        mem = λ x.
            if leb 0x1000 x && ltb x (0x1000 + 8)
            then byte_of (x - 0x1000)
                (alternate (2 ^ 64 - 1) (first_break ∷ []) first_break.code 0x1000 true false)
            else machine.mem x;
      })
      0 (text "0")

deletes : deletebreak toy (text "0") at_break ≡ done success after_delete
unfolding deletebreak remove
deletes = ground (arith, read_number)

stale_example : resetbreak toy after_delete ≡ undefined_behaviour
stale_example =
    resetbreak-deletebreak toy (text "0") 0 at_break after_delete read_number refl refl refl deletes

top_example : alterpart (2 ^ 64 - 1) (word orig) 8 0x90 ≡ word (put 7 (bit_or 7 0x90) orig)
top_example = alterpart_top 0x90 orig orig-IsByte (omega arith)

recognised : command_of (text "start") ≡ Command.start
unfolding command_of text text_eq
recognised = refl

guard_example :
    middleware toy (text "start" ∷ []) world
    ≡ done err_wrongstatus (said (status_msg Checked.start running) world)
guard_example =
    middleware_guard toy (text "start") world [] Checked.start (ap checked recognised)
      (ap (λ command. is_given command []) recognised) refl
