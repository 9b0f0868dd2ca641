-- ===== src/Sdb/Shell/Transitions.antt =====
-- The transitions of the status under each handler of 310551113_hw4/sdb.cpp.
use advanced_programming_in.Base.{ℕ, suc, zero, arith, Bool, true, false, List, [], ◌∷◌}
use advanced_programming_in.Base.Text.{Text}
use advanced_programming_in.Sdb.Config.{Breakpoint, Status, not_loaded, loaded, running}
use advanced_programming_in.Sdb.Host.{Host, Insn}
use advanced_programming_in.Sdb.World.{World}
use advanced_programming_in.Sdb.Stops.{setallbreak, sort}
use advanced_programming_in.Sdb.Control.{report_existing, place, setbreak, remove, deletebreak}
use advanced_programming_in.Sdb.Control.Elf.{elfinfo}
use advanced_programming_in.Sdb.Inspect.{dump_rounds, print_insns, list_from}
use advanced_programming_in.Sdb.Inspect.Maps.{print_maps}
use advanced_programming_in.Sdb.Shell.Status.{After, After-chain, Has, poke_all-status}

-- The status may stay, rise by one, or fall back to LOADED.
abbrev pub allowed : Status → Status → Bool
allowed not_loaded running = false
allowed loaded not_loaded = false
allowed running not_loaded = false
allowed _ _ = true

report_existing-status :
    {K : Type 0} (s : Status) (bps : List Breakpoint) (id a : ℕ) (exist : Bool) (w : World K)
    → Has s w
    → After (Has s) (report_existing bps id a exist w)
unfolding report_existing
report_existing-status s [] id a exist w h = h
report_existing-status {K = K} s (bp ∷ bps) id a exist w h =
    grind (arith, report_existing-status {K = K} s bps)

module _ {K : Type 0} (host : Host K) (s : Status) where
  pub place-status : (a : ℕ) (w : World K) → Has s w → After (Has s) (place host a w)
  unfolding place
  place-status a w h =
      After-chain (Has s) (Has s) (report_existing w.conf.bps 0 a false w) _
        (report_existing-status s w.conf.bps 0 a false w h) λ exist w₁ h₁. ground arith

  pub setbreak-status : (addr : Text) (w : World K) → Has s w → After (Has s) (setbreak host addr w)
  unfolding setbreak
  setbreak-status addr w h = grind (arith, place-status)

  remove-status :
      (id : ℕ) (name : Text) (w : World K) → Has s w → After (Has s) (remove host id name w)
  unfolding remove
  remove-status id name w h = ground arith

  pub deletebreak-status :
      (name : Text) (w : World K) → Has s w → After (Has s) (deletebreak host name w)
  unfolding deletebreak
  deletebreak-status name w h = grind (arith, remove-status)

  pub setallbreak-status : (w : World K) → Has s w → After (Has s) (setallbreak host w)
  unfolding setallbreak
  setallbreak-status w h = poke_all-status host s w.conf.child (sort w.conf.bps) w h

  pub elfinfo-status : (w : World K) → Has s w → After (Has s) (elfinfo host w)
  unfolding elfinfo
  elfinfo-status w h = ground arith

  pub dump_rounds-status :
      (n a : ℕ) (head : Bool) (layout ascii : Text) (w : World K)
      → Has s w
      → After (Has s) (dump_rounds host n a head layout ascii w)
  unfolding dump_rounds
  dump_rounds-status zero a head layout ascii w h = h
  dump_rounds-status (suc n) a true layout ascii w h = dump_rounds-status n _ _ _ _ _ h
  dump_rounds-status (suc n) a false layout ascii w h = dump_rounds-status n _ _ _ _ _ h

  pub print_insns-status :
      (n : ℕ) (insns : List Insn) (w : World K)
      → Has s w
      → After (Has s) (print_insns host n insns w)
  unfolding print_insns
  print_insns-status n [] w h = h
  print_insns-status zero (i ∷ insns) w h = h
  print_insns-status (suc n) (i ∷ insns) w h = grind (arith, print_insns-status n insns)

  pub list_from-status :
      (id : ℕ) (bps : List Breakpoint) (w : World K)
      → Has s w
      → After (Has s) (list_from host id bps w)
  unfolding list_from
  list_from-status id [] w h = h
  list_from-status id (bp ∷ bps) w h = list_from-status (suc id) bps _ h

  pub print_maps-status :
      (lines : List Text) (w : World K) → Has s w → After (Has s) (print_maps host lines w)
  unfolding print_maps
  print_maps-status [] w h = h
  print_maps-status (line ∷ lines) w h = grind (arith, print_maps-status lines)
