-- ===== src/Sdb/Tests/Executions.antt =====
-- The program of Toy is resumed and stepped.
use advanced_programming_in.Sdb.Memory.Counter.{HasCounter}
use advanced_programming_in.Sdb.Control.{start}
use advanced_programming_in.Sdb.Memory.Run.{Startable}
use advanced_programming_in.Base.{◌≡◌, refl, arith, inl, List, [], ◌∷◌, some}
use advanced_programming_in.Base.Text.{text}
use advanced_programming_in.Sdb.Config.{Code, find, reg_offset, success, loaded}
use advanced_programming_in.Sdb.Code.Overlay.{has}
use advanced_programming_in.Sdb.World.{World, done}
use advanced_programming_in.Sdb.Memory.Consistent.{IsConsistent}
use advanced_programming_in.Sdb.Memory.Begin.{IsBegun, IsAllSet, start-Paused}
use advanced_programming_in.Sdb.Memory.Readied.{IsKnown}
use advanced_programming_in.Sdb.Tests.Toy.{machine, Machine, byte, toy, everywhere, toy-IsTracee}
use advanced_programming_in.Sdb.Tests.Toy.{orig, orig-IsByte, first_break, world}
use advanced_programming_in.Sdb.Tests.Toy.{world-IsConsistent}
use advanced_programming_in.Sdb.Memory.Execution.{resumes, steps, execution, Paused}
use advanced_programming_in.Sdb.Memory.Execution.{HaltedOrEnded, execution-HaltedOrEnded}
use advanced_programming_in.Sdb.Memory.Steady.{IsSteady}

pub toy-IsSteady : IsSteady toy 7 byte
toy-IsSteady = record {
  resume-byte = λ k x. refl;
  single_step-some = λ k. (k, refl, λ x. refl);
  wait_child-some = λ k. inl (k, refl, λ x. refl);
}

world-Paused : Paused toy 7 byte everywhere orig 16 (first_break ∷ []) world
unfolding has find reg_offset text
world-Paused = record {
  tracked = record { consistent = world-IsConsistent; armed = λ x h. ground arith };
  started = refl;
  child = refl;
  breaks = refl;
  register = (refl, refl);
}

execution_example :
    (codes : List Code) × (w' : World Machine) × (execution toy (resumes ∷ steps ∷ []) world
      ≡ done codes w')
    × HaltedOrEnded toy 7 byte everywhere orig 16 (first_break ∷ []) w'
execution_example =
    execution-HaltedOrEnded toy 7 byte everywhere orig 16 (first_break ∷ []) (toy-IsTracee 7)
      orig-IsByte toy-IsSteady resumes (steps ∷ []) world (inl world-Paused)

-- An earlier process has ended while it was stopped at the breakpoint.
abbrev pub ended_world : World Machine
ended_world = record world {
  conf = record world.conf { status = loaded; lid = some 0 };
  kernel = record machine { mem = orig };
}

toy-IsBegun : IsBegun toy ended_world.kernel (text "prog") 7 byte orig
toy-IsBegun = record {
  process = ended_world.kernel;
  at_stop = ended_world.kernel;
  forks = refl;
  stops = refl;
  own_memory = λ x. omega arith;
  set_exitkill-byte = λ k x. refl;
}

pub kept-IsConsistent : IsConsistent orig everywhere orig (first_break ∷ [])
unfolding has
kept-IsConsistent = record {
  original = (refl, tt);
  genuine = λ x. inl refl;
  apart = (omega arith, tt);
  distinct = (refl, tt);
  on_mapped = (refl, tt);
}

pub ended-IsKnown : IsKnown ended_world.conf
ended-IsKnown id e = (first_break, ground (arith, e))

pub rip_found : HasCounter ended_world.offsets 16
unfolding find reg_offset text
rip_found = (refl, refl)

start_example :
    (w' : World Machine) × (start toy ended_world ≡ done success w')
    × Paused toy 7 byte everywhere orig 16 (first_break ∷ []) w'
    × IsAllSet toy 7 byte everywhere orig (toy-IsTracee 7) orig-IsByte w' (first_break ∷ [])
start_example =
    start-Paused toy 7 byte everywhere orig (toy-IsTracee 7) orig-IsByte ended_world 16 refl
      toy-IsBegun kept-IsConsistent ended-IsKnown rip_found

ended-Startable : Startable toy 7 byte everywhere orig 16 ended_world
ended-Startable = record {
  status = refl;
  begun = toy-IsBegun;
  consistent = kept-IsConsistent;
  known = ended-IsKnown;
  register = rip_found;
}
