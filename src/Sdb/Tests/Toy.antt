-- ===== src/Sdb/Tests/Toy.antt =====
-- A small host: memory and registers as functions, in which every call succeeds.
use advanced_programming_in.Base.{◌*◌, zero, suc, List, ℕ, ◌+◌, ◌-◌, ◌%◌, ◌^◌, refl, arith, true}
use advanced_programming_in.Base.{Bool, some, none, [], ◌∷◌, ltb, leb, ◌==◌, if◌then◌else◌, ◌&&◌}
use advanced_programming_in.Base.Text.{text}
use advanced_programming_in.Base.Word.{word, byte_of, byte_of-lt, IsByte}
use advanced_programming_in.Sdb.Config.{Breakpoint, running, reg_offset}
use advanced_programming_in.Sdb.Host.{Host, IsTracee, stopped}
use advanced_programming_in.Sdb.World.{World}
use advanced_programming_in.Sdb.Code.Overlay.{has}
use advanced_programming_in.Sdb.Memory.Bytes.{bytes_at}
use advanced_programming_in.Sdb.Memory.Consistent.{IsConsistent}

pub record Machine : Type 0 where
  pub mem : ℕ → ℕ
  pub regs : ℕ → ℕ

abbrev pub byte : Machine → ℕ → ℕ
byte k x = k.mem x % 256

abbrev pub poke : Machine → ℕ → ℕ → Machine
poke k a w = record k { mem = λ x. if leb a x && ltb x (a + 8) then byte_of (x - a) w else k.mem x }

-- A program whose byte at an address is the low byte of the address.
abbrev pub orig : ℕ → ℕ
orig x = x % 256

-- The program counter is behind the breakpoint.
abbrev pub registers : ℕ → ℕ
registers x = if x == 128 then 0x1001 else 0

-- An ELF file without sections is 64 zeros.
abbrev pub zeros : ℕ → List ℕ
zeros zero = []
zeros (suc n) = 0 ∷ zeros n

abbrev pub toy : Host Machine
toy = record {
  wide = 2 ^ 64 - 1;
  peek_text = λ k pid a. word (λ i. byte k (a + i));
  poke_text = λ k pid a w. some (poke k a w);
  peek_user = λ k pid reg. k.regs reg;
  poke_user = λ k pid reg v. some (record k { regs = λ x. if x == reg then v else k.regs x });
  get_regs = λ k pid. none;
  resume = λ k pid. k;
  single_step = λ k pid. some k;
  wait_child = λ k pid. some (stopped, k);
  fork_traced = λ k program. some (7, record { mem = orig; regs = registers });
  set_exitkill = λ k pid. k;
  read_file = λ k program. some (zeros 64);
  maps = λ k pid. [];
  disassemble = λ k code a. none;
}

abbrev pub everywhere : ℕ → Bool
everywhere x = true

pub toy-IsTracee : (pid : ℕ) → IsTracee toy pid byte everywhere
toy-IsTracee pid = record {
  byte-lt = λ k x. omega arith;
  peek_text-word = λ k a. refl;
  poke_text-some = λ k a w m. (poke k a w, refl);
  poke_text-byte = λ k a w k' e x. ground (arith, byte_of-lt (x - a) w);
  poke_user-some = λ k n v g. (record k { regs = λ x. if x == n * 8 then v else k.regs x }, refl);
  poke_user-byte = λ k reg v k' e x. ground arith;
  peek_user-poke_user = λ k n v k' g e. ground arith;
  peek_user-poke_text = λ k a w k' e reg. ground arith;
}

pub orig-IsByte : IsByte orig
orig-IsByte i = omega arith

-- One breakpoint, at 0x1000.
abbrev pub first_break : Breakpoint
first_break = record { addr = 0x1000; code = word (bytes_at orig 0x1000) }

abbrev pub machine : Machine
machine = record { mem = λ x. if x == 0x1000 then 0xcc else orig x; regs = registers }

abbrev pub world : World Machine
world = record {
  conf = record {
    script = [];
    program = text "prog";
    entrypoint = 0x1000;
    textsize = 0x1000;
    child = 7;
    status = running;
    lid = none;
    bps = first_break ∷ [];
  };
  kernel = machine;
  offsets = reg_offset;
  out = [];
}

pub world-IsConsistent : IsConsistent orig everywhere (byte machine) (first_break ∷ [])
unfolding has
world-IsConsistent = record {
  original = (refl, tt);
  genuine = λ x. ground arith;
  apart = (omega arith, tt);
  distinct = (refl, tt);
  on_mapped = (refl, tt);
}
