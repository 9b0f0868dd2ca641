-- ===== src/Sdb/Inspect.antt =====
-- The commands that show the program's state (310551113_hw4/sdb.cpp): `disasm`, `dump`, `quit`,
-- `get`, `getregs`, `help`, `list`, `vmmap` and `set`.
pub mod Maps
pub mod Shown
pub mod Dumped
use advanced_programming_in.Base.{ℕ, zero, suc, ◌+◌, ◌-◌, ◌*◌, ◌%◌, ◌^◌, ltb, Bool, true, false}
use advanced_programming_in.Base.{not, Option, none, some, List, [], ◌∷◌, ◌++◌, if◌then◌else◌}
use advanced_programming_in.Base.{length}
use advanced_programming_in.Base.Text.{Text, text, to_hex, to_decimal, strtoull_16, hex_byte}
use advanced_programming_in.Base.Text.{pad_left, is_print}
use advanced_programming_in.Base.Word.{byte_of}
use advanced_programming_in.Sdb.Config.{Breakpoint, Code, success, err_wrongstatus, err_badreg}
use advanced_programming_in.Sdb.Config.{err_null, Checked, find}
use advanced_programming_in.Sdb.Code.{alternate}
use advanced_programming_in.Sdb.Host.{Host, Insn, UserRegs}
use advanced_programming_in.Sdb.World.{M, exited, pure, ◌>>=◌, ◌>>◌, state, config, call, errquit}
use advanced_programming_in.Sdb.World.{writemsg, debug, checkstatus, hexify, reg_index, World}
use advanced_programming_in.Sdb.Control.{out_of_text}

-- The eight bytes of a word, lowest first.
unfoldable pub bytes_of : ℕ → List ℕ
unfolding byte_of
bytes_of w =
    byte_of 0 w
    ∷ byte_of 1 w
    ∷ byte_of 2 w
    ∷ byte_of 3 w
    ∷ byte_of 4 w
    ∷ byte_of 5 w
    ∷ byte_of 6 w
    ∷ byte_of 7 w
    ∷ []

-- " %2.2x" for each byte.
unfoldable pub spaced_hex : List ℕ → Text
unfolding hex_byte
spaced_hex [] = []
spaced_hex (b ∷ bs) = 32 ∷ (hex_byte b ++ spaced_hex bs)

-- "%2.2x " for each byte.
unfoldable pub hex_column : List ℕ → Text
unfolding hex_byte
hex_column [] = []
hex_column (b ∷ bs) = hex_byte b ++ (32 ∷ hex_column bs)

unfoldable pub printable : List ℕ → Text
unfolding is_print
printable [] = []
printable (b ∷ bs) = (if is_print b then b else b'.') ∷ printable bs

-- The blanks of the columns up to the tenth.
unfoldable pub columns_left : ℕ → Text
columns_left zero = []
columns_left (suc n) = text "   " ++ columns_left n

unfoldable pub take : ℕ → List ℕ → List ℕ
take zero bs = []
take (suc n) [] = []
take (suc n) (b ∷ bs) = b ∷ take n bs

module _ {K : Type 0} (host : Host K) where
  open host use {wide, peek_text, peek_user, poke_user, get_regs, disassemble}

  -- The word at an address as `dump` and `disasm` show it.
  unfoldable pub shown_word : World K → ℕ → ℕ
  shown_word w lladdr =
      alternate wide w.conf.bps (peek_text w.kernel w.conf.child lladdr) lladdr true true

  -- The rounds of `dump`, a word each. Two words make a line.
  unfoldable pub dump_rounds : ℕ → ℕ → Bool → Text → Text → M K Code
  unfolding writemsg bytes_of spaced_hex printable hexify
  dump_rounds zero lladdr head layout ascii = pure success
  dump_rounds (suc rounds) lladdr head layout ascii = do
    w ← state
    let bytes = bytes_of (shown_word w lladdr)
    let layout =
        (if head then text "\t" ++ hexify lladdr ++ text ":" else layout) ++ spaced_hex bytes
    let ascii = (if head then [] else ascii) ++ printable bytes
    if head then pure tt else writemsg (layout ++ text " |" ++ ascii ++ text "|")
    dump_rounds rounds ((lladdr + 8) % 2 ^ 64) (not head) layout ascii

  -- Eighty bytes.
  unfoldable pub dump : Text → M K Code
  unfolding checkstatus dump_rounds
  dump addr = do
    ok ← checkstatus Checked.dump
    if ok then dump_rounds 10 (strtoull_16 addr) true [] [] else pure err_wrongstatus

  -- The bytes that are given to the disassembler.
  unfoldable pub code_bytes : World K → ℕ → ℕ → List ℕ
  unfolding bytes_of shown_word
  code_bytes w zero lladdr = []
  code_bytes w (suc words) lladdr =
      bytes_of (shown_word w lladdr) ++ code_bytes w words ((lladdr + 8) % 2 ^ 64)

  -- The number of bytes that are printed: up to the next instruction, or for the last one all.
  unfoldable pub insn_bytes : Insn → List Insn → ℕ
  insn_bytes i [] = length i.bytes
  insn_bytes i (next ∷ insns) = next.address - i.address

  unfoldable pub insn_line : Insn → ℕ → Text
  unfolding hex_column columns_left take
  insn_line i n =
      text "0x"
      ++ to_hex i.address
      ++ text ": "
      ++ hex_column (take n i.bytes)
      ++ columns_left (10 - n)
      ++ i.mnemonic
      ++ text "\t"
      ++ i.op_str

  -- At most `left` instructions, up to the end of the text segment.
  unfoldable pub print_insns : ℕ → List Insn → M K Code
  unfolding writemsg debug insn_line insn_bytes
  print_insns left [] = pure success
  print_insns zero (i ∷ insns) = pure success
  print_insns (suc left) (i ∷ insns) = do
    c ← config
    if out_of_text c i.address
        then (do debug (text "the address is out of the range of the text segment"); pure success)
        else (do writemsg (insn_line i (insn_bytes i insns)); print_insns left insns)

  unfoldable pub disasm : Text → M K Code
  unfolding checkstatus print_insns writemsg code_bytes
  disasm addr = do
    ok ← checkstatus Checked.disasm
    w ← state
    let lladdr = strtoull_16 addr
    if ok
        then elim (disassemble w.kernel (code_bytes w 10 lladdr) lladdr) [
          | none ↦ errquit
          | some [] ↦ do writemsg (text "ERROR: Failed to disassemble given code!"); pure success
          | some (i ∷ insns) ↦ print_insns 10 (i ∷ insns)
        ]
        else pure err_wrongstatus

  unfoldable pub quit : M K Code
  quit w = exited 0 w

  unfoldable pub get : Text → M K Code
  unfolding checkstatus writemsg hexify reg_index
  get reg = do
    ok ← checkstatus Checked.get
    w ← state
    if ok
        then elim (find w.offsets reg) [
          | none ↦ pure err_badreg
          | some _ ↦ do
            offset ← reg_index reg
            w ← state
            let regval = peek_user w.kernel w.conf.child (offset * 8)
            writemsg
                (reg ++ text " = " ++ to_decimal regval ++ text " (" ++ hexify regval ++ text ")")
            pure success
        ]
        else pure err_wrongstatus

  -- `sprintf` of `getregs`, one message of five lines.
  unfoldable pub regs_text : UserRegs → Text
  regs_text r =
      text "RAX "
      ++ to_hex r.rax
      ++ text "\tRBX "
      ++ to_hex r.rbx
      ++ text "\tRCX "
      ++ to_hex r.rcx
      ++ text "\tRDX "
      ++ to_hex r.rdx
      ++ text "\nR8  "
      ++ to_hex r.r8
      ++ text "\tR9  "
      ++ to_hex r.r9
      ++ text "\tR10 "
      ++ to_hex r.r10
      ++ text "\tR11 "
      ++ to_hex r.r11
      ++ text "\nR12 "
      ++ to_hex r.r12
      ++ text "\tR13 "
      ++ to_hex r.r13
      ++ text "\tR14 "
      ++ to_hex r.r14
      ++ text "\tR15 "
      ++ to_hex r.r15
      ++ text "\nRDI "
      ++ to_hex r.rdi
      ++ text "\tRSI "
      ++ to_hex r.rsi
      ++ text "\tRBP "
      ++ to_hex r.rbp
      ++ text "\tRSP "
      ++ to_hex r.rsp
      ++ text "\nRIP "
      ++ to_hex r.rip
      ++ text "\tFLAGS "
      ++ pad_left 16 b'0' (to_hex r.eflags)

  unfoldable pub getregs : M K Code
  unfolding checkstatus writemsg
  getregs = do
    ok ← checkstatus Checked.getregs
    w ← state
    if ok
        then elim (get_regs w.kernel w.conf.child) [
          | none ↦ pure err_null
          | some regs ↦ do writemsg (regs_text regs); pure success
        ]
        else pure err_wrongstatus

  -- The lines of `list`, from the number `id` on.
  unfoldable pub list_from : ℕ → List Breakpoint → M K Code
  unfolding writemsg
  list_from id [] = pure success
  list_from id (bp ∷ bps) = do
    writemsg (
        pad_left 3 32 (to_decimal id)
        ++ text ": "
        ++ to_hex bp.addr
        ++ text ", 0x"
        ++ pad_left 16 b'0' (to_hex bp.code))
    list_from (suc id) bps

  unfoldable pub list : M K Code
  unfolding list_from
  list = do c ← config; list_from 0 c.bps

  -- `reg_offset[reg]` also for a name that is no register.
  unfoldable pub set : Text → Text → M K Code
  unfolding checkstatus reg_index
  set reg val = do
    ok ← checkstatus Checked.set
    if ok
        then (do
          offset ← reg_index reg
          w ← state
          call (poke_user w.kernel w.conf.child (offset * 8) (strtoull_16 val))
          pure success)
        else pure err_wrongstatus
