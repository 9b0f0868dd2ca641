-- ===== src/Sdb/Stops.antt =====
-- What the debugger does when the traced process stops (310551113_hw4/sdb.cpp): `resetbreak`,
-- `restoreifbreak`, `setallbreak` and `waitstatus`.
use advanced_programming_in.Base.{ℕ, ◌+◌, ◌-◌, ◌*◌, ◌%◌, ◌^◌, bit_and, bit_or, ltb, ◌==◌, suc}
use advanced_programming_in.Base.{Bool, true, false, Option, none, some, List, [], ◌∷◌, ◌++◌}
use advanced_programming_in.Base.{if◌then◌else◌}
use advanced_programming_in.Base.Text.{text, to_hex, to_decimal, pad_left}
use advanced_programming_in.Sdb.Config.{Breakpoint, Code, success, err_badwait, loaded}
use advanced_programming_in.Sdb.Code.{alternate}
use advanced_programming_in.Sdb.Host.{Host, WaitStatus, exited, stopped, other}
use advanced_programming_in.Sdb.World.{M, pure, ◌>>=◌, ◌>>◌, state, config, set_config, call}
use advanced_programming_in.Sdb.World.{errquit, writemsg, debug, reg_index, breakpoint_at}

-- `(code & 0xffffffffffffff00) | 0xcc`
unfoldable pub trap : ℕ → ℕ
trap code = bit_or (bit_and code 0xffffffffffffff00) 0xcc

-- The first breakpoint at an address.
unfoldable pub index_of : List Breakpoint → ℕ → Option ℕ
index_of [] x = none
index_of (bp ∷ bps) x =
    let rest : Option ℕ = elim (index_of bps x) [ none ↦ none | some id ↦ some (suc id) ] in
    if bp.addr == x then some 0 else rest

-- `sort(bps.begin(), bps.end())`, by the addresses. No two are equal.
unfoldable pub insert : Breakpoint → List Breakpoint → List Breakpoint
insert bp [] = bp ∷ []
insert bp (b ∷ bps) = if ltb b.addr bp.addr then b ∷ insert bp bps else bp ∷ b ∷ bps

unfoldable pub sort : List Breakpoint → List Breakpoint
unfolding insert
sort [] = []
sort (bp ∷ bps) = insert bp (sort bps)

module _ {K : Type 0} (host : Host K) where
  open host use {wide, peek_user, poke_user, poke_text, wait_child}

  unfoldable pub resetbreak : M K Code
  unfolding breakpoint_at
  resetbreak = do
    c ← config
    elim c.lid [
      | none ↦ pure success
      | some lid ↦ do
        bp ← breakpoint_at lid
        w ← state
        call (poke_text w.kernel c.child bp.addr (alternate wide c.bps bp.code bp.addr true true))
        set_config (λ c. record c { lid = none })
        pure success
    ]

  -- The part after a breakpoint is found at `rip`.
  unfoldable pub restore_at : ℕ → ℕ → M K Code
  unfolding breakpoint_at debug
  restore_at rid addr = do
    c ← config
    bp ← breakpoint_at rid
    rip ← reg_index (text "rip")
    w ← state
    call (poke_user w.kernel c.child (rip * 8) bp.addr)
    debug (text "breakpoint @ " ++ pad_left 10 32 (to_hex addr) ++ text ": ...")
    w ← state
    call (poke_text w.kernel c.child bp.addr (alternate wide c.bps bp.code bp.addr false false))
    set_config (λ c. record c { lid = some rid })
    pure success

  unfoldable pub restoreifbreak : Bool → M K Code
  restoreifbreak cont = do
    c ← config
    rip ← reg_index (text "rip")
    w ← state
    let addr = peek_user w.kernel c.child (rip * 8)
    let ccbyte : ℕ = if cont then 1 else 0
    elim (index_of c.bps ((addr + 2 ^ 64 - ccbyte) % 2 ^ 64)) [
      | none ↦ pure success
      | some rid ↦ restore_at rid addr
    ]

  unfoldable pub poke_all : ℕ → List Breakpoint → M K Code
  poke_all child [] = pure success
  poke_all child (bp ∷ bps) = do
    w ← state
    call (poke_text w.kernel child bp.addr (trap bp.code))
    poke_all child bps

  unfoldable pub setallbreak : M K Code
  setallbreak = do c ← config; poke_all c.child (sort c.bps)

  -- The branches of `waitstatus` on what was reported.
  unfoldable pub on_wait : Bool → WaitStatus → M K Code
  unfolding writemsg debug
  on_wait cont exited = do
    c ← config
    writemsg (text "wait: exit")
    debug (text "child process " ++ to_decimal c.child ++ text " terminiated normally (code 0)")
    set_config (λ c. record c { status = loaded })
    pure success
  on_wait cont stopped = do
    writemsg (text "wait: stopped")
    _ ← resetbreak
    _ ← restoreifbreak cont
    pure success
  on_wait cont other = do writemsg (text "wait: else"); pure err_badwait

  unfoldable pub waitstatus : Bool → M K Code
  unfolding on_wait
  waitstatus cont = do
    w ← state
    elim (wait_child w.kernel w.conf.child) [
      | none ↦ errquit
      | some (status, k) ↦ do call (some k); on_wait cont status
    ]
