-- ===== src/Sdb/Memory/Registers.antt =====
-- `set` of 310551113_hw4/sdb.cpp.
use advanced_programming_in.Base.{true, ℕ, ◌*◌, ◌≡◌, arith, Bool, some}
use advanced_programming_in.Sdb.Host.{is_general, Host, IsTracee}
use advanced_programming_in.Base.Text.{Text, strtoull_16}
use advanced_programming_in.Sdb.Config.{success, find, running}
use advanced_programming_in.Sdb.World.{World, done, reg_index}
use advanced_programming_in.Sdb.Shell.Showing.{at-found}
use advanced_programming_in.Sdb.Inspect

module _ {K : Type 0} (host : Host K) (byte : K → ℕ → ℕ) (mapped : ℕ → Bool) (w : World K)
    (tracee : IsTracee host w.conf.child byte mapped) (reg : Text) (v : ℕ)
    (known : find w.offsets reg ≡ some v) (general : is_general v ≡ true)
    (started : w.conf.status ≡ running) where
  -- `set` of a general register succeeds and changes the kernel only.
  pub set_lem :
      (val : Text)
      → (k : K) × (host.poke_user w.kernel w.conf.child (v * 8) (strtoull_16 val) ≡ some k)
        × (Inspect.set host reg val w ≡ done success (record w { kernel = k }))
  unfolding Inspect.set reg_index
  set_lem val =
      let (k, e) = tracee.poke_user-some w.kernel v (strtoull_16 val) general in
      (k, e, ground (arith, started, at-found host w.offsets reg v known, e))
