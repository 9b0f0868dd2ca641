-- ===== src/Sdb/Memory/Steady.antt =====
-- The documented effect of running a process, and the invariant of 310551113_hw4/sdb.cpp under equal
-- bytes.
use advanced_programming_in.Base.{ℕ, ◌≡◌, ◌∙◌, ◌⊎◌, arith, Bool, Option, none, some}
use advanced_programming_in.Sdb.Config.{SdbConfig}
use advanced_programming_in.Sdb.Host.{Host, stopped, exited}
use advanced_programming_in.Sdb.Memory.Consistent.{IsArmedFor, IsTracked}

-- A program that does not write to its own memory, and ends by an exit and by no signal: it is
-- resumed and stepped, and then it stops or has exited.
pub record IsSteady {K : Type 0} (host : Host K) (pid : ℕ) (byte : K → ℕ → ℕ) : Type 0 where
  pub resume-byte : (k : K) (x : ℕ) → byte (host.resume k pid) x ≡ byte k x
  pub single_step-some :
      (k : K) → (k' : K) × (host.single_step k pid ≡ some k') × ((x : ℕ) → byte k' x ≡ byte k x)
  pub wait_child-some :
      (k : K)
      → ((k' : K) × (host.wait_child k pid ≡ some (stopped, k')) × ((x : ℕ) → byte k' x ≡ byte k x))
        ⊎ ((k' : K) × (host.wait_child k pid ≡ some (exited, k')))

-- The same bytes, the same invariant.
pub IsTracked-same :
    (orig : ℕ → ℕ) (mapped : ℕ → Bool) (m n : ℕ → ℕ) (c : SdbConfig)
    → ((x : ℕ) → n x ≡ m x)
    → IsTracked orig mapped m c
    → IsTracked orig mapped n c
IsTracked-same orig mapped m n c h t = record {
  consistent = record {
    original = t.consistent.original;
    genuine = λ x. ground (arith, h x, t.consistent.genuine x);
    apart = t.consistent.apart;
    distinct = t.consistent.distinct;
    on_mapped = t.consistent.on_mapped;
  };
  armed = by c.lid t.armed;
}
  where
    by : (lid : Option ℕ) → IsArmedFor m c.bps lid → IsArmedFor n c.bps lid
    by none a = λ x p. h x ∙ a x p
    by (some id) (bp, present, a) = (bp, present, λ x p. ground (arith, h x, a x p))
