-- ===== src/Mini/Sleep.antt =====
-- `sleep` as 310551113_hw3/libmini.c has it, between `#if 0` and `#endif`: what the one in
-- libmini64.asm is meant to be.
use advanced_programming_in.Base.{ℕ, ◌-◌, ◌%◌, ◌^◌, ◌==◌, if◌then◌else◌}
use advanced_programming_in.Mini.Kernel.{is_negative}

-- `struct timespec`
pub record Timespec : Type 0 where
  pub tv_sec : ℕ
  pub tv_nsec : ℕ

-- `sys_nanosleep` gives a `long` and what it leaves in `rem`, which has a meaning if it was
-- interrupted.
module _ {K : Type 0} (nanosleep : K → Timespec → ℕ × Timespec × K) where
  unfoldable pub sleep : ℕ → K → ℕ × K
  unfolding is_negative
  sleep seconds k =
      let (ret, rem, k') = nanosleep k (record { tv_sec = seconds; tv_nsec = 0 }) in
      if is_negative ret
      then ((if ret == 2 ^ 64 - 4 then rem.tv_sec % 2 ^ 32 else 0), k')
      else (ret % 2 ^ 32, k')
