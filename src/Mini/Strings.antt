-- ===== src/Mini/Strings.antt =====
-- `bzero` and `strlen` of 310551113_hw3/libmini.c, on a memory of bytes.
use advanced_programming_in.Base.{ℕ, ap, ◌∙◌, zero, suc, ◌+◌, ◌^◌, ◌<◌, ◌≡◌, ◌≢◌, arith, Option}
use advanced_programming_in.Base.{none, some, true, false, leb, ltb, ◌&&◌, if◌then◌else◌, ◌==◌}

-- `*ptr = c`
unfoldable pub store : ℕ → ℕ → (ℕ → ℕ) → ℕ → ℕ
store a c mem x = if x == a then c else mem x

-- So many rounds of `while(size-- > 0)`.
unfoldable pub clear : ℕ → ℕ → (ℕ → ℕ) → ℕ → ℕ
unfolding store
clear zero a mem = mem
clear (suc n) a mem = clear n (a + 1) (store a 0 mem)

-- `size_t` is a signed type here: no round is made for a negative size.
unfoldable pub bzero : ℕ → ℕ → (ℕ → ℕ) → ℕ → ℕ
unfolding clear
bzero s size mem = if ltb size (2 ^ 63) then clear size s mem else mem

-- At most so many rounds of `while(*s++) count++`; `none` if they are not enough.
unfoldable pub count_from : ℕ → (ℕ → ℕ) → ℕ → ℕ → Option ℕ
count_from zero mem s count = none
count_from (suc rounds) mem s count = elim (mem s == 0) [
  | true ↦ some count
  | false ↦ count_from rounds mem (s + 1) (count + 1)
]

unfoldable pub strlen : ℕ → (ℕ → ℕ) → ℕ → Option ℕ
unfolding count_from
strlen rounds mem s = count_from rounds mem s 0

clear_lem :
    (n a : ℕ) (mem : ℕ → ℕ) (x : ℕ)
    → clear n a mem x ≡ (if leb a x && ltb x (a + n) then 0 else mem x)
unfolding clear store
clear_lem zero a mem x = ground arith
clear_lem (suc n) a mem x = ground (arith, clear_lem n (a + 1) (store a 0 mem) x)

-- `bzero` puts zero into the `size` bytes from `s` on, for a size that is not negative, and into no
-- other byte; for a negative size it changes nothing.
pub bzero_lem :
    (s size : ℕ) (mem : ℕ → ℕ) (x : ℕ)
    → bzero s size mem x ≡ (if ltb size (2 ^ 63) && (leb s x && ltb x (s + size)) then 0 else mem x)
unfolding bzero
bzero_lem s size mem x = ground (arith, clear_lem size s mem x)

count_from_lem :
    (n rounds : ℕ) (mem : ℕ → ℕ) (s count : ℕ)
    → n < rounds
    → mem (s + n) ≡ 0
    → ((i : ℕ) → i < n → mem (s + i) ≢ 0)
    → count_from rounds mem s count ≡ some (count + n)
unfolding count_from
count_from_lem zero zero mem s count h e f = absurd (omega arith)
count_from_lem zero (suc rounds) mem s count h e f = ground arith
count_from_lem (suc n) zero mem s count h e f = absurd (omega arith)
count_from_lem (suc n) (suc rounds) mem s count h e f =
    let rest =
      count_from_lem n rounds mem (s + 1) (count + 1) (omega arith) (ap mem (omega arith) ∙ e)
        (λ i lt z. f (suc i) (omega arith) (ap mem (omega arith) ∙ z)) in
    ground (arith, first, rest)
  where
    first : mem s ≢ 0
    first z = f 0 (omega arith) (ap mem (omega arith) ∙ z)

-- If the first zero byte from `s` on is `n` bytes behind it, `strlen` ends after `n + 1` rounds and
-- returns `n`.
pub strlen_lem :
    (n rounds : ℕ) (mem : ℕ → ℕ) (s : ℕ)
    → n < rounds
    → mem (s + n) ≡ 0
    → ((i : ℕ) → i < n → mem (s + i) ≢ 0)
    → strlen rounds mem s ≡ some n
unfolding strlen
strlen_lem n rounds mem s h e f = count_from_lem n rounds mem s 0 h e f ∙ ap some (omega arith)
