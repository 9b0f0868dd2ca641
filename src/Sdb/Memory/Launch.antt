-- ===== src/Sdb/Memory/Launch.antt =====
-- `setallbreak` (310551113_hw4/sdb.cpp): the breakpoints of an earlier run in a new process.
use advanced_programming_in.Base.{Bool, ℕ, ◌+◌, ◌<◌, ◌≤◌, ◌≡◌, ◌∙◌, arith, false, true}
use advanced_programming_in.Base.{Bool-cases, refl, inl, inr, List, [], ◌∷◌, if◌then◌else◌, ltb}
use advanced_programming_in.Base.{All}
use advanced_programming_in.Base.Word.{word, IsByte, put}
use advanced_programming_in.Sdb.Config.{Breakpoint, success}
use advanced_programming_in.Sdb.Code.Overlay.{has}
use advanced_programming_in.Sdb.Host.{Host, IsTracee}
use advanced_programming_in.Sdb.World.{World, done}
use advanced_programming_in.Sdb.Stops.{insert, sort, poke_all, setallbreak}
use advanced_programming_in.Sdb.Memory.Bytes.{bytes_at, IsOriginal, IsGenuine, poke_word}
use advanced_programming_in.Sdb.Memory.Bytes.{trap-word}

-- Ascending addresses.
abbrev pub IsSorted : List Breakpoint → Type 0
IsSorted [] = Unit
IsSorted (bp ∷ bps) = All (λ b. bp.addr ≤ b.addr) bps × IsSorted bps

insert-All :
    (P : Breakpoint → Type 0) (bp : Breakpoint) (bps : List Breakpoint)
    → P bp
    → All P bps
    → All P (insert bp bps)
unfolding insert
insert-All P bp [] p h = (p, tt)
insert-All P bp (b ∷ bps) p h = elim (Bool-cases (ltb b.addr bp.addr)) [
  | inl after ↦ rw after (h.0, insert-All P bp bps p h.1)
  | inr before ↦ rw before (p, h)
]

All-le_trans :
    (m n : ℕ) (bps : List Breakpoint)
    → m ≤ n
    → All (λ b. n ≤ b.addr) bps
    → All (λ b. m ≤ b.addr) bps
All-le_trans m n [] l h = tt
All-le_trans m n (b ∷ bps) l h = (omega arith, All-le_trans m n bps l h.1)

insert-IsSorted :
    (bp : Breakpoint) (bps : List Breakpoint) → IsSorted bps → IsSorted (insert bp bps)
unfolding insert
insert-IsSorted bp [] h = (tt, tt)
insert-IsSorted bp (b ∷ bps) h = elim (Bool-cases (ltb b.addr bp.addr)) [
  | inl after ↦
      rw after
        (insert-All (λ c. b.addr ≤ c.addr) bp bps (ground arith) h.0, insert-IsSorted bp bps h.1)
  | inr before ↦ rw before ((ground arith, All-le_trans bp.addr b.addr bps (ground arith) h.0), h)
]

-- `sort` puts the addresses in ascending order.
pub sort-IsSorted : (bps : List Breakpoint) → IsSorted (sort bps)
unfolding sort
sort-IsSorted [] = tt
sort-IsSorted (bp ∷ bps) = insert-IsSorted bp (sort bps) (sort-IsSorted bps)

sort-All : (P : Breakpoint → Type 0) (bps : List Breakpoint) → All P bps → All P (sort bps)
unfolding sort
sort-All P [] h = tt
sort-All P (bp ∷ bps) h = insert-All P bp (sort bps) h.0 (sort-All P bps h.1)

has-insert :
    (bp : Breakpoint) (bps : List Breakpoint) (x : ℕ) → has (insert bp bps) x ≡ has (bp ∷ bps) x
unfolding has insert
has-insert bp [] x = refl
has-insert bp (b ∷ bps) x = ground (arith, has-insert bp bps x)

has-sort : (bps : List Breakpoint) (x : ℕ) → has (sort bps) x ≡ has bps x
unfolding has sort
has-sort [] x = refl
has-sort (bp ∷ bps) x = ground (arith, has-insert bp (sort bps) x, has-sort bps x)

-- Memory after the writes to the breakpoints `bps`, from memory `mem`.
record IsTrapped (orig mem mem' : ℕ → ℕ) (bps : List Breakpoint) : Type 0 where
  trapped : (x : ℕ) → has bps x ≡ true → mem' x ≡ 0xcc
  clean : (x : ℕ) → has bps x ≡ false → mem x ≡ orig x → mem' x ≡ orig x
  below : (x : ℕ) → All (λ b. x < b.addr) bps → mem' x ≡ mem x

All-lt_of_le :
    (x : ℕ) (bps : List Breakpoint)
    → has bps x ≡ false
    → All (λ b. x ≤ b.addr) bps
    → All (λ b. x < b.addr) bps
unfolding has
All-lt_of_le x [] h le = tt
All-lt_of_le x (b ∷ bps) h le = (ground arith, All-lt_of_le x bps (ground arith) le.1)

-- The kernel is replaced.
abbrev pub on_kernel : {K : Type 0} → World K → K → World K
on_kernel w k = record w { kernel = k }

module _ {K : Type 0} (host : Host K) (byte : K → ℕ → ℕ) (mapped : ℕ → Bool) (orig : ℕ → ℕ)
    (child : ℕ) (tracee : IsTracee host child byte mapped) (b : IsByte orig) where
  poke_all_lem :
      (bps : List Breakpoint) (w : World K)
      → IsSorted bps
      → All (IsOriginal orig) bps
      → All (λ bp. mapped bp.addr ≡ true) bps
      → (k : K) × (poke_all host child bps w ≡ done success (on_kernel w k))
        × IsTrapped orig (byte w.kernel) (byte k) bps
  unfolding poke_all has
  poke_all_lem [] w sorted saved on_mapped =
      (w.kernel, refl, record { trapped = λ x h. cc; clean = λ x h e. e; below = λ x h. refl })
  poke_all_lem (bp ∷ bps) w sorted saved on_mapped =
      let here = bytes_at orig bp.addr in
      let (k₁, e₁) = tracee.poke_text-some w.kernel bp.addr (word (put 0 0xcc here)) on_mapped.0 in
      let first = λ (x : ℕ).
        poke_word tracee w.kernel bp.addr (put 0 0xcc here) k₁
          (λ i. ground (arith, b (bp.addr + i))) e₁ x in
      let (k, runs, rest) = poke_all_lem bps (on_kernel w k₁) sorted.1 saved.1 on_mapped.1 in
      (
        k,
        ground (arith, saved.0, trap-word here (λ i. b (bp.addr + i)), e₁, runs),
        record {
          trapped = λ x h. elim (Bool-cases (has bps x)) [
            | inl later ↦ rest.trapped x later
            | inr only ↦
                rest.below x
                  (All-lt_of_le x bps only (All-le_trans x bp.addr bps (ground arith) sorted.0))
                ∙ ground (arith, first x)
          ];
          clean = λ x h e. rest.clean x (ground arith) (ground (arith, first x));
          below = λ x h. rest.below x h.1 ∙ ground (arith, first x, h.0);
        },
      )

  -- In a process whose memory is the program's own but perhaps for 0xcc at breakpoints, and for
  -- breakpoints that hold the program's words at mapped addresses: every breakpoint is then in memory
  -- and every other byte is the program's, however close the breakpoints are.
  pub setallbreak_lem :
      (w : World K)
      → w.conf.child ≡ child
      → All (IsOriginal orig) w.conf.bps
      → All (λ bp. mapped bp.addr ≡ true) w.conf.bps
      → IsGenuine orig (byte w.kernel) w.conf.bps
      → (k : K) × (setallbreak host w ≡ done success (on_kernel w k))
        × ((x : ℕ) → byte k x ≡ (if has w.conf.bps x then 0xcc else orig x))
  unfolding setallbreak
  setallbreak_lem w same saved on_mapped clean =
      let (k, runs, t) =
        poke_all_lem (sort w.conf.bps) w (sort-IsSorted w.conf.bps)
          (sort-All (IsOriginal orig) w.conf.bps saved)
          (sort-All (λ bp. mapped bp.addr ≡ true) w.conf.bps on_mapped) in
      (
        k,
        ground (arith, runs),
        λ x. ground (arith, has-sort w.conf.bps x, t.trapped x, t.clean x, clean x),
      )
