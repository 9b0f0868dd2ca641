-- ===== src/Mini/Assembly/Stack.antt =====
-- Words in memory under writes to other addresses (310551113_hw3/libmini64.asm).
use advanced_programming_in.Base.{ℕ, zero, suc, ◌+◌, ◌/◌, ◌^◌, ◌<◌, ◌≤◌, ◌≡◌, refl, ◌∙◌, arith}
use advanced_programming_in.Base.{List, [], ◌∷◌, All}
use native.Mathlib.Nat.{pow-suc}
use advanced_programming_in.Base.Word.{word, word_of, byte_of, word-ext}
use advanced_programming_in.Mini.Machine.{word_at, store_word}

word_of-byte_of : (n v : ℕ) → v < 256 ^ n → word_of n (λ i. byte_of i v) ≡ v
unfolding word_of byte_of
word_of-byte_of zero v h = omega arith
word_of-byte_of (suc n) v h =
    let q : v / 256 < 256 ^ n = omega (arith, pow-suc 256 n) in
    omega (arith, word_of-byte_of n (v / 256) q)

pub word-byte_of : (v : ℕ) → v < 2 ^ 64 → word (λ i. byte_of i v) ≡ v
unfolding word
word-byte_of v h = word_of-byte_of 8 v h

-- Two words that do not overlap.
abbrev pub Apart : ℕ → ℕ → Type 0
Apart a b = b < a + 8 → b + 8 ≤ a

pub word_at-same : (m : ℕ → ℕ) (a v : ℕ) → v < 2 ^ 64 → word_at (store_word m a v) a ≡ v
word_at-same m a v h = word-ext _ _ (λ i lt. ground (arith)) ∙ word-byte_of v h

pub word_at-store_word :
    (m : ℕ → ℕ) (a v b : ℕ) → Apart a b → word_at (store_word m a v) b ≡ word_at m b
word_at-store_word m a v b h = word-ext _ _ λ i lt. ground (arith)

-- Several words, one after the other.
abbrev pub stores : (ℕ → ℕ) → List (ℕ × ℕ) → ℕ → ℕ
stores m [] = m
stores m ((a, v) ∷ writes) = stores (store_word m a v) writes

pub word_at-stores :
    (m : ℕ → ℕ) (writes : List (ℕ × ℕ)) (b : ℕ)
    → All (λ w. Apart w.0 b) writes
    → word_at (stores m writes) b ≡ word_at m b
word_at-stores m [] b h = refl
word_at-stores m ((a, v) ∷ writes) b h =
    word_at-stores (store_word m a v) writes b h.1 ∙ word_at-store_word m a v b h.0

-- The last word at an address.
pub word_at-stored :
    (m : ℕ → ℕ) (a v : ℕ) (writes : List (ℕ × ℕ))
    → v < 2 ^ 64
    → All (λ w. Apart w.0 a) writes
    → word_at (stores (store_word m a v) writes) a ≡ v
word_at-stored m a v writes h apart =
    word_at-stores (store_word m a v) writes a apart ∙ word_at-same m a v h
