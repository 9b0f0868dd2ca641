-- ===== src/Lsof/Table/Widths.antt =====
-- The widths of the columns of 310551113_hw1/hw1.cpp: `widen` and the length of a `row`.
use advanced_programming_in.Base.{ℕ, sym, ◌-◌, zero, suc, ◌+◌, ◌≤◌, ◌≡◌, refl, arith, List, []}
use advanced_programming_in.Base.{◌∷◌, length, length-append}
use advanced_programming_in.Base.Text.{Text, text, pad_right, fill}
use advanced_programming_in.Lsof.Table.{columns, init_maxlen, lengths, widen, row}

-- Every cell is as long as its column is wide at most, and there are as many of both.
abbrev pub Fits : List ℕ → List Text → Type 0
Fits [] [] = Unit
Fits [] (c ∷ cols) = ⊥
Fits (n ∷ ns) [] = ⊥
Fits (n ∷ ns) (c ∷ cols) = (length c ≤ n) × Fits ns cols

-- At least as wide, column by column.
abbrev pub Wider : List ℕ → List ℕ → Type 0
Wider [] [] = Unit
Wider [] (n ∷ ns) = ⊥
Wider (n ∷ ns) [] = ⊥
Wider (n ∷ ns) (k ∷ ks) = (n ≤ k) × Wider ns ks

-- The length of a line: two blanks behind each column.
abbrev pub line_width : List ℕ → ℕ
line_width [] = 0
line_width (n ∷ ns) = n + 2 + line_width ns

pub Wider-refl : (ns : List ℕ) → Wider ns ns
Wider-refl [] = tt
Wider-refl (n ∷ ns) = (omega arith, Wider-refl ns)

pub Wider-trans : (ns ks ls : List ℕ) → Wider ns ks → Wider ks ls → Wider ns ls
Wider-trans [] [] [] p q = tt
Wider-trans [] [] (l ∷ ls) p q = absurd q
Wider-trans [] (k ∷ ks) ls p q = absurd p
Wider-trans (n ∷ ns) [] ls p q = absurd p
Wider-trans (n ∷ ns) (k ∷ ks) [] p q = absurd q
Wider-trans (n ∷ ns) (k ∷ ks) (l ∷ ls) p q = (omega (arith, p.0, q.0), Wider-trans ns ks ls p.1 q.1)

pub Fits-Wider : (ns ks : List ℕ) (cols : List Text) → Fits ns cols → Wider ns ks → Fits ks cols
Fits-Wider [] [] [] p q = tt
Fits-Wider [] [] (c ∷ cols) p q = absurd p
Fits-Wider [] (k ∷ ks) cols p q = absurd q
Fits-Wider (n ∷ ns) [] cols p q = absurd q
Fits-Wider (n ∷ ns) (k ∷ ks) [] p q = absurd p
Fits-Wider (n ∷ ns) (k ∷ ks) (c ∷ cols) p q =
    (omega (arith, p.0, q.0), Fits-Wider ns ks cols p.1 q.1)

pub widen-Wider : (ns : List ℕ) (cols : List Text) → Wider ns (widen ns cols)
unfolding widen
widen-Wider [] cols = tt
widen-Wider (n ∷ ns) [] = (omega arith, Wider-refl ns)
widen-Wider (n ∷ ns) (c ∷ cols) = (ground arith, widen-Wider ns cols)

-- As many columns as cells.
pub widen-Fits :
    (ns : List ℕ) (cols : List Text) → length ns ≡ length cols → Fits (widen ns cols) cols
unfolding widen
widen-Fits [] [] e = tt
widen-Fits [] (c ∷ cols) e = absurd (omega arith)
widen-Fits (n ∷ ns) [] e = absurd (omega arith)
widen-Fits (n ∷ ns) (c ∷ cols) e = (ground arith, widen-Fits ns cols (omega arith))

length-fill : (n c : ℕ) → length (fill n c) ≡ n
unfolding fill
length-fill zero c = refl
length-fill (suc n) c = omega (arith, length-fill n c)

pub length-pad_right : (n : ℕ) (c : Text) → length c ≤ n → length (pad_right n c) ≡ n
unfolding pad_right
length-pad_right n c h =
    omega (arith, length-append c (fill (n - length c) 32), length-fill (n - length c) 32)

pub length-row :
    (ns : List ℕ) (cols : List Text) → Fits ns cols → length (row ns cols) ≡ line_width ns
unfolding row
length-row [] [] p = refl
length-row [] (c ∷ cols) p = absurd p
length-row (n ∷ ns) [] p = absurd p
length-row (n ∷ ns) (c ∷ cols) p =
    rw (length-append (pad_right (n + 2) c) (row ns cols), length-row ns cols p.1)
      (omega (arith, length-pad_right (n + 2) c (omega (arith, p.0))))

pub Wider-length : (ns ks : List ℕ) → Wider ns ks → length ns ≡ length ks
Wider-length [] [] p = refl
Wider-length [] (k ∷ ks) p = absurd p
Wider-length (n ∷ ns) [] p = absurd p
Wider-length (n ∷ ns) (k ∷ ks) p = omega (arith, Wider-length ns ks p.1)

pub init_maxlen-Fits : Fits init_maxlen columns
unfolding init_maxlen lengths text
init_maxlen-Fits = (
  omega arith,
  (omega arith, (omega arith, (omega arith, (omega arith, (omega arith, (omega arith, tt)))))),
)

pub seven : (ns : List ℕ) → Wider init_maxlen ns → length ns ≡ 7
unfolding init_maxlen lengths
seven ns h = sym (Wider-length init_maxlen ns h)
