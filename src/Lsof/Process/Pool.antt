-- ===== src/Lsof/Process/Pool.antt =====
-- The inodes that `get_maps` of 310551113_hw1/hw1.cpp lists.
use advanced_programming_in.Base.{◌≡◌, ◌≢◌, refl, arith, Bool, true, false, Option, none, some}
use advanced_programming_in.Base.{List, [], ◌∷◌, ◌++◌, if◌then◌else◌, All, All-append, All-map}
use advanced_programming_in.Base.{Bool-cases, Option-cases, inl, inr}
use advanced_programming_in.Base.Text.{Text, text_eq_refl, tokens}
use advanced_programming_in.Lsof.Files.{Disk, Err, fine, is_failed}
use advanced_programming_in.Lsof.Process.{File, contains, insert, mem_file, if_some, map_node}
use advanced_programming_in.Lsof.Process.{map_name, map_type, maps_from, get_maps}

-- No two of the files have the same inode.
abbrev pub AreDistinct : List File → Type 0
AreDistinct [] = Unit
AreDistinct (file ∷ files) = All (λ g. file.node ≢ g.node) files × AreDistinct files

-- The files are distinct, in the pool, and not in the pool of the beginning, which is still there.
record Pooled (start : List Text) (files : List File) (pool : List Text) : Type 0 where
  distinct : AreDistinct files
  pooled : All (λ file. contains pool file.node ≡ true) files
  fresh : All (λ file. contains start file.node ≡ false) files
  kept : (n : Text) → contains start n ≡ true → contains pool n ≡ true

-- A new inode is neither in the beginning nor among the files.
insert-contains : (n : Text) (pool : List Text) → contains (insert n pool) n ≡ true
unfolding insert contains
insert-contains n pool = ground (arith, text_eq_refl n)

insert-kept :
    (n k : Text) (pool : List Text) → contains pool k ≡ true → contains (insert n pool) k ≡ true
unfolding insert contains
insert-kept n k pool h = ground arith

AreDistinct-append :
    (files : List File) (file : File)
    → AreDistinct files
    → All (λ g. g.node ≢ file.node) files
    → AreDistinct (files ++ (file ∷ []))
AreDistinct-append [] file d h = (tt, tt)
AreDistinct-append (g ∷ files) file d h = (
  All-append (λ f. g.node ≢ f.node) files (file ∷ []) d.0 (h.0, tt),
  AreDistinct-append files file d.1 h.1,
)

other_node :
    (pool : List Text) (n k : Text) → contains pool n ≡ false → contains pool k ≡ true → k ≢ n
other_node pool n k absent present e = cc

clash : {b : Bool} → b ≡ true → b ≡ false → ⊥
clash h k = ground arith

if_lem :
    {B : Type 0} (P : B → Type 0) (c : Bool) (x y : B)
    → (c ≡ true → P x)
    → (c ≡ false → P y)
    → P (if c then x else y)
if_lem P true x y f g = f refl
if_lem P false x y f g = g refl

if_some_lem :
    {A B : Type 0} (P : B → Type 0) (o : Option A) (b : B) (k : A → B)
    → P b
    → ((a : A) → P (k a))
    → P (if_some o b k)
if_some_lem P none b k h g = h
if_some_lem P (some a) b k h g = g a

module _ (start : List Text) where
  Pooled-insert :
      (pool : List Text) (files : List File) (file : File)
      → contains pool file.node ≡ false
      → Pooled start files pool
      → Pooled start (files ++ (file ∷ [])) (insert file.node pool)
  Pooled-insert pool files file new p = record {
    distinct =
        AreDistinct-append files file p.distinct
          (All-map _ _ files (λ g h. other_node pool file.node g.node new h) p.pooled);
    pooled =
        All-append (λ g. contains (insert file.node pool) g.node ≡ true) files (file ∷ [])
          (All-map _ _ files (λ g h. insert-kept file.node g.node pool h) p.pooled)
          (insert-contains file.node pool, tt);
    fresh =
        All-append (λ g. contains start g.node ≡ false) files (file ∷ []) p.fresh (not_earlier, tt);
    kept = λ n h. insert-kept file.node n pool (p.kept n h);
  }
    where
      not_earlier : contains start file.node ≡ false
      not_earlier = elim (Bool-cases (contains start file.node)) [
        | inl earlier ↦ absurd (clash (p.kept file.node earlier) new)
        | inr later ↦ later
      ]

  -- What is to be shown of the result.
  abbrev pub IsFresh : List File × Err × List Text → Type 0
  IsFresh (listed, err, pool) =
      AreDistinct listed × All (λ file. contains start file.node ≡ false) listed

  maps_from-IsFresh :
      (d : Disk) (pool : List Text) (files : List File) (err : Err) (lines : List Text)
      → Pooled start files pool
      → IsFresh (maps_from d pool files err lines)
  unfolding maps_from
  maps_from-IsFresh d pool files err [] p = (p.distinct, p.fresh)
  maps_from-IsFresh d pool files err (line ∷ lines) p =
      let words = tokens line in
      let found = map_type d words err in
      if_some_lem IsFresh (map_node words) _ _ (maps_from-IsFresh d pool files err lines p) λ n.
        if_lem IsFresh (is_failed found.1) _ _ (λ bad. (tt, tt))
          λ good.
            if_lem IsFresh (contains pool n) _ _
              (λ old. maps_from-IsFresh d pool files found.1 lines p)
              (λ new.
                maps_from-IsFresh d (insert n pool)
                  (files ++ (mem_file found.0 n (map_name words) ∷ [])) found.1 lines
                  (Pooled-insert pool files (mem_file found.0 n (map_name words)) new p))

  nothing_yet : Pooled start [] start
  nothing_yet = record { distinct = tt; pooled = tt; fresh = tt; kept = λ n h. h }

-- Of the mapped files of a process no two have the same inode, and none has an inode that was in
-- the pool before, such as that of the program's own file.
pub get_maps-IsFresh :
    (d : Disk) (pool : List Text) (map_path : Text) → IsFresh pool (get_maps d pool map_path)
unfolding get_maps
get_maps-IsFresh d pool map_path = elim (Option-cases (d.lines map_path)) [
  | inl absent ↦ ground arith
  | inr (lines, e) ↦ ground (arith, maps_from-IsFresh pool d pool [] fine lines (nothing_yet pool))
]
