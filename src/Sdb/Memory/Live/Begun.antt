-- ===== src/Sdb/Memory/Live/Begun.antt =====
-- From `main` on: `arg_parser` loads the program of the command line, and lines follow
-- (310551113_hw4/sdb.cpp).
use advanced_programming_in.Sdb.Memory.Counter.{HasCounter}
use advanced_programming_in.Base.{sym, ◌==◌, ℕ, ◌≡◌, refl, arith, inl, inr, Bool, Bool-cases}
use advanced_programming_in.Base.{none, List, [], ◌∷◌}
use mathlib.Core.Path.{subst}
use advanced_programming_in.Base.Text.{Text, text}
use advanced_programming_in.Sdb.Config.{Code, find, initial, reg_offset, loaded, not_loaded}
use advanced_programming_in.Sdb.Host.{Host}
use advanced_programming_in.Sdb.World.{World, done}
use advanced_programming_in.Sdb.Control.{load}
use advanced_programming_in.Sdb.Control.Elf.{elfinfo}
use advanced_programming_in.Sdb.Shell.{read_options, arg_parser, middleware}
use advanced_programming_in.Sdb.Shell.Status.{After, After-chain}
use advanced_programming_in.Sdb.Memory.Consistent.{IsConsistent}
use advanced_programming_in.Base.Word.{IsByte}
use advanced_programming_in.Sdb.Memory.Live.{Live, IsSafe, Forks, Reach}
use advanced_programming_in.Sdb.Memory.Live.Ready.{After-done}
use advanced_programming_in.Sdb.Memory.Live.Reached.{reached-Live}

-- No breakpoint has been set.
abbrev IsUnset : {K : Type 0} → World K → Type 0
IsUnset w = (w.conf.bps ≡ []) × (w.conf.lid ≡ none) × (w.offsets ≡ reg_offset)

-- No program has been loaded.
abbrev IsFresh : {K : Type 0} → World K → Type 0
IsFresh w = (w.conf.status ≡ not_loaded) × IsUnset w

module _ {K : Type 0} (host : Host K) (program : Text) where
  abbrev IsNamed : World K → Type 0
  IsNamed w = (w.conf.program ≡ program) × IsFresh w

  elfinfo-IsNamed : (w : World K) → IsNamed w → After IsNamed (elfinfo host w)
  unfolding elfinfo
  elfinfo-IsNamed w h = ground arith

  -- If the status is LOADED then the program has this name.
  abbrev Loads : World K → Type 0
  Loads w = w.conf.status ≡ loaded → (w.conf.program ≡ program) × IsUnset w

  load-Loads : (w : World K) → IsFresh w → After Loads (load host program w)
  unfolding load
  load-Loads w (status, unset) = rw status (
      After-chain Loads IsNamed _ _
        (elfinfo-IsNamed
          (record w { conf = record w.conf { status = not_loaded; program = program } })
          (refl, (refl, unset)))
        λ ret w₁ h₁. ground arith)

read_options-IsFresh :
    {K : Type 0} (host : Host K) (opts : List (ℕ × Text)) (w : World K)
    → IsFresh w
    → After IsFresh (read_options host opts w)
unfolding read_options
read_options-IsFresh host [] w h = h
read_options-IsFresh host ((opt, optarg) ∷ opts) w h = elim (Bool-cases (opt == 115)) [
  | inl script ↦
      rw script
        (read_options-IsFresh host opts (record w { conf = record w.conf { script = optarg } }) h)
  | inr usage ↦ rw usage tt
]

-- The state in which `main` is entered.
abbrev pub entered : {K : Type 0} → K → World K
entered k = record { conf = initial; kernel = k; offsets = reg_offset; out = [] }

module _ {K : Type 0} (host : Host K) (program : Text) (byte : ℕ → K → ℕ → ℕ) (mapped : ℕ → Bool)
    (orig : ℕ → ℕ) where
  Loads-Live :
      (w : World K)
      → Loads host program w
      → w.conf.status ≡ loaded
      → Live host program byte mapped orig 16 w
  unfolding find reg_offset text
  Loads-Live w h status =
      let (named, (breaks, last, offsets)) = h status in
      (
        named,
        inr (record {
          status = status;
          consistent = subst (IsConsistent orig mapped orig) (sym breaks) (record {
            original = tt;
            genuine = λ x. inl refl;
            apart = tt;
            distinct = tt;
            on_mapped = tt;
          });
          known = λ id e. absurd (ground (arith, e, last));
          register = subst (λ o. HasCounter o 16) (sym offsets) (refl, refl);
        }),
      )

  arg_parser-Live :
      (opts : List (ℕ × Text)) (operands : List Text) (k : K)
      → After
          (λ w. w.conf.status ≡ loaded → Live host program byte mapped orig 16 w)
          (arg_parser host opts (program ∷ operands) (entered k))
  unfolding arg_parser
  arg_parser-Live opts operands k =
      After-chain _ IsFresh _ _
        (read_options-IsFresh host opts (entered k) (refl, (refl, refl, refl)))
        λ _ w₁ fresh.
          After-chain _ (Loads host program) _ _ (load-Loads host program w₁ fresh)
            λ _ w₂ h. Loads-Live w₂ h

  pub main-Live :
      IsByte orig
      → Forks host program byte mapped orig 16
      → (opts : List (ℕ × Text)) (operands : List Text) (k : K) (u v : World K)
      → arg_parser host opts (program ∷ operands) (entered k) ≡ done tt u
      → u.conf.status ≡ loaded
      → Reach host program byte mapped orig 16 u v
      → Live host program byte mapped orig 16 v
        × ((line : List Text)
            → IsSafe mapped line v
            → (code : Code) × (v' : World K) × (middleware host line v ≡ done code v')
              × Live host program byte mapped orig 16 v')
  main-Live b forks opts operands k u v returns status reach =
      reached-Live host program byte mapped orig 16 b forks u v
        (After-done _ _ tt u (arg_parser-Live opts operands k) returns status) reach
