-- ===== src/Logger/Calls/Run.antt =====
-- The calls of a logged program (310551113_hw2/lib.cpp), one after the other.
use advanced_programming_in.Logger.Calls.Returned.{perform-returned}
use advanced_programming_in.Base.{arith, ℕ, ◌≡◌, ◌∙◌, refl, ap, Option, none, some, List, [], ◌∷◌}
use advanced_programming_in.Base.{All, sym}
use advanced_programming_in.Logger.Functions.{type_of, first_of, line, Logger}
use mathlib.Core.Path.{subst}
use advanced_programming_in.Base.Text.{Text}
use advanced_programming_in.Logger.Resolve.{Name, Libc}
use advanced_programming_in.Logger.Resolve.Shown.{Looks}
use advanced_programming_in.Logger.Calls.Request.{Request, name_of, args_of, run}
use advanced_programming_in.Logger.Calls.Transparent.{Acts, IsOwn, IsClashFree, direct, returned}
use advanced_programming_in.Logger.Calls.Transparent.{returned_same, still-IsOwn, fresh-IsOwn}
use advanced_programming_in.Logger.Calls.Readable.{IsReadable, AreReadable}

module _ {L V : Type 0} (libc : Libc L) (view : L → V) (strings : V → ℕ → Option Text)
    (streams : V → ℕ → Option ℕ) (looks : Looks libc view strings streams)
    (spec : V → Name → List ℕ → ℕ × V) (acts : Acts libc view spec) where
  run-direct :
      (rs : List Request) (s : Logger L)
      → IsClashFree rs
      → All (λ r. IsOwn s (name_of r)) rs
      → AreReadable strings streams spec rs (view s.process)
      → (s' : Logger L) × (run libc rs s ≡ some ((direct spec rs (view s.process)).0, s'))
        × (view s'.process ≡ (direct spec rs (view s.process)).1)
  unfolding run
  run-direct [] s free own h = (s, refl, refl)
  run-direct (r ∷ rs) s free own h =
      let (s₁, e, p) =
        perform-returned libc view strings streams looks spec acts r (name_of r) s own.0 h.0 in
      let v = view s.process in
      let after = (spec v (name_of r) (args_of r)).1 in
      let same = returned_same (name_of r) _ (acts.fits v (name_of r) (args_of r)) in
      let (s', e', view') =
        run-direct rs s₁ free.1 (still-IsOwn (name_of r) rs s s₁ p.statics_set free.0 own.1)
          (subst (AreReadable strings streams spec rs) (sym p.view_next) h.1) in
      (
        s',
        rw (e, e')
            (ap (λ (x : ℕ × List ℕ). some (x.0 ∷ x.1, s'))
              (λ i. (same i, (direct spec rs (p.view_next i)).0))),
        view' ∙ ap (λ u. (direct spec rs u).1) p.view_next,
      )

  -- The program calls no two functions of one type, no logged function has been called before, and
  -- each name and buffer that is shown stands as a string in memory behind the call, and each stream
  -- can be read. The C library is assumed to return what its types hold, and `read` and `write` to
  -- return -1 or less than 2 ^ 31. Then every logged function returns, the program gets from them what
  -- it gets from the functions of the C library, call by call, and the process is left in the same
  -- state, but for the lines in file 5 and for `errno`.
  pub run_transparent :
      (rs : List Request) (l : L)
      → IsClashFree rs
      → AreReadable strings streams spec rs (view l)
      → (s : Logger L) × (run libc rs (record { statics = λ t. none; process = l })
          ≡ some ((direct spec rs (view l)).0, s))
        × (view s.process ≡ (direct spec rs (view l)).1)
  run_transparent rs l free h = run-direct rs _ free (fresh-IsOwn l rs) h

  -- From a logger that has not been used, a program calls a function, and then one of the same type,
  -- and what is shown of either call can be read. Then both return, and the second call runs the
  -- function that was called first, on its own arguments: `creat` after `chmod` changes the mode of
  -- the file and makes none. The line that is logged last names the function called second.
  pub run_shared :
      (first later : Request) (l : L)
      → type_of (name_of later) ≡ type_of (name_of first)
      → let (value, v) = spec (view l) (name_of first) (args_of first) in
        let (shared, v₁) = spec v (name_of first) (args_of later) in
        IsReadable strings streams first (view l) v
        → IsReadable strings streams later v v₁
        → (s : Logger L) × (run libc
              (first ∷ later ∷ [])
              (record { statics = λ t. none; process = l })
            ≡ some (returned (name_of first) value ∷ returned (name_of later) shared ∷ [], s))
          × (view s.process ≡ v₁)
          × (shown : List Text) × (ret : Text) × (l₁ : L) × (s.process
              ≡ libc.dprintf l₁ (line (name_of later) shown ret))
  unfolding run
  run_shared first later l one_type h h₁ =
      let (s, e, p) =
        perform-returned libc view strings streams looks spec acts first (name_of first)
          (record { statics = λ t. none; process = l }) refl h in
      let later_type = type_of (name_of later) in
      let holds : first_of (s.statics later_type) (name_of later) ≡ name_of first =
        ground (arith, p.statics_set later_type, one_type) in
      let at_first =
        λ (u : V). IsReadable strings streams later u (spec u (name_of first) (args_of later)).1 in
      let (s', e', p') =
        perform-returned libc view strings streams looks spec acts later (name_of first) s holds
          (subst at_first (sym p.view_next) h₁) in
      let (shown, ret, l₁, logged) = p'.line_named in
      (
        s',
        rw (e, e')
            (ap
              (λ u. some (
                returned (name_of first) (spec (view l) (name_of first) (args_of first)).0
                    ∷ returned (name_of later) (spec u (name_of first) (args_of later)).0
                    ∷ [],
                s',
              ))
              p.view_next),
        p'.view_next ∙ ap (λ u. (spec u (name_of first) (args_of later)).1) p.view_next,
        shown,
        ret,
        l₁,
        logged,
      )
