-- ===== src/Logger/Calls/Performed.antt =====
-- One call of a logged function (310551113_hw2/lib.cpp) whose arguments can be shown.
use advanced_programming_in.Base.{ℕ, ◌≡◌, ◌∙◌, refl, sym, Option, some, List, [], ◌∷◌, All, ◌==◌}
use advanced_programming_in.Base.{if◌then◌else◌}
use mathlib.Core.Path.{subst}
use advanced_programming_in.Base.Text.{Text}
use advanced_programming_in.Logger.Resolve.{Name, Libc, M, pure, ◌>>=◌, ◌>>◌}
use advanced_programming_in.Logger.Resolve.Shown.{Looks, IsShown}
use advanced_programming_in.Logger.Functions.{Logger, type_of, first_of, line}
use advanced_programming_in.Logger.Calls.{call_from_libc, log, resolve_all}
use advanced_programming_in.Logger.Calls.Transparent.{Acts}

module _ {L V : Type 0} (libc : Libc L) (view : L → V) (strings : V → ℕ → Option Text)
    (streams : V → ℕ → Option ℕ) (looks : Looks libc view strings streams) where
  resolve_all-shown :
      (v : V) (ms : List (M L Text))
      → All (IsShown view v) ms
      → (l : L) → view l ≡ v
      → (ts : List Text) × (l' : L) × (resolve_all libc ms l ≡ some (ts, l')) × (view l' ≡ v)
  unfolding resolve_all
  resolve_all-shown v [] h l same = ([], l, refl, same)
  resolve_all-shown v (m ∷ ms) h l same =
      let (t, l₁, e, same₁) = h.0 l same in
      let (ts, l₂, e₂, same₂) = resolve_all-shown v ms h.1 l₁ same₁ in
      (t ∷ ts, l₂, rw (e, e₂) refl, same₂)

  -- The log gets its line, and the program's part of the process stays.
  log-shown :
      (f : Name) (ms : List (M L Text)) (ret : Text) (s : Logger L)
      → All (IsShown view (view s.process)) ms
      → (ts : List Text) × (l : L) × (log libc f ms ret s
          ≡ some (tt, record s { process = libc.dprintf l (line f ts ret) }))
        × (view l ≡ view s.process)
  unfolding log
  log-shown f ms ret s h =
      let (ts, l, e, same) = resolve_all-shown (view s.process) ms h s.process refl in
      (ts, l, rw e refl, same)

  module _ (spec : V → Name → List ℕ → ℕ × V) (acts : Acts libc view spec) where
    -- The state behind a call of `f` that runs `g`: the log has a line that names `f`.
    pub record Performed (f g : Name) (args : List ℕ) (s s' : Logger L) : Type 0 where
      pub view_next : view s'.process ≡ (spec (view s.process) g args).1
      pub statics_set : (t : ℕ) → s'.statics t ≡ (if t == type_of f then some g else s.statics t)
      pub line_named :
          (shown : List Text) × (ret : Text) × (l : L) × (s'.process
            ≡ libc.dprintf l (line f shown ret))

    pub calls_and_logs :
        (f g : Name) (args : List ℕ) (ms : List (M L Text)) (result : ℕ → ℕ) (ret : ℕ → Text)
        (s : Logger L)
        → first_of (s.statics (type_of f)) f ≡ g
        → All (IsShown view (spec (view s.process) g args).1) ms
        → (s' : Logger L) × ((do
          value ← call_from_libc libc f args
          log libc f ms (ret value)
          pure (result value))
              s
            ≡ some (result (spec (view s.process) g args).0, s'))
          × Performed f g args s s'
    unfolding call_from_libc
    calls_and_logs f g args ms result ret s runs h =
        let s₁ : Logger L = record {
          statics = λ t. if t == type_of f then some g else s.statics t;
          process = (libc.call s.process g args).1;
        } in
        let next = acts.next s.process g args in
        let (ts, l, e, same) =
          log-shown f ms (ret (libc.call s.process g args).0) s₁
            (subst (λ v. All (IsShown view v) ms) (sym next) h) in
        let text_of = ret (libc.call s.process g args).0 in
        let l₁ = libc.dprintf l (line f ts text_of) in
        (
          record s₁ { process = l₁ },
          rw (runs, e, acts.value s.process g args) refl,
          record {
            view_next = looks.dprintf-view l (line f ts text_of) ∙ same ∙ next;
            statics_set = λ t. refl;
            line_named = (ts, text_of, l, refl);
          },
        )
