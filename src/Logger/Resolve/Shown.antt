-- ===== src/Logger/Resolve/Shown.antt =====
-- What `resolve` of 310551113_hw2/utils.hpp leaves of the process.
use advanced_programming_in.Base.{ℕ, ◌%◌, ◌^◌, ◌||◌, ◌≡◌, ◌∙◌, refl, ap, Bool-cases, inl, inr}
use advanced_programming_in.Base.{Option, some}
use advanced_programming_in.Base.Text.{Text, text, text_eq, int_text, to_octal, pad_left}
use advanced_programming_in.Logger.Resolve.{Libc, M, quote, resolve_pointer, resolve_fd}
use advanced_programming_in.Logger.Resolve.{safe_readlink, resolve_stream, resolve_int}

-- Apart from the lines in file 5 and from `errno`, the process is a state `V`, which has the memory
-- that is read as strings and as streams.
pub record Looks {L V : Type 0} (libc : Libc L) (view : L → V) (strings : V → ℕ → Option Text)
    (streams : V → ℕ → Option ℕ) : Type 0 where
  pub string_at-strings : (l : L) (a : ℕ) → libc.string_at l a ≡ strings (view l) a
  pub file_no-streams : (l : L) (a : ℕ) → libc.file_no l a ≡ streams (view l) a
  pub readlink-view : (l : L) (path : Text) → view (libc.readlink l path).1 ≡ view l
  pub dprintf-view : (l : L) (line : Text) → view (libc.dprintf l line) ≡ view l

-- What shows an argument returns, and this state stays.
abbrev pub IsShown : {L V : Type 0} → (L → V) → V → M L Text → Type 0
IsShown {L} view v m =
    (l : L) → view l ≡ v → (t : Text) × (l' : L) × (m l ≡ some (t, l')) × (view l' ≡ v)

module _ {L V : Type 0} (libc : Libc L) (view : L → V) (strings : V → ℕ → Option Text)
    (streams : V → ℕ → Option ℕ) (looks : Looks libc view strings streams) (v : V) where
  pub resolve_pointer-IsShown :
      (a : ℕ) → (t : Text) × (strings v a ≡ some t) → IsShown view v (resolve_pointer libc a)
  unfolding resolve_pointer
  resolve_pointer-IsShown a (t, e) = λ l same. (
    quote t,
    l,
    rw (looks.string_at-strings l a ∙ ap (λ u. strings u a) same ∙ e, resolve_pointer) refl,
    same,
  )

  resolve_fd-IsShown : (fd : ℕ) → IsShown view v (resolve_fd libc fd)
  unfolding resolve_fd safe_readlink
  resolve_fd-IsShown fd = λ l same. (_, _, refl, looks.readlink-view l _ ∙ same)

  pub resolve_stream-IsShown :
      (a : ℕ) → (n : ℕ) × (streams v a ≡ some n) → IsShown view v (resolve_stream libc a)
  unfolding resolve_stream
  resolve_stream-IsShown a (n, e) = λ l same.
      let (t, l', h, k) = resolve_fd-IsShown n l same in
      (t, l', rw (looks.file_no-streams l a ∙ ap (λ u. streams u a) same ∙ e, resolve_stream) h, k)

  pub resolve_int-IsShown : (type : Text) (arg : ℕ) → IsShown view v (resolve_int libc type arg)
  unfolding resolve_int
  resolve_int-IsShown type arg = λ l same. elim (Bool-cases (text_eq type (text "fd"))) [
    | inl fd ↦ let (t, l', h, k) = resolve_fd-IsShown (arg % 2 ^ 32) l same in (t, l', rw fd h, k)
    | inr other ↦ elim (Bool-cases (text_eq type (text "mode") || text_eq type (text "flag"))) [
      | inl octal ↦ (pad_left 3 b'0' (to_octal (arg % 2 ^ 32)), l, rw (other, octal) refl, same)
      | inr number ↦ (int_text (arg % 2 ^ 32), l, rw (other, number) refl, same)
    ]
  ]
