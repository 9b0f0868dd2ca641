-- ===== src/Logger/Resolve.antt =====
-- How arguments are shown: `quote`, `safe_readlink` and the overloads of `resolve` of
-- 310551113_hw2/utils.hpp, with what they and lib.cpp use of the C library.
pub mod Quoted
pub mod Shown
use advanced_programming_in.Base.{ℕ, zero, suc, ◌+◌, ◌%◌, ◌^◌, ◌||◌, Option, none, some, List, []}
use advanced_programming_in.Base.{◌∷◌, ◌++◌, if◌then◌else◌}
use advanced_programming_in.Base.Text.{Text, text, text_eq, is_print, int_text, to_octal}
use advanced_programming_in.Base.Text.{pad_left}

-- The functions that are logged.
pub data Name : Type 0 where
  chmod chown close creat creat64 fclose fopen fread fwrite open_path open64 : Name
  read rename tmpfile tmpfile64 write : Name

-- The C library and the process: `call` runs the function that `dlsym` finds under a name, on its
-- arguments as numbers, and gives the number that it returns. `string_at` is the string at an
-- address, or `none` if there is none: the address is null, or no end mark is reached in the memory
-- that can be read. `readlink` and `realpath` may set `errno`, `file_no` is the field `_fileno` of a
-- stream, if that can be read, and `dprintf` takes a line for the file 5; `pointer` is `%p`, and
-- `mismatched` what `%d` prints of an argument of 64 bits, which C leaves undefined.
pub record Libc (L : Type 0) : Type 0 where
  pub call : L → Name → List ℕ → ℕ × L
  pub string_at : L → ℕ → Option Text
  pub readlink : L → Text → Option Text × L
  pub realpath : L → Text → Option Text × L
  pub file_no : L → ℕ → Option ℕ
  pub dprintf : L → Text → L
  pub pointer : ℕ → Text
  pub mismatched : ℕ → Text

-- What a function does to the process. With `none` it does not return: to make a string of a null
-- pointer throws an exception, and to read what cannot be read is undefined.
abbrev pub M : Type 0 → Type 0 → Type 0
M L A = L → Option (A × L)

abbrev pub pure : {L A : Type 0} → A → M L A
pure a l = some (a, l)

abbrev pub chain : {L A B : Type 0} → Option (A × L) → (A → M L B) → Option (B × L)
chain none f = none
chain (some (a, l)) f = f a l

infixl 5 ◌>>=◌ ◌>>◌
abbrev pub ◌>>=◌ : {L A B : Type 0} → M L A → (A → M L B) → M L B
◌>>=◌ m f l = chain (m l) f

abbrev pub ◌>>◌ : {L B : Type 0} → M L (Unit {0}) → M L B → M L B
m >> k = m >>= λ _. k

unfoldable pub clean : Text → Text
unfolding is_print
clean [] = []
clean (c ∷ s) = (if is_print c then c else b'.') ∷ clean s

unfoldable pub quote : Text → Text
unfolding clean
quote s = b'"' ∷ (clean s ++ (b'"' ∷ []))

-- The buffer takes 1023 characters.
unfoldable pub cut : ℕ → Text → Text
cut zero s = []
cut (suc n) [] = []
cut (suc n) (c ∷ s) = c ∷ cut n s

module _ {L : Type 0} (libc : Libc L) where
  unfoldable pub safe_readlink : Text → M L Text
  unfolding cut
  safe_readlink link_path l =
      let (target, l₁) = libc.readlink l link_path in
      some (elim target [ none ↦ link_path | some target ↦ cut 1023 target ], l₁)

  -- `resolve(string, string)`
  unfoldable pub resolve_name : Text → M L Text
  unfolding quote
  resolve_name file_name l =
      let (path, l₁) = libc.realpath l file_name in
      some (elim path [ none ↦ quote file_name | some path ↦ quote path ], l₁)

  -- `resolve(string, const void *)`. An argument of type `const char *` takes this overload too: to
  -- make a `string` of it is a conversion of the user, which ranks behind.
  unfoldable pub resolve_pointer : ℕ → M L Text
  unfolding quote
  resolve_pointer arg l = elim (libc.string_at l arg) [ none ↦ none | some s ↦ some (quote s, l) ]

  unfoldable pub resolve_fd : ℕ → M L Text
  unfolding quote safe_readlink int_text
  resolve_fd fd = do
    target ← safe_readlink (text "/proc/self/fd/" ++ int_text fd)
    pure (quote target)

  -- `resolve(string, FILE *)`
  unfoldable pub resolve_stream : ℕ → M L Text
  unfolding resolve_fd
  resolve_stream stream l = elim (libc.file_no l stream) [ none ↦ none | some fd ↦ resolve_fd fd l ]

  -- `resolve(string, int)`; a `size_t` or a `uid_t` is converted to `int`.
  unfoldable pub resolve_int : Text → ℕ → M L Text
  unfolding resolve_fd int_text to_octal pad_left
  resolve_int type arg =
      let n = arg % 2 ^ 32 in
      if text_eq type (text "fd")
      then resolve_fd n
      else if text_eq type (text "mode") || text_eq type (text "flag")
      then pure (pad_left 3 b'0' (to_octal n))
      else pure (int_text n)
