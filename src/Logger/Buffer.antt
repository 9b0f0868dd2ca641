-- ===== src/Logger/Buffer.antt =====
-- The log that 310551113_hw2/utils.hpp can gather piece by piece: `log_func_name`, `log_arg` and
-- `log_ret`. Each piece passes through a buffer of 4096 characters, its end mark included; `none` is
-- a longer piece, which C++ leaves undefined.
use advanced_programming_in.Base.{◌+◌, ◌<◌, ◌≡◌, refl, arith, ltb, Bool, true, false, Option}
use advanced_programming_in.Base.{none, some, List, [], ◌∷◌, ◌++◌, ◌∙◌, ap, length, length-append}
use advanced_programming_in.Base.{if◌then◌else◌, All, sym}
use mathlib.Core.List.{append_assoc, append-nil}
use advanced_programming_in.Base.Text.{Text, text}
use advanced_programming_in.Logger.Resolve.{Name, chmod, chown, close, creat, creat64, fclose}
use advanced_programming_in.Logger.Resolve.{fopen, fread, fwrite, open_path, open64, read, rename}
use advanced_programming_in.Logger.Resolve.{tmpfile, tmpfile64, write}
use advanced_programming_in.Logger.Functions.{name_text, joined, line}

unfoldable pub through_buffer : Text → Option Text
through_buffer s = if ltb (length s) 4096 then some s else none

unfoldable pub then_add : Text → Option Text → Option Text
then_add log_buf none = none
then_add log_buf (some piece) = some (log_buf ++ piece)

-- What was in the log is dropped.
unfoldable pub log_func_name : Text → Option Text
unfolding through_buffer
log_func_name func_name = through_buffer (text "[logger] " ++ (func_name ++ text "("))

-- The argument as `resolve` shows it.
unfoldable pub log_arg : Text → Bool → Text → Option Text
unfolding through_buffer then_add
log_arg shown is_last log_buf =
    then_add log_buf (through_buffer (if is_last then shown else shown ++ text ", "))

-- The line is only made; the log stays as it is.
unfoldable pub log_ret : Text → Text → Option Text
unfolding through_buffer
log_ret ret log_buf = elim (through_buffer (text ") = " ++ (ret ++ text "\n"))) [
  | none ↦ none
  | some made ↦ some log_buf
]

abbrev pub after_arg : Option Text → (Text → Option Text) → Option Text
after_arg none rest = none
after_arg (some log_buf) rest = rest log_buf

-- The arguments of a call, the last one marked.
abbrev pub log_args : List Text → Text → Option Text
log_args [] log_buf = some log_buf
log_args (a ∷ []) log_buf = log_arg a true log_buf
log_args (a ∷ b ∷ args) log_buf = after_arg (log_arg a false log_buf) (log_args (b ∷ args))

-- Arguments that fit the buffer, with the comma behind.
abbrev pub AreShort : List Text → Type 0
AreShort args = All (λ a. length a + 2 < 4096) args

log_arg-more :
    (a log_buf : Text)
    → length a + 2 < 4096
    → log_arg a false log_buf ≡ some (log_buf ++ (a ++ text ", "))
unfolding log_arg through_buffer then_add text
log_arg-more a log_buf h = ground (arith, length-append a (text ", "))

log_arg-last :
    (a log_buf : Text) → length a + 2 < 4096 → log_arg a true log_buf ≡ some (log_buf ++ a)
unfolding log_arg through_buffer then_add
log_arg-last a log_buf h = ground arith

log_args-joined :
    (args : List Text) (log_buf : Text)
    → AreShort args
    → log_args args log_buf ≡ some (log_buf ++ joined args)
unfolding joined
log_args-joined [] log_buf h = ap some (sym (append-nil log_buf))
log_args-joined (a ∷ []) log_buf h = log_arg-last a log_buf h.0
log_args-joined (a ∷ b ∷ args) log_buf h =
    rw (log_arg-more a log_buf h.0)
      (log_args-joined (b ∷ args) (log_buf ++ (a ++ text ", ")) h.1 ∙ ap some (simp append_assoc))

short_front :
    (name : Name)
    → log_func_name (name_text name) ≡ some (text "[logger] " ++ (name_text name ++ text "("))
unfolding log_func_name through_buffer text
short_front chmod = refl
short_front chown = refl
short_front close = refl
short_front creat = refl
short_front creat64 = refl
short_front fclose = refl
short_front fopen = refl
short_front fread = refl
short_front fwrite = refl
short_front open_path = refl
short_front open64 = refl
short_front read = refl
short_front rename = refl
short_front tmpfile = refl
short_front tmpfile64 = refl
short_front write = refl

-- For arguments that fit the buffer, the pieces of a call add up to the line that the functions of
-- lib.cpp log, up to its closing parenthesis.
pub log_args-line :
    (name : Name) (args : List Text) (ret : Text)
    → AreShort args
    → (log_buf : Text) × (after_arg (log_func_name (name_text name)) (log_args args) ≡ some log_buf)
      × (line name args ret ≡ log_buf ++ (text ") = " ++ (ret ++ text "\n")))
unfolding line
log_args-line name args ret h =
    let front = text "[logger] " ++ (name_text name ++ text "(") in
    (
      front ++ joined args,
      ap (λ (o : Option Text). after_arg o (log_args args)) (short_front name)
          ∙ log_args-joined args front h,
      simp append_assoc,
    )
