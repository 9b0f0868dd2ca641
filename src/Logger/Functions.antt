-- ===== src/Logger/Functions.antt =====
-- The names and types of the functions of 310551113_hw2/lib.cpp, the state of the logger, and the
-- line that it writes.
use advanced_programming_in.Base.{ℕ, Option, none, some, List, [], ◌∷◌, ◌++◌}
use advanced_programming_in.Base.Text.{Text, text}
use advanced_programming_in.Logger.Resolve.{Name, chmod, chown, close, creat, creat64, fclose}
use advanced_programming_in.Logger.Resolve.{fopen, fread, fwrite, open_path, open64, read, rename}
use advanced_programming_in.Logger.Resolve.{tmpfile, tmpfile64, write}

-- `__func__`
abbrev pub name_text : Name → Text
name_text chmod = text "chmod"
name_text chown = text "chown"
name_text close = text "close"
name_text creat = text "creat"
name_text creat64 = text "creat64"
name_text fclose = text "fclose"
name_text fopen = text "fopen"
name_text fread = text "fread"
name_text fwrite = text "fwrite"
name_text open_path = text "open"
name_text open64 = text "open64"
name_text read = text "read"
name_text rename = text "rename"
name_text tmpfile = text "tmpfile"
name_text tmpfile64 = text "tmpfile64"
name_text write = text "write"

-- The type of a function, as lib.cpp declares it, by a number. It decides which instance of the
-- template `call_from_libc` is called: functions of one type share one.
abbrev pub type_of : Name → ℕ
type_of chmod = 0
type_of creat = 0
type_of creat64 = 0
type_of chown = 1
type_of close = 2
type_of fclose = 3
type_of fopen = 4
type_of fread = 5
type_of fwrite = 6
type_of open_path = 7
type_of open64 = 7
type_of read = 8
type_of rename = 9
type_of tmpfile = 10
type_of tmpfile64 = 10
type_of write = 11

-- `statics` has the variable `libc_func` of each instance, once it is set.
pub record Logger (L : Type 0) : Type 0 where
  pub statics : ℕ → Option Name
  pub process : L

-- `static Func libc_func = dlsym(handle, func_name)`: only the first call sets it.
abbrev pub first_of : Option Name → Name → Name
first_of none name = name
first_of (some earlier) name = earlier

unfoldable pub joined : List Text → Text
joined [] = []
joined (a ∷ []) = a
joined (a ∷ b ∷ args) = a ++ (text ", " ++ joined (b ∷ args))

-- "[logger] %s(%s, %s) = %d\n"
unfoldable pub line : Name → List Text → Text → Text
unfolding joined
line name args ret =
    text "[logger] "
    ++ (name_text name ++ (text "(" ++ (joined args ++ (text ") = " ++ (ret ++ text "\n")))))
