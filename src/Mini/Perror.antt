-- ===== src/Mini/Perror.antt =====
-- `perror` of 310551113_hw3/libmini.c. A string is its bytes, without the zero at its end.
pub mod Messages
use advanced_programming_in.Base.{ℕ, ◌||◌, ltb, Option, none, some, List, [], ◌∷◌, get_elem?}
use advanced_programming_in.Base.{length, if◌then◌else◌}
use advanced_programming_in.Base.Text.{Text, text}
use advanced_programming_in.Mini.Kernel.{Kernel, State, is_negative}
use advanced_programming_in.Mini.Calls.{write}

-- `errmsg`
abbrev pub errmsg : List Text
errmsg =
    text "Success"
    ∷ text "Operation not permitted"
    ∷ text "No such file or directory"
    ∷ text "No such process"
    ∷ text "Interrupted system call"
    ∷ text "I/O error"
    ∷ text "No such device or address"
    ∷ text "Argument list too long"
    ∷ text "Exec format error"
    ∷ text "Bad file number"
    ∷ text "No child processes"
    ∷ text "Try again"
    ∷ text "Out of memory"
    ∷ text "Permission denied"
    ∷ text "Bad address"
    ∷ text "Block device required"
    ∷ text "Device or resource busy"
    ∷ text "File exists"
    ∷ text "Cross-device link"
    ∷ text "No such device"
    ∷ text "Not a directory"
    ∷ text "Is a directory"
    ∷ text "Invalid argument"
    ∷ text "File table overflow"
    ∷ text "Too many open files"
    ∷ text "Not a typewriter"
    ∷ text "Text file busy"
    ∷ text "File too large"
    ∷ text "No space left on device"
    ∷ text "Illegal seek"
    ∷ text "Read-only file system"
    ∷ text "Too many links"
    ∷ text "Broken pipe"
    ∷ text "Math argument out of domain of func"
    ∷ text "Math result not representable"
    ∷ []

module _ {K : Type 0} (kernel : Kernel K) where
  -- `write(2, s, strlen(s))`
  unfoldable pub print : Text → State K → State K
  unfolding write
  print s st = (write kernel 2 s (length s) st).1

  unfoldable pub print_prefix : Option Text → State K → State K
  unfolding print
  print_prefix none st = st
  print_prefix (some prefix) st = print (text ": ") (print prefix st)

  -- `errmsg[backup]`, with nothing where the table has no such entry: then the code reads beyond it.
  -- The test is on `errno` as it is after the prefix.
  unfoldable pub perror : Option Text → State K → Option (State K)
  unfolding print_prefix print is_negative
  perror prefix st =
      let backup = st.errno in
      let st₁ = print_prefix prefix st in
      if is_negative st₁.errno || ltb 34 st₁.errno
      then some (print (text "\n") (print (text "Unknown") st₁))
      else elim (get_elem? errmsg backup) [
        | none ↦ none
        | some message ↦ some (print (text "\n") (print message st₁))
      ]
