-- ===== src/Mini/Perror/Messages.antt =====
-- What `perror` of 310551113_hw3/libmini.c prints.
use advanced_programming_in.Base.{get_elem?_beyond, get_elem?_within, ◌^◌, ◌<◌, ◌≤◌, ◌≡◌, arith}
use advanced_programming_in.Base.{Option, none, some, List, [], ◌∷◌, ◌++◌, get_elem?, length}
use advanced_programming_in.Base.Text.{Text, text}
use advanced_programming_in.Mini.Kernel.{Kernel, State, sys_write, is_negative}
use advanced_programming_in.Mini.Calls.{write, wrapper, wrapper_ret}
use advanced_programming_in.Mini.Perror.{errmsg, print, print_prefix, perror}

module _ {K : Type 0} (kernel : Kernel K) where
  -- The texts, each by a `write` of its own to the file 2.
  abbrev pub printed : List Text → State K → State K
  printed [] st = st
  printed (s ∷ ss) st = printed ss (print kernel s st)

  -- The kernel takes all that is written to the file 2.
  abbrev pub Accepts : Type 0
  Accepts = (k : K) (s : Text) → (kernel.call k (sys_write 2 s (length s))).0 < 2 ^ 63

  -- The texts in front of the message.
  abbrev pub front : Option Text → List Text
  front none = []
  front (some prefix) = prefix ∷ text ": " ∷ []

  print-errno : Accepts → (s : Text) (st : State K) → (print kernel s st).errno ≡ 0
  unfolding print write wrapper wrapper_ret is_negative
  print-errno h s st = ground (arith, h st.kernel s)

  perror-message :
      (prefix : Option Text) (st : State K) (message : Text)
      → Accepts
      → st.errno ≤ 34
      → get_elem? errmsg st.errno ≡ some message
      → perror kernel prefix st ≡ some (printed (front prefix ++ (message ∷ text "\n" ∷ [])) st)
  unfolding perror print_prefix is_negative
  perror-message none st message h small e = ground arith
  perror-message (some prefix) st message h small e =
      ground (arith, print-errno h (text ": ") (print kernel prefix st))

  -- If the kernel takes what is written, then for an `errno` from 0 to 34 `perror` prints the prefix
  -- and ": ", if there is a prefix, then the entry of the table and a line end.
  pub perror_known :
      (prefix : Option Text) (st : State K)
      → Accepts
      → st.errno ≤ 34
      → (message : Text) × (get_elem? errmsg st.errno ≡ some message)
        × (perror kernel prefix st ≡ some (printed (front prefix ++ (message ∷ text "\n" ∷ [])) st))
  perror_known prefix st h small =
      let (message, e) = get_elem?_within errmsg st.errno (omega arith) in
      (message, e, perror-message prefix st message h small e)

  -- Without a prefix `perror` prints "Unknown" for any other `errno`.
  pub perror_unknown :
      (st : State K)
      → 34 < st.errno
      → perror kernel none st ≡ some (printed (text "Unknown" ∷ text "\n" ∷ []) st)
  unfolding perror print_prefix is_negative
  perror_unknown st h = ground arith

  -- With a prefix, if the kernel takes what is written, `perror` reads its table beyond the end for
  -- every `errno` above 34: printing the prefix has set `errno` to 0 before it is tested.
  pub perror_beyond :
      (prefix : Text) (st : State K)
      → Accepts
      → 34 < st.errno
      → perror kernel (some prefix) st ≡ none
  unfolding perror print_prefix is_negative
  perror_beyond prefix st h large = ground (
    arith,
    print-errno h (text ": ") (print kernel prefix st),
    get_elem?_beyond errmsg st.errno (omega arith),
  )
