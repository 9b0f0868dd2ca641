-- ===== src/Logger/Calls/Readable.antt =====
-- The calls of 310551113_hw2/lib.cpp whose arguments can be shown.
use advanced_programming_in.Base.{ℕ, ◌≡◌, Option, some, List, [], ◌∷◌}
use advanced_programming_in.Base.Text.{Text}
use advanced_programming_in.Logger.Resolve.{Name}
use advanced_programming_in.Logger.Calls.Request.{Request, name_of, args_of, call_chmod}
use advanced_programming_in.Logger.Calls.Request.{call_chown, call_close, call_creat, call_fclose}
use advanced_programming_in.Logger.Calls.Request.{call_fopen, call_fread, call_fwrite}
use advanced_programming_in.Logger.Calls.Request.{call_open_path, call_read, call_rename}
use advanced_programming_in.Logger.Calls.Request.{call_tmpfile, call_tmpfile64, call_write}

-- A string stands at the address.
abbrev IsString : {V : Type 0} → (V → ℕ → Option Text) → V → ℕ → Type 0
IsString strings v a = (t : Text) × (strings v a ≡ some t)

abbrev IsStream : {V : Type 0} → (V → ℕ → Option ℕ) → V → ℕ → Type 0
IsStream streams v a = (n : ℕ) × (streams v a ≡ some n)

-- What is shown can be read: behind the call, but for the stream that is closed.
abbrev pub IsReadable :
    {V : Type 0} → (V → ℕ → Option Text) → (V → ℕ → Option ℕ) → Request → V → V → Type 0
IsReadable strings streams (call_fclose stream) before after = IsStream streams before stream
IsReadable strings streams (call_chmod pathname mode) before after = IsString strings after pathname
IsReadable strings streams (call_chown pathname owner group) before after =
    IsString strings after pathname
IsReadable strings streams (call_close fd) before after = Unit
IsReadable strings streams (call_creat path mode) before after = IsString strings after path
IsReadable strings streams (call_fopen pathname mode) before after =
    IsString strings after pathname × IsString strings after mode
IsReadable strings streams (call_fread ptr size nmemb stream) before after =
    IsString strings after ptr × IsStream streams after stream
IsReadable strings streams (call_fwrite ptr size nitems stream) before after =
    IsString strings after ptr × IsStream streams after stream
IsReadable strings streams (call_open_path pathname flags mode) before after =
    IsString strings after pathname
IsReadable strings streams (call_read fd buf count) before after = IsString strings after buf
IsReadable strings streams (call_rename oldpath newpath) before after =
    IsString strings after oldpath × IsString strings after newpath
IsReadable strings streams call_tmpfile before after = Unit
IsReadable strings streams call_tmpfile64 before after = Unit
IsReadable strings streams (call_write fd buf count) before after = IsString strings after buf

-- The same of each call, in the state in which it is made without the logger.
abbrev pub AreReadable :
    {V : Type 0}
    → (V → ℕ → Option Text)
    → (V → ℕ → Option ℕ)
    → (V → Name → List ℕ → ℕ × V)
    → List Request
    → V
    → Type 0
AreReadable strings streams spec [] v = Unit
AreReadable strings streams spec (r ∷ rs) v =
    IsReadable strings streams r v (spec v (name_of r) (args_of r)).1
    × AreReadable strings streams spec rs (spec v (name_of r) (args_of r)).1
