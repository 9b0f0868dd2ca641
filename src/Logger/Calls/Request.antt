-- ===== src/Logger/Calls/Request.antt =====
-- The calls that a program makes of 310551113_hw2/lib.cpp, as data. `creat64` and `open64` are not
-- among them: lib.cpp does not declare them in its `extern "C"` block, so they are functions of C++.
use advanced_programming_in.Base.{ℕ, List, [], ◌∷◌}
use advanced_programming_in.Logger.Resolve.{M, pure, ◌>>=◌, Name, Libc, chmod, chown, close}
use advanced_programming_in.Logger.Resolve.{creat, fclose, fopen, fread, fwrite, open_path, read}
use advanced_programming_in.Logger.Resolve.{rename, tmpfile, tmpfile64, write}
use advanced_programming_in.Logger.Calls.{chmod_logged, chown_logged, close_logged, creat_logged}
use advanced_programming_in.Logger.Calls.{fclose_logged, fopen_logged, fread_logged}
use advanced_programming_in.Logger.Calls.{fwrite_logged, open_path_logged, read_logged}
use advanced_programming_in.Logger.Calls.{rename_logged, tmpfile_logged, tmpfile64_logged}
use advanced_programming_in.Logger.Calls.{write_logged}
use advanced_programming_in.Logger.Functions.{Logger}

pub data Request : Type 0 where
  call_chmod : ℕ → ℕ → Request
  call_chown : ℕ → ℕ → ℕ → Request
  call_close : ℕ → Request
  call_creat : ℕ → ℕ → Request
  call_fclose : ℕ → Request
  call_fopen : ℕ → ℕ → Request
  call_fread : ℕ → ℕ → ℕ → ℕ → Request
  call_fwrite : ℕ → ℕ → ℕ → ℕ → Request
  call_open_path : ℕ → ℕ → ℕ → Request
  call_read : ℕ → ℕ → ℕ → Request
  call_rename : ℕ → ℕ → Request
  call_tmpfile : Request
  call_tmpfile64 : Request
  call_write : ℕ → ℕ → ℕ → Request

abbrev pub name_of : Request → Name
name_of (call_chmod pathname mode) = chmod
name_of (call_chown pathname owner group) = chown
name_of (call_close fd) = close
name_of (call_creat path mode) = creat
name_of (call_fclose stream) = fclose
name_of (call_fopen pathname mode) = fopen
name_of (call_fread ptr size nmemb stream) = fread
name_of (call_fwrite ptr size nitems stream) = fwrite
name_of (call_open_path pathname flags mode) = open_path
name_of (call_read fd buf count) = read
name_of (call_rename oldpath newpath) = rename
name_of call_tmpfile = tmpfile
name_of call_tmpfile64 = tmpfile64
name_of (call_write fd buf count) = write

abbrev pub args_of : Request → List ℕ
args_of (call_chmod pathname mode) = pathname ∷ mode ∷ []
args_of (call_chown pathname owner group) = pathname ∷ owner ∷ group ∷ []
args_of (call_close fd) = fd ∷ []
args_of (call_creat path mode) = path ∷ mode ∷ []
args_of (call_fclose stream) = stream ∷ []
args_of (call_fopen pathname mode) = pathname ∷ mode ∷ []
args_of (call_fread ptr size nmemb stream) = ptr ∷ size ∷ nmemb ∷ stream ∷ []
args_of (call_fwrite ptr size nitems stream) = ptr ∷ size ∷ nitems ∷ stream ∷ []
args_of (call_open_path pathname flags mode) = pathname ∷ flags ∷ mode ∷ []
args_of (call_read fd buf count) = fd ∷ buf ∷ count ∷ []
args_of (call_rename oldpath newpath) = oldpath ∷ newpath ∷ []
args_of call_tmpfile = []
args_of call_tmpfile64 = []
args_of (call_write fd buf count) = fd ∷ buf ∷ count ∷ []

-- The function that is called.
abbrev pub perform : {L : Type 0} → Libc L → Request → M (Logger L) ℕ
perform libc (call_chmod pathname mode) = chmod_logged libc pathname mode
perform libc (call_chown pathname owner group) = chown_logged libc pathname owner group
perform libc (call_close fd) = close_logged libc fd
perform libc (call_creat path mode) = creat_logged libc path mode
perform libc (call_fclose stream) = fclose_logged libc stream
perform libc (call_fopen pathname mode) = fopen_logged libc pathname mode
perform libc (call_fread ptr size nmemb stream) = fread_logged libc ptr size nmemb stream
perform libc (call_fwrite ptr size nitems stream) = fwrite_logged libc ptr size nitems stream
perform libc (call_open_path pathname flags mode) = open_path_logged libc pathname flags mode
perform libc (call_read fd buf count) = read_logged libc fd buf count
perform libc (call_rename oldpath newpath) = rename_logged libc oldpath newpath
perform libc call_tmpfile = tmpfile_logged libc
perform libc call_tmpfile64 = tmpfile64_logged libc
perform libc (call_write fd buf count) = write_logged libc fd buf count

-- The results of calls one after the other.
unfoldable pub run : {L : Type 0} → Libc L → List Request → M (Logger L) (List ℕ)
run libc [] = pure []
run libc (r ∷ rs) = do value ← perform libc r; values ← run libc rs; pure (value ∷ values)
