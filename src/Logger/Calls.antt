-- ===== src/Logger/Calls.antt =====
-- The functions of 310551113_hw2/lib.cpp, each of which calls the one of the C library and logs it.
-- `open_path` is `open`.
pub mod Request
pub mod Transparent
pub mod Performed
pub mod Readable
pub mod Returned
pub mod Run
use advanced_programming_in.Base.{ℕ, ◌%◌, ◌^◌, ◌==◌, Option, none, some, List, [], ◌∷◌, ◌++◌}
use advanced_programming_in.Base.{if◌then◌else◌}
use advanced_programming_in.Base.Word.{as_long}
use advanced_programming_in.Base.Text.{Text, text, int_text}
use advanced_programming_in.Logger.Resolve.{Name, chmod, chown, close, creat, creat64, fclose}
use advanced_programming_in.Logger.Resolve.{fopen, fread, fwrite, open_path, open64, read, rename}
use advanced_programming_in.Logger.Resolve.{tmpfile, tmpfile64, write, Libc, M, pure, ◌>>=◌, ◌>>◌}
use advanced_programming_in.Logger.Resolve.{resolve_pointer, resolve_stream, resolve_int}
use advanced_programming_in.Logger.Functions.{Logger, first_of, joined, line, name_text, type_of}

module _ {L : Type 0} (libc : Libc L) where
  unfoldable pub call_from_libc : Name → List ℕ → M (Logger L) ℕ
  call_from_libc name args s =
      let func = first_of (s.statics (type_of name)) name in
      let (ret, l) = libc.call s.process func args in
      some (
        ret,
        record { statics = λ t. if t == type_of name then some func else s.statics t; process = l },
      )

  -- The logger changes nothing but the process.
  abbrev within : {A : Type 0} → Logger L → Option (A × L) → Option (A × Logger L)
  within s none = none
  within s (some (a, l)) = some (a, record s { process = l })

  abbrev pub on_process : {A : Type 0} → M L A → M (Logger L) A
  on_process m s = within s (m s.process)

  -- The arguments as they are shown. C++ leaves their order open; here they are taken as written.
  unfoldable pub resolve_all : List (M L Text) → M L (List Text)
  resolve_all [] = pure []
  resolve_all (m ∷ ms) = do shown ← m; rest ← resolve_all ms; pure (shown ∷ rest)

  -- `dprintf(FD, …)`
  unfoldable pub log : Name → List (M L Text) → Text → M (Logger L) (Unit {0})
  unfolding resolve_all line
  log name args ret = do
    shown ← on_process (resolve_all args)
    on_process (λ l. some (tt, libc.dprintf l (line name shown ret)))

  unfoldable pub chmod_logged : ℕ → ℕ → M (Logger L) ℕ
  unfolding call_from_libc log int_text resolve_int resolve_pointer
  chmod_logged pathname mode = do
    value ← call_from_libc chmod (pathname ∷ mode ∷ [])
    let ret = value % 2 ^ 32
    log chmod (resolve_pointer libc pathname ∷ resolve_int libc (text "mode") mode ∷ [])
        (int_text ret)
    pure ret

  unfoldable pub chown_logged : ℕ → ℕ → ℕ → M (Logger L) ℕ
  unfolding call_from_libc log int_text resolve_int resolve_pointer
  chown_logged pathname owner group = do
    value ← call_from_libc chown (pathname ∷ owner ∷ group ∷ [])
    let ret = value % 2 ^ 32
    log chown
        (resolve_pointer libc pathname
          ∷ resolve_int libc (text "") owner
          ∷ resolve_int libc (text "") group
          ∷ [])
        (int_text ret)
    pure ret

  unfoldable pub close_logged : ℕ → M (Logger L) ℕ
  unfolding call_from_libc log int_text resolve_int
  close_logged fd = do
    value ← call_from_libc close (fd ∷ [])
    let ret = value % 2 ^ 32
    log close (resolve_int libc (text "fd") fd ∷ []) (int_text ret)
    pure ret

  unfoldable pub creat_logged : ℕ → ℕ → M (Logger L) ℕ
  unfolding call_from_libc log int_text resolve_int resolve_pointer
  creat_logged path mode = do
    value ← call_from_libc creat (path ∷ mode ∷ [])
    let ret = value % 2 ^ 32
    log creat (resolve_pointer libc path ∷ resolve_int libc (text "mode") mode ∷ []) (int_text ret)
    pure ret

  -- A function of C++, which a program does not call.
  unfoldable pub creat64_logged : ℕ → ℕ → M (Logger L) ℕ
  unfolding call_from_libc log int_text resolve_int resolve_pointer
  creat64_logged path mode = do
    value ← call_from_libc creat64 (path ∷ mode ∷ [])
    let ret = value % 2 ^ 32
    log creat64 (resolve_pointer libc path ∷ resolve_int libc (text "mode") mode ∷ [])
        (int_text ret)
    pure ret

  -- The stream is resolved before it is closed.
  unfoldable pub fclose_logged : ℕ → M (Logger L) ℕ
  unfolding call_from_libc log int_text resolve_stream
  fclose_logged stream = do
    shown ← on_process (resolve_stream libc stream)
    value ← call_from_libc fclose (stream ∷ [])
    let ret = value % 2 ^ 32
    log fclose (pure shown ∷ []) (int_text ret)
    pure ret

  unfoldable pub fopen_logged : ℕ → ℕ → M (Logger L) ℕ
  unfolding call_from_libc log resolve_pointer
  fopen_logged pathname mode = do
    value ← call_from_libc fopen (pathname ∷ mode ∷ [])
    log fopen (resolve_pointer libc pathname ∷ resolve_pointer libc mode ∷ []) (libc.pointer value)
    pure value

  unfoldable pub fread_logged : ℕ → ℕ → ℕ → ℕ → M (Logger L) ℕ
  unfolding call_from_libc log resolve_int resolve_pointer resolve_stream
  fread_logged ptr size nmemb stream = do
    value ← call_from_libc fread (ptr ∷ size ∷ nmemb ∷ stream ∷ [])
    log fread
        (resolve_pointer libc ptr
          ∷ resolve_int libc (text "") size
          ∷ resolve_int libc (text "") nmemb
          ∷ resolve_stream libc stream
          ∷ [])
        (libc.mismatched value)
    pure value

  unfoldable pub fwrite_logged : ℕ → ℕ → ℕ → ℕ → M (Logger L) ℕ
  unfolding call_from_libc log resolve_int resolve_pointer resolve_stream
  fwrite_logged ptr size nitems stream = do
    value ← call_from_libc fwrite (ptr ∷ size ∷ nitems ∷ stream ∷ [])
    log fwrite
        (resolve_pointer libc ptr
          ∷ resolve_int libc (text "") size
          ∷ resolve_int libc (text "") nitems
          ∷ resolve_stream libc stream
          ∷ [])
        (libc.mismatched value)
    pure value

  unfoldable pub open_path_logged : ℕ → ℕ → ℕ → M (Logger L) ℕ
  unfolding call_from_libc log int_text resolve_int resolve_pointer
  open_path_logged pathname flags mode = do
    value ← call_from_libc open_path (pathname ∷ flags ∷ mode ∷ [])
    let ret = value % 2 ^ 32
    log open_path
        (resolve_pointer libc pathname
          ∷ resolve_int libc (text "flag") flags
          ∷ resolve_int libc (text "mode") mode
          ∷ [])
        (int_text ret)
    pure ret

  -- A function of C++, which a program does not call.
  unfoldable pub open64_logged : ℕ → ℕ → ℕ → M (Logger L) ℕ
  unfolding call_from_libc log int_text resolve_int resolve_pointer
  open64_logged pathname flags mode = do
    value ← call_from_libc open64 (pathname ∷ flags ∷ mode ∷ [])
    let ret = value % 2 ^ 32
    log open64
        (resolve_pointer libc pathname
          ∷ resolve_int libc (text "flag") flags
          ∷ resolve_int libc (text "mode") mode
          ∷ [])
        (int_text ret)
    pure ret

  unfoldable pub read_logged : ℕ → ℕ → ℕ → M (Logger L) ℕ
  unfolding call_from_libc log as_long int_text resolve_int resolve_pointer
  read_logged fd buf count = do
    value ← call_from_libc read (fd ∷ buf ∷ count ∷ [])
    let ret = value % 2 ^ 32
    log read
        (resolve_int libc (text "fd") fd
          ∷ resolve_pointer libc buf
          ∷ resolve_int libc (text "") count
          ∷ [])
        (int_text ret)
    pure (as_long ret)

  unfoldable pub rename_logged : ℕ → ℕ → M (Logger L) ℕ
  unfolding call_from_libc log int_text resolve_pointer
  rename_logged oldpath newpath = do
    value ← call_from_libc rename (oldpath ∷ newpath ∷ [])
    let ret = value % 2 ^ 32
    log rename (resolve_pointer libc oldpath ∷ resolve_pointer libc newpath ∷ []) (int_text ret)
    pure ret

  unfoldable pub tmpfile_logged : M (Logger L) ℕ
  unfolding call_from_libc log
  tmpfile_logged = do
    value ← call_from_libc tmpfile ([])
    log tmpfile ([]) (libc.mismatched value)
    pure value

  unfoldable pub tmpfile64_logged : M (Logger L) ℕ
  unfolding call_from_libc log
  tmpfile64_logged = do
    value ← call_from_libc tmpfile64 ([])
    log tmpfile64 ([]) (libc.mismatched value)
    pure value

  unfoldable pub write_logged : ℕ → ℕ → ℕ → M (Logger L) ℕ
  unfolding call_from_libc log as_long int_text resolve_int resolve_pointer
  write_logged fd buf count = do
    value ← call_from_libc write (fd ∷ buf ∷ count ∷ [])
    let ret = value % 2 ^ 32
    log write
        (resolve_int libc (text "fd") fd
          ∷ resolve_pointer libc buf
          ∷ resolve_int libc (text "") count
          ∷ [])
        (int_text ret)
    pure (as_long ret)
