-- ===== src/Logger/Calls/Returned.antt =====
-- What a logged function (310551113_hw2/lib.cpp) returns.
use advanced_programming_in.Logger.Functions.{type_of, first_of, Logger}
use advanced_programming_in.Base.{ℕ, ◌%◌, ◌^◌, ◌≡◌, ◌∙◌, refl, ap, Option, some, List, [], ◌∷◌}
use advanced_programming_in.Base.Word.{as_long}
use advanced_programming_in.Base.Text.{Text, text, int_text}
use advanced_programming_in.Logger.Resolve.{Name, Libc, pure, resolve_pointer, resolve_stream}
use advanced_programming_in.Logger.Resolve.{resolve_int, chmod, chown, close, creat, fclose}
use advanced_programming_in.Logger.Resolve.{fopen, fread, fwrite, open_path, read, rename}
use advanced_programming_in.Logger.Resolve.{tmpfile, tmpfile64, write}
use advanced_programming_in.Logger.Resolve.Shown.{Looks, resolve_pointer-IsShown}
use advanced_programming_in.Logger.Resolve.Shown.{resolve_stream-IsShown, resolve_int-IsShown}
use advanced_programming_in.Logger.Calls.{chmod_logged, chown_logged, close_logged, creat_logged}
use advanced_programming_in.Logger.Calls.{fclose_logged, fopen_logged, fread_logged}
use advanced_programming_in.Logger.Calls.{fwrite_logged, open_path_logged, read_logged}
use advanced_programming_in.Logger.Calls.{rename_logged, tmpfile_logged, tmpfile64_logged}
use advanced_programming_in.Logger.Calls.{write_logged}
use advanced_programming_in.Logger.Calls.Request.{Request, name_of, args_of, perform, call_chmod}
use advanced_programming_in.Logger.Calls.Request.{call_chown, call_close, call_creat, call_fclose}
use advanced_programming_in.Logger.Calls.Request.{call_fopen, call_fread, call_fwrite}
use advanced_programming_in.Logger.Calls.Request.{call_open_path, call_read, call_rename}
use advanced_programming_in.Logger.Calls.Request.{call_tmpfile, call_tmpfile64, call_write}
use advanced_programming_in.Logger.Calls.Transparent.{Acts, returned}
use advanced_programming_in.Logger.Calls.Performed.{Performed, calls_and_logs}
use advanced_programming_in.Logger.Calls.Readable.{IsReadable}

module _ {L V : Type 0} (libc : Libc L) (view : L → V) (strings : V → ℕ → Option Text)
    (streams : V → ℕ → Option ℕ) (looks : Looks libc view strings streams)
    (spec : V → Name → List ℕ → ℕ × V) (acts : Acts libc view spec) where
  -- A logged function, whose instance holds `g`, returns what it makes of the number from `g`.
  pub perform-returned :
      (r : Request) (g : Name) (s : Logger L)
      → first_of (s.statics (type_of (name_of r))) (name_of r) ≡ g
      → IsReadable strings streams r (view s.process) (spec (view s.process) g (args_of r)).1
      → (s' : Logger L) × (perform libc r s
          ≡ some (returned (name_of r) (spec (view s.process) g (args_of r)).0, s'))
        × Performed libc view strings streams looks spec acts (name_of r) g (args_of r) s s'
  unfolding chmod_logged chown_logged close_logged creat_logged fclose_logged fopen_logged
      fread_logged fwrite_logged open_path_logged read_logged rename_logged tmpfile_logged
      tmpfile64_logged write_logged
  perform-returned (call_chmod pathname mode) g s own h =
      calls_and_logs libc view strings streams looks spec acts chmod g (pathname ∷ mode ∷ [])
        (resolve_pointer libc pathname ∷ resolve_int libc (text "mode") mode ∷ [])
        (λ value. value % 2 ^ 32) (λ value. int_text (value % 2 ^ 32)) s own
        (
          resolve_pointer-IsShown libc view strings streams looks _ pathname h,
          (resolve_int-IsShown libc view strings streams looks _ (text "mode") mode, tt),
        )
  perform-returned (call_chown pathname owner group) g s own h =
      calls_and_logs libc view strings streams looks spec acts chown g
        (pathname ∷ owner ∷ group ∷ [])
        (resolve_pointer libc pathname
          ∷ resolve_int libc (text "") owner
          ∷ resolve_int libc (text "") group
          ∷ [])
        (λ value. value % 2 ^ 32) (λ value. int_text (value % 2 ^ 32)) s own
        (
          resolve_pointer-IsShown libc view strings streams looks _ pathname h,
          (
            resolve_int-IsShown libc view strings streams looks _ (text "") owner,
            (resolve_int-IsShown libc view strings streams looks _ (text "") group, tt),
          ),
        )
  perform-returned (call_close fd) g s own h =
      calls_and_logs libc view strings streams looks spec acts close g (fd ∷ [])
        (resolve_int libc (text "fd") fd ∷ []) (λ value. value % 2 ^ 32)
        (λ value. int_text (value % 2 ^ 32)) s own
        (resolve_int-IsShown libc view strings streams looks _ (text "fd") fd, tt)
  perform-returned (call_creat path mode) g s own h =
      calls_and_logs libc view strings streams looks spec acts creat g (path ∷ mode ∷ [])
        (resolve_pointer libc path ∷ resolve_int libc (text "mode") mode ∷ [])
        (λ value. value % 2 ^ 32) (λ value. int_text (value % 2 ^ 32)) s own
        (
          resolve_pointer-IsShown libc view strings streams looks _ path h,
          (resolve_int-IsShown libc view strings streams looks _ (text "mode") mode, tt),
        )
  perform-returned (call_fopen pathname mode) g s own h =
      calls_and_logs libc view strings streams looks spec acts fopen g (pathname ∷ mode ∷ [])
        (resolve_pointer libc pathname ∷ resolve_pointer libc mode ∷ []) (λ value. value)
        libc.pointer s own
        (
          resolve_pointer-IsShown libc view strings streams looks _ pathname h.0,
          (resolve_pointer-IsShown libc view strings streams looks _ mode h.1, tt),
        )
  perform-returned (call_fread ptr size nmemb stream) g s own h =
      calls_and_logs libc view strings streams looks spec acts fread g
        (ptr ∷ size ∷ nmemb ∷ stream ∷ [])
        (resolve_pointer libc ptr
          ∷ resolve_int libc (text "") size
          ∷ resolve_int libc (text "") nmemb
          ∷ resolve_stream libc stream
          ∷ [])
        (λ value. value) libc.mismatched s own
        (
          resolve_pointer-IsShown libc view strings streams looks _ ptr h.0,
          (
            resolve_int-IsShown libc view strings streams looks _ (text "") size,
            (
              resolve_int-IsShown libc view strings streams looks _ (text "") nmemb,
              (resolve_stream-IsShown libc view strings streams looks _ stream h.1, tt),
            ),
          ),
        )
  perform-returned (call_fwrite ptr size nitems stream) g s own h =
      calls_and_logs libc view strings streams looks spec acts fwrite g
        (ptr ∷ size ∷ nitems ∷ stream ∷ [])
        (resolve_pointer libc ptr
          ∷ resolve_int libc (text "") size
          ∷ resolve_int libc (text "") nitems
          ∷ resolve_stream libc stream
          ∷ [])
        (λ value. value) libc.mismatched s own
        (
          resolve_pointer-IsShown libc view strings streams looks _ ptr h.0,
          (
            resolve_int-IsShown libc view strings streams looks _ (text "") size,
            (
              resolve_int-IsShown libc view strings streams looks _ (text "") nitems,
              (resolve_stream-IsShown libc view strings streams looks _ stream h.1, tt),
            ),
          ),
        )
  perform-returned (call_open_path pathname flags mode) g s own h =
      calls_and_logs libc view strings streams looks spec acts open_path g
        (pathname ∷ flags ∷ mode ∷ [])
        (resolve_pointer libc pathname
          ∷ resolve_int libc (text "flag") flags
          ∷ resolve_int libc (text "mode") mode
          ∷ [])
        (λ value. value % 2 ^ 32) (λ value. int_text (value % 2 ^ 32)) s own
        (
          resolve_pointer-IsShown libc view strings streams looks _ pathname h,
          (
            resolve_int-IsShown libc view strings streams looks _ (text "flag") flags,
            (resolve_int-IsShown libc view strings streams looks _ (text "mode") mode, tt),
          ),
        )
  perform-returned (call_read fd buf count) g s own h =
      calls_and_logs libc view strings streams looks spec acts read g (fd ∷ buf ∷ count ∷ [])
        (resolve_int libc (text "fd") fd
          ∷ resolve_pointer libc buf
          ∷ resolve_int libc (text "") count
          ∷ [])
        (λ value. as_long (value % 2 ^ 32)) (λ value. int_text (value % 2 ^ 32)) s own
        (
          resolve_int-IsShown libc view strings streams looks _ (text "fd") fd,
          (
            resolve_pointer-IsShown libc view strings streams looks _ buf h,
            (resolve_int-IsShown libc view strings streams looks _ (text "") count, tt),
          ),
        )
  perform-returned (call_rename oldpath newpath) g s own h =
      calls_and_logs libc view strings streams looks spec acts rename g (oldpath ∷ newpath ∷ [])
        (resolve_pointer libc oldpath ∷ resolve_pointer libc newpath ∷ []) (λ value. value % 2 ^ 32)
        (λ value. int_text (value % 2 ^ 32)) s own
        (
          resolve_pointer-IsShown libc view strings streams looks _ oldpath h.0,
          (resolve_pointer-IsShown libc view strings streams looks _ newpath h.1, tt),
        )
  perform-returned call_tmpfile g s own h =
      calls_and_logs libc view strings streams looks spec acts tmpfile g ([]) ([]) (λ value. value)
        libc.mismatched s own tt
  perform-returned call_tmpfile64 g s own h =
      calls_and_logs libc view strings streams looks spec acts tmpfile64 g ([]) ([])
        (λ value. value) libc.mismatched s own tt
  perform-returned (call_write fd buf count) g s own h =
      calls_and_logs libc view strings streams looks spec acts write g (fd ∷ buf ∷ count ∷ [])
        (resolve_int libc (text "fd") fd
          ∷ resolve_pointer libc buf
          ∷ resolve_int libc (text "") count
          ∷ [])
        (λ value. as_long (value % 2 ^ 32)) (λ value. int_text (value % 2 ^ 32)) s own
        (
          resolve_int-IsShown libc view strings streams looks _ (text "fd") fd,
          (
            resolve_pointer-IsShown libc view strings streams looks _ buf h,
            (resolve_int-IsShown libc view strings streams looks _ (text "") count, tt),
          ),
        )
  perform-returned (call_fclose stream) g s own h =
      let (t, l, shown, same) =
        resolve_stream-IsShown libc view strings streams looks (view s.process) stream h s.process
          refl in
      let closing : Logger L = record s { process = l } in
      let (s', e, p) =
        calls_and_logs libc view strings streams looks spec acts fclose g (stream ∷ [])
          (pure t ∷ []) (λ value. value % 2 ^ 32) (λ value. int_text (value % 2 ^ 32)) closing own
          ((λ l same. (t, l, refl, same)), tt) in
      (
        s',
        rw shown e ∙ ap (λ v. some ((spec v g (stream ∷ [])).0 % 2 ^ 32, s')) same,
        record {
          view_next = p.view_next ∙ ap (λ v. (spec v g (stream ∷ [])).1) same;
          statics_set = p.statics_set;
          line_named = p.line_named;
        },
      )
