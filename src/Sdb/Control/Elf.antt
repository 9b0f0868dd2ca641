-- ===== src/Sdb/Control/Elf.antt =====
-- `elfinfo` of 310551113_hw4/sdb.cpp: the entry point, and the size of the section that starts
-- there. The offsets and sizes of the fields are those of <elf.h>.
use advanced_programming_in.Base.{ℕ, zero, suc, ◌+◌, ◌^◌, ltb, ◌==◌, if◌then◌else◌, length}
use advanced_programming_in.Base.{get_elem?, none, some, List, ◌++◌}
use advanced_programming_in.Base.Text.{text}
use advanced_programming_in.Base.Word.{word_of}
use advanced_programming_in.Sdb.Config.{Code, success, err_nofile}
use advanced_programming_in.Sdb.Host.{Host}
use advanced_programming_in.Sdb.World.{M, pure, ◌>>=◌, ◌>>◌, state, set_config, errquit, debug}

unfoldable pub byte_at : List ℕ → ℕ → ℕ
byte_at file i = elim (get_elem? file i) [ none ↦ 0 | some b ↦ b ]

-- `n` bytes at an offset, lowest first.
unfoldable pub field : List ℕ → ℕ → ℕ → ℕ
unfolding byte_at word_of
field file offset n = word_of n (λ i. byte_at file (offset + i))

pub data Scan : Type 0 where
  found : ℕ → ℕ → Scan
  not_found short_read : Scan

-- The loop over the section headers: `left` of them, of 64 bytes each, from `pos` on.
unfoldable pub scan_sections : List ℕ → ℕ → ℕ → ℕ → Scan
unfolding field
scan_sections file entry zero pos = not_found
scan_sections file entry (suc left) pos =
    let sh_addr = field file (pos + 16) 8 in
    let sh_size = field file (pos + 32) 8 in
    let rest = scan_sections file entry left (pos + 64) in
    if ltb (length file) (pos + 64)
    then short_read
    else if sh_addr == entry
    then found sh_addr sh_size
    else rest

-- `fseek` to the section headers takes a signed offset: below 0 it fails, and reading goes on behind
-- the header of the file.
unfoldable pub headers_at : ℕ → ℕ
headers_at e_shoff = if ltb e_shoff (2 ^ 63) then e_shoff else 64

module _ {K : Type 0} (host : Host K) where
  unfoldable pub elfinfo : M K Code
  unfolding scan_sections headers_at debug
  elfinfo = do
    w ← state
    elim (host.read_file w.kernel w.conf.program) [
      | none ↦ do debug (w.conf.program ++ text ": No such file or directory."); pure err_nofile
      | some file ↦
          if ltb (length file) 64
          then errquit
          else elim (scan_sections file (field file 24 8) (field file 60 2)
              (headers_at (field file 40 8))) [
                | short_read ↦ errquit
                | not_found ↦ pure success
                | found addr size ↦ do
                  set_config (λ c. record c { entrypoint = addr; textsize = size })
                  pure success
              ]
    ]
