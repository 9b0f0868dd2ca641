-- ===== src/Sdb/Inspect/Maps.antt =====
-- `vmmap` and `padzero` of 310551113_hw4/sdb.cpp.
use advanced_programming_in.Base.{ℕ, zero, suc, ltb, ◌==◌, if◌then◌else◌, length, Option, none}
use advanced_programming_in.Base.{some, List, [], ◌∷◌, ◌++◌}
use advanced_programming_in.Base.Text.{Text, text, tokens, to_hex, strtoull_16, pad_left}
use advanced_programming_in.Base.Text.{pad_right}
use advanced_programming_in.Sdb.Config.{Code, success, err_wrongstatus, Checked}
use advanced_programming_in.Sdb.Host.{Host}
use advanced_programming_in.Sdb.World.{M, aborted, undefined_behaviour, pure, ◌>>=◌, ◌>>◌, state}
use advanced_programming_in.Sdb.World.{writemsg, checkstatus}

-- `s.insert(s.begin(), 16 - s.length(), '0')`: with more than 16 characters the count wraps
-- around and the library throws.
unfoldable pub padzero : Text → Option Text
unfolding pad_left
padzero s = if ltb 16 (length s) then none else some (pad_left 16 b'0' s)

-- The word that `ss >>` reads at a place, and nothing once the line is used up.
unfoldable pub word_at : List Text → ℕ → Text
word_at [] i = []
word_at (t ∷ ts) zero = t
word_at (t ∷ ts) (suc i) = word_at ts i

-- What stands before and after the first `-`; both are the whole if there is none.
unfoldable pub before_dash : Text → Text
before_dash [] = []
before_dash (c ∷ s) = let rest = before_dash s in if c == b'-' then [] else c ∷ rest

unfoldable pub after_dash : Text → Option Text
after_dash [] = none
after_dash (c ∷ s) = let rest = after_dash s in if c == b'-' then some s else rest

unfoldable pub split_address : Text → Text × Text
unfolding before_dash after_dash
split_address s = elim (after_dash s) [ none ↦ (s, s) | some end ↦ (before_dash s, end) ]

-- `perms.substr(0, perms.size() - 1)`
unfoldable pub drop_last : Text → Text
drop_last [] = []
drop_last (c ∷ []) = []
drop_last (c ∷ d ∷ s) = c ∷ drop_last (d ∷ s)

-- "%s-%s %s %-8llx\t%s"
unfoldable pub map_line : Text → Text → List Text → Text
unfolding word_at drop_last
map_line begin end words =
    begin
    ++ text "-"
    ++ end
    ++ text " "
    ++ drop_last (word_at words 1)
    ++ text " "
    ++ pad_right 8 (to_hex (strtoull_16 (word_at words 2)))
    ++ text "\t"
    ++ word_at words 5

module _ {K : Type 0} (host : Host K) where
  -- `sprintf` writes at most 1023 characters and the end mark into its buffer.
  unfoldable pub print_maps : List Text → M K Code
  unfolding writemsg padzero split_address map_line
  print_maps [] = pure success
  print_maps (line ∷ lines) =
      let words = tokens line in
      let (begin, end) = split_address (word_at words 0) in
      elim (padzero begin) [
        | none ↦ λ w. aborted
        | some low ↦ elim (padzero end) [
          | none ↦ λ w. aborted
          | some high ↦
              let buf = map_line low high words in
              if ltb 1023 (length buf)
              then (λ w. undefined_behaviour)
              else (do writemsg buf; print_maps lines)
        ]
      ]

  unfoldable pub vmmap : M K Code
  unfolding checkstatus print_maps
  vmmap = do
    ok ← checkstatus Checked.vmmap
    w ← state
    if ok then print_maps (host.maps w.kernel w.conf.child) else pure err_wrongstatus
