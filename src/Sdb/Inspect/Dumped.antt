-- ===== src/Sdb/Inspect/Dumped.antt =====
-- The lines that `dump` of 310551113_hw4/sdb.cpp prints.
use mathlib.Core.Path.{subst}
use mathlib.Core.List.{append-nil, append_assoc}
use advanced_programming_in.Base.{ℕ, zero, suc, ◌+◌, ◌*◌, ◌%◌, ◌^◌, ◌<◌, ◌≡◌, refl, sym, arith}
use advanced_programming_in.Base.{Bool, true, List, [], ◌∷◌, ◌++◌, ◌∙◌, ap, if◌then◌else◌}
use advanced_programming_in.Base.Text.{Text, text, strtoull_16, hex_byte, is_print}
use advanced_programming_in.Base.Word.{IsByte}
use advanced_programming_in.Sdb.Config.{success, running, same_status}
use advanced_programming_in.Sdb.Host.{Host, IsTracee}
use advanced_programming_in.Sdb.World.{World, done, hexify, writemsg}
use advanced_programming_in.Sdb.Inspect.{shown_word, bytes_of, spaced_hex, printable, dump_rounds}
use advanced_programming_in.Sdb.Inspect.{dump}
use advanced_programming_in.Sdb.Memory.Bytes.{bytes_at, IsGenuine}
use advanced_programming_in.Sdb.Memory.Consistent.{IsApartFrom}
use advanced_programming_in.Sdb.Inspect.Shown.{shown, listed, ReadsClear, shown_word-shown}
use advanced_programming_in.Sdb.Inspect.Shown.{bytes_of-word, shown-IsByte}

-- The line of sixteen bytes at an address: as numbers, and as characters.
abbrev pub dump_line : ℕ → (ℕ → ℕ) → Text
dump_line a f =
    text "\t"
    ++ hexify a
    ++ text ":"
    ++ spaced_hex (listed 16 (bytes_at f a))
    ++ text " |"
    ++ printable (listed 16 (bytes_at f a))
    ++ text "|"

abbrev pub dump_lines : ℕ → ℕ → (ℕ → ℕ) → List Text
dump_lines zero a f = []
dump_lines (suc n) a f = dump_line a f ∷ dump_lines n (a + 16) f

-- Two rounds for each line.
abbrev rounds_of : ℕ → ℕ
rounds_of zero = zero
rounds_of (suc n) = suc (suc (rounds_of n))

spaced_hex-append : (bs cs : List ℕ) → spaced_hex (bs ++ cs) ≡ spaced_hex bs ++ spaced_hex cs
unfolding spaced_hex
spaced_hex-append [] cs = refl
spaced_hex-append (b ∷ bs) cs =
    ap (λ t. 32 ∷ (hex_byte b ++ t)) (spaced_hex-append bs cs) ∙ rw append_assoc refl

printable-append : (bs cs : List ℕ) → printable (bs ++ cs) ≡ printable bs ++ printable cs
unfolding printable
printable-append [] cs = refl
printable-append (b ∷ bs) cs =
    ap (λ t. (if is_print b then b else b'.') ∷ t) (printable-append bs cs)

listed_sixteen :
    (f : ℕ → ℕ) (a : ℕ)
    → listed 16 (bytes_at f a) ≡ listed 8 (bytes_at f a) ++ listed 8 (bytes_at f (a + 8))
listed_sixteen f a i =
    f (a + 0)
    ∷ f (a + 1)
    ∷ f (a + 2)
    ∷ f (a + 3)
    ∷ f (a + 4)
    ∷ f (a + 5)
    ∷ f (a + 6)
    ∷ f (a + 7)
    ∷ f (q 0 i)
    ∷ f (q 1 i)
    ∷ f (q 2 i)
    ∷ f (q 3 i)
    ∷ f (q 4 i)
    ∷ f (q 5 i)
    ∷ f (q 6 i)
    ∷ f (q 7 i)
    ∷ []
  where
    q : (k : ℕ) → a + (8 + k) ≡ a + 8 + k
    q k = omega arith

-- A line as it is gathered, a word at a time.
abbrev gathered : Text → List ℕ → List ℕ → Text
gathered start x y =
    start ++ spaced_hex x ++ spaced_hex y ++ text " |" ++ (printable x ++ printable y) ++ text "|"

gathered-line :
    (start : Text) (x y : List ℕ)
    → gathered start x y
      ≡ start ++ spaced_hex (x ++ y) ++ text " |" ++ printable (x ++ y) ++ text "|"
gathered-line start x y =
    rw (spaced_hex-append x y, printable-append x y)
      (ap (λ t. t ++ text " |" ++ (printable x ++ printable y) ++ text "|")
        (append_assoc start (spaced_hex x) (spaced_hex y)))

module _ {K : Type 0} (host : Host K) (byte : K → ℕ → ℕ) (mapped : ℕ → Bool) (orig : ℕ → ℕ)
    (b : IsByte orig) where
  line_lem :
      (w : World K) (tracee : IsTracee host w.conf.child byte mapped)
      → IsGenuine orig (byte w.kernel) w.conf.bps
      → (a : ℕ) → IsApartFrom w.conf.bps a
      → IsApartFrom w.conf.bps (a + 8)
      → gathered
          (text "\t" ++ hexify a ++ text ":")
          (bytes_of (shown_word host w a))
          (bytes_of (shown_word host w (a + 8)))
        ≡ dump_line a (shown orig w.conf.bps)
  line_lem w tracee g a here there =
      let f = shown orig w.conf.bps in
      let first : bytes_of (shown_word host w a) ≡ listed 8 (bytes_at f a) =
        ap bytes_of (shown_word-shown host byte mapped orig w tracee b g a here)
        ∙ bytes_of-word (bytes_at f a) (λ i. shown-IsByte orig w.conf.bps b (a + i)) in
      let second : bytes_of (shown_word host w (a + 8)) ≡ listed 8 (bytes_at f (a + 8)) =
        ap bytes_of (shown_word-shown host byte mapped orig w tracee b g (a + 8) there)
        ∙ bytes_of-word (bytes_at f (a + 8)) (λ i. shown-IsByte orig w.conf.bps b (a + 8 + i)) in
      gathered-line (text "\t" ++ hexify a ++ text ":") _ _
      ∙ ap
          (λ l.
            text "\t"
            ++ hexify a
            ++ text ":"
            ++ spaced_hex l
            ++ text " |"
            ++ printable l
            ++ text "|")
          ((λ i. first i ++ second i) ∙ sym (listed_sixteen f a))

  -- Two rounds print a line and go on.
  two_rounds :
      (r a : ℕ) (layout ascii : Text) (w : World K)
      → (layout' : Text) × (ascii' : Text) × (dump_rounds host (suc (suc r)) a true layout ascii w
          ≡ dump_rounds host r (((a + 8) % 2 ^ 64 + 8) % 2 ^ 64) true layout' ascii' (record w {
            out =
                w.out
                ++ (gathered
                      (text "\t" ++ hexify a ++ text ":")
                      (bytes_of (shown_word host w a))
                      (bytes_of (shown_word host w ((a + 8) % 2 ^ 64)))
                    ∷ []);
          }))
  unfolding dump_rounds writemsg
  two_rounds r a layout ascii w = (_, _, refl)

  no_rounds :
      (a : ℕ) (layout ascii : Text) (w : World K)
      → dump_rounds host 0 a true layout ascii w ≡ done success w
  unfolding dump_rounds
  no_rounds a layout ascii w = refl

  dump_rounds-lines :
      (n a : ℕ) (layout ascii : Text) (w : World K)
      (tracee : IsTracee host w.conf.child byte mapped)
      → IsGenuine orig (byte w.kernel) w.conf.bps
      → a + 16 * n < 2 ^ 64
      → ReadsClear w.conf.bps (rounds_of n) a
      → dump_rounds host (rounds_of n) a true layout ascii w
        ≡ done success (record w { out = w.out ++ dump_lines n a (shown orig w.conf.bps) })
  dump_rounds-lines zero a layout ascii w tracee g fits clear =
      no_rounds a layout ascii w ∙ rw append-nil refl
  dump_rounds-lines (suc n) a layout ascii w tracee g fits (here, (there, clear)) =
      let next : (a + 8) % 2 ^ 64 ≡ a + 8 = omega arith in
      let after : (a + 8 + 8) % 2 ^ 64 ≡ a + 16 = omega arith in
      let line = dump_line a (shown orig w.conf.bps) in
      let (layout', ascii', two) = two_rounds (rounds_of n) a layout ascii w in
      two
      ∙ rw (next, after, line_lem w tracee g a here there)
          (dump_rounds-lines n (a + 16) layout' ascii' (record w { out = w.out ++ (line ∷ []) })
              tracee g (omega arith)
              (subst (ReadsClear w.conf.bps (rounds_of n)) (omega arith) clear)
            ∙ ap (λ o. done success (record w { out = o }))
                (append_assoc w.out (line ∷ []) (dump_lines n (a + 16) (shown orig w.conf.bps))))

  dump_running :
      (addr : Text) (w : World K)
      → w.conf.status ≡ running
      → dump host addr w ≡ dump_rounds host 10 (strtoull_16 addr) true [] [] w
  unfolding dump
  dump_running addr w started =
      let same : same_status w.conf.status running ≡ true = rw started refl in rw same refl

  -- While the program runs, with memory the program's own code with 0xcc at some of the breakpoints,
  -- and eighty addresses that end below 2 ^ 64 and whose words are less than 2 ^ 31 away from the
  -- breakpoints and not exactly 7 below one: `dump` prints five lines, each with its address and the
  -- sixteen bytes there, as numbers and as characters; the bytes are the program's own with 0xcc at
  -- every breakpoint, and nothing but the output changes.
  pub dump_lem :
      (addr : Text) (a : ℕ) (w : World K)
      → IsTracee host w.conf.child byte mapped
      → IsGenuine orig (byte w.kernel) w.conf.bps
      → strtoull_16 addr ≡ a
      → w.conf.status ≡ running
      → a + 80 < 2 ^ 64
      → ReadsClear w.conf.bps 10 a
      → dump host addr w
        ≡ done success (record w { out = w.out ++ dump_lines 5 a (shown orig w.conf.bps) })
  dump_lem addr a w tracee g read started fits clear =
      dump_running addr w started
      ∙ ap (λ x. dump_rounds host 10 x true [] [] w) read
      ∙ dump_rounds-lines 5 a [] [] w tracee g fits clear
