-- ===== src/Sdb/Memory/Set.antt =====
-- `setbreak` (310551113_hw4/sdb.cpp) on each of its branches.
use advanced_programming_in.Base.{zero, none, get_elem?, Option, ℕ, ◌+◌, ◌^◌, ◌<◌, ◌≡◌, refl}
use advanced_programming_in.Base.{arith, suc, Bool-cases, inl, inr, Bool, true, false, some, List}
use advanced_programming_in.Base.{[], ◌∷◌, ◌++◌, All, All-append, ◌==◌, if◌then◌else◌, ◌||◌}
use advanced_programming_in.Base.Text.{Text, text, to_decimal, strtoull_16}
use advanced_programming_in.Base.Word.{word, IsByte, put}
use advanced_programming_in.Sdb.Config.{Breakpoint, Checked, success, err_badbreakpoint}
use advanced_programming_in.Sdb.Config.{err_wrongstatus, running, same_status}
use advanced_programming_in.Sdb.Code.Overlay.{has}
use advanced_programming_in.Sdb.Host.{Host, IsTracee}
use advanced_programming_in.Sdb.World.{World, done, debug, said, status_msg}
use advanced_programming_in.Sdb.Stops.{trap}
use advanced_programming_in.Sdb.Control.{setbreak, place, out_of_text, report_existing}
use advanced_programming_in.Sdb.Memory.Bytes.{bytes_at, IsOriginal, trap-word, poke_word}
use advanced_programming_in.Sdb.Memory.Consistent.{IsApart, IsApartFrom, IsConsistent, IsArmedFor}
use advanced_programming_in.Sdb.Memory.Consistent.{IsTracked, has-append, IsDistinct-append}
use advanced_programming_in.Sdb.Memory.Consistent.{alternate-genuine}

report_existing-absent :
    {K : Type 0} (bps : List Breakpoint) (id a : ℕ) (w : World K)
    → has bps a ≡ false
    → report_existing bps id a false w ≡ done false w
unfolding report_existing has
report_existing-absent [] id a w h = refl
report_existing-absent (bp ∷ bps) id a w h = ground (arith, report_existing-absent bps (suc id) a w)

-- Every matching breakpoint is reported, and nothing but the output changes.
report_existing-present :
    {K : Type 0} (bps : List Breakpoint) (id a : ℕ) (exist : Bool) (w : World K)
    → (out : List Text) × (report_existing bps id a exist w
        ≡ done (exist || has bps a) (record w { out = out }))
unfolding report_existing has debug
report_existing-present [] id a exist w = (w.out, ground arith)
report_existing-present (bp ∷ bps) id a exist w = elim (Bool-cases (bp.addr == a)) [
  | inl here ↦
      let msg =
        text "the breakpoint is already exists. (breakpoint " ++ to_decimal id ++ text ")" in
      let rest =
        report_existing-present bps (suc id) a true
          (record w { out = w.out ++ ((text "** " ++ msg) ∷ []) }) in
      (rest.0, ground (arith, rest.1))
  | inr elsewhere ↦
      let rest = report_existing-present bps (suc id) a exist w in (rest.0, ground (arith, rest.1))
]

-- The world after a new breakpoint.
abbrev pub with_break : {K : Type 0} → World K → K → ℕ → ℕ → World K
with_break w k a code = record w {
  kernel = k;
  conf = record w.conf { bps = w.conf.bps ++ (record { addr = a; code = code } ∷ []) };
}

get_elem?-append :
    (bps cps : List Breakpoint) (id : ℕ) (bp : Breakpoint)
    → get_elem? bps id ≡ some bp
    → get_elem? (bps ++ cps) id ≡ some bp
get_elem?-append [] cps id bp e = cc
get_elem?-append (x ∷ bps) cps zero bp e = e
get_elem?-append (x ∷ bps) cps (suc id) bp e = get_elem?-append bps cps id bp e

apart-extend :
    (bps cps : List Breakpoint) (a code : ℕ)
    → a < 2 ^ 64
    → IsApartFrom bps a
    → All (λ bp. IsApartFrom cps bp.addr) bps
    → All (λ bp. IsApartFrom (cps ++ (record { addr = a; code = code } ∷ [])) bp.addr) bps
apart-extend [] cps a code fits new old = tt
apart-extend (bp ∷ bps) cps a code fits new old = (
  All-append (λ b. IsApart bp.addr b.addr) cps _ old.0 (omega arith),
  apart-extend bps cps a code fits new.1 old.1,
)

module _ {K : Type 0} (host : Host K) (addr : Text) (w : World K) where
  -- In another status than RUNNING, outside of the text segment, and at an address that has a
  -- breakpoint, `setbreak` returns the error of that case and only the output changes; in the
  -- first two cases by one message.
  pub setbreak_rejects :
      (same_status w.conf.status running ≡ false
        → setbreak host addr w
          ≡ done err_wrongstatus (said (status_msg Checked.break w.conf.status) w))
      × (w.conf.status ≡ running
          → out_of_text w.conf (strtoull_16 addr) ≡ true
          → setbreak host addr w
            ≡ done err_badbreakpoint
                (said (text "the address is out of the range of the text segment") w))
      × (w.conf.status ≡ running
          → out_of_text w.conf (strtoull_16 addr) ≡ false
          → has w.conf.bps (strtoull_16 addr) ≡ true
          → (out : List Text) × (setbreak host addr w
              ≡ done err_badbreakpoint (record w { out = out })))
  unfolding setbreak place
  setbreak_rejects = (
    λ other. ground arith,
    λ started outside. ground arith,
    λ started inside present.
        let told = report_existing-present w.conf.bps 0 (strtoull_16 addr) false w in
        (told.0, ground (arith, told.1)),
  )

module _ {K : Type 0} (host : Host K) (byte : K → ℕ → ℕ) (mapped : ℕ → Bool) (orig : ℕ → ℕ)
    (w : World K) (tracee : IsTracee host w.conf.child byte mapped) (b : IsByte orig)
    (c : IsConsistent orig mapped (byte w.kernel) w.conf.bps) (a : ℕ) (fits : a < 2 ^ 64)
    (m : mapped a ≡ true) (apart : IsApartFrom w.conf.bps a) where
  abbrev new_breaks : List Breakpoint
  new_breaks = record { addr = a; code = word (bytes_at orig a) } ∷ []

  -- The memory and the breakpoints after a trap is written at `a`.
  extend-IsConsistent :
      (k : K)
      → has w.conf.bps a ≡ false
      → ((x : ℕ) → byte k x ≡ (if x == a then 0xcc else byte w.kernel x))
      → IsConsistent orig mapped (byte k) (w.conf.bps ++ new_breaks)
  unfolding has
  extend-IsConsistent k absent written = record {
    original = All-append (IsOriginal orig) w.conf.bps new_breaks c.original (refl, tt);
    genuine = λ x. ground (arith, written x, c.genuine x, has-append w.conf.bps new_breaks x);
    apart =
        All-append (λ bp. IsApartFrom (w.conf.bps ++ new_breaks) bp.addr) w.conf.bps new_breaks
          (apart-extend w.conf.bps w.conf.bps a (word (bytes_at orig a)) fits apart c.apart)
          (All-append (λ x. IsApart a x.addr) w.conf.bps new_breaks apart (omega arith), tt);
    distinct = IsDistinct-append w.conf.bps _ absent c.distinct;
    on_mapped = All-append (λ bp. mapped bp.addr ≡ true) w.conf.bps new_breaks c.on_mapped (m, tt);
  }

  trap_here :
      (k : K)
      → host.poke_text w.kernel w.conf.child a (trap (host.peek_text w.kernel w.conf.child a))
        ≡ some k
      → (x : ℕ) → byte k x ≡ (if x == a then 0xcc else byte w.kernel x)
  trap_here k e x =
      let here = bytes_at (byte w.kernel) a in
      let here_bytes : IsByte here = λ i. tracee.byte-lt w.kernel (a + i) in
      let poked = rw (tracee.peek_text-word w.kernel a, trap-word here here_bytes) at e in
      ground (
        arith,
        poke_word tracee w.kernel a (put 0 0xcc here) k (λ i. ground (arith, here_bytes i)) poked x,
      )

  place_lem :
      has w.conf.bps a ≡ false
      → (k : K) × (place host a w ≡ done success (with_break w k a (word (bytes_at orig a))))
        × ((x : ℕ) → byte k x ≡ (if x == a then 0xcc else byte w.kernel x))
  unfolding place
  place_lem absent =
      let (k, e) =
        tracee.poke_text-some w.kernel a (trap (host.peek_text w.kernel w.conf.child a)) m in
      (
        k,
        ground (
          arith,
          e,
          report_existing-absent w.conf.bps 0 a w absent,
          tracee.peek_text-word w.kernel a,
          alternate-genuine orig host.wide a w.conf.bps b apart (byte w.kernel)
              (tracee.byte-lt w.kernel) c.original c.genuine,
        ),
        trap_here k e,
      )

  extend-IsArmedFor :
      (k : K) (lid : Option ℕ)
      → ((x : ℕ) → byte k x ≡ (if x == a then 0xcc else byte w.kernel x))
      → IsArmedFor (byte w.kernel) w.conf.bps lid
      → IsArmedFor (byte k) (w.conf.bps ++ new_breaks) lid
  unfolding has
  extend-IsArmedFor k none written armed =
      λ x h. ground (arith, written x, has-append w.conf.bps new_breaks x, armed x)
  extend-IsArmedFor k (some id) written (bp, present, armed) = (
    bp,
    get_elem?-append w.conf.bps new_breaks id bp present,
    λ x h. ground (arith, written x, has-append w.conf.bps new_breaks x, armed x),
  )

  -- While the program runs and the invariant holds, for an address in the text segment that has no
  -- breakpoint, is mapped, below 2 ^ 64, and apart from the other breakpoints: the breakpoint is
  -- stored with the program's own word, its byte in memory becomes 0xcc, no other byte changes,
  -- and the invariant holds again.
  pub setbreak_lem :
      (addr : Text)
      → strtoull_16 addr ≡ a
      → w.conf.status ≡ running
      → out_of_text w.conf a ≡ false
      → has w.conf.bps a ≡ false
      → IsArmedFor (byte w.kernel) w.conf.bps w.conf.lid
      → (k : K) × (setbreak host addr w ≡ done success (with_break w k a (word (bytes_at orig a))))
        × ((x : ℕ) → byte k x ≡ (if x == a then 0xcc else byte w.kernel x))
        × IsTracked orig mapped (byte k) (with_break w k a (word (bytes_at orig a))).conf
  unfolding setbreak
  setbreak_lem addr read started inside absent armed =
      let placed = place_lem absent in
      (
        placed.0,
        ground (arith, placed.1),
        placed.2,
        record {
          consistent = extend-IsConsistent placed.0 absent placed.2;
          armed = extend-IsArmedFor placed.0 w.conf.lid placed.2 armed;
        },
      )
