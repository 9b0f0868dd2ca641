-- ===== src/Sdb/Memory/Session.antt =====
-- A sequence of `break` and `delete` (310551113_hw4/sdb.cpp) against a list of addresses.
use advanced_programming_in.Sdb.Memory.Edits.{after, after_all, Edit, handler, session, member}
use advanced_programming_in.Sdb.Memory.Edits.{IsSafe, AreSafe, addrs_of, has-member}
use advanced_programming_in.Sdb.Memory.Edits.{addrs_of-append, addrs_of-erase_at, length-addrs_of}
use advanced_programming_in.Sdb.Memory.Edits.{erase_at_beyond, apart_of, deletebreak_rejects}
use advanced_programming_in.Sdb.Memory.Edits.{past, set, delete}
use mathlib.Core.Path.{subst}
use advanced_programming_in.Base.{ℕ, ◌≡◌, ◌∙◌, refl, sym, ap, arith, inl, inr, Bool, false}
use advanced_programming_in.Base.{Bool-cases, ltb, none, List, [], ◌∷◌, ◌++◌, All, length}
use advanced_programming_in.Base.{erase_at, get_elem?_within, if◌then◌else◌}
use advanced_programming_in.Base.Text.{Text, strtoull_16, pos, negsuc}
use advanced_programming_in.Base.Word.{IsByte}
use advanced_programming_in.Sdb.Config.{Code, success, err_badbreakpoint, running}
use advanced_programming_in.Sdb.Code.Overlay.{has}
use advanced_programming_in.Sdb.Host.{Host, IsTracee}
use advanced_programming_in.Sdb.World.{World, done}
use advanced_programming_in.Sdb.Control.{too_large, out_of_text}
use advanced_programming_in.Sdb.Memory.Consistent.{IsApart, IsConsistent, IsArmed, IsArmedFor}
use advanced_programming_in.Sdb.Memory.Consistent.{IsTracked}
use advanced_programming_in.Sdb.Memory.Set.{with_break, setbreak_lem, setbreak_rejects}
use advanced_programming_in.Sdb.Memory.Delete.{without_break, deletebreak_lem}

module _ {K : Type 0} (host : Host K) (pid : ℕ) (byte : K → ℕ → ℕ) (mapped : ℕ → Bool)
    (orig : ℕ → ℕ) (outside : ℕ → Bool) where
  -- The debugger stands for the list: the same breakpoints, each in memory, and otherwise the
  -- program's own bytes.
  pub record Refines (w : World K) (addrs : List ℕ) : Type 0 where
    pub addresses : addrs_of w.conf.bps ≡ addrs
    pub consistent : IsConsistent orig mapped (byte w.kernel) w.conf.bps
    pub armed : IsArmed (byte w.kernel) w.conf.bps
    pub started : w.conf.status ≡ running
    pub unhit : w.conf.lid ≡ none
    pub child : w.conf.child ≡ pid
    pub text_range : (x : ℕ) → out_of_text w.conf x ≡ outside x

  told-Refines :
      (w : World K) (addrs : List ℕ) (out : List Text)
      → Refines w addrs
      → Refines (record w { out = out }) addrs
  told-Refines w addrs out r = record {
    addresses = r.addresses;
    consistent = r.consistent;
    armed = r.armed;
    started = r.started;
    unhit = r.unhit;
    child = r.child;
    text_range = r.text_range;
  }

  armed_for :
      (w : World K) (addrs : List ℕ)
      → Refines w addrs
      → IsArmedFor (byte w.kernel) w.conf.bps w.conf.lid
  armed_for w addrs r = subst (λ l. IsArmedFor (byte w.kernel) w.conf.bps l) (sym r.unhit) r.armed

  with_break-Refines :
      (w : World K) (addrs : List ℕ) (k : K) (a code : ℕ)
      → Refines w addrs
      → IsTracked orig mapped (byte k) (with_break w k a code).conf
      → Refines (with_break w k a code) (addrs ++ (a ∷ []))
  unfolding out_of_text
  with_break-Refines w addrs k a code r tracked = record {
    addresses = addrs_of-append w.conf.bps _ ∙ ap (λ t. t ++ (a ∷ [])) r.addresses;
    consistent = tracked.consistent;
    armed =
        subst (λ l. IsArmedFor (byte k) (with_break w k a code).conf.bps l) r.unhit tracked.armed;
    started = r.started;
    unhit = r.unhit;
    child = r.child;
    text_range = r.text_range;
  }

  without_break-Refines :
      (w : World K) (addrs : List ℕ) (k : K) (id : ℕ) (name : Text)
      → Refines w addrs
      → IsTracked orig mapped (byte k) (without_break w k id name).conf
      → Refines (without_break w k id name) (erase_at addrs id)
  unfolding out_of_text
  without_break-Refines w addrs k id name r tracked = record {
    addresses = addrs_of-erase_at w.conf.bps id ∙ ap (λ t. erase_at t id) r.addresses;
    consistent = tracked.consistent;
    armed =
        subst (λ l. IsArmedFor (byte k) (without_break w k id name).conf.bps l) r.unhit
          tracked.armed;
    started = r.started;
    unhit = r.unhit;
    child = r.child;
    text_range = r.text_range;
  }

  -- A command returns and leaves a debugger that stands for the list.
  abbrev Ends : Edit → World K → List ℕ → Type 0
  Ends e w addrs =
      (code : Code) × (w' : World K) × (handler host e w ≡ done code w') × Refines w' addrs

  module _ (tracee : IsTracee host pid byte mapped) (b : IsByte orig) where
    set-new :
        (addr : Text) (w : World K) (addrs : List ℕ)
        → Refines w addrs
        → IsSafe mapped (set addr) addrs
        → outside (strtoull_16 addr) ≡ false
        → has w.conf.bps (strtoull_16 addr) ≡ false
        → Ends (set addr) w (addrs ++ (strtoull_16 addr ∷ []))
    set-new addr w addrs r (fits, m, apart) inside absent =
        let a = strtoull_16 addr in
        let (k, e, bytes, tracked) =
          setbreak_lem host byte mapped orig w
            (subst (λ p. IsTracee host p byte mapped) (sym r.child) tracee) b r.consistent a fits m
            (apart_of w.conf.bps a (subst (λ t. All (λ x. IsApart a x) t) (sym r.addresses) apart))
            addr refl r.started (r.text_range a ∙ inside) absent (armed_for w addrs r) in
        (success, _, e, with_break-Refines w addrs k a _ r tracked)

    set-Ends :
        (addr : Text) (w : World K) (addrs : List ℕ)
        → Refines w addrs
        → IsSafe mapped (set addr) addrs
        → Ends (set addr) w (after outside (set addr) addrs)
    set-Ends addr w addrs r safe =
        let a = strtoull_16 addr in
        let same = has-member w.conf.bps a ∙ ap (λ t. member t a) r.addresses in
        elim (Bool-cases (outside a)) [
          | inl out ↦ rw out (
            err_badbreakpoint,
            _,
            (setbreak_rejects host addr w).1 r.started (r.text_range a ∙ out),
            told-Refines w addrs _ r,
          )
          | inr inside ↦ elim (Bool-cases (member addrs a)) [
            | inl present ↦
                let (out, e) =
                  (setbreak_rejects host addr w).2 r.started (r.text_range a ∙ inside)
                    (same ∙ present) in
                rw (inside, present) (err_badbreakpoint, _, e, told-Refines w addrs out r)
            | inr absent ↦ rw (inside, absent) (set-new addr w addrs r safe inside (same ∙ absent))
          ]
        ]

    delete-Ends :
        (name : Text) (w : World K) (addrs : List ℕ)
        → Refines w addrs
        → IsSafe mapped (delete name) addrs
        → Ends (delete name) w (after outside (delete name) addrs)
    delete-Ends name w addrs r (negsuc n, read, other) = rw read (
      err_badbreakpoint,
      _,
      deletebreak_rejects host name (negsuc n) w read (unfold too_large in refl) r.started,
      told-Refines w addrs _ r,
    )
    delete-Ends name w addrs r (pos id, read, other) =
        let count = sym (length-addrs_of w.conf.bps) ∙ ap length r.addresses in
        elim (Bool-cases (ltb id (length addrs))) [
          | inl within ↦
              let (bp, present) = get_elem?_within w.conf.bps id (ground (arith, count)) in
              let (k, e, bytes, tracked) =
                deletebreak_lem host byte mapped orig w
                  (subst (λ p. IsTracee host p byte mapped) (sym r.child) tracee) b r.consistent
                  r.armed id bp present name read r.started r.unhit in
              rw read (success, _, e, without_break-Refines w addrs k id name r tracked)
          | inr beyond ↦
              rw (read, erase_at_beyond addrs id (past id (length addrs) beyond other))
                (
                  err_badbreakpoint,
                  _,
                  deletebreak_rejects host name (pos id) w read
                      (unfold too_large in rw count (past id (length addrs) beyond other))
                      r.started,
                  told-Refines w addrs _ r,
                )
        ]

    handler-Ends :
        (e : Edit) (w : World K) (addrs : List ℕ)
        → Refines w addrs
        → IsSafe mapped e addrs
        → Ends e w (after outside e addrs)
    handler-Ends (set addr) w addrs r safe = set-Ends addr w addrs r safe
    handler-Ends (delete name) w addrs r safe = delete-Ends name w addrs r safe

    memory_of :
        (w : World K) (addrs : List ℕ)
        → Refines w addrs
        → (x : ℕ) → byte w.kernel x ≡ (if member addrs x then 0xcc else orig x)
    memory_of w addrs r x = ground (
      arith,
      has-member w.conf.bps x ∙ ap (λ t. member t x) r.addresses,
      r.armed x,
      r.consistent.genuine x,
    )

    -- While the program is stopped at no breakpoint, a sequence of `break` and `delete` commands, each
    -- safe in the list so far, returns and leaves a debugger that stands for the list that the abstract
    -- commands make: an address is appended, unless it is outside of the text segment or in the list;
    -- an element is erased by its number. Memory then holds 0xcc at the addresses of the list and the
    -- program's own bytes everywhere else, whatever was set and deleted in between.
    pub session-Refines :
        (es : List Edit) (w : World K) (addrs : List ℕ)
        → Refines w addrs
        → AreSafe outside mapped es addrs
        → (codes : List Code) × (w' : World K) × (session host es w ≡ done codes w')
          × Refines w' (after_all outside es addrs)
          × ((x : ℕ)
              → byte w'.kernel x ≡ (if member (after_all outside es addrs) x then 0xcc else orig x))
    unfolding session
    session-Refines [] w addrs r safe = ([], w, refl, r, memory_of w addrs r)
    session-Refines (e ∷ es) w addrs r safe =
        let (code, w₁, runs, r₁) = handler-Ends e w addrs r safe.0 in
        let (codes, w₂, rest, r₂, memory) =
          session-Refines es w₁ (after outside e addrs) r₁ safe.1 in
        (code ∷ codes, w₂, rw (runs, rest) refl, r₂, memory)
