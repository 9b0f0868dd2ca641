-- ===== src/Logger/Resolve/Quoted.antt =====
-- What `quote` of 310551113_hw2/utils.hpp makes of a text.
use advanced_programming_in.Base.{◌+◌, ◌≡◌, refl, arith, true, [], ◌∷◌, ◌++◌, All, All-append}
use advanced_programming_in.Base.{length, length-append}
use advanced_programming_in.Base.Text.{Text, is_print}
use advanced_programming_in.Logger.Resolve.{clean, quote}

clean-printable : (s : Text) → All (λ c. is_print c ≡ true) (clean s)
unfolding clean is_print
clean-printable [] = tt
clean-printable (c ∷ s) = (ground arith, clean-printable s)

length-clean : (s : Text) → length (clean s) ≡ length s
unfolding clean
length-clean [] = refl
length-clean (c ∷ s) = omega (arith, length-clean s)

clean_same : (s : Text) → All (λ c. is_print c ≡ true) s → clean s ≡ s
unfolding clean
clean_same [] h = refl
clean_same (c ∷ s) h = ground (arith, clean_same s h.1)

-- What is quoted is printable throughout and two characters longer than the text; a text that is
-- printable throughout stands in it as it is.
pub quote-printable :
    (s : Text)
    → All (λ c. is_print c ≡ true) (quote s)
      × (length (quote s) ≡ length s + 2)
      × (All (λ c. is_print c ≡ true) s → quote s ≡ b'"' ∷ (s ++ (b'"' ∷ [])))
unfolding quote is_print
quote-printable s = (
  (refl, All-append (λ c. is_print c ≡ true) (clean s) (b'"' ∷ []) (clean-printable s) (refl, tt)),
  omega (arith, length-append (clean s) (b'"' ∷ []), length-clean s),
  λ h. rw (clean_same s h) refl,
)
