-- ===== src/Normalizer/Port.antt =====
-- The port at the end of a host.
use rkn_checker.Prelude.{
  ◌≡◌, refl, true, false, [], ◌∷◌, ◌++◌, none, some, arith, All, length, ◌==◌, drop-append,
  take-append,
}
use rkn_checker.Text.{Bytes, bytes, is_empty, contains, has_prefix}
use rkn_checker.Normalizer.{last_index, all_digits, is_port, remove_port}

-- A text without a colon.
abbrev pub HasNoColon : Bytes → Type 0
HasNoColon s = All (λ c. (c == b':') ≡ false) s

digits-HasNoColon : (s : Bytes) → all_digits s ≡ true → HasNoColon s
unfolding all_digits
digits-HasNoColon [] h = tt
digits-HasNoColon (c ∷ s) h = (ground arith, digits-HasNoColon s (ground arith))

last_index-HasNoColon : (s : Bytes) → HasNoColon s → last_index b':' s ≡ none
unfolding last_index
last_index-HasNoColon [] h = refl
last_index-HasNoColon (c ∷ s) h = rw (last_index-HasNoColon s h.1, h.0) refl

last_index-append :
    (s t : Bytes) → HasNoColon t → last_index b':' (s ++ (b':' ∷ t)) ≡ some (length s)
unfolding last_index
last_index-append [] t h = rw (last_index-HasNoColon t h) refl
last_index-append (c ∷ s) t h = rw (last_index-append s t h) refl

contains-colon : (s t : Bytes) → contains (s ++ (b':' ∷ t)) (bytes ":") ≡ true
unfolding contains has_prefix
contains-colon [] t = refl
contains-colon (c ∷ s) t = ground (arith, contains-colon s t)

no_double : (s : Bytes) → HasNoColon s → contains s (bytes "::") ≡ false
unfolding contains has_prefix
no_double [] h = refl
no_double (c ∷ s) h = rw (h.0, no_double s h.1) refl

one_colon :
    (s t : Bytes) → HasNoColon s → HasNoColon t → contains (s ++ (b':' ∷ t)) (bytes "::") ≡ false
unfolding contains has_prefix
one_colon [] [] hs ht = refl
one_colon [] (d ∷ t) hs ht = rw (ht.0, no_double t ht.1) refl
one_colon (c ∷ s) t hs ht = rw (hs.0, one_colon s t hs.1 ht) refl

is_port-digits :
    (digits : Bytes)
    → is_empty digits ≡ false
    → all_digits digits ≡ true
    → is_port (b':' ∷ digits) ≡ true
unfolding is_port
is_port-digits digits some_digit numeric = rw (some_digit, numeric) refl

-- A host without a colon comes back from its text with a port: removePort takes off the colon and
-- the digits after it, of which there is at least one.
pub remove_port-append :
    (host digits : Bytes)
    → HasNoColon host
    → is_empty digits ≡ false
    → all_digits digits ≡ true
    → remove_port (host ++ (b':' ∷ digits)) ≡ host
unfolding remove_port
remove_port-append host digits plain some_digit numeric =
    rw
      (
        contains-colon host digits,
        one_colon host digits plain (digits-HasNoColon digits numeric),
        last_index-append host digits (digits-HasNoColon digits numeric),
      )
      (rw
        (
          drop-append host (b':' ∷ digits),
          is_port-digits digits some_digit numeric,
          take-append host (b':' ∷ digits),
        )
        refl)
