-- ===== src/Text/Laws.antt =====
-- Equality and prefixes of strings.
use mathlib.Core.List.{append-nil}
use rkn_checker.Prelude.{
  Bool, sym, ap, ◌∙◌, ◌≡◌, refl, ◌↔◌, true, false, Option, none, some, [], ◌∷◌, ◌++◌, length, drop,
  ◌==◌, if◌then◌else◌, arith,
}
use rkn_checker.Text.{Bytes, bytes_eq, is_empty, has_prefix}

pub bytes_eq_refl : (s : Bytes) → bytes_eq s s ≡ true
unfolding bytes_eq
bytes_eq_refl [] = refl
bytes_eq_refl (a ∷ s) = ground (arith, bytes_eq_refl s)

pub eq_of_bytes_eq : (s t : Bytes) → bytes_eq s t ≡ true → s ≡ t
unfolding bytes_eq
eq_of_bytes_eq [] [] h = refl
eq_of_bytes_eq [] (b ∷ t) h = cc
eq_of_bytes_eq (a ∷ s) [] h = cc
eq_of_bytes_eq (a ∷ s) (b ∷ t) h = ground (arith, eq_of_bytes_eq s t)

pub bytes_eq_iff : (s t : Bytes) → (bytes_eq s t ≡ true) ↔ (s ≡ t)
bytes_eq_iff s t = (eq_of_bytes_eq s t, λ e. rw e (bytes_eq_refl t))

pub bytes_eq_comm : (s t : Bytes) → bytes_eq s t ≡ bytes_eq t s
bytes_eq_comm s t = ground (arith, bytes_eq_iff s t, bytes_eq_iff t s)

pub is_empty_iff : (s : Bytes) → (is_empty s ≡ true) ↔ (s ≡ [])
unfolding is_empty
is_empty_iff [] = ground arith
is_empty_iff (a ∷ s) = ground arith

-- What follows a prefix, if the string has it.
unfoldable pub strip : Bytes → Bytes → Option Bytes
strip [] s = some s
strip (b ∷ p) [] = none
strip (b ∷ p) (a ∷ s) = if a == b then strip p s else none

-- A test for a prefix and a cut after it are one step.
pub strip-eq-drop :
    (p s : Bytes) → strip p s ≡ (if has_prefix s p then some (drop (length p) s) else none)
unfolding strip has_prefix
strip-eq-drop [] [] = refl
strip-eq-drop [] (a ∷ s) = refl
strip-eq-drop (b ∷ p) [] = refl
strip-eq-drop (b ∷ p) (a ∷ s) = ground (arith, strip-eq-drop p s)

pub strip-append_self : (p s : Bytes) → strip p (p ++ s) ≡ some s
unfolding strip
strip-append_self [] s = refl
strip-append_self (b ∷ p) s = ground (arith, strip-append_self p s)

pub eq_append_of_strip : (p s r : Bytes) → strip p s ≡ some r → s ≡ p ++ r
unfolding strip
eq_append_of_strip [] s r h = ground arith
eq_append_of_strip (b ∷ p) [] r h = cc
eq_append_of_strip (b ∷ p) (a ∷ s) r h = ground (arith, eq_append_of_strip p s r)

-- The two tests of a string after a prefix is off, if it was there.
abbrev pub eq_after : Option Bytes → Bytes → Bool
eq_after none r = false
eq_after (some t) r = bytes_eq t r

abbrev pub strip_after : Option Bytes → Bytes → Option Bytes
strip_after none q = none
strip_after (some t) q = strip q t

pub bytes_eq-append : (p s r : Bytes) → bytes_eq s (p ++ r) ≡ eq_after (strip p s) r
unfolding strip bytes_eq
bytes_eq-append [] s r = refl
bytes_eq-append (b ∷ p) [] r = refl
bytes_eq-append (b ∷ p) (a ∷ s) r = ground (arith, bytes_eq-append p s r)

pub bytes_eq-strip : (p s : Bytes) → bytes_eq s p ≡ eq_after (strip p s) []
bytes_eq-strip p s = ap (bytes_eq s) (sym (append-nil p)) ∙ bytes_eq-append p s []

pub strip-append : (p q s : Bytes) → strip (p ++ q) s ≡ strip_after (strip p s) q
unfolding strip
strip-append [] q s = refl
strip-append (b ∷ p) q [] = refl
strip-append (b ∷ p) q (a ∷ s) = ground (arith, strip-append p q s)

pub has_prefix-append : (p s : Bytes) → has_prefix (p ++ s) p ≡ true
unfolding has_prefix
has_prefix-append [] [] = refl
has_prefix-append [] (a ∷ s) = refl
has_prefix-append (b ∷ p) s = ground (arith, has_prefix-append p s)
