-- ===== src/Text/Split.antt =====
-- Splitting a string at a separator, and joining the parts.
use mathlib.Core.List.{append_assoc}
use rkn_checker.Prelude.{
  ℕ, ◌≡◌, refl, sym, ap, ◌∙◌, ◌≢◌, Bool, true, false, List, [], ◌∷◌, ◌++◌, ◌==◌, if◌then◌else◌,
  arith, Bool-cases, inl, inr,
}
use rkn_checker.Text.{Bytes, split, join, grow}

pub split-ne-nil : (sep : ℕ) (s : Bytes) → split sep s ≢ []
unfolding split
split-ne-nil sep [] e = cc
split-ne-nil sep (c ∷ s) e = nonempty (split sep s) (c == sep) e
  where
    nonempty : (parts : List Bytes) (b : Bool) → (if b then [] ∷ parts else grow c parts) ≢ []
    nonempty parts true e = cc
    nonempty [] false e = cc
    nonempty (part ∷ parts) false e = cc

join-grow :
    (sep c : ℕ) (parts : List Bytes) → parts ≢ [] → join sep (grow c parts) ≡ c ∷ join sep parts
unfolding join
join-grow sep c [] h = absurd (h refl)
join-grow sep c (part ∷ []) h = refl
join-grow sep c (part ∷ next ∷ parts) h = refl

join-cons :
    (sep : ℕ) (part : Bytes) (parts : List Bytes)
    → parts ≢ []
    → join sep (part ∷ parts) ≡ part ++ (sep ∷ join sep parts)
unfolding join
join-cons sep part [] h = absurd (h refl)
join-cons sep part (next ∷ parts) h = refl

-- Joining the parts of a split gives the string back.
pub join-split : (sep : ℕ) (s : Bytes) → join sep (split sep s) ≡ s
unfolding split
join-split sep [] = unfold join in refl
join-split sep (c ∷ s) = elim (Bool-cases (c == sep)) [
  | inl same ↦
      rw same
        (join-cons sep [] (split sep s) (split-ne-nil sep s) ∙ ground (arith, join-split sep s))
  | inr other ↦
      rw other
        (join-grow sep c (split sep s) (split-ne-nil sep s) ∙ ap (λ t. c ∷ t) (join-split sep s))
]

grow-append :
    (c : ℕ) (parts others : List Bytes)
    → parts ≢ []
    → grow c (parts ++ others) ≡ grow c parts ++ others
grow-append c [] others h = absurd (h refl)
grow-append c (part ∷ parts) others h = refl

-- A separator in the string divides the parts.
pub split-append_sep :
    (sep : ℕ) (x s : Bytes) → split sep (x ++ (sep ∷ s)) ≡ split sep x ++ split sep s
unfolding split
split-append_sep sep [] s = ground arith
split-append_sep sep (c ∷ x) s = elim (Bool-cases (c == sep)) [
  | inl same ↦ rw same (ap (λ parts. [] ∷ parts) (split-append_sep sep x s))
  | inr other ↦ rw other (
      ap (grow c) (split-append_sep sep x s)
      ∙ grow-append c (split sep x) (split sep s) (split-ne-nil sep x))
]

pub join-append :
    (sep : ℕ) (part : Bytes) (parts others : List Bytes)
    → others ≢ []
    → join sep (part ∷ (parts ++ others)) ≡ join sep (part ∷ parts) ++ (sep ∷ join sep others)
join-append sep part [] others h = join-cons sep part others h ∙ unfold join in refl
join-append sep part (next ∷ parts) others h =
    join-cons sep part (next ∷ (parts ++ others)) (λ e. cc)
    ∙ rw (join-append sep next parts others h) (
        sym (
          ap (λ s. s ++ (sep ∷ join sep others)) (join-cons sep part (next ∷ parts) (λ e. cc))
          ∙ append_assoc part (sep ∷ join sep (next ∷ parts)) (sep ∷ join sep others)))
