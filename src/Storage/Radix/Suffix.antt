-- ===== src/Storage/Radix/Suffix.antt =====
-- MatchesWildcard walks the proper suffixes of a name at its dots.
use rkn_checker.Prelude.{
  ℕ, ◌≡◌, refl, sym, ap, ◌∙◌, ◌≢◌, List, [], ◌∷◌, ◌++◌, Option, none, some, drop, arith,
  Option-cases, inl, inr, ◌==◌, if◌then◌else◌,
}
use rkn_checker.Text.{Bytes, split, join, grow}
use rkn_checker.Text.Split.{split-ne-nil, join-split, split-append_sep, join-append}
use rkn_checker.Storage.Radix.{RadixTree, search, matches_from, matches_wildcard}

module _ {V : Type 0} (t : RadixTree V) where
  matches_from_sound :
      (parts : List Bytes) (v : Option V)
      → matches_from t parts ≡ some v
      → (before : List Bytes) × (after : List Bytes) × (parts ≡ before ++ after)
        × (after ≢ [])
        × (search t (join b'.' after) ≡ some v)
  unfolding matches_from
  matches_from_sound [] v e = cc
  matches_from_sound (part ∷ parts) v e =
      elim (Option-cases (search t (join b'.' (part ∷ parts)))) [
        | inr (w, here) ↦ ([], part ∷ parts, refl, (λ q. cc), ground arith)
        | inl missed ↦
            let (before, after, split_there, nonempty, found) =
              matches_from_sound parts v (rw (missed, matches_from) at e) in
            (part ∷ before, after, ap (λ ps. part ∷ ps) split_there, nonempty, found)
      ]

  matches_from_complete :
      (before after : List Bytes) (v : Option V)
      → after ≢ []
      → search t (join b'.' after) ≡ some v
      → (w : Option V) × (matches_from t (before ++ after) ≡ some w)
  unfolding matches_from
  matches_from_complete [] [] v nonempty found = absurd (nonempty refl)
  matches_from_complete [] (part ∷ parts) v nonempty found = (v, rw (found, matches_from))
  matches_from_complete (part ∷ before) after v nonempty found =
      elim (Option-cases (search t (join b'.' (part ∷ (before ++ after))))) [
        | inr (w, here) ↦ (w, rw (here, matches_from))
        | inl missed ↦
            let (w, later) = matches_from_complete before after v nonempty found in
            (w, rw (missed, matches_from) later)
      ]

  -- A value that MatchesWildcard returns is stored under what follows some dot of the name.
  pub matches_wildcard_sound :
      (host : Bytes) (v : Option V)
      → matches_wildcard t host ≡ some v
      → (x : Bytes) × (s : Bytes) × (host ≡ x ++ (b'.' ∷ s)) × (search t s ≡ some v)
  unfolding matches_wildcard
  matches_wildcard_sound host v e = at (split b'.' host) (join-split b'.' host) e
    where
      at :
          (parts : List Bytes)
          → join b'.' parts ≡ host
          → matches_from t (drop 1 parts) ≡ some v
          → (x : Bytes) × (s : Bytes) × (host ≡ x ++ (b'.' ∷ s)) × (search t s ≡ some v)
      at [] joined found = unfold matches_from in cc
      at (part ∷ parts) joined found =
          let (before, after, apart, nonempty, there) = matches_from_sound parts v found in
          (
            join b'.' (part ∷ before),
            join b'.' after,
            sym joined ∙ rw apart (join-append b'.' part before after nonempty),
            there,
          )

  -- MatchesWildcard returns a value wherever one is stored under what follows a dot of the name.
  pub matches_wildcard_complete :
      (x s : Bytes) (v : Option V)
      → search t s ≡ some v
      → (w : Option V) × (matches_wildcard t (x ++ (b'.' ∷ s)) ≡ some w)
  unfolding matches_wildcard
  matches_wildcard_complete x s v found =
      rw (split-append_sep b'.' x s) (at (split b'.' x) (split-ne-nil b'.' x))
    where
      at :
          (parts : List Bytes)
          → parts ≢ []
          → (w : Option V) × (matches_from t (drop 1 (parts ++ split b'.' s)) ≡ some w)
      at [] nonempty = absurd (nonempty refl)
      at (part ∷ parts) nonempty =
          matches_from_complete parts (split b'.' s) v (split-ne-nil b'.' s)
            (rw (join-split b'.' s) found)

  -- A value stored under what follows a dot of the name, for the first dot that has one.
  unfoldable pub first_suffix : Bytes → Option (Option V)
  first_suffix [] = none
  first_suffix (c ∷ s) =
      let later = first_suffix s in
      if c == b'.' then elim (search t s) [ some v ↦ some v | none ↦ later ] else later

  drop-grow : (c : ℕ) (parts : List Bytes) → drop 1 (grow c parts) ≡ drop 1 parts
  drop-grow c [] = refl
  drop-grow c (part ∷ parts) = refl

  matches_from-parts :
      (parts : List Bytes)
      → parts ≢ []
      → matches_from t parts ≡ (elim (search t (join b'.' parts)) [
        | some v ↦ some v
        | none ↦ matches_from t (drop 1 parts)
      ])
  unfolding matches_from
  matches_from-parts [] nonempty = absurd (nonempty refl)
  matches_from-parts (part ∷ parts) nonempty = refl

  matches_from-split :
      (s : Bytes)
      → matches_from t (split b'.' s)
        ≡ (elim (search t s) [ some v ↦ some v | none ↦ matches_from t (drop 1 (split b'.' s)) ])
  matches_from-split s =
      rw (join-split b'.' s) at (matches_from-parts (split b'.' s) (split-ne-nil b'.' s))

  -- MatchesWildcard, which splits the name and joins the parts again, returns what a scan of the
  -- name finds: for the first dot after which the rest of the name is a key, its value; and nothing
  -- if there is no such dot.
  pub matches_wildcard-eq-first_suffix :
      (host : Bytes) → matches_wildcard t host ≡ first_suffix host
  unfolding matches_wildcard first_suffix split matches_from
  matches_wildcard-eq-first_suffix [] = refl
  matches_wildcard-eq-first_suffix (c ∷ s) =
      ground (
        arith,
        matches_from-split s,
        matches_wildcard-eq-first_suffix s,
        drop-grow c (split b'.' s),
      )
