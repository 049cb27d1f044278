-- ===== src/Normalizer/Spellings.antt =====
-- The spellings of one host name: letters of any case, a leading www., a port, a path.
use rkn_checker.Prelude.{
  ℕ, ◌≡◌, refl, ◌⊎◌, inl, inr, true, false, [], ◌∷◌, ◌++◌, none, some, ok, arith,
}
use rkn_checker.Text.{Bytes, bytes, is_empty, contains, has_prefix, trim_prefix}
use rkn_checker.Text.Laws.{has_prefix-append}
use rkn_checker.Platform.{Platform}
use rkn_checker.Domain.Url.{is_valid_domain}
use rkn_checker.Normalizer.{
  all_digits, remove_port, without_www, normalize_domain, normalize_host, with_scheme, normalize,
}
use rkn_checker.Normalizer.Port.{HasNoColon, remove_port-append}

-- A name that the platform leaves as it is, with and without www.: ASCII, small letters, no address.
pub record IsPlain (platform : Platform) (name : Bytes) : Type 0 where
  pub lower : platform.to_lower name ≡ name
  pub no_ip : platform.parse_ip name ≡ none
  pub no_bracket : has_prefix name (bytes "[") ≡ false
  pub ascii : platform.to_ascii name ≡ some name

-- A raw URL whose host, as net/url has it, is the name up to the case of its letters, a leading
-- www. and a port.
pub record Spells (platform : Platform) (raw name : Bytes) : Type 0 where
  pub host : Bytes
  pub named : is_empty host ≡ false
  pub plain : HasNoColon host
  pub letters : (platform.to_lower host ≡ name) ⊎ (platform.to_lower host ≡ bytes "www." ++ name)
  pub full : is_empty raw ≡ false
  pub parsed :
      (platform.url_host (with_scheme platform (platform.trim_space raw)) ≡ some host)
      ⊎ ((digits : Bytes) × (is_empty digits ≡ false)
          × (all_digits digits ≡ true)
          × (platform.url_host (with_scheme platform (platform.trim_space raw))
              ≡ some (host ++ (b':' ∷ digits))))

no_colon : (s : Bytes) → HasNoColon s → contains s (bytes ":") ≡ false
unfolding contains has_prefix
no_colon [] h = refl
no_colon (c ∷ s) h = rw (h.0, no_colon s h.1) refl

remove_port-none : (host : Bytes) → HasNoColon host → remove_port host ≡ host
unfolding remove_port
remove_port-none host h = rw (no_colon host h) refl

is_empty-append_cons : (s : Bytes) (c : ℕ) (t : Bytes) → is_empty (s ++ (c ∷ t)) ≡ false
unfolding is_empty
is_empty-append_cons [] c t = refl
is_empty-append_cons (a ∷ s) c t = refl

module _ (platform : Platform) (name : Bytes) where
  without_www-www : is_valid_domain name ≡ true → without_www platform (bytes "www." ++ name) ≡ name
  unfolding without_www trim_prefix has_prefix
  without_www-www valid = ground (arith, has_prefix-append [] name)

  without_www-plain : has_prefix name (bytes "www.") ≡ false → without_www platform name ≡ name
  unfolding without_www
  without_www-plain bare = rw (without_www, bare) refl

  normalize_host-plain :
      (host : Bytes)
      → IsPlain platform host
      → without_www platform host ≡ name
      → is_valid_domain name ≡ true
      → normalize_host platform host ≡ ok name
  unfolding normalize_host normalize_domain
  normalize_host-plain host h bare valid =
      rw (normalize_host, h.no_ip, h.no_bracket, normalize_domain, h.ascii, h.lower, bare, valid)
        refl

  lowered :
      (host : Bytes)
      → is_valid_domain name ≡ true
      → has_prefix name (bytes "www.") ≡ false
      → IsPlain platform name
      → IsPlain platform (bytes "www." ++ name)
      → (platform.to_lower host ≡ name) ⊎ (platform.to_lower host ≡ bytes "www." ++ name)
      → normalize_host platform (platform.to_lower host) ≡ ok name
  lowered host valid bare plain plain_www (inl e) =
      rw e (normalize_host-plain name plain (without_www-plain bare) valid)
  lowered host valid bare plain plain_www (inr e) =
      rw e (normalize_host-plain (bytes "www." ++ name) plain_www (without_www-www valid) valid)

  -- Every spelling of a name is normalized to the name, where IsValidDomain accepts it and it does
  -- not start with www. itself. The platform is assumed to leave the name as it is.
  pub normalize-Spells :
      (raw : Bytes)
      → is_valid_domain name ≡ true
      → has_prefix name (bytes "www.") ≡ false
      → IsPlain platform name
      → IsPlain platform (bytes "www." ++ name)
      → Spells platform raw name
      → normalize platform raw ≡ ok name
  unfolding normalize
  normalize-Spells raw valid bare plain plain_www s = elim (s.parsed) [
    | inl parsed ↦
        rw (normalize, s.full, parsed, s.named, remove_port-none s.host s.plain)
          (lowered s.host valid bare plain plain_www s.letters)
    | inr (digits, some_digit, numeric, parsed) ↦
        rw
          (
            normalize,
            s.full,
            parsed,
            is_empty-append_cons s.host b':' digits,
            remove_port-append s.host digits s.plain some_digit numeric,
          )
          (lowered s.host valid bare plain plain_www s.letters)
  ]
