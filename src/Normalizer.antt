-- ===== src/Normalizer.antt =====
-- internal/domain/services/url_normalizer.go. The regular expressions are the tests that they
-- stand for: `^www\.` a prefix, and `:\d+$` on a text with its one colon in front.
pub mod Canonical
pub mod Port
pub mod Spellings
use rkn_checker.Prelude.{
  ℕ, suc, Bool, true, not, ◌&&◌, ◌||◌, [], ◌∷◌, ◌++◌, Option, none, some, Result, ok, err, ◌==◌,
  leb, if◌then◌else◌, drop, take,
}
use rkn_checker.Text.{Bytes, bytes, is_empty, has_prefix, has_suffix, trim_prefix, contains}
use rkn_checker.Platform.{Platform}
use rkn_checker.Domain.Url.{
  DomainError, empty_url, invalid_url, invalid_ip, invalid_domain, normalization_failed, Url,
  set_normalized, is_valid_domain,
}

-- strings.LastIndex(s, c), for a text of one byte, with `none` for -1
unfoldable pub last_index : ℕ → Bytes → Option ℕ
last_index c [] = none
last_index c (a ∷ s) = elim (last_index c s) [
  | some i ↦ some (suc i)
  | none ↦ if a == c then some 0 else none
]

unfoldable pub all_digits : Bytes → Bool
all_digits [] = true
all_digits (a ∷ s) = (leb b'0' a && leb a b'9') && all_digits s

-- portRegex.MatchString, on the text from the last colon on
unfoldable pub is_port : Bytes → Bool
unfolding is_empty all_digits
is_port part = not (is_empty (drop 1 part)) && all_digits (drop 1 part)

-- removePort
unfoldable pub remove_port : Bytes → Bytes
unfolding contains last_index is_port
remove_port host =
    let cut : Bytes = elim (last_index b':' host) [
      | none ↦ host
      | some index ↦ if is_port (drop index host) then take index host else host
    ] in
    if contains host (bytes ":") && not (contains host (bytes "::")) then cut else host

-- strings.Trim(s, "[]")
is_bracket : ℕ → Bool
is_bracket c = c == b'[' || c == b']'

trim_left : Bytes → Bytes
unfolding is_bracket
trim_left [] = []
trim_left (c ∷ s) = let rest = trim_left s in if is_bracket c then rest else c ∷ s

trim_right : Bytes → Bytes
unfolding is_bracket is_empty
trim_right [] = []
trim_right (c ∷ s) =
    let rest = trim_right s in if is_empty rest && is_bracket c then [] else c ∷ rest

unfoldable pub trim_brackets : Bytes → Bytes
unfolding trim_left trim_right
trim_brackets s = trim_right (trim_left s)

module _ (platform : Platform) where
  -- normalizeIP
  unfoldable pub normalize_ip : Bytes → Bytes
  normalize_ip ip = elim (platform.ip_to4 ip) [
    | some ipv4 ↦ platform.ip_string ipv4
    | none ↦ platform.ip_string ip
  ]

  -- The step of normalizeDomain about a leading "www.".
  unfoldable pub without_www : Bytes → Bytes
  without_www name =
      if has_prefix name (bytes "www.") && is_valid_domain (trim_prefix name (bytes "www."))
      then trim_prefix name (bytes "www.")
      else name

  -- normalizeDomain
  unfoldable pub normalize_domain : Bytes → Result DomainError Bytes
  normalize_domain host = elim (platform.to_ascii host) [
    | none ↦ err normalization_failed
    | some ascii ↦
        if is_valid_domain (without_www (platform.to_lower ascii))
        then ok (without_www (platform.to_lower ascii))
        else err invalid_domain
  ]

  -- Normalize, from the host without its port on
  unfoldable pub normalize_host : Bytes → Result DomainError Bytes
  normalize_host host =
      let bracketed : Result DomainError Bytes = elim (platform.parse_ip (trim_brackets host)) [
        | some ip ↦ ok (normalize_ip ip)
        | none ↦ err invalid_ip
      ] in
      elim (platform.parse_ip host) [
        | some ip ↦ ok (normalize_ip ip)
        | none ↦
            if has_prefix host (bytes "[") && has_suffix host (bytes "]")
            then bracketed
            else normalize_domain host
      ]

  -- rawURL with a scheme
  unfoldable pub with_scheme : Bytes → Bytes
  unfolding contains
  with_scheme raw = if contains raw (bytes "://") then raw else bytes "http://" ++ raw

  -- Normalize
  unfoldable pub normalize : Bytes → Result DomainError Bytes
  normalize raw =
      let parsed : Result DomainError Bytes =
        elim (platform.url_host (with_scheme (platform.trim_space raw))) [
          | none ↦ err invalid_url
          | some host ↦
              if is_empty host
              then err invalid_url
              else normalize_host (platform.to_lower (remove_port host))
        ] in
      if is_empty raw then err empty_url else parsed

  -- NormalizeURL; `none` is a nil URL
  unfoldable pub normalize_url : Option Url → Result DomainError Url
  normalize_url none = err invalid_url
  normalize_url (some url) = elim (normalize url.original) [
    | err e ↦ err e
    | ok normalized ↦ ok (set_normalized url normalized)
  ]
