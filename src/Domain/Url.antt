-- ===== src/Domain/Url.antt =====
-- internal/domain/url.go and internal/domain/errors.go
use rkn_checker.Prelude.{
  Bool, true, false, not, ◌&&◌, ◌||◌, List, [], ◌∷◌, none, some, Result, ok, err, length, ltb,
  if◌then◌else◌,
}
use rkn_checker.Text.{Bytes, bytes, is_empty, has_prefix, has_suffix, split}
use rkn_checker.Platform.{Platform}

pub data DomainError : Type 0 where
  invalid_url empty_url unsupported_protocol invalid_domain invalid_ip : DomainError
  normalization_failed blocking_rule_invalid registry_entry_invalid : DomainError

pub record Url : Type 0 where
  pub original : Bytes
  pub normalized : Bytes

-- NewURL
unfoldable pub new_url : Bytes → Result DomainError Url
unfolding is_empty
new_url raw =
    if is_empty raw then err empty_url else ok (record { original = raw; normalized = [] })

-- SetNormalized
abbrev pub set_normalized : Url → Bytes → Url
set_normalized u normalized = record u { normalized = normalized }

-- URL.IsValid
unfoldable pub url_is_valid : Url → Bool
unfolding is_empty
url_is_valid u = not (is_empty u.original) && not (is_empty u.normalized)

-- The loop of IsValidDomain over the labels.
unfoldable pub labels_are_valid : List Bytes → Bool
unfolding is_empty has_prefix has_suffix
labels_are_valid [] = true
labels_are_valid (part ∷ parts) =
    let others = labels_are_valid parts in
    if is_empty part || ltb 63 (length part)
    then false
    else if has_prefix part (bytes "-") || has_suffix part (bytes "-")
    then false
    else others

-- IsValidDomain
unfoldable pub is_valid_domain : Bytes → Bool
unfolding is_empty has_prefix has_suffix split labels_are_valid
is_valid_domain domain =
    if is_empty domain
    then false
    else if ltb 253 (length domain)
    then false
    else if has_prefix domain (bytes ".") || has_suffix domain (bytes ".")
    then false
    else if ltb (length (split b'.' domain)) 2
    then false
    else labels_are_valid (split b'.' domain)

-- IsValidIP
unfoldable pub is_valid_ip : Platform → Bytes → Bool
is_valid_ip platform ip = elim (platform.parse_ip ip) [ none ↦ false | some parsed ↦ true ]
