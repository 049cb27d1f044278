-- ===== src/Domain/Blocking.antt =====
-- internal/domain/blocking.go. A time is a number, and the clock's reading an argument.
use rkn_checker.Prelude.{
  ℕ, Bool, false, not, ◌||◌, List, [], ◌++◌, Option, none, some, Result, ok, err, if◌then◌else◌,
}
use rkn_checker.Text.{Bytes, bytes, bytes_eq, is_empty, has_prefix, has_suffix, trim_prefix}
use rkn_checker.Platform.{Platform}
use rkn_checker.Domain.Url.{
  DomainError, invalid_domain, invalid_ip, blocking_rule_invalid, Url, url_is_valid,
  is_valid_domain, is_valid_ip,
}

pub data BlockingType : Type 0 where
  unknown domain wildcard ip url_path sni : BlockingType

-- BlockingType.String
unfoldable pub type_string : BlockingType → Bytes
type_string domain = bytes "domain"
type_string wildcard = bytes "wildcard"
type_string ip = bytes "ip"
type_string url_path = bytes "url_path"
type_string sni = bytes "sni"
type_string unknown = bytes "unknown"

pub record BlockingRule : Type 0 where
  pub rule_type : BlockingType
  pub pattern : Bytes
  pub original : Bytes
  pub paths : List Bytes

-- validate, as the error that it returns
unfoldable pub validate : Platform → BlockingType → Bytes → Option DomainError
validate platform domain pattern = if is_valid_domain pattern then none else some invalid_domain
validate platform wildcard pattern =
    if is_valid_domain (trim_prefix pattern (bytes "*.")) then none else some invalid_domain
validate platform ip pattern = if is_valid_ip platform pattern then none else some invalid_ip
validate platform url_path pattern = if is_empty pattern then some blocking_rule_invalid else none
validate platform sni pattern = if is_valid_domain pattern then none else some invalid_domain
validate platform unknown pattern = some blocking_rule_invalid

-- NewBlockingRule
unfoldable pub new_blocking_rule : Platform → BlockingType → Bytes → Result DomainError BlockingRule
unfolding is_empty
new_blocking_rule platform rule_type pattern =
    let rule : BlockingRule = record {
      rule_type = rule_type;
      pattern = pattern;
      original = pattern;
      paths = [];
    } in
    if is_empty pattern
    then err blocking_rule_invalid
    else elim (validate platform rule_type pattern) [ some e ↦ err e | none ↦ ok rule ]

-- Matches, at a normalized URL
unfoldable pub matches_normalized : BlockingType → Bytes → Bytes → Bool
unfolding bytes_eq has_prefix has_suffix trim_prefix
matches_normalized domain pattern normalized = bytes_eq normalized pattern
matches_normalized wildcard pattern normalized =
    bytes_eq normalized (trim_prefix pattern (bytes "*."))
    || has_suffix normalized (bytes "." ++ trim_prefix pattern (bytes "*."))
matches_normalized ip pattern normalized = bytes_eq normalized pattern
matches_normalized url_path pattern normalized = has_prefix normalized pattern
matches_normalized sni pattern normalized = bytes_eq normalized pattern
matches_normalized unknown pattern normalized = false

-- Matches; `none` is a nil URL
unfoldable pub rule_matches : BlockingRule → Option Url → Bool
unfolding url_is_valid
rule_matches rule none = false
rule_matches rule (some url) =
    if not (url_is_valid url)
    then false
    else matches_normalized rule.rule_type rule.pattern url.normalized

pub record BlockingResult : Type 0 where
  pub is_blocked : Bool
  pub normalized_url : Bytes
  pub rule : Option BlockingRule
  pub reason : BlockingType
  pub checked_at : ℕ

abbrev reason_of : Option BlockingRule → BlockingType
reason_of none = unknown
reason_of (some rule) = rule.rule_type

-- NewBlockingResult
unfoldable pub new_blocking_result : ℕ → Bool → Bytes → Option BlockingRule → BlockingResult
new_blocking_result now is_blocked normalized_url rule = record {
  is_blocked = is_blocked;
  normalized_url = normalized_url;
  rule = rule;
  reason = reason_of rule;
  checked_at = now;
}
