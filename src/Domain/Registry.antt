-- ===== src/Domain/Registry.antt =====
-- internal/domain/registry.go
use rkn_checker.Prelude.{
  ℕ, ◌+◌, Bool, true, false, not, ◌&&◌, List, [], ◌∷◌, ◌++◌, Option, none, some, Result, ok, err,
  ◌>>=◌, length, if◌then◌else◌,
}
use rkn_checker.Text.{Bytes, bytes, is_empty, has_prefix}
use rkn_checker.Platform.{Platform}
use rkn_checker.Domain.Url.{
  DomainError, invalid_domain, invalid_ip, blocking_rule_invalid, registry_entry_invalid,
  is_valid_domain, is_valid_ip,
}
use rkn_checker.Domain.Blocking.{
  BlockingType, unknown, domain, wildcard, ip, url_path, sni, BlockingRule, new_blocking_rule,
}

pub record RegistryEntry : Type 0 where
  pub id : Bytes
  pub entry_type : BlockingType
  pub domain_name : Bytes
  pub address : Bytes
  pub url : Bytes
  pub paths : List Bytes
  pub added_date : ℕ
  pub blocked_date : ℕ
  pub decision : Bytes
  pub decision_org : Bytes

-- The literal of NewRegistryEntry: only the type and the date are set.
abbrev blank_entry : ℕ → BlockingType → RegistryEntry
blank_entry now entry_type = record {
  id = [];
  entry_type = entry_type;
  domain_name = [];
  address = [];
  url = [];
  paths = [];
  added_date = now;
  blocked_date = 0;
  decision = [];
  decision_org = [];
}

domain_entry : ℕ → BlockingType → Bytes → Result DomainError RegistryEntry
domain_entry now entry_type value =
    if not (is_valid_domain value) && not (has_prefix value (bytes "*."))
    then err invalid_domain
    else ok (record (blank_entry now entry_type) { domain_name = value })

-- the switch of NewRegistryEntry
entry_of_type : Platform → ℕ → BlockingType → Bytes → Result DomainError RegistryEntry
unfolding domain_entry
entry_of_type platform now domain value = domain_entry now domain value
entry_of_type platform now wildcard value = domain_entry now wildcard value
entry_of_type platform now sni value = domain_entry now sni value
entry_of_type platform now ip value =
    if not (is_valid_ip platform value)
    then err invalid_ip
    else ok (record (blank_entry now ip) { address = value })
entry_of_type platform now url_path value = ok (record (blank_entry now url_path) { url = value })
entry_of_type platform now unknown value = err registry_entry_invalid

-- NewRegistryEntry
unfoldable pub new_registry_entry :
    Platform → ℕ → BlockingType → Bytes → Result DomainError RegistryEntry
unfolding is_empty entry_of_type
new_registry_entry platform now entry_type value =
    if is_empty value
    then err registry_entry_invalid
    else entry_of_type platform now entry_type value

-- The pattern that ToBlockingRule chooses, if the type has one.
unfoldable pub entry_pattern : BlockingType → RegistryEntry → Option Bytes
entry_pattern domain e = some e.domain_name
entry_pattern wildcard e = some e.domain_name
entry_pattern sni e = some e.domain_name
entry_pattern ip e = some e.address
entry_pattern url_path e = some e.url
entry_pattern unknown e = none

-- ToBlockingRule
unfoldable pub to_blocking_rule : Platform → RegistryEntry → Result DomainError BlockingRule
unfolding entry_pattern
to_blocking_rule platform e = elim (entry_pattern e.entry_type e) [
  | none ↦ err blocking_rule_invalid
  | some pattern ↦ new_blocking_rule platform e.entry_type pattern >>= λ rule.
      ok (record rule { paths = e.paths })
]

-- RegistryEntry.IsValid
unfoldable pub entry_is_valid : RegistryEntry → Bool
unfolding entry_pattern is_empty
entry_is_valid e = elim (entry_pattern e.entry_type e) [
  | none ↦ false
  | some value ↦ not (is_empty value)
]

pub record Registry : Type 0 where
  pub entries : List RegistryEntry
  pub last_updated : ℕ
  pub version : Bytes
  pub source : Bytes
  pub entry_count : ℕ

-- NewRegistry
abbrev pub new_registry : ℕ → Registry
new_registry now = record {
  entries = [];
  last_updated = now;
  version = [];
  source = [];
  entry_count = 0;
}

-- AddEntry; `none` is a nil entry, and on an error the registry stays as it was
unfoldable pub add_entry : Registry → Option RegistryEntry → Result DomainError Registry
unfolding entry_is_valid
add_entry r none = err registry_entry_invalid
add_entry r (some e) =
    if not (entry_is_valid e)
    then err registry_entry_invalid
    else ok (record r { entries = r.entries ++ (e ∷ []); entry_count = r.entry_count + 1 })

-- entry.Type == blockingType
unfoldable pub same_type : BlockingType → BlockingType → Bool
same_type unknown unknown = true
same_type domain domain = true
same_type wildcard wildcard = true
same_type ip ip = true
same_type url_path url_path = true
same_type sni sni = true
same_type _ _ = false

-- the loop of GetEntriesByType
entries_of_type : BlockingType → List RegistryEntry → List RegistryEntry
unfolding same_type
entries_of_type t [] = []
entries_of_type t (e ∷ es) =
    let others = entries_of_type t es in if same_type e.entry_type t then e ∷ others else others

-- GetEntriesByType
unfoldable pub get_entries_by_type : Registry → BlockingType → List RegistryEntry
unfolding entries_of_type
get_entries_by_type r t = entries_of_type t r.entries

-- Registry.Size
abbrev pub registry_size : Registry → ℕ
registry_size r = length r.entries
