-- ===== src/Storage/MemoryStore.antt =====
-- internal/infrastructure/storage/memory_store.go. The lock makes each method one step, so a
-- method is a function of the store; the clock's reading is an argument.
pub mod Build
pub mod Covered
pub mod Verdict
pub mod Refinement
pub mod Cleared
pub mod Unordered
pub mod Keys
pub mod Counts
use rkn_checker.Prelude.{
  ℕ, zero, suc, ◌+◌, Bool, true, false, ◌||◌, List, [], ◌∷◌, ◌++◌, Option, none, some, Result, ok,
  err, length, drop, if◌then◌else◌,
}
use rkn_checker.Text.{Bytes, bytes, is_empty, trim_prefix, split, join, contains}
use rkn_checker.Platform.{Platform}
use rkn_checker.Domain.Url.{DomainError, registry_entry_invalid, Url}
use rkn_checker.Domain.Blocking.{
  BlockingType, unknown, domain, wildcard, ip, url_path, sni, BlockingRule, rule_matches,
  BlockingResult, new_blocking_result,
}
use rkn_checker.Domain.Registry.{RegistryEntry, Registry, to_blocking_rule}
use rkn_checker.Storage.Dict.{Dict, get, put}
use rkn_checker.Storage.Radix.{RadixTree, new_tree, insert, matches_wildcard}
use rkn_checker.Storage.Radix
use rkn_checker.Storage.Bloom.{FloatMath, BloomFilter, new_bloom_filter, add}
use rkn_checker.Storage.Bloom

-- The fields that Update builds and swaps in together.
pub record Tables : Type 0 where
  pub domains : Dict BlockingRule
  pub wildcards : RadixTree BlockingRule
  pub ips : Dict BlockingRule
  pub url_patterns : Dict (List BlockingRule)
  pub bloom : BloomFilter

pub record MemoryStore : Type 0 where
  pub tables : Tables
  pub open tables use *
  pub last_update : ℕ
  pub entry_count : ℕ
  pub version : Bytes

-- The tables of make(...), NewRadixTree and NewBloomFilter(n, 0.01).
abbrev pub new_tables : FloatMath → ℕ → Tables
new_tables float n = record {
  domains = [];
  wildcards = new_tree;
  ips = [];
  url_patterns = [];
  bloom = new_bloom_filter float n float.one_percent;
}

-- NewMemoryStore
unfoldable pub new_memory_store : FloatMath → ℕ → MemoryStore
new_memory_store float now = record {
  tables = new_tables float 1000000;
  last_update = now;
  entry_count = 0;
  version = [];
}

-- extractDomainFromURL
unfoldable pub extract_domain : Platform → Bytes → Bytes
unfolding is_empty contains
extract_domain platform raw =
    let with_scheme = if contains raw (bytes "://") then raw else bytes "http://" ++ raw in
    if is_empty raw
    then []
    else elim (platform.url_host with_scheme) [ none ↦ [] | some host ↦ host ]

-- The suffixes of IsBlocked, joined from the parts from i on, one of which the filter contains.
unfoldable pub bloom_has_suffix : BloomFilter → List Bytes → Bool
bloom_has_suffix f [] = false
bloom_has_suffix f (part ∷ parts) =
    let later = bloom_has_suffix f parts in
    if Bloom.contains f (join b'.' (part ∷ parts)) then true else later

-- bloomCheckPassed
unfoldable pub bloom_check : BloomFilter → Bytes → Bool
unfolding bloom_has_suffix split
bloom_check f normalized =
    if Bloom.contains f normalized
    then true
    else bloom_has_suffix f (drop 1 (split b'.' normalized))

-- &domain.URL{}
abbrev pub zero_url : Url
zero_url = record { original = []; normalized = [] }

-- The loop over urlPatterns, as the rule that it stops at.
unfoldable pub first_pattern : List BlockingRule → Option BlockingRule
unfolding rule_matches
first_pattern [] = none
first_pattern (rule ∷ rules) =
    let later = first_pattern rules in
    if rule_matches rule (some zero_url) then some rule else later

abbrev pub or_else {ℓ} : {A : Type ℓ} → Option A → Option A → Option A
or_else none b = b
or_else (some a) b = some a

-- A value of the tree, as a rule if it holds one.
abbrev pub rule_at : Option (Option BlockingRule) → Option BlockingRule
rule_at none = none
rule_at (some value) = value

abbrev pub patterns_at : Option (List BlockingRule) → Option BlockingRule
patterns_at none = none
patterns_at (some rules) = first_pattern rules

-- The four lookups of IsBlocked, in its order.
unfoldable pub find_rule : Tables → Bytes → Option BlockingRule
unfolding get matches_wildcard first_pattern
find_rule t normalized = or_else (get t.domains normalized) (
    or_else (get t.ips normalized) (
      or_else (rule_at (matches_wildcard t.wildcards normalized))
        (patterns_at (get t.url_patterns normalized))))

-- What IsBlocked returns where it stops at a rule, and where it does not.
abbrev pub blocked_by : ℕ → Bytes → Option BlockingRule → BlockingResult
blocked_by now normalized none = new_blocking_result now false normalized none
blocked_by now normalized (some rule) = new_blocking_result now true normalized (some rule)

-- IsBlocked
unfoldable pub is_blocked : ℕ → MemoryStore → Bytes → BlockingResult
unfolding is_empty bloom_check find_rule new_blocking_result
is_blocked now store normalized =
    if is_empty normalized
    then new_blocking_result now false normalized none
    else if bloom_check store.bloom normalized
    then blocked_by now normalized (find_rule store.tables normalized)
    else new_blocking_result now false normalized none

-- A missing slice is nil.
abbrev pub rules_or_nil : Option (List BlockingRule) → List BlockingRule
rules_or_nil none = []
rules_or_nil (some rules) = rules

-- newURLPatterns[host] = append(newURLPatterns[host], rule), unless there is no host
pub add_pattern : Tables → Bytes → BlockingRule → Tables
unfolding is_empty get put
add_pattern t host rule = if is_empty host then t else record t {
  url_patterns = put t.url_patterns host (rules_or_nil (get t.url_patterns host) ++ (rule ∷ []));
  bloom = add t.bloom host;
}

pub add_domain : Tables → Bytes → BlockingRule → Tables
add_domain t name rule = record t { domains = put t.domains name rule; bloom = add t.bloom name }

-- the switch in Update's loop
pub add_rule : Platform → Tables → BlockingType → RegistryEntry → BlockingRule → Tables
unfolding trim_prefix add_pattern add_domain extract_domain
add_rule platform t domain e rule = add_domain t e.domain_name rule
add_rule platform t wildcard e rule =
    let pattern = trim_prefix e.domain_name (bytes "*.") in
    record t { wildcards = insert t.wildcards pattern (some rule); bloom = add t.bloom pattern }
add_rule platform t ip e rule = record t {
  ips = put t.ips e.address rule;
  bloom = add t.bloom e.address;
}
add_rule platform t url_path e rule = add_pattern t (extract_domain platform e.url) rule
add_rule platform t sni e rule = add_domain t e.domain_name rule
add_rule platform t unknown e rule = t

-- one round of Update's loop
pub add_entry : Platform → Tables → RegistryEntry → Tables
unfolding to_blocking_rule add_rule
add_entry platform t e = elim (to_blocking_rule platform e) [
  | err bad ↦ t
  | ok rule ↦ add_rule platform t e.entry_type e rule
]

pub add_entries : Platform → Tables → List RegistryEntry → Tables
unfolding add_entry
add_entries platform t [] = t
add_entries platform t (e ∷ es) = add_entries platform (add_entry platform t e) es

-- Update; `none` is a nil registry, and on an error the store stays as it was
unfoldable pub update :
    Platform → FloatMath → ℕ → MemoryStore → Option Registry → Result DomainError MemoryStore
unfolding add_entries
update platform float now store none = err registry_entry_invalid
update platform float now store (some registry) = ok (record {
  tables = add_entries platform (new_tables float (length registry.entries)) registry.entries;
  last_update = now;
  entry_count = length registry.entries;
  version = registry.version;
})

pub record StoreStats : Type 0 where
  pub total_entries : ℕ
  pub domain_entries : ℕ
  pub wildcard_entries : ℕ
  pub ip_entries : ℕ
  pub url_pattern_entries : ℕ
  pub stats_last_update : ℕ
  pub stats_version : Bytes
  pub bloom_filter_size : ℕ

-- Stats
unfoldable pub stats : MemoryStore → StoreStats
stats store = record {
  total_entries = store.entry_count;
  domain_entries = length store.domains;
  wildcard_entries = store.wildcards.size;
  ip_entries = length store.ips;
  url_pattern_entries = length store.url_patterns;
  stats_last_update = store.last_update;
  stats_version = store.version;
  bloom_filter_size = store.bloom.size;
}

-- Clear; the version stays
unfoldable pub clear : ℕ → MemoryStore → MemoryStore
unfolding Radix.clear Bloom.clear
clear now store = record store {
  tables = record {
    domains = [];
    wildcards = Radix.clear store.wildcards;
    ips = [];
    url_patterns = [];
    bloom = Bloom.clear store.bloom;
  };
  last_update = now;
  entry_count = 0;
}

-- GetLastUpdateTime
unfoldable pub get_last_update_time : MemoryStore → ℕ
get_last_update_time store = store.last_update

-- Size
unfoldable pub size : MemoryStore → ℕ
size store = store.entry_count
