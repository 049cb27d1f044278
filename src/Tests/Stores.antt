-- ===== src/Tests/Stores.antt =====
-- The store and the service over it.
use rkn_checker.Prelude.{
  ℕ, ◌<◌, ◌/◌, ◌≡◌, refl, true, false, [], ◌∷◌, none, some, length, ok, if◌then◌else◌, ◌+◌, inr,
}
use mathlib.Core.List.{Memᴰ}
use rkn_checker.Text.{Bytes, bytes, bytes_eq, join, trim_prefix, has_prefix, split}
use rkn_checker.Domain.Url.{is_valid_domain, is_valid_ip}
use rkn_checker.Domain.Blocking.{
  new_blocking_result, BlockingType, domain, wildcard, ip, url_path, BlockingRule,
  new_blocking_rule, validate,
}
use rkn_checker.Domain.Registry.{RegistryEntry, Registry, new_registry, to_blocking_rule}
use rkn_checker.Storage.Bloom
use rkn_checker.Storage.Bloom.{
  BloomFilter, new_bloom_filter, bit_position, get_hashes, set_bit, bit_is_clear,
}
use rkn_checker.Storage.Bloom.Bounds.{IsSized, new_bloom_filter-IsSized}
use rkn_checker.Storage.Bloom.Contains.{add_all, contains-add_all, position-lt-words_built}
use rkn_checker.Storage.Radix.{
  RadixTree, new_tree, insert, search, matches_wildcard, insert_node, place,
}
use rkn_checker.Storage.Radix.Lookup.{search-insert}
use rkn_checker.Storage.Radix.Size.{size-insert, missing}
use rkn_checker.Storage.Radix.Suffix.{first_suffix, matches_wildcard-eq-first_suffix}
use rkn_checker.Storage.MemoryStore.{
  MemoryStore, new_memory_store, update, is_blocked, blocked_by, clear, stats,
}
use rkn_checker.Storage.MemoryStore.Cleared.{is_blocked-clear}
use rkn_checker.Storage.MemoryStore.Verdict.{verdict, names_suffix}
use rkn_checker.Storage.MemoryStore.Refinement.{is_blocked-update, is_blocked-url_patterns}
use rkn_checker.Service.{check_url, update_registry}
use rkn_checker.Service.Answers.{
  url_normalizer, memory_registry_store, answer, check_url-update_registry,
}
use rkn_checker.Tests.Platforms.{small_platform, small_float, small_float-HasBits}

abbrev entry : BlockingType → Bytes → Bytes → RegistryEntry
entry entry_type name address = record {
  id = [];
  entry_type = entry_type;
  domain_name = name;
  address = address;
  url = [];
  paths = [];
  added_date = 1;
  blocked_date = 0;
  decision = [];
  decision_org = [];
}

abbrev pub registry : Registry
registry = record (new_registry 1) {
  entries =
      entry domain (bytes "example.com") []
      ∷ entry wildcard (bytes "*.bad.org") []
      ∷ entry ip [] (bytes "10.0.0.1")
      ∷ [];
  entry_count = 3;
}

abbrev pub empty_store : MemoryStore
unfolding new_memory_store
empty_store = new_memory_store small_float 0

abbrev rule : BlockingType → Bytes → BlockingRule
rule rule_type pattern = record {
  rule_type = rule_type;
  pattern = pattern;
  original = pattern;
  paths = [];
}

verdict_runs :
    (verdict small_platform registry.entries (bytes "example.com")
      ≡ some (rule domain (bytes "example.com")))
    × (verdict small_platform registry.entries (bytes "a.b.bad.org")
        ≡ some (rule wildcard (bytes "*.bad.org")))
    × (verdict small_platform registry.entries (bytes "bad.org") ≡ none)
unfolding verdict bytes_eq to_blocking_rule new_blocking_rule validate is_valid_domain names_suffix
    join trim_prefix
verdict_runs = (refl, refl, refl)

-- The same answers from the tables, the tree and the filter.
store_runs :
    (store' : MemoryStore) × (update small_platform small_float 5 empty_store (some registry)
      ≡ ok store')
    × (is_blocked 7 store' (bytes "a.b.bad.org")
        ≡ blocked_by 7 (bytes "a.b.bad.org") (some (rule wildcard (bytes "*.bad.org"))))
    × (is_blocked 7 store' (bytes "fine.org") ≡ blocked_by 7 (bytes "fine.org") none)
unfolding update is_blocked Bloom.contains new_blocking_rule validate is_valid_ip bytes_eq Bloom.add
    is_valid_domain new_bloom_filter bit_is_clear set_bit bit_position get_hashes join search insert
    insert_node
store_runs = (_, refl, refl, refl)

check_url-update_registry_example :
    (store' : MemoryStore) × (update_registry
        (url_normalizer small_platform)
        (memory_registry_store small_platform small_float)
        5
        empty_store
        (some registry)
      ≡ ok store')
    × (check_url
          (url_normalizer small_platform)
          (memory_registry_store small_platform small_float)
          7
          store'
          (bytes "http://www.Example.com:80/x")
        ≡ answer small_platform 7 registry.entries (bytes "http://www.Example.com:80/x"))
check_url-update_registry_example =
    check_url-update_registry small_platform small_float 5 7 empty_store registry
      (bytes "http://www.Example.com:80/x") small_float-HasBits

is_blocked-update_example :
    (store' : MemoryStore) × (update small_platform small_float 5 empty_store (some registry)
      ≡ ok store')
    × (is_blocked 7 store' (bytes "a.b.bad.org")
        ≡ blocked_by 7
            (bytes "a.b.bad.org")
            (verdict small_platform registry.entries (bytes "a.b.bad.org")))
is_blocked-update_example =
    is_blocked-update small_platform small_float 5 7 empty_store registry (bytes "a.b.bad.org")
      small_float-HasBits

is_blocked-url_patterns_example :
    is_blocked 7
      (record empty_store {
        tables = record (empty_store.tables) {
          url_patterns = (bytes "a.org", rule url_path (bytes "a.org/x") ∷ []) ∷ [];
        };
      })
      (bytes "a.org")
    ≡ is_blocked 7 empty_store (bytes "a.org")
is_blocked-url_patterns_example =
    is_blocked-url_patterns 7 empty_store
      ((bytes "a.org", rule url_path (bytes "a.org/x") ∷ []) ∷ []) (bytes "a.org")

-- A tree with keys that share prefixes, one a prefix of another.
abbrev tree : RadixTree ℕ
tree =
    insert (insert (insert new_tree (bytes "team.org") (some 1)) (bytes "test.org") (some 2))
      (bytes "te") (some 3)

tree_runs :
    (search tree (bytes "test.org") ≡ some (some 2))
    × (search tree (bytes "te") ≡ some (some 3))
    × (search tree (bytes "tes") ≡ none)
    × (matches_wildcard tree (bytes "a.b.team.org") ≡ some (some 1))
    × (tree.size ≡ 3)
unfolding insert search matches_wildcard insert_node has_prefix place split join
tree_runs = (refl, refl, refl, refl, refl)

search-insert_example : search (insert tree (bytes "tea") (some 9)) (bytes "team.org") ≡ (
    if bytes_eq (bytes "team.org") (bytes "tea")
    then some (some 9)
    else search tree (bytes "team.org"))
search-insert_example = search-insert tree b't' (bytes "ea") (some 9) (bytes "team.org")

size-insert_example :
    (insert tree (bytes "tea") (some 9)).size ≡ tree.size + missing (search tree (bytes "tea"))
size-insert_example = size-insert tree b't' (bytes "ea") (some 9)

matches_wildcard-eq-first_suffix_example :
    matches_wildcard tree (bytes "a.b.team.org") ≡ first_suffix tree (bytes "a.b.team.org")
matches_wildcard-eq-first_suffix_example =
    matches_wildcard-eq-first_suffix tree (bytes "a.b.team.org")

abbrev filter : BloomFilter
filter = new_bloom_filter small_float 3 0

filter_runs :
    (Bloom.contains (Bloom.add filter (bytes "a.org")) (bytes "a.org") ≡ true)
    × (Bloom.contains (Bloom.add filter (bytes "a.org")) (bytes "b.org") ≡ false)
    × (get_hashes (bytes "a") ≡ (0xaf63bd4c8601b7be, 0xaf63dc4c8601ec8c))
unfolding Bloom.contains Bloom.add new_bloom_filter get_hashes bit_position set_bit bit_is_clear
filter_runs = (refl, refl, refl)

filter-IsSized : IsSized filter
filter-IsSized = new_bloom_filter-IsSized small_float 3 small_float-HasBits

contains-add_all_example :
    Bloom.contains (add_all filter (bytes "a.org" ∷ bytes "b.org" ∷ [])) (bytes "b.org") ≡ true
contains-add_all_example =
    contains-add_all filter (bytes "a.org" ∷ bytes "b.org" ∷ []) (bytes "b.org") filter-IsSized
      (inr (Memᴰ.tail (Memᴰ.head refl)))

position-lt-words_built_example :
    bit_position (get_hashes (bytes "a.org")) 6 (add_all filter (bytes "b.org" ∷ [])).size / 64
    < length (add_all filter (bytes "b.org" ∷ [])).bits
position-lt-words_built_example =
    position-lt-words_built small_float 3 (bytes "b.org" ∷ []) (bytes "a.org") 6 small_float-HasBits

abbrev used_store : MemoryStore
used_store = record empty_store {
  tables = record (empty_store.tables) {
    domains = (bytes "a.org", rule domain (bytes "a.org")) ∷ [];
  };
  entry_count = 1;
}

is_blocked-clear_example :
    (is_blocked 7 (clear 6 used_store) (bytes "a.org")
      ≡ new_blocking_result 7 false (bytes "a.org") none)
    × ((stats (clear 6 used_store)).total_entries ≡ 0)
    × ((stats (clear 6 used_store)).domain_entries ≡ 0)
    × ((stats (clear 6 used_store)).wildcard_entries ≡ 0)
    × ((stats (clear 6 used_store)).ip_entries ≡ 0)
    × ((stats (clear 6 used_store)).url_pattern_entries ≡ 0)
is_blocked-clear_example = is_blocked-clear 6 7 used_store (bytes "a.org")
