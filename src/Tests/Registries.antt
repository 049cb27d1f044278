-- ===== src/Tests/Registries.antt =====
-- Updates with one registry in two orders, and what Stats counts after one.
use mathlib.Core.List.Perm
use rkn_checker.Prelude.{◌≡◌, refl, List, [], ◌∷◌, ◌++◌, some, ok, length}
use rkn_checker.Text.{bytes, bytes_eq, trim_prefix}
use rkn_checker.Domain.Url.{is_valid_domain, is_valid_ip}
use rkn_checker.Domain.Blocking.{new_blocking_rule, validate}
use rkn_checker.Domain.Registry.{Registry, RegistryEntry, to_blocking_rule}
use rkn_checker.Storage.MemoryStore.{
  MemoryStore, update, is_blocked, stats, size, get_last_update_time,
}
use rkn_checker.Storage.MemoryStore.Refinement.{update-ok}
use rkn_checker.Storage.MemoryStore.Unordered.{is_blocked-Perm}
use rkn_checker.Storage.MemoryStore.Keys.{
  distinct, keys_of, domain_key, suffix_key, address_key, host_key,
}
use rkn_checker.Storage.MemoryStore.Counts.{stats-update}
use rkn_checker.Tests.Platforms.{small_platform, small_float, small_float-HasBits}
use rkn_checker.Tests.Stores.{registry, empty_store}

-- The entries of `registry`, the first two in the other order.
abbrev reordered : List RegistryEntry → List RegistryEntry
reordered (first ∷ second ∷ others) = second ∷ first ∷ others
reordered others = others

abbrev other_registry : Registry
other_registry = record registry { entries = reordered registry.entries }

taken :
    (r : Registry)
    → (store' : MemoryStore) × (update small_platform small_float 5 empty_store (some r)
        ≡ ok store')
taken r = update-ok small_platform small_float 5 empty_store r

is_blocked-Perm_example :
    (is_blocked 7 (taken registry).0 (bytes "a.b.bad.org")).is_blocked
    ≡ (is_blocked 7 (taken other_registry).0 (bytes "a.b.bad.org")).is_blocked
is_blocked-Perm_example =
    is_blocked-Perm small_platform small_float 5 5 7 empty_store empty_store (taken registry).0
      (taken other_registry).0 registry other_registry (bytes "a.b.bad.org") small_float-HasBits
      (Perm.swap _ _ _) (taken registry).1 (taken other_registry).1

-- One name listed twice is counted once.
abbrev repeated : Registry
repeated = record registry { entries = registry.entries ++ registry.entries }

counts_run :
    (distinct [] (keys_of small_platform domain_key repeated.entries) ≡ 1)
    × (distinct [] (keys_of small_platform suffix_key repeated.entries) ≡ 1)
    × (distinct [] (keys_of small_platform address_key repeated.entries) ≡ 1)
    × (distinct [] (keys_of small_platform (host_key small_platform) repeated.entries) ≡ 0)
unfolding distinct keys_of to_blocking_rule new_blocking_rule validate is_valid_domain domain_key
    trim_prefix is_valid_ip suffix_key address_key host_key bytes_eq
counts_run = (refl, refl, refl, refl)

stats-update_example :
    (store' : MemoryStore) × (update small_platform small_float 5 empty_store (some repeated)
      ≡ ok store')
    × (size store' ≡ length repeated.entries)
    × (get_last_update_time store' ≡ 5)
    × ((stats store').total_entries ≡ length repeated.entries)
    × ((stats store').stats_version ≡ repeated.version)
    × ((stats store').stats_last_update ≡ 5)
    × ((stats store').domain_entries
        ≡ distinct [] (keys_of small_platform domain_key repeated.entries))
    × ((stats store').wildcard_entries
        ≡ distinct [] (keys_of small_platform suffix_key repeated.entries))
    × ((stats store').ip_entries
        ≡ distinct [] (keys_of small_platform address_key repeated.entries))
    × ((stats store').url_pattern_entries
        ≡ distinct [] (keys_of small_platform (host_key small_platform) repeated.entries))
stats-update_example = stats-update small_platform small_float 5 empty_store repeated
