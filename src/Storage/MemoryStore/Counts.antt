-- ===== src/Storage/MemoryStore/Counts.antt =====
-- What Stats reports after an Update: the sizes of the tables, counted off the entries.
use rkn_checker.Prelude.{
  ℕ, ◌+◌, ◌≡◌, refl, ap, ◌∙◌, false, List, [], ◌∷◌, Option, none, some, ok, arith, inl, inr,
  Bool-cases, Result-cases, length,
}
use rkn_checker.Text.{Bytes, bytes, is_empty, trim_prefix}
use rkn_checker.Platform.{Platform}
use rkn_checker.Domain.Blocking.{BlockingType, domain, wildcard, ip, url_path, sni, BlockingRule}
use rkn_checker.Domain.Registry.{RegistryEntry, Registry, to_blocking_rule}
use rkn_checker.Storage.Dict.{get}
use rkn_checker.Storage.Radix.Lookup.{search-new_tree}
use rkn_checker.Storage.Bloom.{FloatMath}
use rkn_checker.Storage.MemoryStore.{
  Tables, add_rule, add_entry, add_entries, new_tables, extract_domain, MemoryStore, stats, update,
  add_pattern, size, get_last_update_time,
}
use rkn_checker.Storage.MemoryStore.Build.{wildcard_named}
use rkn_checker.Storage.MemoryStore.Verdict.{entry_rule}
use rkn_checker.Storage.MemoryStore.Keys.{
  domain_key, address_key, suffix_key, host_key, with_key, kept, keys_of, elem, distinct, present,
  Table, Adds, same, dict, tree, put-Adds, insert-Adds,
}

add_rule-domains :
    (platform : Platform) (t : Tables) (kind : BlockingType) (e : RegistryEntry)
    (rule : BlockingRule)
    → Adds (dict t.domains) (dict (add_rule platform t kind e rule).domains) (domain_key kind e)
unfolding add_rule domain_key
add_rule-domains platform t domain e rule = put-Adds t.domains e.domain_name rule
add_rule-domains platform t sni e rule = put-Adds t.domains e.domain_name rule
add_rule-domains platform t url_path e rule = ground (arith, same (dict t.domains))
add_rule-domains platform t _ e rule = same (dict t.domains)

add_rule-ips :
    (platform : Platform) (t : Tables) (kind : BlockingType) (e : RegistryEntry)
    (rule : BlockingRule)
    → Adds (dict t.ips) (dict (add_rule platform t kind e rule).ips) (address_key kind e)
unfolding add_rule address_key
add_rule-ips platform t ip e rule = put-Adds t.ips e.address rule
add_rule-ips platform t url_path e rule = ground (arith, same (dict t.ips))
add_rule-ips platform t _ e rule = same (dict t.ips)

add_rule-wildcards :
    (platform : Platform) (t : Tables) (kind : BlockingType) (e : RegistryEntry)
    (rule : BlockingRule)
    → (kind ≡ wildcard → is_empty (trim_prefix e.domain_name (bytes "*.")) ≡ false)
    → Adds (tree t.wildcards) (tree (add_rule platform t kind e rule).wildcards) (suffix_key kind e)
unfolding add_rule suffix_key
add_rule-wildcards platform t wildcard e rule named =
    insert-Adds t.wildcards (trim_prefix e.domain_name (bytes "*.")) (some rule) (named refl)
add_rule-wildcards platform t url_path e rule named = ground (arith, same (tree t.wildcards))
add_rule-wildcards platform t _ e rule named = same (tree t.wildcards)

add_rule-url_patterns :
    (platform : Platform) (t : Tables) (kind : BlockingType) (e : RegistryEntry)
    (rule : BlockingRule)
    → Adds
        (dict t.url_patterns)
        (dict (add_rule platform t kind e rule).url_patterns)
        (host_key platform kind e)
unfolding add_rule host_key add_pattern
add_rule-url_patterns platform t url_path e rule =
    elim (Bool-cases (is_empty (extract_domain platform e.url))) [
      | inl nowhere ↦ rw nowhere (same (dict t.url_patterns))
      | inr named ↦ rw named (put-Adds t.url_patterns (extract_domain platform e.url) _)
    ]
add_rule-url_patterns platform t _ e rule = same (dict t.url_patterns)

-- How one table grows over a round of the loop, and over the loop.
module _ (platform : Platform) (view : Tables → Table)
    (pick : BlockingType → RegistryEntry → Option Bytes)
    (each : (t : Tables) (e : RegistryEntry) (rule : BlockingRule)
      → to_blocking_rule platform e ≡ ok rule
      → Adds (view t) (view (add_rule platform t e.entry_type e rule)) (pick e.entry_type e)) where
  view-add_entry :
      (t : Tables) (e : RegistryEntry)
      → Adds
          (view t)
          (view (add_entry platform t e))
          (kept (entry_rule platform e) (pick e.entry_type e))
  unfolding add_entry entry_rule
  view-add_entry t e = elim (Result-cases (to_blocking_rule platform e)) [
    | inl (rule, valid) ↦ rw (valid, add_entry, entry_rule) (each t e rule valid)
    | inr (bad, invalid) ↦ rw (invalid, add_entry, entry_rule) (same (view t))
  ]

  count-grown :
      (old new : Table) (key : Option Bytes) (keys seen : List Bytes) (total : ℕ)
      → Adds old new key
      → ((j : Bytes) → old.has j ≡ elem j seen)
      → ((seen' : List Bytes)
          → ((j : Bytes) → new.has j ≡ elem j seen')
          → total ≡ new.count + distinct seen' keys)
      → total ≡ old.count + distinct seen (with_key key keys)
  unfolding distinct
  count-grown old new none keys seen total (grown, has) known later =
      rw grown at (later seen (λ j. has j ∙ known j))
  count-grown old new (some key) keys seen total (grown, has) known later =
      ground (arith, grown, known key, later (key ∷ seen) (λ j. unfold elem in has j ∙ rw known))

  count-add_entries :
      (t : Tables) (es : List RegistryEntry) (seen : List Bytes)
      → ((j : Bytes) → (view t).has j ≡ elem j seen)
      → (view (add_entries platform t es)).count
        ≡ (view t).count + distinct seen (keys_of platform pick es)
  unfolding add_entries keys_of distinct
  count-add_entries t [] seen known = omega arith
  count-add_entries t (e ∷ es) seen known =
      count-grown (view t) (view (add_entry platform t e)) _ (keys_of platform pick es) seen _
        (view-add_entry t e) known
        (λ seen' known'. count-add_entries (add_entry platform t e) es seen' known')

  count_from_empty :
      (t : Tables) (es : List RegistryEntry)
      → (view t).count ≡ 0
      → ((j : Bytes) → (view t).has j ≡ false)
      → (view (add_entries platform t es)).count ≡ distinct [] (keys_of platform pick es)
  unfolding elem
  count_from_empty t es none_there empty =
      omega (arith, none_there, count-add_entries t es [] empty)

-- The tables after the loop, from empty ones.
module _ (platform : Platform) (float : FloatMath) (n : ℕ) (es : List RegistryEntry) where
  length-domains :
      length (add_entries platform (new_tables float n) es).domains
      ≡ distinct [] (keys_of platform domain_key es)
  unfolding dict get
  length-domains =
      count_from_empty platform (λ t. dict t.domains) domain_key
        (λ t e rule valid. add_rule-domains platform t e.entry_type e rule) (new_tables float n) es
        refl (λ j. refl)

  length-ips :
      length (add_entries platform (new_tables float n) es).ips
      ≡ distinct [] (keys_of platform address_key es)
  unfolding dict get
  length-ips =
      count_from_empty platform (λ t. dict t.ips) address_key
        (λ t e rule valid. add_rule-ips platform t e.entry_type e rule) (new_tables float n) es refl
        (λ j. refl)

  size-wildcards :
      (add_entries platform (new_tables float n) es).wildcards.size
      ≡ distinct [] (keys_of platform suffix_key es)
  unfolding tree
  size-wildcards =
      count_from_empty platform (λ t. tree t.wildcards) suffix_key
        (λ t e rule valid.
          add_rule-wildcards platform t e.entry_type e rule
            (λ kind. wildcard_named platform t e kind valid))
        (new_tables float n) es refl (λ j. ap present (search-new_tree j))

  length-url_patterns :
      length (add_entries platform (new_tables float n) es).url_patterns
      ≡ distinct [] (keys_of platform (host_key platform) es)
  unfolding dict get
  length-url_patterns =
      count_from_empty platform (λ t. dict t.url_patterns) (host_key platform)
        (λ t e rule valid. add_rule-url_patterns platform t e.entry_type e rule)
        (new_tables float n) es refl (λ j. refl)

-- After an Update with a registry, whatever the store held before, Size and Stats report the number
-- of the registry's entries, valid or not, and GetLastUpdateTime and Stats the time of the Update;
-- Stats reports the registry's version, and for the four tables the numbers of different keys among the valid entries: the names of domain and SNI
-- entries, the names of wildcards without `*.`, the addresses, and the hosts, where there is one,
-- of URL paths.
pub stats-update :
    (platform : Platform) (float : FloatMath) (now : ℕ) (store : MemoryStore) (registry : Registry)
    → (store' : MemoryStore) × (update platform float now store (some registry) ≡ ok store')
      × (size store' ≡ length registry.entries)
      × (get_last_update_time store' ≡ now)
      × ((stats store').total_entries ≡ length registry.entries)
      × ((stats store').stats_version ≡ registry.version)
      × ((stats store').stats_last_update ≡ now)
      × ((stats store').domain_entries ≡ distinct [] (keys_of platform domain_key registry.entries))
      × ((stats store').wildcard_entries
          ≡ distinct [] (keys_of platform suffix_key registry.entries))
      × ((stats store').ip_entries ≡ distinct [] (keys_of platform address_key registry.entries))
      × ((stats store').url_pattern_entries
          ≡ distinct [] (keys_of platform (host_key platform) registry.entries))
unfolding update stats size get_last_update_time
stats-update platform float now store registry = (
  _,
  refl,
  refl,
  refl,
  refl,
  refl,
  refl,
  length-domains platform float (length registry.entries) registry.entries,
  size-wildcards platform float (length registry.entries) registry.entries,
  length-ips platform float (length registry.entries) registry.entries,
  length-url_patterns platform float (length registry.entries) registry.entries,
)
