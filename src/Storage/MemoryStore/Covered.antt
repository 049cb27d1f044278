-- ===== src/Storage/MemoryStore/Covered.antt =====
-- The filter contains every key of every table, at every moment of Update's loop.
use rkn_checker.Prelude.{
  ℕ, ◌≡◌, refl, ◌≢◌, true, false, List, [], ◌∷◌, Option, none, some, if◌then◌else◌, arith, inl, inr,
  Bool-cases, Result-cases,
}
use rkn_checker.Text.{Bytes, bytes, bytes_eq, is_empty, trim_prefix}
use rkn_checker.Text.Laws.{eq_of_bytes_eq}
use rkn_checker.Platform.{Platform}
use rkn_checker.Domain.Blocking.{
  BlockingType, unknown, domain, wildcard, ip, url_path, sni, BlockingRule,
}
use rkn_checker.Domain.Registry.{RegistryEntry, to_blocking_rule}
use rkn_checker.Storage.Dict.{get, get-put}
use rkn_checker.Storage.Radix.{RadixTree, search}
use rkn_checker.Storage.Radix.Lookup.{search-insert_named, search-new_tree}
use rkn_checker.Storage.Bloom.{FloatMath, BloomFilter, contains, add}
use rkn_checker.Storage.Bloom.Contains.{contains-add_self, contains-add_keeps}
use rkn_checker.Storage.Bloom.Bounds.{IsSized, add-IsSized, new_bloom_filter-IsSized, HasBits}
use rkn_checker.Storage.MemoryStore.{
  Tables, add_rule, add_domain, add_pattern, add_entry, add_entries, new_tables, extract_domain,
}
use rkn_checker.Storage.MemoryStore.Build.{wildcard_named}

-- Every key that a lookup finds is in the filter.
abbrev pub Covers : {A : Type 0} → (Bytes → Option A) → BloomFilter → Type 0
Covers {A} find f = (key : Bytes) (a : A) → find key ≡ some a → contains f key ≡ true

Covers-add :
    {A : Type 0} (find : Bytes → Option A) (f : BloomFilter) (item : Bytes)
    → Covers find f
    → Covers find (add f item)
Covers-add find f item h key a e = contains-add_keeps f item key (h key a e)

-- One more key, added to the filter too.
Covers-write :
    {A : Type 0} (find find' : Bytes → Option A) (f : BloomFilter) (item : Bytes) (v : A)
    → IsSized f
    → ((key : Bytes) → find' key ≡ (if bytes_eq key item then some v else find key))
    → Covers find f
    → Covers find' (add f item)
Covers-write find find' f item v sized writes h key a e = elim (Bool-cases (bytes_eq key item)) [
  | inl same ↦ rw (eq_of_bytes_eq key item same) (contains-add_self f item sized)
  | inr other ↦ contains-add_keeps f item key (h key a (ground (arith, writes key)))
]

-- A lookup in the tree never finds a nil value.
abbrev pub HasValues : RadixTree BlockingRule → Type 0
HasValues t = (key : Bytes) → search t key ≢ some none

pub record IsCovered (t : Tables) : Type 0 where
  pub sized : IsSized t.bloom
  pub domains : Covers (get t.domains) t.bloom
  pub ips : Covers (get t.ips) t.bloom
  pub wildcards : Covers (search t.wildcards) t.bloom
  pub url_patterns : Covers (get t.url_patterns) t.bloom
  pub values : HasValues t.wildcards

module _ (platform : Platform) (t : Tables) (c : IsCovered t) where
  add_domain-IsCovered : (name : Bytes) (rule : BlockingRule) → IsCovered (add_domain t name rule)
  unfolding add_domain
  add_domain-IsCovered name rule = record {
    sized = add-IsSized t.bloom name c.sized;
    domains = Covers-write _ _ t.bloom name rule c.sized (get-put t.domains name rule) c.domains;
    ips = Covers-add _ t.bloom name c.ips;
    wildcards = Covers-add _ t.bloom name c.wildcards;
    url_patterns = Covers-add _ t.bloom name c.url_patterns;
    values = c.values;
  }

  add_pattern-IsCovered : (host : Bytes) (rule : BlockingRule) → IsCovered (add_pattern t host rule)
  unfolding add_pattern
  add_pattern-IsCovered host rule = elim (Bool-cases (is_empty host)) [
    | inl none_there ↦ rw none_there c
    | inr named ↦ rw named (record {
      sized = add-IsSized t.bloom host c.sized;
      domains = Covers-add _ t.bloom host c.domains;
      ips = Covers-add _ t.bloom host c.ips;
      wildcards = Covers-add _ t.bloom host c.wildcards;
      url_patterns =
          Covers-write _ _ t.bloom host _ c.sized (get-put t.url_patterns host _) c.url_patterns;
      values = c.values;
    })
  ]

  add_wildcard-IsCovered :
      (e : RegistryEntry) (rule : BlockingRule)
      → is_empty (trim_prefix e.domain_name (bytes "*.")) ≡ false
      → IsCovered (add_rule platform t wildcard e rule)
  unfolding add_rule
  add_wildcard-IsCovered e rule named =
      let pattern = trim_prefix e.domain_name (bytes "*.") in
      let writes = λ (key : Bytes). search-insert_named t.wildcards pattern (some rule) key named in
      record {
        sized = add-IsSized t.bloom pattern c.sized;
        domains = Covers-add _ t.bloom pattern c.domains;
        ips = Covers-add _ t.bloom pattern c.ips;
        wildcards = Covers-write _ _ t.bloom pattern (some rule) c.sized writes c.wildcards;
        url_patterns = Covers-add _ t.bloom pattern c.url_patterns;
        values = λ key. ground (arith, writes key, c.values key);
      }

  add_rule-IsCovered :
      (kind : BlockingType) (e : RegistryEntry) (rule : BlockingRule)
      → (kind ≡ wildcard → is_empty (trim_prefix e.domain_name (bytes "*.")) ≡ false)
      → IsCovered (add_rule platform t kind e rule)
  unfolding add_rule
  add_rule-IsCovered domain e rule named = add_domain-IsCovered e.domain_name rule
  add_rule-IsCovered sni e rule named = add_domain-IsCovered e.domain_name rule
  add_rule-IsCovered wildcard e rule named = add_wildcard-IsCovered e rule (named refl)
  add_rule-IsCovered url_path e rule named =
      add_pattern-IsCovered (extract_domain platform e.url) rule
  add_rule-IsCovered unknown e rule named = c
  add_rule-IsCovered ip e rule named = record {
    sized = add-IsSized t.bloom e.address c.sized;
    domains = Covers-add _ t.bloom e.address c.domains;
    ips = Covers-write _ _ t.bloom e.address rule c.sized (get-put t.ips e.address rule) c.ips;
    wildcards = Covers-add _ t.bloom e.address c.wildcards;
    url_patterns = Covers-add _ t.bloom e.address c.url_patterns;
    values = c.values;
  }

  add_entry-IsCovered : (e : RegistryEntry) → IsCovered (add_entry platform t e)
  unfolding add_entry
  add_entry-IsCovered e = elim (Result-cases (to_blocking_rule platform e)) [
    | inl (rule, valid) ↦
        rw (valid, add_entry)
          (add_rule-IsCovered e.entry_type e rule (λ kind. wildcard_named platform t e kind valid))
    | inr (bad, invalid) ↦ rw (invalid, add_entry) c
  ]

pub add_entries-IsCovered :
    (platform : Platform) (t : Tables) (es : List RegistryEntry)
    → IsCovered t
    → IsCovered (add_entries platform t es)
unfolding add_entries
add_entries-IsCovered platform t [] c = c
add_entries-IsCovered platform t (e ∷ es) c =
    add_entries-IsCovered platform (add_entry platform t e) es (add_entry-IsCovered platform t c e)

pub new_tables-IsCovered :
    (float : FloatMath) (n : ℕ) → HasBits float → IsCovered (new_tables float n)
unfolding get
new_tables-IsCovered float n h = record {
  sized = new_bloom_filter-IsSized float n h;
  domains = λ key a e. cc;
  ips = λ key a e. cc;
  wildcards = λ key a e. cc (search-new_tree {V = BlockingRule} key);
  url_patterns = λ key a e. cc;
  values = λ key e. cc (search-new_tree {V = BlockingRule} key);
}
