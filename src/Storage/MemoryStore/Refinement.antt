-- ===== src/Storage/MemoryStore/Refinement.antt =====
-- The store after Update answers as the registry asks.
use rkn_checker.Prelude.{
  ℕ, ◌≡◌, refl, sym, ap, ◌∙◌, true, false, List, [], ◌∷◌, Option, none, some, ok, ok_inj, arith,
  inl, inr, Bool-cases, Option-cases, length, drop,
}
use mathlib.Core.Path.{subst}
use rkn_checker.Text.{Bytes, is_empty, join, split}
use rkn_checker.Platform.{Platform}
use rkn_checker.Domain.Blocking.{BlockingRule}
use rkn_checker.Domain.Registry.{RegistryEntry, Registry}
use rkn_checker.Storage.Dict.{Dict, get}
use rkn_checker.Storage.Radix.{RadixTree, search, matches_from, matches_wildcard}
use rkn_checker.Storage.Radix.Lookup.{search-new_tree}
use rkn_checker.Storage.Bloom.{FloatMath, BloomFilter, contains}
use rkn_checker.Storage.Bloom.Bounds.{HasBits}
use rkn_checker.Storage.MemoryStore.{
  MemoryStore, Tables, add_entries, new_tables, or_else, rule_at, patterns_at, first_pattern,
  find_rule, bloom_has_suffix, bloom_check, blocked_by, is_blocked, update,
}
use rkn_checker.Storage.MemoryStore.Verdict.{
  names_suffix, names_domain, names_address, last_rule, suffix_rule, verdict, verdict-nil,
}
use rkn_checker.Storage.MemoryStore.Build.{
  get_domains-add_entries, get_ips-add_entries, search-add_entries,
}
use rkn_checker.Storage.MemoryStore.Covered.{
  Covers, HasValues, IsCovered, add_entries-IsCovered, new_tables-IsCovered,
}

-- No rule matches the URL without text that the loop over urlPatterns hands it.
pub first_pattern-eq-none : (rules : List BlockingRule) → first_pattern rules ≡ none
unfolding first_pattern
first_pattern-eq-none [] = refl
first_pattern-eq-none (rule ∷ rules) = first_pattern-eq-none rules

patterns_at-eq-none : (o : Option (List BlockingRule)) → patterns_at o ≡ none
patterns_at-eq-none none = refl
patterns_at-eq-none (some rules) = first_pattern-eq-none rules

or_else-none {ℓ} : {A : Type ℓ} (o : Option A) → or_else o none ≡ o
or_else-none none = refl
or_else-none (some a) = refl

none_of_Covers :
    {A : Type 0} (find : Bytes → Option A) (f : BloomFilter) (key : Bytes)
    → Covers find f
    → contains f key ≡ false
    → find key ≡ none
none_of_Covers find f key h no_bit = elim (Option-cases (find key)) [
  | inl e ↦ e
  | inr (a, e) ↦ cc (h key a e)
]

-- A suffix that the tree holds passes the filter.
matches_from-none :
    (t : RadixTree BlockingRule) (f : BloomFilter) (parts : List Bytes)
    → Covers (search t) f
    → bloom_has_suffix f parts ≡ false
    → matches_from t parts ≡ none
unfolding matches_from bloom_has_suffix
matches_from-none t f [] h clear = refl
matches_from-none t f (part ∷ parts) h clear =
    ground (
      arith,
      none_of_Covers (search t) f (join b'.' (part ∷ parts)) h,
      matches_from-none t f parts h,
    )

-- Where the filter says no, no table has a rule.
find_rule-none :
    (t : Tables) (host : Bytes)
    → IsCovered t
    → bloom_check t.bloom host ≡ false
    → find_rule t host ≡ none
unfolding find_rule bloom_check matches_wildcard
find_rule-none t host c no_bit = ground (
  arith,
  none_of_Covers (get t.domains) t.bloom host c.domains,
  none_of_Covers (get t.ips) t.bloom host c.ips,
  matches_from-none t.wildcards t.bloom (drop 1 (split b'.' host)) c.wildcards,
  patterns_at-eq-none (get t.url_patterns host),
)

-- The filter changes no answer.
is_blocked-eq-find_rule :
    (now : ℕ) (store : MemoryStore) (host : Bytes)
    → IsCovered store.tables
    → is_empty host ≡ false
    → is_blocked now store host ≡ blocked_by now host (find_rule store.tables host)
unfolding is_blocked
is_blocked-eq-find_rule now store host c named = elim (Bool-cases (bloom_check store.bloom host)) [
  | inl passed ↦ rw (named, passed)
  | inr stopped ↦ rw (named, stopped, find_rule-none store.tables host c stopped)
]

is_blocked-none :
    (now : ℕ) (store : MemoryStore) (host : Bytes)
    → is_empty host ≡ true
    → is_blocked now store host ≡ blocked_by now host none
unfolding is_blocked
is_blocked-none now store host empty = rw empty

verdict-none :
    (platform : Platform) (es : List RegistryEntry) (host : Bytes)
    → is_empty host ≡ true
    → verdict platform es host ≡ none
unfolding is_empty
verdict-none platform es [] empty = verdict-nil platform es
verdict-none platform es (c ∷ host) empty = cc

module _ (platform : Platform) (es : List RegistryEntry) (t : RadixTree BlockingRule)
    (valued : HasValues t)
    (holds : (s : Bytes) → rule_at (search t s) ≡ last_rule platform (names_suffix s) es) where
  matches_from-eq-suffix_rule :
      (parts : List Bytes) → rule_at (matches_from t parts) ≡ suffix_rule platform es parts
  unfolding matches_from suffix_rule
  matches_from-eq-suffix_rule [] = refl
  matches_from-eq-suffix_rule (part ∷ parts) = ground (
    arith,
    holds (join b'.' (part ∷ parts)),
    valued (join b'.' (part ∷ parts)),
    matches_from-eq-suffix_rule parts,
  )

module _ (platform : Platform) (float : FloatMath) (n : ℕ) (es : List RegistryEntry)
    (positive : HasBits float) where
  built : Tables
  built = add_entries platform (new_tables float n) es

  search-built :
      (s : Bytes) → rule_at (search built.wildcards s) ≡ last_rule platform (names_suffix s) es
  unfolding built
  search-built s =
      search-add_entries platform (new_tables float n) es s ∙ rw search-new_tree (or_else-none _)

  built_lem : add_entries platform (new_tables float n) es ≡ built
  unfolding built
  built_lem = refl

  get_domains-built :
      (host : Bytes) → get built.domains host ≡ last_rule platform (names_domain host) es
  unfolding built get
  get_domains-built host =
      get_domains-add_entries platform (new_tables float n) es host ∙ or_else-none _

  get_ips-built : (host : Bytes) → get built.ips host ≡ last_rule platform (names_address host) es
  unfolding built get
  get_ips-built host = get_ips-add_entries platform (new_tables float n) es host ∙ or_else-none _

  IsCovered-built : IsCovered built
  unfolding built
  IsCovered-built =
      add_entries-IsCovered platform (new_tables float n) es (new_tables-IsCovered float n positive)

  find_rule-built : (host : Bytes) → find_rule built host ≡ verdict platform es host
  unfolding find_rule verdict matches_wildcard
  find_rule-built host = rw (
    get_domains-built host,
    get_ips-built host,
    matches_from-eq-suffix_rule platform es built.wildcards IsCovered-built.values search-built
        (drop 1 (split b'.' host)),
    patterns_at-eq-none (get built.url_patterns host),
    or_else-none (suffix_rule platform es (drop 1 (split b'.' host))),
  )

  -- IsBlocked over these tables, whatever the other fields hold.
  is_blocked-built :
      (now : ℕ) (store : MemoryStore) (host : Bytes)
      → store.tables ≡ built
      → is_blocked now store host ≡ blocked_by now host (verdict platform es host)
  is_blocked-built now store host same = elim (Bool-cases (is_empty host)) [
    | inl empty ↦ is_blocked-none now store host empty ∙ rw (verdict-none platform es host empty)
    | inr named ↦
        is_blocked-eq-find_rule now store host (rw same IsCovered-built) named
        ∙ ap (blocked_by now host) (rw same (find_rule-built host))
  ]

-- Update succeeds with every registry, whatever the store held before, and IsBlocked then answers
-- at every URL as the list of entries asks: blocked, with the rule of the last valid domain or SNI
-- entry of that name, else of the last valid address entry, else of the last valid wildcard over
-- the longest proper suffix that has one, and not blocked if there is none. The formula for the
-- filter's size is assumed to give at least one bit, and so few that 63 more do not wrap in 64 bits.
pub is_blocked-update :
    (platform : Platform) (float : FloatMath) (then_time now : ℕ) (store : MemoryStore)
    (registry : Registry) (host : Bytes)
    → HasBits float
    → (store' : MemoryStore) × (update platform float then_time store (some registry) ≡ ok store')
      × (is_blocked now store' host ≡ blocked_by now host (verdict platform registry.entries host))
unfolding update
is_blocked-update platform float then_time now store registry host positive = (
  _,
  refl,
  is_blocked-built platform float (length registry.entries) registry.entries positive now _ host
      (built_lem platform float (length registry.entries) registry.entries positive),
)

-- The same of any store that Update returned.
pub is_blocked_of_update :
    (platform : Platform) (float : FloatMath) (then_time now : ℕ) (store store' : MemoryStore)
    (registry : Registry) (host : Bytes)
    → HasBits float
    → update platform float then_time store (some registry) ≡ ok store'
    → is_blocked now store' host ≡ blocked_by now host (verdict platform registry.entries host)
is_blocked_of_update platform float then_time now store store' registry host positive e =
    let (found, done, answers) =
      is_blocked-update platform float then_time now store registry host positive in
    let same : found ≡ store' = ok_inj (sym done ∙ e) in
    subst
      (λ s. is_blocked now s host ≡ blocked_by now host (verdict platform registry.entries host))
      same answers

pub update-ok :
    (platform : Platform) (float : FloatMath) (now : ℕ) (store : MemoryStore) (registry : Registry)
    → (store' : MemoryStore) × (update platform float now store (some registry) ≡ ok store')
unfolding update
update-ok platform float now store registry = (_, refl)

pub entry_count-update :
    (platform : Platform) (float : FloatMath) (now : ℕ) (store store' : MemoryStore)
    (registry : Registry)
    → update platform float now store (some registry) ≡ ok store'
    → store'.entry_count ≡ length registry.entries
unfolding update
entry_count-update platform float now store store' registry e =
    sym (ap (λ s. s.entry_count) (ok_inj e))

-- What the store holds for URL paths changes no answer.
pub is_blocked-url_patterns :
    (now : ℕ) (store : MemoryStore) (patterns : Dict (List BlockingRule)) (host : Bytes)
    → is_blocked now
        (record store { tables = record (store.tables) { url_patterns = patterns } })
        host
      ≡ is_blocked now store host
unfolding is_blocked find_rule
is_blocked-url_patterns now store patterns host =
    rw (patterns_at-eq-none (get patterns host), patterns_at-eq-none (get store.url_patterns host))
