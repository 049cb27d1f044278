-- ===== src/Storage/MemoryStore/Verdict.antt =====
-- What a registry asks for, read off its list of entries: no tables, no tree and no filter.
use rkn_checker.Prelude.{
  Bool, true, false, List, [], ◌∷◌, Option, none, some, ok, err, drop, ◌≡◌, refl, arith,
}
use rkn_checker.Domain.Blocking.{new_blocking_rule}
use rkn_checker.Domain.Registry.{entry_pattern}
use rkn_checker.Text.{is_empty, Bytes, bytes, bytes_eq, trim_prefix, split, join}
use rkn_checker.Platform.{Platform}
use rkn_checker.Domain.Blocking.{domain, wildcard, ip, sni, BlockingType, BlockingRule}
use rkn_checker.Domain.Registry.{RegistryEntry, to_blocking_rule}
use rkn_checker.Storage.MemoryStore.{or_else}

-- The rule of an entry, if it has a valid one.
unfoldable pub entry_rule : Platform → RegistryEntry → Option BlockingRule
entry_rule platform e = elim (to_blocking_rule platform e) [ err bad ↦ none | ok rule ↦ some rule ]

-- An entry about this host: a domain or SNI entry, an address, a wildcard over this suffix.
unfoldable pub names_domain : Bytes → BlockingType → RegistryEntry → Bool
names_domain host domain e = bytes_eq host e.domain_name
names_domain host sni e = bytes_eq host e.domain_name
names_domain host _ e = false

unfoldable pub names_address : Bytes → BlockingType → RegistryEntry → Bool
names_address host ip e = bytes_eq host e.address
names_address host _ e = false

unfoldable pub names_suffix : Bytes → BlockingType → RegistryEntry → Bool
names_suffix suffix wildcard e = bytes_eq suffix (trim_prefix e.domain_name (bytes "*."))
names_suffix suffix _ e = false

abbrev pub given {ℓ} : {A : Type ℓ} → Bool → Option A → Option A
given true o = o
given false o = none

-- The rule of the last entry that has one and passes a test.
unfoldable pub last_rule :
    Platform → (BlockingType → RegistryEntry → Bool) → List RegistryEntry → Option BlockingRule
unfolding entry_rule
last_rule platform test [] = none
last_rule platform test (e ∷ es) =
    or_else (last_rule platform test es) (given (test e.entry_type e) (entry_rule platform e))

-- The first suffix, from the longest, under which there is a wildcard.
unfoldable pub suffix_rule : Platform → List RegistryEntry → List Bytes → Option BlockingRule
unfolding last_rule
suffix_rule platform es [] = none
suffix_rule platform es (part ∷ parts) =
    or_else (last_rule platform (names_suffix (join b'.' (part ∷ parts))) es)
      (suffix_rule platform es parts)

unfoldable pub verdict : Platform → List RegistryEntry → Bytes → Option BlockingRule
unfolding last_rule suffix_rule names_domain names_address
verdict platform es host = or_else (last_rule platform (names_domain host) es) (
    or_else (last_rule platform (names_address host) es)
      (suffix_rule platform es (drop 1 (split b'.' host))))

last_rule-none :
    (platform : Platform) (test : BlockingType → RegistryEntry → Bool) (es : List RegistryEntry)
    → ((e : RegistryEntry) → given (test e.entry_type e) (entry_rule platform e) ≡ none)
    → last_rule platform test es ≡ none
unfolding last_rule
last_rule-none platform test [] h = refl
last_rule-none platform test (e ∷ es) h = rw (last_rule-none platform test es h) (h e)

nameless_domain :
    (platform : Platform) (e : RegistryEntry)
    → given (names_domain [] e.entry_type e) (entry_rule platform e) ≡ none
unfolding names_domain entry_rule to_blocking_rule new_blocking_rule bytes_eq entry_pattern is_empty
nameless_domain platform e = ground arith

nameless_address :
    (platform : Platform) (e : RegistryEntry)
    → given (names_address [] e.entry_type e) (entry_rule platform e) ≡ none
unfolding names_address entry_rule to_blocking_rule new_blocking_rule bytes_eq entry_pattern
    is_empty
nameless_address platform e = ground arith

-- Nothing is asked about the empty name: a rule has a pattern.
pub verdict-nil : (platform : Platform) (es : List RegistryEntry) → verdict platform es [] ≡ none
unfolding verdict split
verdict-nil platform es = rw (
  last_rule-none platform (names_domain []) es (nameless_domain platform),
  last_rule-none platform (names_address []) es (nameless_address platform),
)

suffix_rule-no_entries :
    (platform : Platform) (parts : List Bytes) → suffix_rule platform [] parts ≡ none
unfolding suffix_rule last_rule
suffix_rule-no_entries platform [] = refl
suffix_rule-no_entries platform (part ∷ parts) = suffix_rule-no_entries platform parts

-- An empty registry asks nothing.
pub verdict-no_entries : (platform : Platform) (host : Bytes) → verdict platform [] host ≡ none
unfolding verdict last_rule
verdict-no_entries platform host = suffix_rule-no_entries platform (drop 1 (split b'.' host))
