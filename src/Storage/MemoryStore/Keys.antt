-- ===== src/Storage/MemoryStore/Keys.antt =====
-- The keys of a registry's entries in each table, how many of them are different, and tables as the
-- keys that they hold.
use rkn_checker.Prelude.{
  ℕ, ◌+◌, ◌≡◌, refl, Bool, true, false, ◌||◌, List, [], ◌∷◌, Option, none, some, arith, length,
  if◌then◌else◌,
}
use rkn_checker.Text.{Bytes, bytes, bytes_eq, is_empty, trim_prefix}
use rkn_checker.Platform.{Platform}
use rkn_checker.Domain.Blocking.{BlockingType, domain, wildcard, ip, url_path, sni}
use rkn_checker.Domain.Registry.{RegistryEntry}
use rkn_checker.Storage.Dict.{Dict, get, put, get-put}
use rkn_checker.Storage.Radix.{RadixTree, search, insert}
use rkn_checker.Storage.Radix.Size.{size-insert}
use rkn_checker.Storage.Radix.Lookup.{search-insert_named}
use rkn_checker.Storage.MemoryStore.{extract_domain}
use rkn_checker.Storage.MemoryStore.Verdict.{entry_rule}

-- The key under which an entry stands in each of the tables.
unfoldable pub domain_key : BlockingType → RegistryEntry → Option Bytes
domain_key domain e = some e.domain_name
domain_key sni e = some e.domain_name
domain_key _ e = none

unfoldable pub address_key : BlockingType → RegistryEntry → Option Bytes
address_key ip e = some e.address
address_key _ e = none

unfoldable pub suffix_key : BlockingType → RegistryEntry → Option Bytes
suffix_key wildcard e = some (trim_prefix e.domain_name (bytes "*."))
suffix_key _ e = none

unfoldable pub host_key : Platform → BlockingType → RegistryEntry → Option Bytes
host_key platform url_path e =
    let host = extract_domain platform e.url in if is_empty host then none else some host
host_key platform _ e = none

abbrev pub with_key : Option Bytes → List Bytes → List Bytes
with_key none keys = keys
with_key (some key) keys = key ∷ keys

-- The key of an entry, if it has a valid rule.
abbrev pub kept : {A : Type 0} → Option A → Option Bytes → Option Bytes
kept none key = none
kept (some rule) key = key

unfoldable pub keys_of :
    Platform → (BlockingType → RegistryEntry → Option Bytes) → List RegistryEntry → List Bytes
unfolding entry_rule
keys_of platform pick [] = []
keys_of platform pick (e ∷ es) =
    with_key (kept (entry_rule platform e) (pick e.entry_type e)) (keys_of platform pick es)

unfoldable pub elem : Bytes → List Bytes → Bool
elem key [] = false
elem key (k ∷ seen) = bytes_eq key k || elem key seen

-- How many different keys there are in a list that were not seen before it.
unfoldable pub distinct : List Bytes → List Bytes → ℕ
unfolding elem
distinct seen [] = 0
distinct seen (key ∷ keys) = (if elem key seen then 0 else 1) + distinct (key ∷ seen) keys

abbrev pub present {ℓ} : {A : Type ℓ} → Option A → Bool
present none = false
present (some a) = true

-- How many keys a table holds, and which.
pub record Table : Type 0 where
  pub count : ℕ
  pub has : Bytes → Bool

abbrev pub Adds : Table → Table → Option Bytes → Type 0
Adds old new none = (new.count ≡ old.count) × ((j : Bytes) → new.has j ≡ old.has j)
Adds old new (some key) =
    (new.count ≡ old.count + (if old.has key then 0 else 1))
    × ((j : Bytes) → new.has j ≡ (bytes_eq j key || old.has j))

pub same : (table : Table) → Adds table table none
same table = (refl, λ j. refl)

unfoldable pub dict : {V : Type 0} → Dict V → Table
dict m = record { count = length m; has = λ j. present (get m j) }

unfoldable pub tree : {V : Type 0} → RadixTree V → Table
tree t = record { count = t.size; has = λ j. present (search t j) }

length-put :
    {V : Type 0} (m : Dict V) (key : Bytes) (v : V)
    → length (put m key v) ≡ length m + (if present (get m key) then 0 else 1)
unfolding get put
length-put [] key v = refl
length-put ((k, w) ∷ m) key v = ground (arith, length-put m key v)

pub put-Adds :
    {V : Type 0} (m : Dict V) (key : Bytes) (v : V) → Adds (dict m) (dict (put m key v)) (some key)
unfolding dict
put-Adds m key v = (length-put m key v, λ j. ground (arith, get-put m key v j))

pub insert-Adds :
    {V : Type 0} (t : RadixTree V) (key : Bytes) (v : Option V)
    → is_empty key ≡ false
    → Adds (tree t) (tree (insert t key v)) (some key)
unfolding tree is_empty
insert-Adds t [] v named = cc
insert-Adds t (c ∷ key) v named = (
  ground (arith, size-insert t c key v),
  λ j. ground (arith, search-insert_named t (c ∷ key) v j named),
)
