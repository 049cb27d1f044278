-- ===== src/Storage/MemoryStore/Cleared.antt =====
-- The store after Clear.
use rkn_checker.Prelude.{ℕ, ◌≡◌, refl, false, List, [], ◌∷◌, none, Bool-cases, inl, inr, drop}
use rkn_checker.Text.{Bytes, is_empty, split, join}
use rkn_checker.Domain.Blocking.{new_blocking_result}
use rkn_checker.Storage.Dict.{get}
use rkn_checker.Storage.Radix.{new_tree, matches_from, matches_wildcard}
use rkn_checker.Storage.Radix
use rkn_checker.Storage.Radix.Lookup.{search-new_tree}
use rkn_checker.Storage.MemoryStore.{
  MemoryStore, bloom_check, find_rule, is_blocked, clear, stats, new_memory_store,
}
use rkn_checker.Storage.Bloom.{FloatMath}

matches_from-new_tree :
    {V : Type 0} (parts : List Bytes) → matches_from (new_tree {V = V}) parts ≡ none
unfolding matches_from
matches_from-new_tree [] = refl
matches_from-new_tree {V = V} (part ∷ parts) =
    rw
      (
        matches_from,
        search-new_tree {V = V} (join b'.' (part ∷ parts)),
        matches_from-new_tree {V = V} parts,
      )
      refl

find_rule-clear :
    (now : ℕ) (store : MemoryStore) (host : Bytes) → find_rule (clear now store).tables host ≡ none
unfolding find_rule clear get matches_wildcard Radix.clear
find_rule-clear now store host = rw (matches_from-new_tree (drop 1 (split b'.' host))) refl

find_rule-new_memory_store :
    (float : FloatMath) (now : ℕ) (host : Bytes)
    → find_rule (new_memory_store float now).tables host ≡ none
unfolding find_rule new_memory_store get matches_wildcard
find_rule-new_memory_store float now host =
    rw (matches_from-new_tree (drop 1 (split b'.' host))) refl

is_blocked-no_rule :
    (now : ℕ) (store : MemoryStore) (host : Bytes)
    → find_rule store.tables host ≡ none
    → is_blocked now store host ≡ new_blocking_result now false host none
unfolding is_blocked new_blocking_result
is_blocked-no_rule now store host nothing = elim (Bool-cases (is_empty host)) [
  | inl empty ↦ rw (is_blocked, empty)
  | inr named ↦ elim (Bool-cases (bloom_check store.bloom host)) [
    | inl passed ↦ rw (is_blocked, named, passed, nothing)
    | inr stopped ↦ rw (is_blocked, named, stopped)
  ]
]

-- Before its first Update the store blocks nothing.
pub is_blocked-new_memory_store :
    (float : FloatMath) (then_time now : ℕ) (host : Bytes)
    → is_blocked now (new_memory_store float then_time) host
      ≡ new_blocking_result now false host none
is_blocked-new_memory_store float then_time now host =
    is_blocked-no_rule now (new_memory_store float then_time) host
      (find_rule-new_memory_store float then_time host)

-- After Clear, IsBlocked says of every URL that it is not blocked, and Stats counts no entries, no
-- names, no wildcards, no addresses and no URL patterns.
pub is_blocked-clear :
    (then_time now : ℕ) (store : MemoryStore) (host : Bytes)
    → (is_blocked now (clear then_time store) host ≡ new_blocking_result now false host none)
      × ((stats (clear then_time store)).total_entries ≡ 0)
      × ((stats (clear then_time store)).domain_entries ≡ 0)
      × ((stats (clear then_time store)).wildcard_entries ≡ 0)
      × ((stats (clear then_time store)).ip_entries ≡ 0)
      × ((stats (clear then_time store)).url_pattern_entries ≡ 0)
is_blocked-clear then_time now store host = (
  is_blocked-no_rule now (clear then_time store) host (find_rule-clear then_time store host),
  unfold stats clear in refl,
  unfold stats clear in refl,
  unfold stats clear Radix.clear in refl,
  unfold stats clear in refl,
  unfold stats clear in refl,
)
