-- ===== src/Registry/Blocked.antt =====
-- From the data of a source to the answers of the store: Parse, then Update, then IsBlocked.
use rkn_checker.Prelude.{
  ℕ, ◌≡◌, ◌∙◌, ap, Bool, true, List, [], ◌∷◌, ◌++◌, Option, none, some, Option-cases, Result-cases,
  inl, inr, All-at, arith, ok, is_ok, ◌⊎◌,
}
use rkn_checker.Text.{Bytes}
use rkn_checker.Text.Laws.{bytes_eq_refl}
use rkn_checker.Platform.{Platform}
use rkn_checker.Domain.Blocking.{BlockingType, domain, ip, sni, BlockingRule, new_blocking_result}
use rkn_checker.Domain.Registry.{RegistryEntry, Registry, to_blocking_rule}
use rkn_checker.Storage.Bloom.{FloatMath}
use rkn_checker.Storage.Bloom.Bounds.{HasBits}
use rkn_checker.Storage.MemoryStore.{MemoryStore, update, is_blocked}
use rkn_checker.Storage.MemoryStore.Verdict.{
  last_rule, verdict, entry_rule, names_domain, names_address,
}
use rkn_checker.Storage.MemoryStore.Refinement.{is_blocked_of_update}
use rkn_checker.Registry.Parser.{Formats, parse}
use rkn_checker.Registry.Parser.Entries.{IsStored}
use rkn_checker.Registry.Parser.Stored.{parse-IsParsed}

-- The host that an entry is about, for a name or an address.
abbrev pub host_of : BlockingType → RegistryEntry → Option Bytes
host_of domain e = some e.domain_name
host_of sni e = some e.domain_name
host_of ip e = some e.address
host_of _ e = none

last_rule-some :
    (platform : Platform) (test : BlockingType → RegistryEntry → Bool)
    (before after : List RegistryEntry) (e : RegistryEntry)
    → test e.entry_type e ≡ true
    → is_ok (to_blocking_rule platform e) ≡ true
    → (rule : BlockingRule) × (last_rule platform test (before ++ (e ∷ after)) ≡ some rule)
unfolding last_rule entry_rule
last_rule-some platform test [] after e passes good =
    elim (Option-cases (last_rule platform test after)) [
      | inr (later, found) ↦ (later, rw found)
      | inl absent ↦ elim (Result-cases (to_blocking_rule platform e)) [
        | inl (rule, made) ↦ (rule, rw (absent, passes, entry_rule, made))
        | inr (bad, failed) ↦ cc (rw failed at good)
      ]
    ]
last_rule-some platform test (x ∷ before) after e passes good =
    let (rule, found) = last_rule-some platform test before after e passes good in (rule, rw found)

names-host_of :
    (t : BlockingType) (e : RegistryEntry) (host : Bytes)
    → host_of t e ≡ some host
    → (names_domain host t e ≡ true) ⊎ (names_address host t e ≡ true)
unfolding names_domain names_address
names-host_of t e host about = ground (arith, bytes_eq_refl host)

verdict-some :
    (platform : Platform) (before after : List RegistryEntry) (e : RegistryEntry) (host : Bytes)
    → host_of e.entry_type e ≡ some host
    → is_ok (to_blocking_rule platform e) ≡ true
    → (rule : BlockingRule) × (verdict platform (before ++ (e ∷ after)) host ≡ some rule)
unfolding verdict
verdict-some platform before after e host about good =
    elim (names-host_of e.entry_type e host about) [
      | inl named ↦
          let (rule, found) =
            last_rule-some platform (names_domain host) before after e named good in
          (rule, rw (verdict, found))
      | inr addressed ↦
          let (rule, found) =
            last_rule-some platform (names_address host) before after e addressed good in
          elim (Option-cases (last_rule platform (names_domain host) (before ++ (e ∷ after)))) [
            | inr (other, first) ↦ (other, rw (verdict, first))
            | inl absent ↦ (rule, rw (verdict, absent, found))
          ]
    ]

no_wildcard :
    (platform : Platform) (e : RegistryEntry) (host : Bytes)
    → host_of e.entry_type e ≡ some host
    → IsStored platform e
    → is_ok (to_blocking_rule platform e) ≡ true
no_wildcard platform e host about stored = ground arith

-- Every name and every address of a registry that Parse returned is blocked after Update with
-- that registry: for each entry of it that is about a host, IsBlocked says that the host is
-- blocked. The formula for the filter's size is assumed to give at least one bit, and so few that
-- 63 more do not wrap in 64 bits.
pub is_blocked-parse :
    {E : Type 0} (platform : Platform) (formats : Formats E) (float : FloatMath)
    (parse_time then_time now : ℕ) (content : Bytes) (r : Registry) (store store' : MemoryStore)
    (before after : List RegistryEntry) (e : RegistryEntry) (host : Bytes)
    → HasBits float
    → parse platform formats parse_time content ≡ ok r
    → update platform float then_time store (some r) ≡ ok store'
    → r.entries ≡ before ++ (e ∷ after)
    → host_of e.entry_type e ≡ some host
    → (is_blocked now store' host).is_blocked ≡ true
unfolding new_blocking_result
is_blocked-parse platform formats float parse_time then_time now content r store store' before after
      e host positive parsed updated split about =
    let stored = (parse-IsParsed platform formats parse_time content r parsed).0.stored in
    let good =
      no_wildcard platform e host about
        (All-at (IsStored platform) before after e (rw split at stored)) in
    let (rule, found) = verdict-some platform before after e host about good in
    let answer =
      is_blocked_of_update platform float then_time now store store' r host positive updated in
    ap (λ b. b.is_blocked) answer ∙ rw (split, found)
