-- ===== src/Storage/MemoryStore/Build.antt =====
-- What each table holds after Update's loop, and that the filter contains every key of a table.
use rkn_checker.Prelude.{
  ◌≡◌, refl, sym, ◌∙◌, Bool, true, false, List, [], ◌∷◌, Option, none, some, ok, arith, inl, inr,
  Result-cases,
}
use rkn_checker.Text.{Bytes, bytes, is_empty, trim_prefix}
use rkn_checker.Platform.{Platform}
use rkn_checker.Domain.Blocking.{
  BlockingType, domain, wildcard, ip, url_path, sni, BlockingRule, new_blocking_rule, validate,
}
use rkn_checker.Domain.Registry.{RegistryEntry, to_blocking_rule}
use rkn_checker.Domain.Url.{is_valid_domain}
use rkn_checker.Storage.Dict.{get, get-put}
use rkn_checker.Storage.Radix.{search}
use rkn_checker.Storage.Radix.Lookup.{search-insert_named}
use rkn_checker.Storage.MemoryStore.{Tables, add_rule, add_entry, add_entries, or_else, rule_at}
use rkn_checker.Storage.MemoryStore.Verdict.{
  entry_rule, names_domain, names_address, names_suffix, given, last_rule,
}

or_else_assoc {ℓ} :
    {A : Type ℓ} (a b c : Option A) → or_else (or_else a b) c ≡ or_else a (or_else b c)
or_else_assoc none b c = refl
or_else_assoc (some a) b c = refl

nothing {ℓ} : {A : Type ℓ} (b : Bool) (o : Option A) → o ≡ or_else (given b none) o
nothing true o = refl
nothing false o = refl

pub nonempty_of_valid : (s : Bytes) → is_valid_domain s ≡ true → is_empty s ≡ false
unfolding is_valid_domain
nonempty_of_valid s h = ground arith

module _ (platform : Platform) (t : Tables) where
  get_domains-add_rule :
      (kind : BlockingType) (e : RegistryEntry) (rule : BlockingRule) (host : Bytes)
      → get (add_rule platform t kind e rule).domains host
        ≡ or_else (given (names_domain host kind e) (some rule)) (get t.domains host)
  unfolding add_rule names_domain
  get_domains-add_rule domain e rule host =
      ground (arith, get-put t.domains e.domain_name rule host)
  get_domains-add_rule sni e rule host = ground (arith, get-put t.domains e.domain_name rule host)
  get_domains-add_rule url_path e rule host = ground arith
  get_domains-add_rule _ e rule host = refl

  get_ips-add_rule :
      (kind : BlockingType) (e : RegistryEntry) (rule : BlockingRule) (host : Bytes)
      → get (add_rule platform t kind e rule).ips host
        ≡ or_else (given (names_address host kind e) (some rule)) (get t.ips host)
  unfolding add_rule names_address
  get_ips-add_rule ip e rule host = ground (arith, get-put t.ips e.address rule host)
  get_ips-add_rule url_path e rule host = ground arith
  get_ips-add_rule _ e rule host = refl

  pub wildcard_named :
      (e : RegistryEntry) {rule : BlockingRule}
      → e.entry_type ≡ wildcard
      → to_blocking_rule platform e ≡ ok rule
      → is_empty (trim_prefix e.domain_name (bytes "*.")) ≡ false
  unfolding to_blocking_rule new_blocking_rule validate
  wildcard_named e kind h =
      ground (arith, nonempty_of_valid (trim_prefix e.domain_name (bytes "*.")))

  search-add_rule :
      (kind : BlockingType) (e : RegistryEntry) (rule : BlockingRule) (suffix : Bytes)
      → (kind ≡ wildcard → is_empty (trim_prefix e.domain_name (bytes "*.")) ≡ false)
      → rule_at (search (add_rule platform t kind e rule).wildcards suffix)
        ≡ or_else
            (given (names_suffix suffix kind e) (some rule))
            (rule_at (search t.wildcards suffix))
  unfolding add_rule names_suffix
  search-add_rule wildcard e rule suffix named = ground (
    arith,
    search-insert_named t.wildcards (trim_prefix e.domain_name (bytes "*.")) (some rule) suffix
        (named refl),
  )
  search-add_rule url_path e rule suffix named = ground arith
  search-add_rule _ e rule suffix named = refl

-- How one table's answer at a key changes over a round of the loop, and over the loop.
module _ (platform : Platform) (view : Tables → Option BlockingRule)
    (test : BlockingType → RegistryEntry → Bool)
    (each : (t : Tables) (e : RegistryEntry) (rule : BlockingRule)
      → to_blocking_rule platform e ≡ ok rule
      → view (add_rule platform t e.entry_type e rule)
        ≡ or_else (given (test e.entry_type e) (some rule)) (view t)) where
  view-add_entry :
      (t : Tables) (e : RegistryEntry)
      → view (add_entry platform t e)
        ≡ or_else (given (test e.entry_type e) (entry_rule platform e)) (view t)
  unfolding add_entry entry_rule
  view-add_entry t e = elim (Result-cases (to_blocking_rule platform e)) [
    | inl (rule, valid) ↦ rw (valid, add_entry, entry_rule) (each t e rule valid)
    | inr (bad, invalid) ↦
        rw (invalid, add_entry, entry_rule) (nothing (test e.entry_type e) (view t))
  ]

  view-add_entries :
      (t : Tables) (es : List RegistryEntry)
      → view (add_entries platform t es) ≡ or_else (last_rule platform test es) (view t)
  unfolding add_entries last_rule
  view-add_entries t [] = refl
  view-add_entries t (e ∷ es) =
      view-add_entries (add_entry platform t e) es
      ∙ rw view-add_entry (sym (or_else_assoc (last_rule platform test es) _ (view t)))

-- The three tables after the loop, from any tables before it.
module _ (platform : Platform) (t : Tables) (es : List RegistryEntry) (host : Bytes) where
  pub get_domains-add_entries :
      get (add_entries platform t es).domains host
      ≡ or_else (last_rule platform (names_domain host) es) (get t.domains host)
  get_domains-add_entries =
      view-add_entries platform (λ t. get t.domains host) (names_domain host)
        (λ t e rule valid. get_domains-add_rule platform t e.entry_type e rule host) t es

  pub get_ips-add_entries :
      get (add_entries platform t es).ips host
      ≡ or_else (last_rule platform (names_address host) es) (get t.ips host)
  get_ips-add_entries =
      view-add_entries platform (λ t. get t.ips host) (names_address host)
        (λ t e rule valid. get_ips-add_rule platform t e.entry_type e rule host) t es

  pub search-add_entries :
      rule_at (search (add_entries platform t es).wildcards host)
      ≡ or_else (last_rule platform (names_suffix host) es) (rule_at (search t.wildcards host))
  search-add_entries =
      view-add_entries platform (λ t. rule_at (search t.wildcards host)) (names_suffix host)
        (λ t e rule valid.
          search-add_rule platform t e.entry_type e rule host
            (λ kind. wildcard_named platform t e kind valid))
        t es
