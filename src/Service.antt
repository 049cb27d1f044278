-- ===== src/Service.antt =====
-- internal/application/blocking_service.go and interfaces.go. The two interfaces are records of
-- functions; a store's methods return the new store.
pub mod Answers
pub mod Spellings
use rkn_checker.Prelude.{
  ℕ, Bool, true, false, not, Option, none, some, Result, ok, err, ◌>>=◌, if◌then◌else◌,
}
use rkn_checker.Text.{Bytes, is_empty}
use rkn_checker.Domain.Url.{
  DomainError, empty_url, invalid_url, registry_entry_invalid, Url, new_url, url_is_valid,
}
use rkn_checker.Domain.Blocking.{BlockingResult, new_blocking_result}
use rkn_checker.Domain.Registry.{Registry}
use rkn_checker.Storage.MemoryStore.{StoreStats}

-- URLNormalizer, as far as the service calls it
pub record UrlNormalizer : Type 0 where
  pub normalize_url : Option Url → Result DomainError Url

-- RegistryStore, over the state of a store; a nil result is `none`
pub record RegistryStore (S : Type 0) : Type 0 where
  pub is_blocked : ℕ → S → Bytes → Option BlockingResult
  pub update : ℕ → S → Option Registry → Result DomainError S
  pub stats : S → StoreStats
  pub clear : ℕ → S → S

pub record BlockingStats : Type 0 where
  pub total_entries : ℕ
  pub domain_entries : ℕ
  pub wildcard_entries : ℕ
  pub ip_entries : ℕ
  pub url_pattern_entries : ℕ
  pub last_update : Bytes
  pub version : Bytes

module _ {S : Type 0} (normalizer : UrlNormalizer) (store : RegistryStore S) where
  -- The result of IsBlocked, or the one that CheckURL puts in the place of nil.
  abbrev result_or_default : ℕ → Bytes → Option BlockingResult → BlockingResult
  result_or_default now normalized none = new_blocking_result now false normalized none
  result_or_default now normalized (some result) = result

  -- CheckURL
  unfoldable pub check_url : ℕ → S → Bytes → Result DomainError BlockingResult
  unfolding is_empty new_url url_is_valid
  check_url now s raw =
      let checked : Result DomainError BlockingResult = new_url raw >>= λ url.
      normalizer.normalize_url (some url) >>= λ url'.
      if not (url_is_valid url')
      then err invalid_url
      else ok (result_or_default now url'.normalized (store.is_blocked now s url'.normalized)) in
      if is_empty raw then err empty_url else checked

  -- UpdateRegistry
  unfoldable pub update_registry : ℕ → S → Option Registry → Result DomainError S
  update_registry now s none = err registry_entry_invalid
  update_registry now s (some registry) = store.update now s (some registry)

  -- ClearRegistry
  unfoldable pub clear_registry : ℕ → S → S
  clear_registry now s = store.clear now s

  -- GetStats; `format` is time.Time.Format at RFC 3339
  unfoldable pub get_stats : (ℕ → Bytes) → S → BlockingStats
  get_stats format s =
      let counts = store.stats s in
      record {
        total_entries = counts.total_entries;
        domain_entries = counts.domain_entries;
        wildcard_entries = counts.wildcard_entries;
        ip_entries = counts.ip_entries;
        url_pattern_entries = counts.url_pattern_entries;
        last_update = format counts.stats_last_update;
        version = counts.stats_version;
      }
