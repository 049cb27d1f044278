-- ===== src/Service/Answers.antt =====
-- The service over the normalizer and the memory store, as cmd/app/main.go puts them together.
use rkn_checker.Prelude.{
  ℕ, ◌≡◌, refl, ◌∙◌, true, List, some, Result, ok, err, ◌>>=◌, if◌then◌else◌, arith, Result-cases,
  Bool-cases, inl, inr,
}
use rkn_checker.Text.{Bytes, is_empty}
use rkn_checker.Platform.{Platform}
use rkn_checker.Domain.Url.{DomainError, invalid_url, empty_url}
use rkn_checker.Domain.Blocking.{BlockingResult}
use rkn_checker.Domain.Registry.{Registry, RegistryEntry}
use rkn_checker.Normalizer
use rkn_checker.Normalizer.{normalize}
use rkn_checker.Storage.Bloom.{FloatMath}
use rkn_checker.Storage.Bloom.Bounds.{HasBits}
use rkn_checker.Storage.MemoryStore
use rkn_checker.Storage.MemoryStore.{MemoryStore, blocked_by}
use rkn_checker.Storage.MemoryStore.Verdict.{verdict}
use rkn_checker.Storage.MemoryStore.Refinement.{is_blocked_of_update, update-ok}
use rkn_checker.Service.{UrlNormalizer, RegistryStore, check_url, update_registry}

-- services.NewURLNormalizer(), as the interface
abbrev pub url_normalizer : Platform → UrlNormalizer
url_normalizer platform = record { normalize_url = Normalizer.normalize_url platform }

-- storage.NewMemoryStore(), as the interface; its IsBlocked never returns nil
abbrev pub memory_registry_store : Platform → FloatMath → RegistryStore MemoryStore
memory_registry_store platform float = record {
  is_blocked = λ now store host. some (MemoryStore.is_blocked now store host);
  update = MemoryStore.update platform float;
  stats = MemoryStore.stats;
  clear = MemoryStore.clear;
}

-- What a registry asks of a raw URL: normalize it, and read the verdict off the entries.
unfoldable pub answer :
    Platform → ℕ → List RegistryEntry → Bytes → Result DomainError BlockingResult
answer platform now es raw = normalize platform raw >>= λ host.
    if is_empty host then err invalid_url else ok (blocked_by now host (verdict platform es host))

normalize-empty :
    (platform : Platform) (raw : Bytes)
    → is_empty raw ≡ true
    → normalize platform raw ≡ err empty_url
unfolding normalize
normalize-empty platform raw nothing = rw nothing

module _ (platform : Platform) (float : FloatMath) (now : ℕ) (store : MemoryStore) where
  -- CheckURL over the memory store, step by step.
  pub check_url_lem :
      (raw : Bytes)
      → check_url (url_normalizer platform) (memory_registry_store platform float) now store raw ≡ (
          normalize platform raw >>= λ host.
          if is_empty host then err invalid_url else ok (MemoryStore.is_blocked now store host))
  unfolding check_url Normalizer.normalize_url
  check_url_lem raw = elim (Bool-cases (is_empty raw)) [
    | inl nothing ↦ rw (nothing, normalize-empty platform raw nothing)
    | inr something ↦ elim (Result-cases (normalize platform raw)) [
      | inl (host, good) ↦ rw (something, good, Normalizer.normalize_url) (ground arith)
      | inr (e, bad) ↦ rw (something, bad, Normalizer.normalize_url)
    ]
  ]

module _ {f g : Bytes → BlockingResult} where
  answer_of :
      (r : Result DomainError Bytes)
      → ((host : Bytes) → f host ≡ g host)
      → (r >>= λ host. if is_empty host then err invalid_url else ok (f host))
        ≡ (r >>= λ host. if is_empty host then err invalid_url else ok (g host))
  answer_of (err e) same = refl
  answer_of (ok host) same = rw (same host)

-- CheckURL over a store that says of every name what a list of entries asks.
pub check_url-answer :
    (platform : Platform) (float : FloatMath) (now : ℕ) (store : MemoryStore)
    (es : List RegistryEntry) (raw : Bytes)
    → ((host : Bytes)
        → MemoryStore.is_blocked now store host ≡ blocked_by now host (verdict platform es host))
    → check_url (url_normalizer platform) (memory_registry_store platform float) now store raw
      ≡ answer platform now es raw
unfolding answer
check_url-answer platform float now store es raw same =
    check_url_lem platform float now store raw ∙ answer_of (normalize platform raw) same

-- The whole service: UpdateRegistry succeeds with every registry, and CheckURL then answers every
-- raw URL, errors included, as normalization and the registry's entries ask. The formula for the
-- filter's size is assumed to give at least one bit, and so few that 63 more do not wrap in 64 bits.
pub check_url-update_registry :
    (platform : Platform) (float : FloatMath) (then_time now : ℕ) (store : MemoryStore)
    (registry : Registry) (raw : Bytes)
    → HasBits float
    → (store' : MemoryStore) × (update_registry
          (url_normalizer platform)
          (memory_registry_store platform float)
          then_time
          store
          (some registry)
        ≡ ok store')
      × (check_url (url_normalizer platform) (memory_registry_store platform float) now store' raw
          ≡ answer platform now registry.entries raw)
unfolding update_registry answer
check_url-update_registry platform float then_time now store registry raw positive =
    let (store', done) = update-ok platform float then_time store registry in
    (
      store',
      done,
      check_url-answer platform float now store' registry.entries raw λ host.
          is_blocked_of_update platform float then_time now store store' registry host positive
            done,
    )
