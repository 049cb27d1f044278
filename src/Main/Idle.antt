-- ===== src/Main/Idle.antt =====
-- What the program does as it is wired: no official source is in the test mode.
use mathlib.Core.Path.{subst}
use rkn_checker.Prelude.{
  ℕ, ◌≡◌, refl, sym, ◌∙◌, inl, inr, Bool, false, List, Option, some, All, Result, ok, err, is_ok,
  ok_inj, Bool-cases, Result-cases,
}
use rkn_checker.Text.{Bytes, is_empty}
use rkn_checker.Platform.{Platform}
use rkn_checker.Domain.Registry.{Registry}
use rkn_checker.Domain.Blocking.{BlockingResult, new_blocking_result}
use rkn_checker.Normalizer.{normalize}
use rkn_checker.Storage.Bloom.{FloatMath}
use rkn_checker.Storage.MemoryStore.{MemoryStore, new_memory_store}
use rkn_checker.Storage.MemoryStore
use rkn_checker.Storage.MemoryStore.Cleared.{is_blocked-new_memory_store}
use rkn_checker.Service.{check_url}
use rkn_checker.Service.Answers.{url_normalizer, memory_registry_store, check_url_lem}
use rkn_checker.Registry.Source.{SourceConfig}
use rkn_checker.Registry.Official.{FetchError}
use rkn_checker.Registry.Official.Fetches.{fetch-soap}
use rkn_checker.Registry.Client.{
  Client, Network, SourceError, official_source, state_at, new_client, fetch_registry,
  fetch_from_source,
}
use rkn_checker.Registry.Client.Created.{new_client-All}
use rkn_checker.Registry.Client.Fallback.{FailsAlways}
use rkn_checker.Registry.Client.Rounds.{fetch_registry-FailsAlways}
use rkn_checker.Updater.{Attempt, UpdateStore, Config}
use rkn_checker.Updater.Lifecycle.{World, Event, run}
use rkn_checker.Updater.Panics.{new_world}
use rkn_checker.Updater.Fruitless.{EventIs, All-EventIs, run-Fruitless}

not_ok : {E A : Type 0} (r : Result E A) → is_ok r ≡ false → (e : E) × (r ≡ err e)
not_ok (ok a) bad = cc bad
not_ok (err e) bad = (e, refl)

-- SetTestMode is called by tests only.
abbrev pub IsReal : {E : Type 0} → Network E → Type 0
IsReal network = (config : SourceConfig) (i : ℕ) → (network.state config i).test_mode ≡ false

module _ {E Q : Type 0} (parse : Bytes → Result Q Registry) where
  official_source-FailsAlways :
      (network : Network E) (now : ℕ) (ended : ℕ → Bool)
      → IsReal network
      → (config : SourceConfig) → FailsAlways parse now ended (official_source network config)
  unfolding fetch_from_source official_source
  official_source-FailsAlways network now ended real config i =
      let s = official_source network config in
      elim (Bool-cases (s.is_healthy i)) [
        | inr unhealthy ↦ not_ok _ (rw unhealthy refl)
        | inl healthy ↦ elim (Result-cases (s.fetch i)) [
          | inr (bad, failed) ↦ not_ok _ (rw (healthy, failed) refl)
          | inl (content, fetched) ↦ cc (
            fetched,
            fetch-soap (network.http i) (network.ended_in_wait i) (network.now i)
                (state_at network config i) (real config i),
          )
        ]
      ]

  -- An attempt that asks a client of NewClient, at some moment and over some network.
  pub record IsFetched (configs : List SourceConfig)
      (attempt : Attempt (Option (SourceError (FetchError E) Q))) : Type 0 where
    pub network : Network E
    pub real : IsReal network
    pub made : Client (FetchError E)
    pub makes : new_client network configs ≡ ok made
    pub client : Client (FetchError E)
    pub same_sources : client.sources ≡ made.sources
    pub now : ℕ
    pub ended : ℕ → Bool
    pub fetched : attempt.fetched ≡ (fetch_registry parse now ended client).0

  IsFetched-fails :
      (configs : List SourceConfig) (attempt : Attempt (Option (SourceError (FetchError E) Q)))
      → IsFetched configs attempt
      → is_ok attempt.fetched ≡ false
  IsFetched-fails configs attempt f =
      let fail =
        new_client-All f.network (FailsAlways parse f.now f.ended)
          (official_source-FailsAlways f.network f.now f.ended f.real) configs f.made f.makes in
      let (e, failed) =
        fetch_registry-FailsAlways parse f.now f.ended f.client
          (subst (All (FailsAlways parse f.now f.ended)) (sym f.same_sources) fail) in
      rw (f.fetched, failed)

check_url-new_memory_store :
    (platform : Platform) (float : FloatMath) (then_time now : ℕ) (raw : Bytes)
    (result : BlockingResult)
    → check_url
        (url_normalizer platform)
        (memory_registry_store platform float)
        now
        (new_memory_store float then_time)
        raw
      ≡ ok result
    → result.is_blocked ≡ false
unfolding new_blocking_result
check_url-new_memory_store platform float then_time now raw result e =
    let e' = sym (check_url_lem platform float now (new_memory_store float then_time) raw) ∙ e in
    elim (Result-cases (normalize platform raw)) [
      | inr (bad, failed) ↦ cc (rw failed at e')
      | inl (host, good) ↦ elim (Bool-cases (is_empty host)) [
        | inl empty ↦ cc (rw (good, empty) at e')
        | inr named ↦
            let same : MemoryStore.is_blocked now (new_memory_store float then_time) host ≡ result =
              ok_inj (rw (good, named) at e') in
            subst (λ r. r.is_blocked ≡ false)
              (sym (is_blocked-new_memory_store float then_time now host) ∙ same) refl
      ]
    ]

-- Where every attempt of every update asks a client of NewClient over some network, and no official
-- source is in the test mode, the program blocks nothing: in every order of steps of the scheduler
-- from its start in which nothing panics, CheckURL says of no URL that it is blocked.
pub check_url-run :
    {E Q : Type 0} (parse : Bytes → Result Q Registry) (platform : Platform) (float : FloatMath)
    (store : UpdateStore (Option (SourceError (FetchError E) Q)) MemoryStore) (config : Config)
    (configs : List SourceConfig) (then_time now : ℕ)
    (es : List (Event (Option (SourceError (FetchError E) Q))))
    (w : World (Option (SourceError (FetchError E) Q)) MemoryStore) (raw : Bytes)
    (result : BlockingResult)
    → All (EventIs (λ env. (i : ℕ) → IsFetched parse configs (env i))) es
    → run store config es (new_world (new_memory_store float then_time)) ≡ some w
    → check_url (url_normalizer platform) (memory_registry_store platform float) now w.stored raw
      ≡ ok result
    → result.is_blocked ≡ false
check_url-run parse platform float store config configs then_time now es w raw result fetched ran
      answered =
    let kept =
      run-Fruitless store config es (new_world (new_memory_store float then_time)) w
        (All-EventIs es (λ env f i. IsFetched-fails parse configs (env i) (f i)) fetched) ran in
    check_url-new_memory_store platform float then_time now raw result (rw kept at answered)
