-- ===== src/Registry/Client.antt =====
-- internal/infrastructure/registry/client.go. A source is its name and what it answers at each call
-- of a round; the parser is a parameter here.
pub mod Order
pub mod Fallback
pub mod Created
pub mod Rounds
pub mod Calls
use rkn_checker.Prelude.{
  ℕ, zero, suc, ◌+◌, Bool, true, false, not, List, [], ◌∷◌, Option, none, some, Result, ok, err,
  ◌>>=◌, if◌then◌else◌,
}
use rkn_checker.Text.{Bytes, bytes, bytes_eq, is_empty}
use rkn_checker.Domain.Registry.{Registry}
use rkn_checker.Storage.Dict.{Dict, put}
use rkn_checker.Registry.Source.{Source, SourceConfig, official_type}
use rkn_checker.Registry.Exchange.{Http}
use rkn_checker.Registry.Official.{FetchError, OfficialSource, fetch, is_healthy}

-- What fetchFromSource wraps in a SourceError.
pub data Cause (E P : Type 0) : Type 0 where
  not_healthy : Cause E P
  fetch_failed : E → Cause E P
  parse_failed : P → Cause E P

pub record SourceError (E P : Type 0) : Type 0 where
  pub source : Bytes
  pub operation : Bytes
  pub cause : Cause E P

pub record Client (E : Type 0) : Type 0 where
  pub sources : List (Source E)
  pub last_successful_source : Bytes
  pub last_update_time : ℕ
  pub consecutive_failures : ℕ

pub data ClientError : Type 0 where
  no_sources : ClientError
  unsupported_source_type : Bytes → ClientError

-- What the calls of an official source meet at an attempt: the replies, the context, the clock, and
-- the source as earlier calls left it.
pub record Network (E : Type 0) : Type 0 where
  pub http : ℕ → Http E
  pub ended_in_wait : ℕ → ℕ → Option E
  pub now : ℕ → ℕ
  pub later : ℕ → ℕ
  pub state : SourceConfig → ℕ → OfficialSource

-- The source of a configuration at an attempt.
abbrev pub state_at : {E : Type 0} → Network E → SourceConfig → ℕ → OfficialSource
state_at network config i = record (network.state config i) { config = config }

-- An OfficialSource as a Source, with its Name
unfoldable pub official_source : {E : Type 0} → Network E → SourceConfig → Source (FetchError E)
official_source network config = record {
  name = bytes "Official RKN API";
  is_healthy = λ i.
      (is_healthy (network.http i) (network.now i) (network.later i) (state_at network config i)).0;
  fetch = λ i.
      (fetch (network.http i) (network.ended_in_wait i) (network.now i)
        (state_at network config i)).0;
}

module _ {E : Type 0} (network : Network E) where
  -- createSource
  unfoldable pub create_source : SourceConfig → Result ClientError (Source (FetchError E))
  unfolding bytes_eq
  create_source config =
      if bytes_eq config.source_type (official_type)
      then ok (official_source network config)
      else err (unsupported_source_type config.source_type)

  -- The loop of NewClient.
  unfoldable pub create_sources :
      List SourceConfig → Result ClientError (List (Source (FetchError E)))
  create_sources [] = ok []
  create_sources (config ∷ configs) =
      create_source config >>= λ s. create_sources configs >>= λ ss. ok (s ∷ ss)

  -- NewClient
  unfoldable pub new_client : List SourceConfig → Result ClientError (Client (FetchError E))
  new_client [] = err no_sources
  new_client (config ∷ configs) = create_sources (config ∷ configs) >>= λ sources. ok (record {
    sources = sources;
    last_successful_source = [];
    last_update_time = 0;
    consecutive_failures = 0;
  })

module _ {E : Type 0} where
  -- The last source with a name, and the sources with another.
  unfoldable pub last_named : Bytes → List (Source E) → Option (Source E)
  unfolding bytes_eq
  last_named name [] = none
  last_named name (s ∷ ss) = elim (last_named name ss) [
    | some later ↦ some later
    | none ↦ if bytes_eq s.name name then some s else none
  ]

  unfoldable pub not_named : Bytes → List (Source E) → List (Source E)
  unfolding bytes_eq
  not_named name [] = []
  not_named name (s ∷ ss) =
      let others = not_named name ss in if bytes_eq s.name name then others else s ∷ others

  -- orderSources
  unfoldable pub order_sources : Client E → List (Source E)
  unfolding is_empty last_named not_named
  order_sources c =
      let others = not_named c.last_successful_source c.sources in
      let ordered : List (Source E) = elim (last_named c.last_successful_source c.sources) [
        | none ↦ others
        | some last ↦ last ∷ others
      ] in
      if is_empty c.last_successful_source then c.sources else ordered

  -- onFetchSuccess
  unfoldable pub on_fetch_success : ℕ → Bytes → Client E → Client E
  on_fetch_success now name c = record c {
    last_successful_source = name;
    last_update_time = now;
    consecutive_failures = 0;
  }

  -- The loop of GetHealthStatus, over the map so far.
  unfoldable pub health_from : ℕ → Dict Bool → List (Source E) → Dict Bool
  unfolding put
  health_from i status [] = status
  health_from i status (s ∷ ss) = health_from (suc i) (put status s.name (s.is_healthy i)) ss

  -- GetHealthStatus
  unfoldable pub get_health_status : Client E → Dict Bool
  unfolding health_from
  get_health_status c = health_from 0 [] c.sources

module _ {E P : Type 0} (parse : Bytes → Result P Registry) (now : ℕ) where
  -- fetchFromSource, at an attempt
  unfoldable pub fetch_from_source : ℕ → Source E → Result (SourceError E P) Registry
  fetch_from_source i s =
      let fetched : Result (SourceError E P) Registry = elim (s.fetch i) [
        | err e ↦
            err (record { source = s.name; operation = bytes "fetch"; cause = fetch_failed e })
        | ok content ↦ elim (parse content) [
          | err p ↦
              err (record { source = s.name; operation = bytes "parse"; cause = parse_failed p })
          | ok r ↦ ok (record r { source = s.name; last_updated = now })
        ]
      ] in
      if not (s.is_healthy i)
      then err (record { source = s.name; operation = bytes "health_check"; cause = not_healthy })
      else fetched

  -- The loop of FetchRegistry, from an attempt on: the registry and the name of its source, or
  -- the last error. `ended` is whether the context has ended after an attempt.
  unfoldable pub fetch_from :
      (ℕ → Bool)
      → ℕ
      → Option (SourceError E P)
      → List (Source E)
      → Result (Option (SourceError E P)) (Registry × Bytes)
  fetch_from ended i last_error [] = err last_error
  fetch_from ended i last_error (s ∷ ss) = elim (fetch_from_source i s) [
    | ok r ↦ ok (r, s.name)
    | err e ↦
        let others = fetch_from ended (suc i) (some e) ss in
        if ended i then err (some e) else others
  ]

  -- FetchRegistry; its error is ErrAllSourcesFailed with the last error
  unfoldable pub fetch_registry :
      (ℕ → Bool) → Client E → Result (Option (SourceError E P)) Registry × Client E
  unfolding order_sources fetch_from on_fetch_success
  fetch_registry ended c = elim (fetch_from ended 0 none (order_sources c)) [
    | ok (r, name) ↦ (ok r, on_fetch_success now name c)
    | err e ↦ (err e, record c { consecutive_failures = c.consecutive_failures + 1 })
  ]
