-- ===== src/Tests/Boots.antt =====
-- The configuration and the start of the program, with an environment that sets two variables.
use rkn_checker.Prelude.{
  ℕ, ◌≡◌, ◌↔◌, refl, true, false, [], ◌∷◌, Option, none, some, ok, err, is_ok, if◌then◌else◌, arith,
}
use rkn_checker.Prelude.Integers.{pos, negsuc}
use rkn_checker.Text.{
  Bytes, bytes, bytes_eq, is_empty, has_prefix, has_suffix, contains, trim_prefix, split,
}
use rkn_checker.Registry.Source.{default_source_configs}
use rkn_checker.Registry.Official.{
  FetchError, new_official_source, is_healthy, fetch, fetch_attempts, fetch_once, send_soap_request,
  get_soap_result, wsdl_url,
}
use rkn_checker.Registry.Client.{
  Network, Client, SourceError, new_client, create_sources, create_source, fetch_registry,
  fetch_from, fetch_from_source, order_sources,
}
use rkn_checker.Storage.MemoryStore.{MemoryStore, new_memory_store, is_blocked, bloom_check}
use rkn_checker.Storage.Bloom
use rkn_checker.Storage.Bloom.{contains_from, new_bloom_filter}
use rkn_checker.Domain.Url.{new_url, url_is_valid, is_valid_domain, labels_are_valid}
use rkn_checker.Normalizer.{
  normalize_url, normalize, with_scheme, remove_port, last_index, normalize_host, normalize_domain,
  without_www,
}
use rkn_checker.Domain.Blocking.{BlockingResult}
use rkn_checker.Service.{check_url}
use rkn_checker.Service.Answers.{url_normalizer, memory_registry_store}
use rkn_checker.Updater.{
  new_scheduler, trigger_update, Attempt, UpdateStore, Config, attempts_from, execute_update,
}
use rkn_checker.Updater.Lifecycle.{
  World, starts, begins, attempts, records, ticks, triggers, stops, sees_stop, run, step, start,
  stop,
}
use rkn_checker.Updater.Goroutines.{starting}
use rkn_checker.Updater.Panics.{new_world}
use rkn_checker.Configuration
use rkn_checker.Configuration.{
  Environment, load_config, validate, get_env_string, get_env_parsed, get_sources, default_source,
  get_update_config, scheduler_config, UpdateConfig, is_level, is_format, invalid_rest_port,
  is_development, is_production,
}
use rkn_checker.Configuration.Valid.{IsValid, validate_iff}
use rkn_checker.Registry.Errors.{Error}
use rkn_checker.Registry.Client.{official_source}
use rkn_checker.Storage.Bloom.{FloatMath}
use rkn_checker.Main.{boot}
use rkn_checker.Main.Boot.{boot_iff, exit_of, rejection}
use rkn_checker.Main.Idle.{IsFetched, check_url-run}
use rkn_checker.Main.Ticker.{run-not_positive}
use rkn_checker.Tests.Platforms.{small_platform, small_float}
use rkn_checker.Tests.Officials.{config_of, http}
use rkn_checker.Tests.Sources.{reader}

abbrev usual : UpdateConfig
usual = record {
  interval = pos 9;
  max_retries = pos 3;
  retry_delay = pos 1;
  update_timeout = pos 5;
}

-- UPDATE_INTERVAL is "0", and REST_PORT is as given.
abbrev environment : Bytes → Environment
environment rest_port = record {
  getenv = λ key.
      if bytes_eq key (bytes "UPDATE_INTERVAL")
      then bytes "0"
      else if bytes_eq key (bytes "REST_PORT")
      then rest_port
      else [];
  atoi = λ text. if bytes_eq text (bytes "-1") then some (negsuc 0) else none;
  parse_duration = λ text. if bytes_eq text (bytes "0") then some (pos 0) else none;
  parse_bool = λ text. none;
}

load_runs : (load_config (environment [])).registry.update_config.interval ≡ pos 0
unfolding load_config get_update_config get_env_parsed bytes_eq is_empty
load_runs = refl

validate_runs :
    (validate (load_config (environment [])) ≡ ok tt)
    × (validate (load_config (environment (bytes "-1"))) ≡ err (invalid_rest_port (negsuc 0)))
    × ((load_config (environment [])).registry.sources ≡ default_source_configs)
unfolding load_config get_update_config get_env_parsed get_env_string bytes_eq is_empty validate
    Configuration.validate_sources get_sources default_source is_level is_format
    default_source_configs
validate_runs = (refl, refl, refl)

development_runs :
    (is_development (load_config (environment [])) ≡ true)
    × (is_production (load_config (environment [])) ≡ false)
unfolding load_config get_env_string bytes_eq is_empty is_development is_production
development_runs = (refl, refl)

validate_iff_example :
    (validate (load_config (environment [])) ≡ ok tt) ↔ IsValid (load_config (environment []))
validate_iff_example = validate_iff (load_config (environment []))

abbrev real_network : Network ℕ
unfolding new_official_source
real_network = record {
  http = λ i. http;
  ended_in_wait = λ i attempt. none;
  now = λ i. 4;
  later = λ i. 4;
  state = λ config i. new_official_source config;
}

boot_iff_example :
    (is_ok (boot (environment []) real_network) ≡ true ↔ IsValid (load_config (environment [])))
    × (exit_of (boot (environment []) real_network)
        ≡ rejection (validate (load_config (environment []))))
boot_iff_example = boot_iff (environment []) real_network

abbrev Failure : Type 0
Failure = Option (SourceError (FetchError ℕ) (Error ℕ))

abbrev real_client : Client (FetchError ℕ)
real_client = record {
  sources = official_source real_network (config_of (bytes "a")) ∷ [];
  last_successful_source = [];
  last_update_time = 0;
  consecutive_failures = 0;
}

client_runs : new_client real_network (config_of (bytes "a") ∷ []) ≡ ok real_client
unfolding new_client create_sources create_source bytes_eq
client_runs = refl

abbrev fetching : ℕ → Attempt Failure
fetching i = record {
  ended_in_wait = none;
  fetched = (fetch_registry reader 4 (λ attempt. false) real_client).0;
}

fetching-IsFetched : (i : ℕ) → IsFetched reader (config_of (bytes "a") ∷ []) (fetching i)
unfolding new_official_source real_network
fetching-IsFetched i = record {
  network = real_network;
  real = λ config attempt. refl;
  made = real_client;
  makes = client_runs;
  client = real_client;
  same_sources = refl;
  now = 4;
  ended = λ attempt. false;
  fetched = refl;
}

abbrev loose_store : UpdateStore Failure MemoryStore
loose_store = record { update = λ s registry. ok s; size = λ s. s.entry_count }

-- A filter of 64 bits.
abbrev tiny_float : FloatMath
tiny_float = record small_float { bits_for = λ n rate. 64 }

abbrev config : Config
config = record { interval = 100; max_retries = 1; retry_delay = 1; update_timeout = 50 }

idle_runs :
    (w : World Failure MemoryStore) × (run loose_store config
        (starts ∷ begins 0 ∷ attempts 0 fetching ∷ records 0 9 ∷ [])
        (new_world (new_memory_store tiny_float 1))
      ≡ some w)
unfolding run step start fetch_registry fetch_from_source official_source is_healthy real_network
    has_prefix wsdl_url has_suffix fetch fetch_attempts fetch_once send_soap_request
idle_runs = (_, refl)

idle_answers :
    (result : BlockingResult) × (check_url
        (url_normalizer small_platform)
        (memory_registry_store small_platform tiny_float)
        7
        idle_runs.0.stored
        (bytes "a.org")
      ≡ ok result)
unfolding idle_runs attempts_from execute_update fetch_registry fetch_from fetch_from_source
    order_sources is_empty official_source is_healthy fetch fetch_attempts fetch_once
    send_soap_request get_soap_result has_prefix has_suffix wsdl_url bytes_eq new_official_source
    check_url new_url url_is_valid normalize_url normalize contains with_scheme trim_prefix
    remove_port last_index normalize_host normalize_domain without_www is_valid_domain split
    labels_are_valid new_memory_store is_blocked bloom_check Bloom.contains contains_from
    new_bloom_filter
idle_answers = (_, refl)

check_url-run_example : idle_answers.0.is_blocked ≡ false
check_url-run_example =
    check_url-run reader small_platform tiny_float loose_store config (config_of (bytes "a") ∷ []) 1
      7 (starts ∷ begins 0 ∷ attempts 0 fetching ∷ records 0 9 ∷ []) idle_runs.0 (bytes "a.org")
      idle_answers.0 (tt, (tt, (fetching-IsFetched, (tt, tt)))) idle_runs.1 idle_answers.1

-- The goroutine stands before its ticker, which it never gets past.
abbrev waiting : World Failure MemoryStore
waiting = record {
  sched = record new_scheduler { running = true; stop_closed = true; trigger_pending = true };
  stored = new_memory_store tiny_float 1;
  phases = starting ∷ [];
}

waiting_runs :
    run loose_store
      (scheduler_config (load_config (environment [])).registry.update_config)
      (triggers ∷ starts ∷ ticks 0 ∷ starts ∷ stops ∷ sees_stop 0 ∷ [])
      (new_world (new_memory_store tiny_float 1))
    ≡ some waiting
unfolding run step start stop trigger_update
waiting_runs = refl

run-not_positive_example :
    (waiting.stored ≡ new_memory_store tiny_float 1) × (waiting.sched.total_updates ≡ 0)
run-not_positive_example =
    run-not_positive loose_store (load_config (environment [])).registry.update_config
      (new_memory_store tiny_float 1)
      (triggers ∷ starts ∷ ticks 0 ∷ starts ∷ stops ∷ sees_stop 0 ∷ []) waiting
      (rw load_runs (omega arith)) waiting_runs
