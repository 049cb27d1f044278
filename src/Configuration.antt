-- ===== src/Configuration.antt =====
-- internal/infrastructure/config/config.go. The environment and the parsers of strconv and time are
-- parameters.
pub mod Valid
use rkn_checker.Prelude.{
  ℕ, suc, Bool, true, false, not, ◌||◌, List, [], ◌∷◌, Option, none, some, Result, ok, err, ◌>>◌,
  fail_if, ◌*◌, ◌^◌, if◌then◌else◌,
}
use rkn_checker.Prelude.Integers.{ℤ, pos, ltb_ℤ, leb_ℤ, pos_part}
use rkn_checker.Text.{Bytes, bytes, is_empty, bytes_eq}
use rkn_checker.Registry.Source.{SourceConfig, official_type, seconds}
use rkn_checker.Updater

-- os.Getenv, which gives "" for a variable that is not set, strconv.Atoi, time.ParseDuration and
-- strconv.ParseBool
pub record Environment : Type 0 where
  pub getenv : Bytes → Bytes
  pub atoi : Bytes → Option ℤ
  pub parse_duration : Bytes → Option ℤ
  pub parse_bool : Bytes → Option Bool

pub record ServerConfig : Type 0 where
  pub grpc_port : ℤ
  pub rest_port : ℤ
  pub host : Bytes
  pub env : Bytes

-- updater.Config as it is read; durations in nanoseconds
pub record UpdateConfig : Type 0 where
  pub interval : ℤ
  pub max_retries : ℤ
  pub retry_delay : ℤ
  pub update_timeout : ℤ

pub record RegistryConfig : Type 0 where
  pub sources : List SourceConfig
  pub update_config : UpdateConfig
  pub max_concurrent : ℤ
  pub timeout : ℤ

pub record StorageConfig : Type 0 where
  pub bloom_filter_size : ℤ
  pub bloom_filter_hashes : ℤ
  pub max_registry_size : ℤ

pub record LoggingConfig : Type 0 where
  pub level : Bytes
  pub format : Bytes

pub record Config : Type 0 where
  pub server : ServerConfig
  pub registry : RegistryConfig
  pub storage : StorageConfig
  pub logging : LoggingConfig

module _ (e : Environment) where
  -- getEnvString
  unfoldable pub get_env_string : Bytes → Bytes → Bytes
  unfolding is_empty
  get_env_string key default =
      let value = e.getenv key in if not (is_empty value) then value else default

  -- The shape that the other three share.
  unfoldable pub get_env_parsed : {A : Type 0} → (Bytes → Option A) → Bytes → A → A
  unfolding is_empty
  get_env_parsed {A} parse key default =
      let value = e.getenv key in
      let parsed : A = elim (parse value) [ some a ↦ a | none ↦ default ] in
      if not (is_empty value) then parsed else default

  -- getEnvInt
  abbrev pub get_env_int : Bytes → ℤ → ℤ
  get_env_int = get_env_parsed e.atoi

  -- getEnvDuration
  abbrev pub get_env_duration : Bytes → ℤ → ℤ
  get_env_duration = get_env_parsed e.parse_duration

  -- getEnvBool
  abbrev pub get_env_bool : Bytes → Bool → Bool
  get_env_bool = get_env_parsed e.parse_bool

  -- The one element of getDefaultSources.
  unfoldable pub default_source : SourceConfig
  default_source = record {
    source_type = official_type;
    url = bytes "https://vigruzki.rkn.gov.ru/services/OperatorRequest/";
    timeout = seconds 60;
    max_retries = pos 2;
    user_agent = bytes "RKN-Checker/1.0";
    rkn = record {
      request_file_path = get_env_string (bytes "RKN_REQUEST_FILE_PATH") [];
      signature_file_path = get_env_string (bytes "RKN_SIGNATURE_FILE_PATH") [];
      emchd_file_path = get_env_string (bytes "RKN_EMCHD_FILE_PATH") [];
      emchd_signature_path = get_env_string (bytes "RKN_EMCHD_SIGNATURE_PATH") [];
      dump_format_version = get_env_string (bytes "RKN_DUMP_FORMAT_VERSION") (bytes "2.4");
      poll_interval = get_env_duration (bytes "RKN_POLL_INTERVAL") (seconds 30);
      max_poll_attempts = get_env_int (bytes "RKN_MAX_POLL_ATTEMPTS") (pos 20);
      cert_file_path = get_env_string (bytes "RKN_CERT_FILE_PATH") [];
      key_file_path = get_env_string (bytes "RKN_KEY_FILE_PATH") [];
      ca_file_path = get_env_string (bytes "RKN_CA_FILE_PATH") [];
      insecure_skip_verify = get_env_bool (bytes "RKN_INSECURE_SKIP_VERIFY") false;
    };
  }

  -- getUpdateConfig
  unfoldable pub get_update_config : UpdateConfig
  get_update_config = record {
    interval = get_env_duration (bytes "UPDATE_INTERVAL") (seconds (48 * 3600));
    max_retries = get_env_int (bytes "UPDATE_MAX_RETRIES") (pos 3);
    retry_delay = get_env_duration (bytes "UPDATE_RETRY_DELAY") (seconds (5 * 60));
    update_timeout = get_env_duration (bytes "UPDATE_TIMEOUT") (seconds (10 * 60));
  }

  -- getDefaultSources, and then the override of the URL of Sources[0]
  unfoldable pub get_sources : List SourceConfig
  unfolding is_empty
  get_sources =
      let official_url = get_env_string (bytes "REGISTRY_OFFICIAL_URL") [] in
      if not (is_empty official_url)
      then record default_source { url = official_url } ∷ []
      else default_source ∷ []

  -- LoadConfig, whose error is always nil
  unfoldable pub load_config : Config
  load_config = record {
    server = record {
      grpc_port = get_env_int (bytes "GRPC_PORT") (pos 9090);
      rest_port = get_env_int (bytes "REST_PORT") (pos 80);
      host = get_env_string (bytes "HOST") (bytes "0.0.0.0");
      env = get_env_string (bytes "SERVER_ENV") (bytes "development");
    };
    registry = record {
      sources = get_sources;
      update_config = get_update_config;
      max_concurrent = get_env_int (bytes "REGISTRY_MAX_CONCURRENT") (pos 5);
      timeout = get_env_duration (bytes "REGISTRY_TIMEOUT") (seconds 30);
    };
    storage = record {
      bloom_filter_size = get_env_int (bytes "BLOOM_FILTER_SIZE") (pos (10 ^ 7));
      bloom_filter_hashes = get_env_int (bytes "BLOOM_FILTER_HASHES") (pos 7);
      max_registry_size = get_env_int (bytes "MAX_REGISTRY_SIZE") (pos (5 * 10 ^ 6));
    };
    logging = record {
      level = get_env_string (bytes "LOG_LEVEL") (bytes "info");
      format = get_env_string (bytes "LOG_FORMAT") (bytes "text");
    };
  }

pub data ConfigError : Type 0 where
  invalid_grpc_port invalid_rest_port : ℤ → ConfigError
  no_source : ConfigError
  empty_source_url invalid_source_timeout : ℕ → ConfigError
  bad_bloom_filter_size bad_bloom_filter_hashes : ConfigError
  invalid_log_level invalid_log_format : Bytes → ConfigError

-- The loop of Validate, from an index on.
unfoldable pub validate_sources : ℕ → List SourceConfig → Result ConfigError Unit
unfolding is_empty
validate_sources i [] = ok tt
validate_sources i (s ∷ ss) =
    fail_if (is_empty s.url) (empty_source_url i)
    >> fail_if (leb_ℤ s.timeout (pos 0)) (invalid_source_timeout i)
    >> validate_sources (suc i) ss

unfoldable pub is_level : Bytes → Bool
unfolding bytes_eq
is_level level =
    (bytes_eq level (bytes "debug") || bytes_eq level (bytes "info"))
    || (bytes_eq level (bytes "warn") || bytes_eq level (bytes "error"))

unfoldable pub is_format : Bytes → Bool
unfolding bytes_eq
is_format format = bytes_eq format (bytes "text") || bytes_eq format (bytes "json")

abbrev pub is_nil : List SourceConfig → Bool
is_nil [] = true
is_nil (s ∷ ss) = false

-- Validate
unfoldable pub validate : Config → Result ConfigError Unit
validate c =
    fail_if (ltb_ℤ c.server.grpc_port (pos 1) || ltb_ℤ (pos 65535) c.server.grpc_port)
      (invalid_grpc_port c.server.grpc_port)
    >> fail_if (ltb_ℤ c.server.rest_port (pos 1) || ltb_ℤ (pos 65535) c.server.rest_port)
        (invalid_rest_port c.server.rest_port)
    >> fail_if (is_nil c.registry.sources) no_source
    >> validate_sources 0 c.registry.sources
    >> fail_if (leb_ℤ c.storage.bloom_filter_size (pos 0)) bad_bloom_filter_size
    >> fail_if (leb_ℤ c.storage.bloom_filter_hashes (pos 0)) bad_bloom_filter_hashes
    >> fail_if (not (is_level c.logging.level)) (invalid_log_level c.logging.level)
    >> fail_if (not (is_format c.logging.format)) (invalid_log_format c.logging.format)

-- IsDevelopment
unfoldable pub is_development : Config → Bool
unfolding bytes_eq
is_development c = bytes_eq c.server.env (bytes "development")

-- IsProduction
unfoldable pub is_production : Config → Bool
unfolding bytes_eq
is_production c = bytes_eq c.server.env (bytes "production")

-- What the scheduler is given, where a negative setting is taken as 0.
unfoldable pub scheduler_config : UpdateConfig → Updater.Config
scheduler_config u = record {
  interval = pos_part u.interval;
  max_retries = pos_part u.max_retries;
  retry_delay = pos_part u.retry_delay;
  update_timeout = pos_part u.update_timeout;
}
