-- ===== src/Main.antt =====
-- cmd/app/main.go: what is built before the goroutines start. The goroutines and the exit are in
-- Main/Shutdown.antt.
pub mod Boot
pub mod Idle
pub mod Ticker
pub mod Shutdown
use rkn_checker.Prelude.{
  Bool, true, false, Option, none, some, Result, ok, err, ◌>>=◌, if◌then◌else◌,
}
use rkn_checker.Prelude.Integers.{ℤ}
use rkn_checker.Text.{Bytes, bytes, bytes_eq}
use rkn_checker.Registry.Official.{FetchError}
use rkn_checker.Registry.Client.{Client, ClientError, Network, new_client}
use rkn_checker.Configuration.{
  Environment, Config, ConfigError, LoggingConfig, load_config, validate, scheduler_config,
}
use rkn_checker.Updater

pub data Level : Type 0 where
  debug info warn error : Level

-- What setupLogging makes the default logger of.
pub record Logging : Type 0 where
  pub level : Level
  pub json : Bool

-- The switch of setupLogging; `none` is the exit of its default.
unfoldable pub level_of : Bytes → Option Level
unfolding bytes_eq
level_of level =
    if bytes_eq level (bytes "debug")
    then some debug
    else if bytes_eq level (bytes "info")
    then some info
    else if bytes_eq level (bytes "warn")
    then some warn
    else if bytes_eq level (bytes "error")
    then some error
    else none

-- What makes main exit before it serves.
pub data BootError : Type 0 where
  invalid_configuration : ConfigError → BootError
  invalid_log_level : Bytes → BootError
  no_client : ClientError → BootError

-- setupLogging
unfoldable pub setup_logging : LoggingConfig → Result BootError Logging
unfolding bytes_eq
setup_logging c = elim (level_of c.level) [
  | none ↦ err (invalid_log_level c.level)
  | some level ↦ ok (record { level = level; json = bytes_eq c.format (bytes "json") })
]

-- What main has when the goroutines start, next to the normalizer and the store.
pub record App (E : Type 0) : Type 0 where
  pub logging : Logging
  pub client : Client (FetchError E)
  pub update_config : Updater.Config
  pub grpc_port : ℤ
  pub rest_port : ℤ

abbrev pub validated : Config → Result BootError Unit
validated c = elim (validate c) [ err e ↦ err (invalid_configuration e) | ok done ↦ ok done ]

abbrev pub connected : {E : Type 0} → Network E → Config → Result BootError (Client (FetchError E))
connected network c = elim (new_client network c.registry.sources) [
  | err e ↦ err (no_client e)
  | ok client ↦ ok client
]

-- main from the configuration on, up to the goroutines
unfoldable pub boot_with : {E : Type 0} → Config → Network E → Result BootError (App E)
boot_with c network = validated c >>= λ checked. setup_logging c.logging >>= λ logging.
    connected network c >>= λ client. ok (record {
      logging = logging;
      client = client;
      update_config = scheduler_config c.registry.update_config;
      grpc_port = c.server.grpc_port;
      rest_port = c.server.rest_port;
    })

-- main, up to the goroutines
unfoldable pub boot : {E : Type 0} → Environment → Network E → Result BootError (App E)
boot e network = boot_with (load_config e) network
