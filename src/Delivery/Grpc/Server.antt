-- ===== src/Delivery/Grpc/Server.antt =====
-- The server of internal/delivery/grpc/server.go and its settings; how Start runs it is in
-- Main/Shutdown.antt. Durations are in nanoseconds, and the server of grpc is its options.
use rkn_checker.Prelude.{ℕ, ◌*◌, ◌^◌, Bool, true, List, [], ◌∷◌, Option, none, some}
use rkn_checker.Text.{Bytes}
use rkn_checker.Delivery.{BlockingChecker}
use rkn_checker.Delivery.Grpc.{Call, serve}

-- keepalive.ServerParameters
pub record ServerParameters : Type 0 where
  pub max_connection_idle : ℕ
  pub max_connection_age : ℕ
  pub max_connection_age_grace : ℕ
  pub time : ℕ
  pub timeout : ℕ

-- keepalive.EnforcementPolicy
pub record EnforcementPolicy : Type 0 where
  pub min_time : ℕ
  pub permit_without_stream : Bool

-- What grpc.NewServer is given.
pub record ServerOptions (A : Type 0) : Type 0 where
  pub keepalive_params : ServerParameters
  pub keepalive_policy : EnforcementPolicy
  pub interceptors : Bytes → Call A → Call A

-- Server; `none` is a nil server
pub record Server (A : Type 0) : Type 0 where
  pub server : Option (ServerOptions A)
  pub blocking_service : BlockingChecker
  pub port : ℕ

-- NewServer
unfoldable pub new_server : {A : Type 0} → BlockingChecker → ℕ → Server A
unfolding serve
new_server blocking_service port = record {
  server = some (record {
    keepalive_params = record {
      max_connection_idle = 15 * 10 ^ 9;
      max_connection_age = 30 * 10 ^ 9;
      max_connection_age_grace = 5 * 10 ^ 9;
      time = 5 * 10 ^ 9;
      timeout = 1 * 10 ^ 9;
    };
    keepalive_policy = record { min_time = 5 * 10 ^ 9; permit_without_stream = true };
    interceptors = serve;
  });
  blocking_service = blocking_service;
  port = port;
}

-- Stop, as the calls of GracefulStop that it makes
unfoldable pub stop : {A : Type 0} → Server A → List (ServerOptions A)
stop s = elim (s.server) [ none ↦ [] | some server ↦ server ∷ [] ]
