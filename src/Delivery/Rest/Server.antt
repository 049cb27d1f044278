-- ===== src/Delivery/Rest/Server.antt =====
-- The server of internal/delivery/rest/server.go and its settings; how Start runs it is in
-- Main/Shutdown.antt. Durations are in nanoseconds.
use rkn_checker.Prelude.{ℕ, ◌*◌, ◌^◌, List, [], ◌∷◌, Option, none, some}
use rkn_checker.Text.{Bytes}
use rkn_checker.Delivery.{BlockingChecker}
use rkn_checker.Delivery.Http.{Handler, Library}
use rkn_checker.Delivery.Rest.{Body, ServeMux, serve}

-- The fields of http.Server that Start sets.
pub record HttpServer : Type 0 where
  pub addr : Bytes
  pub handler : Handler Body
  pub read_timeout : ℕ
  pub write_timeout : ℕ
  pub idle_timeout : ℕ

-- Server; `none` is a nil server, as before Start
pub record Server : Type 0 where
  pub server : Option HttpServer
  pub blocking_service : BlockingChecker
  pub port : ℕ

-- NewServer
unfoldable pub new_server : BlockingChecker → ℕ → Server
new_server blocking_service port = record {
  server = none;
  blocking_service = blocking_service;
  port = port;
}

-- The server that Start makes and keeps, up to the call of ListenAndServe; `decimal` is %d.
unfoldable pub prepare : ServeMux → Library Body → (decimal : ℕ → Bytes) → Server → Server
unfolding serve
prepare mux library decimal s = record s {
  server = some (record {
    addr = b':' ∷ decimal s.port;
    handler = serve mux library s.blocking_service;
    read_timeout = 10 * 10 ^ 9;
    write_timeout = 10 * 10 ^ 9;
    idle_timeout = 15 * 10 ^ 9;
  });
}

-- Stop, as the calls of Shutdown that it makes, each with the timeout of its context
unfoldable pub stop : Server → List (HttpServer × ℕ)
stop s = elim (s.server) [ none ↦ [] | some server ↦ (server, 30 * 10 ^ 9) ∷ [] ]
