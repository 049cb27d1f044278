-- ===== src/Delivery/Rest.antt =====
-- internal/delivery/rest. http.ServeMux is a parameter; the server itself is in Rest/Server.antt and
-- its run in Main/Shutdown.antt.
pub mod Logged
pub mod Server
use rkn_checker.Prelude.{
  ℕ, Bool, true, false, not, List, [], ◌∷◌, ◌++◌, Option, none, some, Result, ok, err, leb,
  if◌then◌else◌, ◌≡◌,
}
use rkn_checker.Text.{Bytes, bytes, bytes_eq, is_empty}
use rkn_checker.Domain.Url.{DomainError, empty_url, invalid_url}
use rkn_checker.Domain.Blocking.{BlockingResult, type_string}
use rkn_checker.Service.{BlockingStats}
use rkn_checker.Storage.Dict.{Dict, get}
use rkn_checker.Delivery.{BlockingChecker}
use rkn_checker.Delivery.Http.{
  Request, AccessEntry, Entry, failed, completed, panicked, error, Effect, set_header, write_header,
  encode, http_error, log, Run, Handler, done, Library,
}
use rkn_checker.Delivery.Common.{write_json_response}

pub record CheckUrlResponse : Type 0 where
  pub blocked : Bool
  pub normalized_url : Bytes
  pub reason : Bytes
  pub match_of : Bytes

pub record ErrorResponse : Type 0 where
  pub error : Bytes
  pub code : ℕ
  pub message : Bytes

-- StatsResponse has the fields of BlockingStats.
pub data Body : Type 0 where
  check_url_response : CheckUrlResponse → Body
  stats_response : BlockingStats → Body
  health_response : (status message : Bytes) → Body
  error_response : ErrorResponse → Body

-- The response that CheckURL builds of a result.
unfoldable pub response_of : BlockingResult → CheckUrlResponse
response_of result = record {
  blocked = result.is_blocked;
  normalized_url = result.normalized_url;
  reason = if result.is_blocked then type_string result.reason else [];
  match_of =
      if result.is_blocked
      then (elim (result.rule) [ some rule ↦ rule.pattern | none ↦ [] ])
      else [];
}

-- getRemoteIP
unfoldable pub get_remote_ip : Request → Bytes
get_remote_ip r =
    let forwarded = r.header (bytes "X-Forwarded-For") in
    let real_ip = r.header (bytes "X-Real-IP") in
    if not (is_empty forwarded)
    then forwarded
    else if not (is_empty real_ip)
    then real_ip
    else r.remote_addr

-- statusCode of responseWriter after some effects: the last status that is written, http.Error
-- included, which calls WriteHeader
unfoldable pub status_code : ℕ → List (Effect Body) → ℕ
status_code code [] = code
status_code code (write_header code' ∷ es) = status_code code' es
status_code code (http_error message code' ∷ es) = status_code code' es
status_code code (_ ∷ es) = status_code code es

module _ (library : Library Body) where
  -- WriteErrorResponse
  unfoldable pub write_error_response : ℕ → Bytes → List (Effect Body)
  write_error_response code message =
      write_json_response library code (
        error_response
          (record { error = library.status_text code; code = code; message = message }))

  -- The switch of CheckURL over an error.
  unfoldable pub refuse : DomainError → List (Effect Body)
  refuse empty_url = write_error_response 400 (bytes "URL is empty")
  refuse invalid_url = write_error_response 400 (bytes "Invalid URL format")
  refuse _ =
      log (error (bytes "Failed to check URL"))
      ∷ write_error_response 500 (bytes "Internal server error")

  -- CheckURL, from the call of the service on; it reads a field of a nil result
  unfoldable pub reply_to_check : Result DomainError (Option BlockingResult) → Run Body
  reply_to_check (err e) = done (refuse e)
  reply_to_check (ok none) = record { effects = []; panics = true }
  reply_to_check (ok (some result)) =
      done (write_json_response library 200 (check_url_response (response_of result)))

  -- GetStats, from the call of the service on
  unfoldable pub reply_to_stats : Result DomainError (Option BlockingStats) → Run Body
  reply_to_stats (err e) = done (
      log (error (bytes "Failed to get stats"))
      ∷ write_error_response 500 (bytes "Failed to get statistics"))
  reply_to_stats (ok none) = record { effects = []; panics = true }
  reply_to_stats (ok (some stats)) = done (write_json_response library 200 (stats_response stats))

  module _ (checker : BlockingChecker) where
    -- CheckURL, from the field of the decoded body on
    unfoldable pub reply_to_url : Option Bytes → Run Body
    reply_to_url none = done (write_error_response 400 (bytes "Invalid JSON body"))
    reply_to_url (some url) =
        if is_empty (library.trim_space url)
        then done (write_error_response 400 (bytes "URL is required"))
        else reply_to_check (checker.check_url url)

    -- CheckURL
    unfoldable pub check_url : Handler Body
    check_url r =
        if not (bytes_eq r.method (bytes "POST"))
        then done (write_error_response 405 (bytes "Method not allowed"))
        else reply_to_url (library.decode_url r.content)

    -- GetStats
    unfoldable pub get_stats : Handler Body
    get_stats r =
        if not (bytes_eq r.method (bytes "GET"))
        then done (write_error_response 405 (bytes "Method not allowed"))
        else reply_to_stats checker.get_stats

    -- HealthCheck
    unfoldable pub health_check : Handler Body
    health_check r =
        if not (bytes_eq r.method (bytes "GET"))
        then done (write_error_response 405 (bytes "Method not allowed"))
        else done (
            write_json_response library 200
              (health_response (bytes "healthy") (bytes "Service is operational")))

    -- What server.go registers with the mux.
    abbrev pub routes : Dict (Handler Body)
    routes =
        (bytes "/api/v1/check", check_url)
        ∷ (bytes "/api/v1/stats", get_stats)
        ∷ (bytes "/health", health_check)
        ∷ []

  -- RecoveryMiddleware
  unfoldable pub recovery_middleware : Handler Body → Handler Body
  recovery_middleware next r =
      let ran = next r in
      if ran.panics
      then done (
          ran.effects
          ++ (log (panicked r.method r.path)
              ∷ write_error_response 500 (bytes "Internal server error")))
      else ran

-- LoggingMiddleware; a panic goes through it
unfoldable pub logging_middleware : Handler Body → Handler Body
logging_middleware next r =
    let ran = next r in
    let status = status_code 200 ran.effects in
    let entry : AccessEntry = record {
      method = r.method;
      path = r.path;
      status = status;
      user_agent = r.header (bytes "User-Agent");
      remote_ip = get_remote_ip r;
    } in
    if ran.panics
    then ran
    else done (ran.effects ++ (log (if leb 400 status then failed entry else completed entry) ∷ []))

-- The headers of CORSMiddleware.
abbrev pub cors_headers : List (Effect Body)
cors_headers =
    set_header (bytes "Access-Control-Allow-Origin") (bytes "*")
    ∷ set_header (bytes "Access-Control-Allow-Methods") (bytes "GET, POST, OPTIONS")
    ∷ set_header (bytes "Access-Control-Allow-Headers") (bytes "Content-Type, Authorization")
    ∷ []

-- CORSMiddleware
unfoldable pub cors_middleware : Handler Body → Handler Body
cors_middleware next r =
    let ran = next r in
    if bytes_eq r.method (bytes "OPTIONS")
    then done (cors_headers ++ (write_header 200 ∷ []))
    else record { effects = cors_headers ++ ran.effects; panics = ran.panics }

-- http.ServeMux: from the registered handlers to one
abbrev pub ServeMux : Type 0
ServeMux = Dict (Handler Body) → Handler Body

-- The mux calls the handler that the table has for the path of a request, if there is one.
abbrev pub Dispatches : ServeMux → Dict (Handler Body) → Type 0
Dispatches mux table =
    (r : Request) (handler : Handler Body)
    → get table r.path ≡ some handler
    → mux table r ≡ handler r

-- finalHandler of Server.Start
unfoldable pub serve : ServeMux → Library Body → BlockingChecker → Handler Body
serve mux library checker =
    cors_middleware
      (logging_middleware (recovery_middleware library (mux (routes library checker))))
