-- ===== src/Delivery/Grpc.antt =====
-- internal/delivery/grpc. A call is its result, or `none` where it panics, and what is logged. The
-- generated messages are records of their fields; the server itself is in Grpc/Server.antt and its
-- run in Main/Shutdown.antt.
pub mod Server
use rkn_checker.Prelude.{
  List, [], ◌∷◌, ◌++◌, Bool, Option, none, some, Result, ok, err, if◌then◌else◌,
}
use rkn_checker.Text.{Bytes, bytes, is_empty}
use rkn_checker.Domain.Url.{DomainError, empty_url, invalid_url}
use rkn_checker.Domain.Blocking.{BlockingResult, type_string}
use rkn_checker.Service.{BlockingStats}
use rkn_checker.Delivery.{BlockingChecker}
use rkn_checker.Delivery.Common.{Code, ok_code, unknown_code, invalid_argument, internal, Status}

pub record CheckUrlResponse : Type 0 where
  pub blocked : Bool
  pub normalized_url : Bytes
  pub reason : Bytes
  pub match_of : Bytes

pub data ServingStatus : Type 0 where
  serving : ServingStatus

pub record HealthCheckResponse : Type 0 where
  pub status : ServingStatus
  pub message : Bytes

-- An error that status.FromError takes for a status, and any other.
pub data CallError : Type 0 where
  of_status : Status → CallError
  other : Bytes → CallError

-- What the interceptors log, but the duration and the text of the error.
pub data CallEntry : Type 0 where
  failed_call completed_call : (method : Bytes) → Code → CallEntry
  panicked_call : (method : Bytes) → CallEntry

pub record Call (A : Type 0) : Type 0 where
  pub result : Option (Result CallError A)
  pub log : List CallEntry

abbrev pub returns : {A : Type 0} → Result CallError A → Call A
returns result = record { result = some result; log = [] }

-- status.Error
abbrev pub fails : {A : Type 0} → Code → Bytes → Call A
fails code message = returns (err (of_status (record { code = code; message = message })))

abbrev crashes : {A : Type 0} → Call A
crashes = record { result = none; log = [] }

-- The response that CheckURL builds of a result.
unfoldable pub response_of : BlockingResult → CheckUrlResponse
response_of result = record {
  blocked = result.is_blocked;
  normalized_url = result.normalized_url;
  reason = if result.is_blocked then type_string result.reason else [];
  match_of =
      if result.is_blocked
      then (elim (result.rule) [ some rule ↦ rule.pattern | none ↦ [] ])
      else [];
}

-- CheckURL, from the call of the service on; it reads a field of a nil result
unfoldable pub reply_to_check : Result DomainError (Option BlockingResult) → Call CheckUrlResponse
reply_to_check (err empty_url) = fails invalid_argument (bytes "URL is empty")
reply_to_check (err invalid_url) = fails invalid_argument (bytes "Invalid URL format")
reply_to_check (err _) = fails internal (bytes "Internal server error")
reply_to_check (ok none) = crashes
reply_to_check (ok (some result)) = returns (ok (response_of result))

-- CheckURL
unfoldable pub check_url : BlockingChecker → Bytes → Call CheckUrlResponse
check_url checker url =
    if is_empty url
    then fails invalid_argument (bytes "URL is required")
    else reply_to_check (checker.check_url url)

-- GetStats; GetStatsResponse has the fields of BlockingStats
unfoldable pub reply_to_stats : Result DomainError (Option BlockingStats) → Call BlockingStats
reply_to_stats (err e) = fails internal (bytes "Failed to get statistics")
reply_to_stats (ok none) = crashes
reply_to_stats (ok (some stats)) = returns (ok stats)

unfoldable pub get_stats : BlockingChecker → Call BlockingStats
get_stats checker = reply_to_stats checker.get_stats

-- HealthCheck
unfoldable pub health_check : Call HealthCheckResponse
health_check = returns (ok (record { status = serving; message = bytes "Service is healthy" }))

module _ {A : Type 0} (method : Bytes) where
  -- The code that loggingInterceptor finds.
  unfoldable pub code_of : Result CallError A → Code
  code_of (ok a) = ok_code
  code_of (err (of_status status)) = status.code
  code_of (err (other message)) = unknown_code

  unfoldable pub entry_of : Result CallError A → CallEntry
  entry_of (ok a) = completed_call method (code_of (ok a))
  entry_of (err e) = failed_call method (code_of (err e))

  -- loggingInterceptor; a panic goes through it
  unfoldable pub logging_interceptor : Call A → Call A
  logging_interceptor handled = elim (handled.result) [
    | none ↦ handled
    | some result ↦ record handled { log = handled.log ++ (entry_of result ∷ []) }
  ]

  -- recoveryInterceptor
  unfoldable pub recovery_interceptor : Call A → Call A
  recovery_interceptor handled = elim (handled.result) [
    | some result ↦ handled
    | none ↦ record {
      result =
          some
            (err (of_status (record { code = internal; message = bytes "Internal server error" })));
      log = handled.log ++ (panicked_call method ∷ []);
    }
  ]

  -- grpc.ChainUnaryInterceptor(recoveryInterceptor, loggingInterceptor)
  unfoldable pub serve : Call A → Call A
  serve handled = recovery_interceptor (logging_interceptor handled)
