-- ===== src/Registry/Errors.antt =====
-- internal/infrastructure/registry/errors.go, and the errors that the package makes with fmt.
-- `E` is an error of a library; it may wrap errors of libraries, but none of this package.
pub mod Causes
use rkn_checker.Prelude.{
  ℕ, zero, suc, Bool, true, false, List, [], ◌∷◌, ◌++◌, Option, none, some, if◌then◌else◌,
}
use rkn_checker.Text.{Bytes, bytes, is_empty}

pub data Sentinel : Type 0 where
  all_sources_failed invalid_format empty_data parsing_failed unsupported_format : Sentinel
  rkn_authentication_required rkn_invalid_credentials rkn_request_pending : Sentinel
  rkn_request_failed rkn_invalid_request rkn_service_unavailable : Sentinel

-- A value of the interface `error`; a timestamp is in the unit of the clock.
pub data Error (E : Type 0) : Type 0 where
  nil : Error E
  outside : E → Error E
  sentinel : Sentinel → Error E
  -- fmt.Errorf of a text with no error in it
  plain : Bytes → Error E
  -- fmt.Errorf("text: %w", err)
  wraps : Bytes → Error E → Error E
  -- fmt.Errorf("%w: last error: %v", sentinel, err)
  followed_by : Sentinel → Error E → Error E
  -- SourceError
  source_error : (source operation : Bytes) (cause : Error E) (timestamp : ℕ) → Error E
  -- ParsingError
  parsing_error : (format : Bytes) (line column : ℕ) (cause : Error E) → Error E
  -- RKNAPIError
  rkn_api_error : (code message operation request_id : Bytes) → Error E

-- What fmt and time print.
pub record Printer (E : Type 0) : Type 0 where
  -- Error of an error of a library
  pub print : E → Bytes
  -- %q of a string
  pub quoted : Bytes → Bytes
  -- %d
  pub decimal : ℕ → Bytes
  -- time.Time.Format with time.RFC3339
  pub rfc3339 : ℕ → Bytes

unfoldable pub sentinel_text : Sentinel → Bytes
sentinel_text all_sources_failed = bytes "all registry sources failed"
sentinel_text invalid_format = bytes "invalid registry data format"
sentinel_text empty_data = bytes "empty registry data received"
sentinel_text parsing_failed = bytes "failed to parse registry data"
sentinel_text unsupported_format = bytes "unsupported registry data format"
sentinel_text rkn_authentication_required =
    bytes "RKN API requires digital signature authentication"
sentinel_text rkn_invalid_credentials = bytes "RKN API authentication failed: invalid credentials"
sentinel_text rkn_request_pending = bytes "RKN API request is still being processed"
sentinel_text rkn_request_failed = bytes "RKN API request failed"
sentinel_text rkn_invalid_request = bytes "RKN API request format is invalid"
sentinel_text rkn_service_unavailable = bytes "RKN API service is temporarily unavailable"

-- The pieces of a format string and what it prints, one after the other.
unfoldable pub concat : List Bytes → Bytes
concat [] = []
concat (piece ∷ pieces) = piece ++ concat pieces

-- The pieces of RKNAPIError.Error.
unfoldable pub rkn_api_text : Bytes → Bytes → Bytes → Bytes → List Bytes
unfolding is_empty
rkn_api_text code message operation request_id =
    if is_empty request_id
    then bytes "RKN API error [" ∷ code ∷ bytes "] during " ∷ operation ∷ bytes ": " ∷ message ∷ []
    else bytes "RKN API error ["
      ∷ code
      ∷ bytes "] during "
      ∷ operation
      ∷ bytes " (request "
      ∷ request_id
      ∷ bytes "): "
      ∷ message
      ∷ []

module _ {E : Type 0} where
  -- NewSourceError, at the time `now`
  unfoldable pub new_source_error : ℕ → Bytes → Bytes → Error E → Error E
  new_source_error now source operation cause = source_error source operation cause now

  -- NewParsingError
  unfoldable pub new_parsing_error : Bytes → Error E → Error E
  new_parsing_error format cause = parsing_error format 0 0 cause

  -- NewParsingErrorWithPosition
  unfoldable pub new_parsing_error_with_position : Bytes → ℕ → ℕ → Error E → Error E
  new_parsing_error_with_position format line column cause = parsing_error format line column cause

  -- NewRKNAPIError
  unfoldable pub new_rkn_api_error : Bytes → Bytes → Bytes → Error E
  new_rkn_api_error code message operation = rkn_api_error code message operation []

  -- NewRKNAPIErrorWithRequestID
  unfoldable pub new_rkn_api_error_with_request_id : Bytes → Bytes → Bytes → Bytes → Error E
  new_rkn_api_error_with_request_id code message operation request_id =
      rkn_api_error code message operation request_id

  abbrev pub or_nil : Error E → Option (Error E)
  or_nil nil = none
  or_nil e = some e

  -- Unwrap; `none` is nil
  unfoldable pub unwrap : Error E → Option (Error E)
  unwrap (wraps text cause) = or_nil cause
  unwrap (followed_by s last) = some (sentinel s)
  unwrap (source_error source operation cause timestamp) = or_nil cause
  unwrap (parsing_error format line column cause) = or_nil cause
  unwrap _ = none

  -- The error of this package without a cause that errors.Is reaches, if it is a sentinel.
  unfoldable pub root : Error E → Option Sentinel
  root (sentinel s) = some s
  root (wraps text cause) = root cause
  root (followed_by s last) = some s
  root (source_error source operation cause timestamp) = root cause
  root (parsing_error format line column cause) = root cause
  root _ = none

  -- What ParsingError.Error prints before the cause.
  unfoldable pub parsing_text : Printer E → Bytes → ℕ → ℕ → List Bytes
  parsing_text printer format zero column =
      bytes "parsing " ∷ format ∷ bytes " format failed: " ∷ []
  parsing_text printer format (suc line) column =
      bytes "parsing "
      ∷ format
      ∷ bytes " format failed at line "
      ∷ printer.decimal (suc line)
      ∷ bytes ", column "
      ∷ printer.decimal column
      ∷ bytes ": "
      ∷ []

  -- What SourceError.Error prints before the cause, and after it.
  unfoldable pub source_text : Printer E → Bytes → Bytes → List Bytes
  source_text printer source operation =
      bytes "registry source "
      ∷ printer.quoted source
      ∷ bytes " failed during "
      ∷ operation
      ∷ bytes ": "
      ∷ []

  unfoldable pub time_text : Printer E → ℕ → List Bytes
  time_text printer timestamp = bytes " (at " ∷ printer.rfc3339 timestamp ∷ bytes ")" ∷ []

  -- Error
  unfoldable pub error_text : Printer E → Error E → Bytes
  unfolding sentinel_text parsing_text rkn_api_text source_text time_text concat
  error_text printer nil = bytes "<nil>"
  error_text printer (outside e) = printer.print e
  error_text printer (sentinel s) = sentinel_text s
  error_text printer (plain text) = text
  error_text printer (wraps text cause) = concat (text ∷ bytes ": " ∷ error_text printer cause ∷ [])
  error_text printer (followed_by s last) =
      concat (sentinel_text s ∷ bytes ": last error: " ∷ error_text printer last ∷ [])
  error_text printer (source_error source operation cause timestamp) = concat (
      source_text printer source operation
      ++ (error_text printer cause ∷ time_text printer timestamp))
  error_text printer (parsing_error format line column cause) =
      concat (parsing_text printer format line column ++ (error_text printer cause ∷ []))
  error_text printer (rkn_api_error code message operation request_id) =
      concat (rkn_api_text code message operation request_id)
