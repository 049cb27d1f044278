-- ===== src/Registry/Reported.antt =====
-- The errors of internal/infrastructure/registry/official_source.go and client.go as values of the
-- interface `error`, with the texts that the code gives them.
use rkn_checker.Prelude.{ℕ, Option, none, some, [], ◌∷◌}
use rkn_checker.Text.{Bytes, bytes}
use rkn_checker.Registry.Exchange.{HttpError, creating, sending, reading, bad_status}
use rkn_checker.Registry.Official.{
  OfficialError, direct, soap, not_authenticated, request_failed, invalid_response, placeholder,
  FetchError, context_done, all_failed,
}
use rkn_checker.Registry.Official
use rkn_checker.Registry.Client.{SourceError, Cause, not_healthy, fetch_failed, parse_failed}
use rkn_checker.Registry.Errors.{
  Error, Printer, nil, outside, sentinel, plain, wraps, followed_by, all_sources_failed, empty_data,
  new_source_error, concat,
}

-- The text for a status that is not 200, after what stands before it.
abbrev status_text : {E : Type 0} → Printer E → Bytes → ℕ → Bytes → Bytes
status_text printer before code line =
    concat (before ∷ printer.decimal code ∷ bytes ": " ∷ line ∷ [])

module _ {E : Type 0} (printer : Printer E) where
  -- The errors of fetchDirect's exchange.
  unfoldable pub direct_error : HttpError E → Error E
  direct_error (creating e) = wraps (bytes "creating request") (outside e)
  direct_error (sending e) = wraps (bytes "HTTP request failed") (outside e)
  direct_error (bad_status code line) = plain (status_text printer (bytes "HTTP ") code line)
  direct_error (reading e) = wraps (bytes "reading response body") (outside e)

  -- The errors of sendSOAPRequest's exchange.
  unfoldable pub soap_error : HttpError E → Error E
  soap_error (creating e) = wraps (bytes "creating SOAP request") (outside e)
  soap_error (sending e) = wraps (bytes "SOAP request failed") (outside e)
  soap_error (bad_status code line) = plain (status_text printer (bytes "SOAP HTTP ") code line)
  soap_error (reading e) = wraps (bytes "reading SOAP response") (outside e)

  -- The errors of fetchOnce.
  unfoldable pub official_error : OfficialError E → Error E
  unfolding direct_error soap_error
  official_error (direct e) = direct_error e
  official_error Official.empty_data = sentinel empty_data
  official_error (soap e) = wraps (bytes "sending SOAP request") (soap_error e)
  official_error not_authenticated = wraps (bytes "sending SOAP request") (
      plain (
        concat (
          bytes "RKN API requires authentication: "
          ∷ bytes "request file and digital signature must be configured"
          ∷ [])))
  official_error request_failed = wraps (bytes "sending SOAP request") (
      wraps (bytes "parsing SOAP response")
        (plain (bytes "RKN API request failed - check authentication and request format")))
  official_error invalid_response =
      wraps (bytes "sending SOAP request")
        (wraps (bytes "parsing SOAP response") (plain (bytes "invalid SOAP response format")))
  official_error placeholder = wraps (bytes "getting SOAP result") (
      plain (
        concat (
          bytes "RKN API integration requires proper authentication setup and "
          ∷ bytes "request/response handling - this is a placeholder implementation"
          ∷ [])))

  -- The error of Fetch, made at the time `now`.
  unfoldable pub fetch_error : ℕ → FetchError E → Error E
  unfolding official_error new_source_error
  fetch_error now (context_done e) = outside e
  fetch_error now (all_failed none) =
      new_source_error now (bytes "Official RKN API") (bytes "fetch") nil
  fetch_error now (all_failed (some e)) =
      new_source_error now (bytes "Official RKN API") (bytes "fetch") (official_error e)

module _ {E F P : Type 0} (now : ℕ) (fetching : F → Error E) (parsing : P → Error E) where
  -- The error that fetchFromSource hands to NewSourceError.
  unfoldable pub cause_error : Cause F P → Error E
  cause_error not_healthy = plain (bytes "source is not healthy")
  cause_error (fetch_failed e) = fetching e
  cause_error (parse_failed e) = parsing e

  -- The error of fetchFromSource.
  unfoldable pub from_source_error : SourceError F P → Error E
  unfolding cause_error new_source_error
  from_source_error e = new_source_error now e.source e.operation (cause_error e.cause)

  -- The error of FetchRegistry.
  unfoldable pub client_error : Option (SourceError F P) → Error E
  unfolding from_source_error
  client_error none = followed_by all_sources_failed nil
  client_error (some e) = followed_by all_sources_failed (from_source_error e)
