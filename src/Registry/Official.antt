-- ===== src/Registry/Official.antt =====
-- internal/infrastructure/registry/official_source.go. The HTTP client is a parameter; the files of
-- `requestFile` and `signatureFile` are read nowhere in the program, and SetAuthenticationFiles and
-- SetTestMode are called by tests only. The TLS settings and the names of files never read again
-- are left out.
pub mod Fetches
pub mod Health
use rkn_checker.Prelude.{
  ℕ, zero, suc, ◌+◌, ◌-◌, ◌*◌, ◌^◌, Bool, true, false, not, ◌&&◌, ◌||◌, List, [], ◌∷◌, ◌++◌, Option,
  none, some, Result, ok, err, ◌>>=◌, ◌==◌, ltb, length, if◌then◌else◌, take,
}
use rkn_checker.Prelude.Integers.{pos_part}
use rkn_checker.Text.{Bytes, bytes, is_empty, contains, has_suffix}
use rkn_checker.Storage.Dict.{Dict}
use rkn_checker.Registry.Exchange.{
  HttpRequest, HttpReply, Http, HttpError, creating, sending, reading, bad_status, exchange,
}
use rkn_checker.Registry.Source.{SourceConfig, Source}

-- The errors of fetchOnce.
pub data OfficialError (E : Type 0) : Type 0 where
  direct soap : HttpError E → OfficialError E
  empty_data not_authenticated : OfficialError E
  request_failed invalid_response : OfficialError E
  placeholder : OfficialError E

-- The errors of Fetch; the last error is nil where no attempt was made.
pub data FetchError (E : Type 0) : Type 0 where
  context_done : E → FetchError E
  all_failed : Option (OfficialError E) → FetchError E

-- A `last_health` of 0 is the zero time.
pub record OfficialSource : Type 0 where
  pub config : SourceConfig
  pub last_health : ℕ
  pub healthy : Bool
  pub request_file : Bytes
  pub signature_file : Bytes
  pub emchd_file_name : Bytes
  pub dump_format_version : Bytes
  pub test_mode : Bool

-- NewOfficialSource, with what loadAuthenticationFiles does
unfoldable pub new_official_source : SourceConfig → OfficialSource
unfolding is_empty
new_official_source config = record {
  config = config;
  last_health = 0;
  healthy = true;
  request_file = [];
  signature_file = [];
  emchd_file_name = config.rkn.emchd_file_path;
  dump_format_version =
      if is_empty config.rkn.dump_format_version
      then bytes "2.4"
      else config.rkn.dump_format_version;
  test_mode = false;
}

-- SetAuthenticationFiles
unfoldable pub set_authentication_files : Bytes → Bytes → OfficialSource → OfficialSource
set_authentication_files request_file signature_file o = record o {
  request_file = request_file;
  signature_file = signature_file;
}

-- SetTestMode
unfoldable pub set_test_mode : Bool → OfficialSource → OfficialSource
set_test_mode enabled o = record o { test_mode = enabled }

-- createSendRequestSOAP; a line ends in a byte of 10
unfoldable pub create_send_request_soap : OfficialSource → Bytes
create_send_request_soap o =
    bytes "<?xml version="
    ++ (34 ∷ bytes "1.0")
    ++ (34 ∷ bytes " encoding=")
    ++ (34 ∷ bytes "utf-8")
    ++ (34 ∷ bytes "?>")
    ++ (10 ∷ bytes "<soap:Envelope xmlns:soap=")
    ++ (34 ∷ bytes "http://schemas.xmlsoap.org/soap/envelope/")
    ++ (34 ∷ bytes ">")
    ++ (10 ∷ bytes "  <soap:Body>")
    ++ (10 ∷ bytes "    <sendRequest xmlns=")
    ++ (34 ∷ bytes "http://vigruzki.rkn.gov.ru/services/OperatorRequest/")
    ++ (34 ∷ bytes ">")
    ++ (10 ∷ bytes "      <requestFile>")
    ++ o.request_file
    ++ bytes "</requestFile>"
    ++ (10 ∷ bytes "      <signatureFile>")
    ++ o.signature_file
    ++ bytes "</signatureFile>"
    ++ (10 ∷ bytes "      <dumpFormatVersion>")
    ++ o.dump_format_version
    ++ bytes "</dumpFormatVersion>"
    ++ (10 ∷ bytes "    </sendRequest>")
    ++ (10 ∷ bytes "  </soap:Body>")
    ++ (10 ∷ bytes "</soap:Envelope>")

-- parseSendRequestResponse
unfoldable pub parse_send_request_response : {E : Type 0} → Bytes → Result (OfficialError E) Bytes
parse_send_request_response content =
    if contains content (bytes "<result>true</result>")
    then ok (bytes "placeholder-request-id")
    else if contains content (bytes "<result>false</result>")
    then err request_failed
    else err invalid_response

-- strings.TrimSuffix(url, "/") + "?wsdl"
unfoldable pub wsdl_url : Bytes → Bytes
wsdl_url url =
    let bare = if has_suffix url (bytes "/") then take (length url - 1) url else url in
    bare ++ bytes "?wsdl"

-- The request of fetchDirect.
abbrev pub direct_request : OfficialSource → HttpRequest
direct_request o = record {
  method = bytes "GET";
  url = o.config.url;
  headers =
      (bytes "User-Agent", o.config.user_agent)
      ∷ (bytes "Accept", bytes "text/csv, application/xml")
      ∷ [];
  content = [];
}

module _ {E : Type 0} (http : Http E) where
  -- fetchDirect
  unfoldable pub fetch_direct : ℕ → OfficialSource → Result (OfficialError E) Bytes
  fetch_direct i o = elim (exchange http i (direct_request o)) [
    | err e ↦ err (direct e)
    | ok content ↦ if is_empty content then err empty_data else ok content
  ]

  -- sendSOAPRequest
  unfoldable pub send_soap_request : ℕ → OfficialSource → Result (OfficialError E) Bytes
  send_soap_request i o =
      let request : HttpRequest = record {
        method = bytes "POST";
        url = o.config.url;
        headers =
            (bytes "Content-Type", bytes "text/xml; charset=utf-8")
            ∷ (bytes "SOAPAction", bytes "sendRequest")
            ∷ (bytes "User-Agent", o.config.user_agent)
            ∷ [];
        content = create_send_request_soap o;
      } in
      let sent : Result (OfficialError E) Bytes = elim (exchange http i request) [
        | err e ↦ err (soap e)
        | ok content ↦ parse_send_request_response content
      ] in
      if is_empty o.request_file || is_empty o.signature_file then err not_authenticated else sent

  -- getSOAPResult
  unfoldable pub get_soap_result : Bytes → Result (OfficialError E) Bytes
  get_soap_result request_id = err placeholder

  -- fetchOnce
  unfoldable pub fetch_once : ℕ → OfficialSource → Result (OfficialError E) Bytes
  fetch_once i o =
      if o.test_mode then fetch_direct i o else send_soap_request i o >>= get_soap_result

  -- The loop of Fetch, at an attempt, with the attempts that are left; `ended_in_wait` is the error
  -- of the context if it ends during the wait before an attempt.
  unfoldable pub fetch_attempts :
      (ℕ → Option E)
      → ℕ
      → ℕ
      → Option (OfficialError E)
      → OfficialSource
      → Result (FetchError E) Bytes
  fetch_attempts ended_in_wait attempt zero last_error o = err (all_failed last_error)
  fetch_attempts ended_in_wait attempt (suc left) last_error o =
      let ran : Result (FetchError E) Bytes = elim (fetch_once attempt o) [
        | ok content ↦ ok content
        | err e ↦ fetch_attempts ended_in_wait (suc attempt) left (some e) o
      ] in
      if attempt == 0
      then ran
      else elim (ended_in_wait attempt) [ some e ↦ err (context_done e) | none ↦ ran ]

  -- What Fetch leaves in the source.
  abbrev pub after_fetch : ℕ → Result (FetchError E) Bytes → OfficialSource → OfficialSource
  after_fetch now (ok content) o = record o { healthy = true; last_health = now }
  after_fetch now (err (context_done e)) o = o
  after_fetch now (err (all_failed e)) o = record o { healthy = false }

  -- Fetch, which ends at the time `now`
  unfoldable pub fetch :
      (ℕ → Option E) → ℕ → OfficialSource → Result (FetchError E) Bytes × OfficialSource
  fetch ended_in_wait now o =
      let result = fetch_attempts ended_in_wait 0 (pos_part o.config.max_retries) none o in
      (result, after_fetch now result o)

  -- IsHealthy at the time `now`, whose reply comes at the time `later`, with the requests it sends
  unfoldable pub is_healthy : ℕ → ℕ → OfficialSource → Bool × OfficialSource × List HttpRequest
  is_healthy now later o =
      let request : HttpRequest = record {
        method = bytes "GET";
        url = wsdl_url o.config.url;
        headers = (bytes "User-Agent", o.config.user_agent) ∷ [];
        content = [];
      } in
      let asked : Bool × OfficialSource = elim (http.send 0 request) [
        | err e ↦ (false, record o { healthy = false })
        | ok reply ↦
            (reply.status == 200, record o { healthy = reply.status == 200; last_health = later })
      ] in
      let checked : Bool × OfficialSource × List HttpRequest =
        elim (http.refused request.method request.url) [
          | some e ↦ (false, record o { healthy = false }, [])
          | none ↦ (asked.0, asked.1, request ∷ [])
        ] in
      if not (o.last_health == 0) && ltb (now - o.last_health) (5 * 60 * 10 ^ 9)
      then (o.healthy, o, [])
      else checked
