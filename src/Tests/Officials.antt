-- ===== src/Tests/Officials.antt =====
-- The official source, and a client of several of them.
use rkn_checker.Prelude.{
  ℕ, ◌<◌, ◌≡◌, refl, true, false, List, [], ◌∷◌, none, ok, err, if◌then◌else◌, arith,
}
use rkn_checker.Text.{Bytes, bytes, bytes_eq, is_empty, has_prefix, has_suffix}
use rkn_checker.Prelude.Integers.{pos}
use rkn_checker.Registry.Source.{Source, SourceConfig, official_type, seconds}
use rkn_checker.Registry.Exchange.{Http, HttpReply, exchange}
use rkn_checker.Registry.Official.{
  FetchError, OfficialSource, new_official_source, set_test_mode, fetch_direct, fetch_once,
  fetch_attempts, fetch, is_healthy, wsdl_url,
}
use rkn_checker.Registry.Official.Fetches.{fetch-ok}
use rkn_checker.Registry.Official.Health.{IsFresh, found_healthy, is_healthy-fetch}
use rkn_checker.Registry.Client.{
  Network, Client, official_source, order_sources, last_named, not_named, fetch_from_source,
  fetch_from, fetch_registry, on_fetch_success, new_client, create_source, create_sources,
}
use rkn_checker.Registry.Client.Calls.{asked_over, created, called, order_sources-new_client}
use rkn_checker.Tests.Sources.{content, reader, fetched, parse_runs}

abbrev pub config_of : Bytes → SourceConfig
config_of url = record {
  source_type = official_type;
  url = url;
  timeout = seconds 60;
  max_retries = pos 2;
  user_agent = [];
  rkn = record {
    request_file_path = [];
    signature_file_path = [];
    emchd_file_path = [];
    emchd_signature_path = [];
    dump_format_version = [];
    poll_interval = seconds 30;
    max_poll_attempts = pos 20;
    cert_file_path = [];
    key_file_path = [];
    ca_file_path = [];
    insecure_skip_verify = false;
  };
}

abbrev tested : SourceConfig → OfficialSource
unfolding set_test_mode new_official_source
tested config = set_test_mode true (new_official_source config)

-- Two official sources in the test mode, of which the first answers.
abbrev pub http : Http ℕ
http = record {
  refused = λ method url. none;
  send = λ i request.
      if has_prefix request.url (bytes "a")
      then ok (record { status = 200; status_line = bytes "200 OK"; content = ok content })
      else err 5;
}

abbrev network : Network ℕ
network = record {
  http = λ i. http;
  ended_in_wait = λ i attempt. none;
  now = λ i. 4;
  later = λ i. 4;
  state = λ config i. tested config;
}

abbrev official_client : Client (FetchError ℕ)
official_client = record {
  sources =
      official_source network (config_of (bytes "a"))
      ∷ official_source network (config_of (bytes "b"))
      ∷ [];
  last_successful_source = [];
  last_update_time = 0;
  consecutive_failures = 0;
}

new_client_runs :
    new_client network (config_of (bytes "a") ∷ config_of (bytes "b") ∷ []) ≡ ok official_client
unfolding new_client create_sources create_source bytes_eq
new_client_runs = refl

fetch_runs : (fetch http (λ attempt. none) 4 (tested (config_of (bytes "a")))).0 ≡ ok content
unfolding fetch fetch_attempts fetch_once fetch_direct exchange has_prefix bytes_eq is_empty
    set_test_mode new_official_source
fetch_runs = refl

official_runs : fetch_registry reader 4 (λ i. false) official_client ≡ (
  ok (record fetched { source = bytes "Official RKN API" }),
  on_fetch_success 4 (bytes "Official RKN API") official_client,
)
unfolding fetch_registry fetch_from fetch_from_source order_sources is_empty on_fetch_success
    bytes_eq official_source is_healthy fetch fetch_attempts fetch_once fetch_direct exchange
    has_prefix has_suffix set_test_mode new_official_source wsdl_url
official_runs = rw (fetch_registry, fetch_from, fetch_from_source, parse_runs)

-- Only the second is asked again, although the first one answered.
one_left :
    order_sources (on_fetch_success 4 (bytes "Official RKN API") official_client)
    ≡ official_source network (config_of (bytes "b")) ∷ []
unfolding order_sources is_empty last_named not_named bytes_eq on_fetch_success official_source
one_left = refl

abbrev two_configs : List SourceConfig
two_configs = config_of (bytes "a") ∷ config_of (bytes "b") ∷ []

abbrev client_after : Client (FetchError ℕ)
client_after = on_fetch_success 4 (bytes "Official RKN API") official_client

order_sources-new_client_example :
    (s : Source (FetchError ℕ)) × (order_sources (asked_over official_client client_after) ≡ s ∷ [])
order_sources-new_client_example =
    order_sources-new_client reader two_configs client_after official_client network
      (called network 4 (λ i. false) official_client official_client
        (ok (record fetched { source = bytes "Official RKN API" }))
        (created network new_client_runs) new_client_runs official_runs)
      new_client_runs

fetch-ok_example :
    (i : ℕ) × (reply : HttpReply ℕ) × (i < 2)
    × (http.send i (record {
      method = bytes "GET";
      url = bytes "a";
      headers = (bytes "User-Agent", []) ∷ (bytes "Accept", bytes "text/csv, application/xml") ∷ [];
      content = [];
    })
        ≡ ok reply)
    × (reply.status ≡ 200)
    × (reply.content ≡ ok content)
    × (is_empty content ≡ false)
unfolding tested
fetch-ok_example =
    fetch-ok http (λ attempt. none) 4 (tested (config_of (bytes "a"))) content fetch_runs

abbrev real : OfficialSource
unfolding new_official_source
real = new_official_source (config_of (bytes "a"))

checked_lately : IsFresh (fetch http (λ attempt. none) 4 (tested (config_of (bytes "a")))).1 9
unfolding fetch fetch_attempts fetch_once fetch_direct exchange has_prefix bytes_eq is_empty
    set_test_mode new_official_source
checked_lately = (omega arith, omega arith)

is_healthy-fetch_example :
    is_healthy http 9 9 (fetch http (λ attempt. none) 4 (tested (config_of (bytes "a")))).1 ≡ (
      found_healthy (fetch http (λ attempt. none) 4 (tested (config_of (bytes "a")))).0 true,
      (fetch http (λ attempt. none) 4 (tested (config_of (bytes "a")))).1,
      [],
    )
unfolding tested
is_healthy-fetch_example =
    is_healthy-fetch http (λ attempt. none) 4 9 9 (tested (config_of (bytes "a"))) checked_lately
